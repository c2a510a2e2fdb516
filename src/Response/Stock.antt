-- ===== src/Response/Stock.antt =====
-- What the stock responses put into their message.
use http_router.Base.{◌≡◌, ◌≢◌, refl, ◌∙◌, some, Bytes, codes, ◌>>=◌, Bool-cases, inl, inr}
use http_router.Beast.{Beast, IsBeast, Field, content_type, connection, location, Status}
use http_router.Response.{
  Response, Message, string_body, stock_page, moved_text, unset, message_of, connected, set, result,
  send, stock_response, moved,
}

module _ (b : Beast) (laws : IsBeast b) where
  pub get-connected :
      (f : Field) (h : b.Header) → f ≢ connection → b.get f (connected b h) ≡ b.get f h
  get-connected f h ne = elim (Bool-cases (b.keep_alive h)) [
    | inl e ↦ rw e (laws.get-set_other f connection (codes "keep-alive") h ne)
    | inr e ↦ rw e refl
  ]

  pub result_int-connected : (h : b.Header) → b.result_int (connected b h) ≡ b.result_int h
  result_int-connected h = elim (Bool-cases (b.keep_alive h)) [
    | inl e ↦ rw e (laws.result_int-set connection (codes "keep-alive") h)
    | inr e ↦ rw e refl
  ]

  module _ (Out : Type 0) where
    -- A message with a stock page
    pub record IsStock (st : Status) (msg : Bytes) (m : Message b) : Type 0 where
      pub status : b.result_int m.header ≡ st
      pub type : b.get content_type m.header ≡ some (codes "text/html; charset=UTF-8")
      pub page : m.body ≡ string_body (stock_page st (b.obsolete_reason st) msg)

    stock_response-IsStock :
        (st : Status) (msg : Bytes) (resp : Response b Out)
        → (m : Message b) × (after : b.Header) × (stock_response b Out st msg resp
            ≡ resp.sender resp.req m resp.out
              >>= (λ out. some (record resp { header = after; out = out })))
          × IsStock st msg m
          × ((f : Field)
              → f ≢ content_type
              → f ≢ connection
              → b.get f m.header ≡ b.get f resp.header)
    unfolding stock_response send
    stock_response-IsStock st msg resp =
        let stocked =
          set b Out content_type (codes "text/html; charset=UTF-8") (result b Out st resp) in
        (
          message_of b (string_body (stock_page st (b.obsolete_reason st) msg)) unset
              stocked.header,
          b.moved (connected b stocked.header),
          refl,
          record {
            status =
                laws.result_int-prepare_payload _ _
                ∙ result_int-connected _
                ∙ laws.result_int-set _ _ _
                ∙ laws.result_int-result st resp.header;
            type =
                laws.get-prepare_payload content_type _ _
                ∙ get-connected content_type _ (λ e. cc)
                ∙ laws.get-set content_type (codes "text/html; charset=UTF-8") _;
            page = refl;
          },
          (λ f h k.
              laws.get-prepare_payload f _ _
              ∙ get-connected f _ k
              ∙ laws.get-set_other f content_type _ _ h
              ∙ laws.get-result f st resp.header),
        )

    -- A redirection is one message for the request at hand, with the status that was asked for, an
    -- HTML page with a link to the target, and the target in its `Location`.
    pub moved-IsStock :
        (st : Status) (target : Bytes) (resp : Response b Out)
        → (m : Message b) × (after : b.Header) × (moved b Out st target resp
            ≡ resp.sender resp.req m resp.out
              >>= (λ out. some (record resp { header = after; out = out })))
          × IsStock st (moved_text target) m
          × (b.get location m.header ≡ some target)
    unfolding moved
    moved-IsStock st target resp =
        let (m, after, sends, is, others) =
          stock_response-IsStock st (moved_text target) (set b Out location target resp) in
        (
          m,
          after,
          sends,
          is,
          others location (λ e. cc) (λ e. cc) ∙ laws.get-set location target resp.header,
        )

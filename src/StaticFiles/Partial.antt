-- ===== src/StaticFiles/Partial.antt =====
-- What is sent of a file for a range.
use http_router.Base.{
  ℕ, ◌+◌, ◌-◌, ◌<◌, ◌≡◌, refl, sym, ap, subst, ◌∙◌, Bool, false, not, ◌&&◌, Option, none, some,
  List, ◌∷◌, ◌++◌, arith, Bytes, codes, equal, if◌then◌else◌, ◌>>=◌, Bool-cases, inl, inr, word,
  add64,
}
use mathlib.Core.Option.{some-injective}
use http_router.Beast.{Beast, IsBeast, range, connection, content_range, content_type}
use http_router.Range.{Range, present, request_ranges}
use http_router.Range.Bounds.{IsAnswer, IsWithin, parse_byte_ranges-IsAnswer}
use http_router.Response.{
  decimal, Response, Message, file_body, is_set, send, result, set, connected, message_of,
}
use http_router.Response.Stock.{get-connected, result_int-connected}
use http_router.Filters.{finished}
use http_router.PathCompiler.Matcher.{Engine}
use http_router.StaticFiles.{
  FileSystem, deliver, answer_range, open_file, get_file, done, content_length, satisfied,
  range_size,
}
use http_router.MimeTypes.{mime_type}
use http_router.StaticFiles.Described.{IsDescribable, described-total, get-described}
use http_router.StaticFiles.Answers.{open_file_lem}

request_ranges-IsAnswer :
    (size : ℕ) (field : Option Bytes) (r : Range) (rs : List Range)
    → 0 < size
    → size < word
    → request_ranges size field ≡ some (present, r ∷ rs)
    → IsWithin size r
unfolding request_ranges
request_ranges-IsAnswer size none r rs h k e = cc
request_ranges-IsAnswer size (some header) r rs h k e =
    let (answer, f, is) = parse_byte_ranges-IsAnswer size header h k in
    (subst (IsAnswer size) (some-injective _ _ (sym f ∙ e)) is).1.0

module _ (b : Beast) (laws : IsBeast b) (engine : Engine) (fs : FileSystem b) (Out : Type 0) where
  get_content_length-connected :
      (h : b.Header) → b.get_content_length (connected b h) ≡ b.get_content_length h
  get_content_length-connected h = elim (Bool-cases (b.keep_alive h)) [
    | inl e ↦ rw e (laws.get_content_length-set connection (codes "keep-alive") h)
    | inr e ↦ rw e refl
  ]

  -- A part of a file: the range inside the file, and the message for it
  pub record IsPart (path : Bytes) (body : b.File) (r : Range) (m : Message b) : Type 0 where
    pub within : IsWithin (b.size body) r
    pub type : b.get content_type m.header ≡ mime_type (fs.behind path) path
    pub status : b.result_int m.header ≡ 206
    pub range_text :
        b.get content_range m.header
        ≡ some (
            codes "bytes "
            ++ (decimal r.start ++ (b'-' ∷ (decimal r.end ++ (b'/' ∷ decimal (b.size body))))))
    pub length : b.get_content_length m.header ≡ some (r.end - r.start + 1)
    pub part : m.body ≡ file_body (b.fragment r.start (r.end + 1) body)

  -- The response of a part, as far as it is not sent
  abbrev ranged : b.File → Range → Response b Out → Response b Out
  ranged body r resp =
      content_length b fs Out (range_size b fs r)
        (set b Out content_range (satisfied b fs r (b.size body)) (result b Out 206 resp))

  part_of : b.File → Range → b.Header → Message b
  part_of body r header =
      message_of b (file_body (b.fragment r.start (add64 r.end 1) body)) is_set header

  done_bind :
      (o : Option Out) (resp : Response b Out) (after : b.Header)
      → done b fs Out (o >>= (λ out. some (record resp { header = after; out = out })))
        ≡ o >>= (λ out. some (finished, record resp { header = after; out = out }))
  done_bind none resp after = refl
  done_bind (some out) resp after = refl

  sized :
      (size : ℕ) (r : Range)
      → size < word
      → IsWithin size r
      → range_size b fs r ≡ r.end - r.start + 1
  sized size r fits h = omega (arith, fits, h.ordered, h.inside)

  next_place : (size : ℕ) (r : Range) → size < word → IsWithin size r → add64 r.end 1 ≡ r.end + 1
  next_place size r fits h = omega (arith, fits, h.inside)

  part_of-IsPart :
      (body : b.File) (path : Bytes) (r : Range) (resp : Response b Out)
      → b.get content_type resp.header ≡ mime_type (fs.behind path) path
      → b.size body < word
      → IsWithin (b.size body) r
      → IsPart path body r (part_of body r (ranged body r resp).header)
  unfolding part_of
  part_of-IsPart body path r resp e fits h = record {
    within = h;
    type =
        get-connected b laws content_type _ (λ e. cc)
        ∙ laws.get-content_length content_type (range_size b fs r) _
        ∙ laws.get-set_other content_type content_range (satisfied b fs r (b.size body)) _ (λ e. cc)
        ∙ laws.get-result content_type 206 _
        ∙ e;
    status =
        result_int-connected b laws _
        ∙ laws.result_int-content_length (range_size b fs r) _
        ∙ laws.result_int-set content_range (satisfied b fs r (b.size body)) _
        ∙ laws.result_int-result 206 _;
    range_text =
        get-connected b laws content_range _ (λ e. cc)
        ∙ laws.get-content_length content_range (range_size b fs r) _
        ∙ laws.get-set content_range (satisfied b fs r (b.size body)) _;
    length =
        get_content_length-connected _
        ∙ laws.get_content_length-content_length (range_size b fs r) _
        ∙ ap some (sized (b.size body) r fits h);
    part = ap (λ n. file_body (b.fragment r.start n body)) (next_place (b.size body) r fits h);
  }

  else_of : {A : Type 0} (c : Bool) (x y : A) → c ≡ false → (if c then x else y) ≡ y
  else_of c x y e = rw e refl

  last_of :
      {A : Type 0} (c d : Bool) (x y z : A)
      → c ≡ false
      → d ≡ false
      → (if c then x else if d then y else z) ≡ z
  last_of c d x y z e f = rw (e, f) refl

  is_get :
      (method : Bytes)
      → method ≡ codes "GET"
      → (not (equal method (codes "GET")) && not (equal method (codes "HEAD")) ≡ false)
        × (equal method (codes "HEAD") ≡ false)
  unfolding equal
  is_get method e = rw e (refl, refl)

  get_file-open :
      (path : Bytes) (resp : Response b Out)
      → fs.is_directory path ≡ false
      → resp.req.req.method ≡ codes "GET"
      → get_file b fs Out path resp ≡ open_file b fs Out path (fs.open_scan path) resp
  unfolding get_file
  get_file-open path resp e f = last_of _ _ _ _ _ e (is_get resp.req.req.method f).0

  send_lem :
      (body : b.File) (r : Range) (resp : Response b Out)
      → send b Out (file_body (b.fragment r.start (add64 r.end 1) body)) is_set resp
        ≡ resp.sender resp.req (part_of body r resp.header) resp.out
          >>= (λ out. some (record resp { header = b.moved (connected b resp.header); out = out }))
  unfolding send part_of
  send_lem body r resp = refl

  answer_part :
      (body : b.File) (path : Bytes) (r : Range) (rs : List Range) (resp : Response b Out)
      → resp.req.req.method ≡ codes "GET"
      → answer_range b fs Out body path (present, r ∷ rs) resp
        ≡ send b Out
            (file_body (b.fragment r.start (add64 r.end 1) body))
            is_set
            (ranged body r resp)
  unfolding answer_range deliver
  answer_part body path r rs resp e = else_of _ _ _ (is_get resp.req.req.method e).1

  -- A GET request for a file that opens and is not empty, with ranges that the parser accepts, is
  -- answered with one message: 206, the first range and the size of the file in
  -- `Content-Range`, the type of the file by its name in `Content-Type`, and as its body and its `Content-Length` the bytes of that range, which lies
  -- inside the file; whatever the date that the request has. The fields of the file can be set: the four
  -- bytes that are read of its extension, if it has one, are in memory, as of three letters or more they
  -- always are; and the present time and that of the file are in the years from 1900 to 9999.
  pub get_file-IsPart :
      (path : Bytes) (resp : Response b Out) (body : b.File) (r : Range) (rs : List Range)
      → IsDescribable b fs path
      → fs.is_directory path ≡ false
      → resp.req.req.method ≡ codes "GET"
      → fs.open_scan path ≡ some body
      → 0 < b.size body
      → b.size body < word
      → request_ranges (b.size body) (resp.req.req.find range) ≡ some (present, r ∷ rs)
      → (m : Message b) × (after : b.Header) × (get_file b fs Out path resp
          ≡ resp.sender resp.req m resp.out
            >>= (λ out. some (finished, record resp { header = after; out = out })))
        × IsPart path body r m
  get_file-IsPart path resp body r rs is file get opens some_byte fits ranges =
      let (header, e) = described-total b fs path resp.header is in
      let resp' : Response b Out = record resp { header = header } in
      (
        part_of body r (ranged body r resp').header,
        b.moved (connected b (ranged body r resp').header),
        get_file-open path resp file get
            ∙ ap (λ o. open_file b fs Out path o resp) opens
            ∙ open_file_lem b engine fs Out path body resp (present, r ∷ rs) header ranges e
            ∙ ap (done b fs Out)
                (answer_part body path r rs resp' get ∙ send_lem body r (ranged body r resp'))
            ∙ done_bind _ resp' _,
        part_of-IsPart body path r resp' (get-described b fs laws path resp.header header e) fits (
            request_ranges-IsAnswer (b.size body) (resp.req.req.find range) r rs some_byte fits
              ranges),
      )

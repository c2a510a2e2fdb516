-- ===== src/Router/Answers/Requests.antt =====
-- That `handle_request` answers every request once.
use http_router.Base.{
  ℕ, ◌≡◌, inl, inr, refl, ap, sym, subst, ◌∙◌, true, false, Option, some, [], ◌∷◌, arith, Bytes,
  codes, Bool-cases, All,
}
use http_router.Beast.{Beast}
use http_router.Response.{Response, bad_request}
use http_router.Filters.{Filtering, carry_on, finished, Filter, supports_pre}
use http_router.PathCompiler.Matcher.{Engine}
use http_router.Router.{
  is_illegal, prefixes, FilterList, Router, preprocess, dispatch, unless_finished, handle_path,
  handle_request,
}
use http_router.Router.Prefixes.{prefixes-IsUnder}
use http_router.Router.Answers.{
  Takes, Calls, Sends, IsAnswered, answers, AnswersFilter, AnswersRouter, stock_response-answers,
  dispatch-answers,
}

module _ (b : Beast) (engine : Engine) (Out : Type 0) where
  Takes-Sends :
      (n : ℕ) (resp resp' : Response b Out)
      → Sends b engine Out n resp resp'
      → Takes b engine Out resp
      → Takes b engine Out resp'
  Takes-Sends n resp resp' s takes msg out =
      let (out', e) = takes msg out in
      (
        out',
        ap (λ r. r resp'.req msg out) s.same_sender
            ∙ ap (λ r. resp.sender r msg out) s.same_req
            ∙ e,
      )

  Sends-after :
      (n : ℕ) (a c d : Response b Out)
      → Sends b engine Out 0 a c
      → Sends b engine Out n c d
      → Sends b engine Out n a d
  Sends-after n a c d h k = record {
    same_sender = k.same_sender ∙ h.same_sender;
    same_req = k.same_req ∙ h.same_req;
    calls =
        subst (λ o. Calls b engine Out a.sender a.req n o d.out) (sym h.calls)
          (subst (λ r. Calls b engine Out a.sender r n c.out d.out) h.same_req
            (subst (λ s. Calls b engine Out s c.req n c.out d.out) h.same_sender k.calls));
  }

  Sends-refl : (resp : Response b Out) → Sends b engine Out 0 resp resp
  Sends-refl resp = record { same_sender = refl; same_req = refl; calls = refl }

  abbrev IsPreprocessed : Response b Out → Option (Filtering × Response b Out) → Type 0
  IsPreprocessed resp after =
      (done : Filtering) × (resp' : Response b Out) × (after ≡ some (done, resp'))
      × Sends b engine Out (answers b engine Out done) resp resp'

  -- One filter that covers the path, and the rest
  preprocess_one :
      (filter : Filter b Out) (prefix : Bytes) (rest : FilterList b engine Out) (s : Bytes)
      (resp : Response b Out) (done : Filtering) (resp' : Response b Out)
      → supports_pre b Out filter ≡ true
      → prefixes prefix (b'/' ∷ s) ≡ some true
      → filter.preproc resp prefix ≡ some (done, resp')
      → Sends b engine Out (answers b engine Out done) resp resp'
      → IsPreprocessed resp' (preprocess b engine Out rest (b'/' ∷ s) resp')
      → IsPreprocessed resp (preprocess b engine Out ((prefix, filter) ∷ rest) (b'/' ∷ s) resp)
  unfolding preprocess
  preprocess_one filter prefix rest s resp finished resp' e f g h more =
      (finished, resp', rw (e, f, g, preprocess) refl, h)
  preprocess_one filter prefix rest s resp carry_on resp' e f g h (done, last, ran, k) = (
    done,
    last,
    rw (e, f, g, preprocess) ran,
    Sends-after (answers b engine Out done) resp resp' last h k,
  )

  preprocess-answers :
      (filters : FilterList b engine Out) (s : Bytes) (resp : Response b Out)
      → All (λ (prefix, f). AnswersFilter b engine Out prefix f) filters
      → Takes b engine Out resp
      → resp.req.decoded_path ≡ b'/' ∷ s
      → IsPreprocessed resp (preprocess b engine Out filters (b'/' ∷ s) resp)
  unfolding preprocess
  preprocess-answers [] s resp h takes root = (carry_on, resp, refl, Sends-refl resp)
  preprocess-answers ((prefix, filter) ∷ filters) s resp h takes root =
      elim (Bool-cases (supports_pre b Out filter)) [
        | inr e ↦ rw (e, preprocess) (preprocess-answers filters s resp h.1 takes root)
        | inl e ↦
            let (covered, f, under) = prefixes-IsUnder prefix s in
            elim (Bool-cases covered) [
              | inr n ↦ rw (e, f, n, preprocess) (preprocess-answers filters s resp h.1 takes root)
              | inl y ↦
                  let (done, resp', g, k) = h.0.preprocessed resp s takes root (f ∙ ap some y) in
                  preprocess_one filter prefix filters s resp done resp' e (f ∙ ap some y) g k (
                    preprocess-answers filters s resp' h.1
                      (Takes-Sends (answers b engine Out done) resp resp' k takes)
                      (ap (λ r. r.decoded_path) k.same_req ∙ root))
            ]
      ]

  answer_filters :
      (done : Filtering) (resp resp' : Response b Out)
      (more : Response b Out → Option (Response b Out))
      → Takes b engine Out resp'
      → Sends b engine Out (answers b engine Out done) resp resp'
      → (Takes b engine Out resp' → IsAnswered b engine Out 1 resp' (more resp'))
      → IsAnswered b engine Out 1 resp (unless_finished b engine Out more (done, resp'))
  answer_filters finished resp resp' more takes h k = (resp', refl, h)
  answer_filters carry_on resp resp' more takes h k =
      let (last, e, l) = k takes in (last, e, Sends-after 1 resp resp' last h l)

  handle_path-legal :
      (router : Router b engine Out) (s : Bytes) (resp : Response b Out) (done : Filtering)
      (resp' : Response b Out)
      → is_illegal (b'/' ∷ s) ≡ false
      → preprocess b engine Out router.filters (b'/' ∷ s) resp ≡ some (done, resp')
      → handle_path b engine Out router (b'/' ∷ s) resp
        ≡ unless_finished b engine Out
            (dispatch b engine Out router.routes resp.req.req.method (b'/' ∷ s))
            (done, resp')
  unfolding handle_path
  handle_path-legal router s resp done resp' legal e = rw (legal, e, handle_path) refl

  handle_path-illegal :
      (router : Router b engine Out) (resource : Bytes) (resp : Response b Out)
      → is_illegal resource ≡ true
      → handle_path b engine Out router resource resp
        ≡ bad_request b Out (codes "Illegal resource path") resp
  unfolding handle_path
  handle_path-illegal router resource resp e = rw (e, handle_path) refl

  is_illegal-nil : is_illegal [] ≡ true
  unfolding is_illegal
  is_illegal-nil = refl

  is_illegal-slash : (c : ℕ) (s : Bytes) → is_illegal (c ∷ s) ≡ false → c ≡ b'/'
  unfolding is_illegal
  is_illegal-slash c s e = ground arith

  handle_path-answers :
      (router : Router b engine Out) (resource : Bytes) (resp : Response b Out)
      → AnswersRouter b engine Out router
      → Takes b engine Out resp
      → resp.req.decoded_path ≡ resource
      → IsAnswered b engine Out 1 resp (handle_path b engine Out router resource resp)
  handle_path-answers router resource resp h takes root = elim (Bool-cases (is_illegal resource)) [
    | inl e ↦
        subst (IsAnswered b engine Out 1 resp) (sym (handle_path-illegal router resource resp e))
          (stock_response-answers b engine Out 400 (codes "Illegal resource path") resp takes)
    | inr e ↦ legal resource root e
  ]
    where
      at_slash :
          (s : Bytes)
          → resp.req.decoded_path ≡ b'/' ∷ s
          → is_illegal (b'/' ∷ s) ≡ false
          → IsAnswered b engine Out 1 resp (handle_path b engine Out router (b'/' ∷ s) resp)
      at_slash s root e =
          let (done, resp', ran, k) =
            preprocess-answers router.filters s resp h.filters_answer takes root in
          subst (IsAnswered b engine Out 1 resp)
            (sym (handle_path-legal router s resp done resp' e ran))
            (answer_filters done resp resp'
              (dispatch b engine Out router.routes resp.req.req.method (b'/' ∷ s))
              (Takes-Sends (answers b engine Out done) resp resp' k takes) k
              (dispatch-answers b engine Out router.routes resp.req.req.method (b'/' ∷ s) resp'
                h.routes_answer))

      legal :
          (resource : Bytes)
          → resp.req.decoded_path ≡ resource
          → is_illegal resource ≡ false
          → IsAnswered b engine Out 1 resp (handle_path b engine Out router resource resp)
      legal [] root e = cc (is_illegal-nil)
      legal (c ∷ s) root e =
          let slash = is_illegal-slash c s e in
          subst (λ c. IsAnswered b engine Out 1 resp (handle_path b engine Out router (c ∷ s) resp))
            (sym slash)
            (at_slash s (root ∙ ap (λ c. c ∷ s) slash)
              (subst (λ c. is_illegal (c ∷ s) ≡ false) slash e))

  -- Every request is answered exactly once: whatever its path and method, and whichever filters and
  -- routes there are, `handle_request` ends without a fault, and it has called the sender once, with
  -- a message for the same request. What is relied on is that the sender takes the request's
  -- messages, that each filter, for the paths under its prefix, calls it once where it finishes and never
  -- where it carries on, and
  -- that each callback calls it once; a route without a callback needs nothing.
  pub handle_request-answers :
      (router : Router b engine Out) (resp : Response b Out)
      → AnswersRouter b engine Out router
      → Takes b engine Out resp
      → IsAnswered b engine Out 1 resp (handle_request b engine Out router resp)
  handle_request-answers router resp h takes =
      handle_path-answers router resp.req.decoded_path resp h takes refl

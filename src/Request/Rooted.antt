-- ===== src/Request/Rooted.antt =====
-- The path of a request whose target begins with a slash.
use http_router.Base.{
  ℕ, zero, suc, ◌≤◌, ◌<◌, ◌≡◌, refl, sym, ap, subst, ◌∙◌, some, [], ◌∷◌, ◌++◌, arith, Bytes, length,
  take, drop, word, ◌>>=◌,
}
use http_router.Uri.Target.{split, find_query}
use http_router.Uri.Escape.{read_ch, decoded_path}
use http_router.Uri.Escape.Decoded.{decoded, urldecode_impl-decoded}
use http_router.Request.{BeastRequest, Request, make_request, with_path}

length-take : (n : ℕ) (s : Bytes) → length (take n s) ≤ length s
length-take zero s = omega arith
length-take (suc n) [] = omega arith
length-take (suc n) (c ∷ s) = omega (arith, length-take n s)

rooted_path : (t : Bytes) → (s : Bytes) × ((split (b'/' ∷ t)).0 ≡ b'/' ∷ s) × (length s ≤ length t)
unfolding split find_query
rooted_path t = (take (find_query t) t, refl, length-take (find_query t) t)

decoded_path-rooted :
    (s after : Bytes)
    → length (b'/' ∷ s) < word
    → decoded_path (b'/' ∷ s) after ≡ some (decoded read_ch (b'/' ∷ s))
decoded_path-rooted s after h = urldecode_impl-decoded read_ch (b'/' ∷ s) after h (λ e. cc)

decoded-slash : (s : Bytes) → (t : Bytes) × (decoded read_ch (b'/' ∷ s) ≡ b'/' ∷ t)
unfolding decoded
decoded-slash [] = ([], refl)
decoded-slash (a ∷ []) = (_, refl)
decoded-slash (a ∷ d ∷ s) = (_, refl)

decoded_path-at :
    (p s after : Bytes)
    → p ≡ b'/' ∷ s
    → length p < word
    → (decoded_path p after ≡ some (decoded read_ch p))
      × ((t : Bytes) × (decoded read_ch p ≡ b'/' ∷ t))
decoded_path-at p s after e =
    subst
      (λ p.
        length p < word
        → (decoded_path p after ≡ some (decoded read_ch p))
          × ((t : Bytes) × (decoded read_ch p ≡ b'/' ∷ t)))
      (sym e) (λ h. (decoded_path-rooted s after h, decoded-slash s))

path_of :
    (target t : Bytes)
    → target ≡ b'/' ∷ t
    → length target < word
    → (s : Bytes) × ((split target).0 ≡ b'/' ∷ s) × (length (split target).0 < word)
path_of target t e h =
    let (s, same, short) = rooted_path t in
    let at = ap (λ target. (split target).0) e ∙ same in
    (s, at, omega (arith, ap length at, ap length e, short, h))

-- A request whose target begins with a slash can be made of what was read, whatever stands behind the
-- target in memory. Its decoded path is the reference decoding of its path, and begins with a
-- slash too.
pub make_request_rooted :
    (req : BeastRequest) (remote after t : Bytes)
    → req.target ≡ b'/' ∷ t
    → length req.target < word
    → (request : Request) × (make_request req remote after ≡ some request)
      × (request.decoded_path ≡ decoded (λ c. c) request.path)
      × ((s : Bytes) × (request.decoded_path ≡ b'/' ∷ s))
unfolding make_request
make_request_rooted req remote after t e h =
    let (s, at, short) = path_of req.target t e h in
    let path = (split req.target).0 in
    let (read, slash) = decoded_path-at path s (drop (length path) req.target ++ after) at short in
    (
      with_path req remote (split req.target) (decoded read_ch path),
      ap (λ o. o >>= (λ d. some (with_path req remote (split req.target) d))) read,
      refl,
      slash,
    )

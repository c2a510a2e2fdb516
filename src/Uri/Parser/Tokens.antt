-- ===== src/Uri/Parser/Tokens.antt =====
-- What `query_parser` reads between two stops, and how it is decoded in place.
use http_router.Base.{
  ℕ, ◌-◌, ◌<◌, ◌≡◌, refl, ap, ◌∙◌, ◌≢◌, ◌⊎◌, inl, inr, Bool, true, false, some, [], ◌∷◌, ◌++◌,
  arith, Bytes, length, length-append, append_assoc, ◌==◌, Free, isxdigit, word, Bool-cases, ==_iff,
}
use http_router.Uri.Escape.{query_read_ch, urldecode_impl}
use http_router.Uri.Escape.Decoded.{decoded, urldecode_impl-decoded, urldecode_impl_lone}
use http_router.Uri.Parser.{is_amp, is_separator, look_for, token}

abbrev pub query_decoded : Bytes → Bytes
query_decoded = decoded query_read_ch

-- Memory that goes on with no hexadecimal digit.
abbrev pub IsBounded : Bytes → Type 0
IsBounded [] = ⊥
IsBounded (a ∷ m) = isxdigit a ≡ false

pub lone-cases : (s : Bytes) → (s ≡ b'%' ∷ []) ⊎ (s ≢ b'%' ∷ [])
lone-cases [] = inr (λ e. cc)
lone-cases (c ∷ []) = elim (Bool-cases (c == b'%')) [
  | inl k ↦ inl (ap (λ d. d ∷ []) ((==_iff c b'%').0 k))
  | inr k ↦ inr (λ e. ground arith)
]
lone-cases (c ∷ d ∷ s) = inr (λ e. cc)

pub lone-IsBounded :
    (read : ℕ → ℕ) (after : Bytes)
    → IsBounded after
    → urldecode_impl read (b'%' ∷ after) 1 ≡ some (read b'%' ∷ [])
lone-IsBounded read [] h = absurd h
lone-IsBounded read (a ∷ []) h = (urldecode_impl_lone read a 0 []).1 ∙ ground arith
lone-IsBounded read (a ∷ b ∷ after) h = (urldecode_impl_lone read a b after).2 ∙ ground arith

-- The text alone is decoded, if what stands behind it is no hexadecimal digit.
pub urldecode_impl-decoded_bounded :
    (read : ℕ → ℕ) (s after : Bytes)
    → length s < word
    → IsBounded after
    → urldecode_impl read (s ++ after) (length s) ≡ some (decoded read s)
urldecode_impl-decoded_bounded read s after fits h = elim (lone-cases s) [
  | inl e ↦ rw e (lone-IsBounded read after h ∙ unfold decoded in refl)
  | inr ne ↦ urldecode_impl-decoded read s after fits ne
]

-- What the parser finds at `it`: a token free of the stops, and behind it the end or a stop.
abbrev pub Stops : (ℕ → Bool) → Bytes → Type 0
Stops stops [] = Unit {0}
Stops stops (c ∷ s) = stops c ≡ true

pub look_for_stop :
    (stops : ℕ → Bool) (tok rest : Bytes)
    → Free stops tok
    → Stops stops rest
    → look_for stops (tok ++ rest) ≡ rest
unfolding look_for
look_for_stop stops [] [] h k = refl
look_for_stop stops [] (c ∷ rest) h k = rw k
look_for_stop stops (c ∷ tok) rest h k = rw (h.0) (look_for_stop stops tok rest h.1 k)

pub token-decoded :
    (tok rest after : Bytes)
    → length tok < word
    → IsBounded (rest ++ after)
    → token after (tok ++ rest) rest ≡ some (query_decoded tok)
token-decoded tok rest after fits h =
    rw (append_assoc tok rest after, cut_length)
      (urldecode_impl-decoded_bounded query_read_ch tok (rest ++ after) fits h)
  where
    cut_length : length (tok ++ rest) - length rest ≡ length tok
    cut_length = omega (arith, length-append tok rest)

pub Stops-IsBounded :
    (rest after : Bytes) → Stops is_separator rest → IsBounded after → IsBounded (rest ++ after)
unfolding isxdigit
Stops-IsBounded [] after k h = h
Stops-IsBounded (c ∷ rest) after k h = ground arith

pub amp-separator : (rest : Bytes) → Stops is_amp rest → Stops is_separator rest
amp-separator [] h = tt
amp-separator (c ∷ rest) h = ground arith

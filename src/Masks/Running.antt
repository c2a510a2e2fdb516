-- ===== src/Masks/Running.antt =====
-- What the expression of the pieces matches.
use http_router.Base.{
  ℕ, zero, suc, ◌+◌, ◌-◌, ◌<◌, ◌≡◌, refl, sym, ap, ◌∙◌, Bool, true, false, Option, none, some, List,
  [], ◌∷◌, ◌++◌, arith, Bytes, length, length-append, take, take-append, append_assoc, ◌==◌,
  if◌then◌else◌, ◌>>=◌, Bool-cases, inl, inr,
}
use http_router.Regex.Syntax.{Re, nothing, chr, set, capture, join, repeat}
use http_router.Regex.{Caps, Next, or_try, rounds, run, at_end}
use http_router.Masks.Pieces.{
  Piece, literal, parameter, prefix_of, stop_of, strip_prefix, is_left, first_some, with_value,
  value_of, fit,
}

abbrev pub byte_of : ℕ → Re
byte_of stop = set true (stop ∷ [])

abbrev pub value_re : ℕ → Re
value_re stop = join (join (repeat true true true (byte_of stop)) nothing) nothing

abbrev pub bytes_re : Bytes → Re → Re
bytes_re [] re = re
bytes_re (c ∷ s) re = join (chr c) (bytes_re s re)

-- The expression of the pieces, behind so many groups
unfoldable pub pieces_re : ℕ → List Piece → Re → Re
pieces_re n [] end = end
pieces_re n (literal s ∷ ps) end = bytes_re s (pieces_re n ps end)
pieces_re n (parameter name sep partial ∷ ps) end =
    bytes_re (prefix_of sep)
      (join (capture (suc n) (value_re (stop_of sep))) (pieces_re (suc n) ps end))

-- The submatches of the values, behind so many groups
abbrev pub added : ℕ → List Bytes → Caps → Caps
added n [] caps = caps
added n (v ∷ vs) caps = added (suc n) vs ((suc n, v) ∷ caps)

abbrev pub found : ℕ → Option (List Bytes) → Caps → Option Caps
found n none caps = none
found n (some vs) caps = some (added n vs caps)

found-first_some :
    (n : ℕ) (o o' : Option (List Bytes)) (caps : Caps)
    → or_try (found n o caps) (found n o' caps) ≡ found n (first_some o o') caps
found-first_some n none o' caps = refl
found-first_some n (some vs) o' caps = refl

found-with_value :
    (n : ℕ) (v : Bytes) (o : Option (List Bytes)) (caps : Caps)
    → found (suc n) o ((suc n, v) ∷ caps) ≡ found n (with_value v o) caps
found-with_value n v none caps = refl
found-with_value n v (some vs) caps = refl

run-bytes_re :
    (t : Bytes) (re : Re) (p : ℕ) (s : Bytes) (caps : Caps) (next : Next) (o : Bytes → Option Caps)
    → ((q : ℕ) (u : Bytes) → run false re q u caps next ≡ o u)
    → run false (bytes_re t re) p s caps next ≡ strip_prefix t s >>= o
unfolding run
run-bytes_re [] re p s caps next o h = h p s
run-bytes_re (x ∷ t) re p [] caps next o h = refl
run-bytes_re (x ∷ t) re p (c ∷ s) caps next o h = elim (Bool-cases (x == c)) [
  | inl e ↦ rw e (run-bytes_re t re (suc p) s caps next o h)
  | inr e ↦ rw e refl
]

not_same : (q : ℕ) → (suc q == q) ≡ false
not_same q = ground arith

-- A parameter whose group has the number behind `n`, and what stands behind it
module _ (n stop start : ℕ) (text : Bytes) (more : Bytes → Option (List Bytes)) (rest : Re)
    (ih : (q : ℕ) (u : Bytes) (caps : Caps)
      → run false rest q u caps at_end ≡ found (suc n) (more u) caps) where
  -- Behind the value: the group takes what was read of the text.
  abbrev behind : Next
  behind q u caps = run false rest q u ((suc n, take (q - start) text) ∷ caps) at_end

  behind_lem :
      (taken u : Bytes) (q : ℕ) (caps : Caps)
      → text ≡ taken ++ u
      → q ≡ start + length taken
      → behind q u caps ≡ found n (with_value taken (more u)) caps
  behind_lem taken u q caps e f =
      ap (λ v. run false rest q u ((suc n, v) ∷ caps) at_end)
        (ap (λ k. take k text) (omega (arith, f))
          ∙ ap (take (length taken)) e
          ∙ take-append taken u)
      ∙ ih q u ((suc n, taken) ∷ caps)
      ∙ found-with_value n taken (more u) caps

  rounds_lem :
      (u taken : Bytes) (q fuel : ℕ) (caps : Caps)
      → text ≡ taken ++ u
      → q ≡ start + length taken
      → length u < fuel
      → rounds (run false (byte_of stop)) true fuel q u caps behind
        ≡ found n (first_some (with_value taken (more u)) (value_of stop more taken u)) caps
  unfolding rounds value_of run
  rounds_lem u taken q zero caps e f h = absurd (omega arith)
  rounds_lem [] taken q (suc fuel) caps e f h =
      ap (λ o. or_try o none) (behind_lem taken [] q caps e f)
      ∙ found-first_some n (with_value taken (more [])) none caps
  rounds_lem (c ∷ u) taken q (suc fuel) caps e f h = elim (Bool-cases (stop == c)) [
    | inl ends ↦ rw ends (
        ap (λ o. or_try o none) (behind_lem taken (c ∷ u) q caps e f)
        ∙ found-first_some n (with_value taken (more (c ∷ u))) none caps)
    | inr goes ↦
        rw (goes, not_same q)
          (ap (λ o. or_try o (rounds (run false (byte_of stop)) true fuel (suc q) u caps behind))
              (behind_lem taken (c ∷ u) q caps e f)
            ∙ ap (or_try (found n (with_value taken (more (c ∷ u))) caps)) (
                rounds_lem u (taken ++ (c ∷ [])) (suc q) fuel caps
                  (e ∙ sym (append_assoc taken (c ∷ []) u))
                  (omega (arith, f, length-append taken (c ∷ []))) (omega (arith, h)))
            ∙ found-first_some n (with_value taken (more (c ∷ u))) _ caps)
  ]

  entered :
      (u : Bytes) (caps : Caps)
      → text ≡ u
      → run false
          (byte_of stop)
          start
          u
          caps
          (λ q t caps'. rounds (run false (byte_of stop)) true (suc (length t)) q t caps' behind)
        ≡ found n (value_of stop more [] u) caps
  unfolding value_of run
  entered [] caps e = refl
  entered (c ∷ u) caps e = elim (Bool-cases (stop == c)) [
    | inl ends ↦ rw ends refl
    | inr goes ↦
        rw goes
          (rounds_lem u (c ∷ []) (suc start) (suc (length u)) caps e (omega arith) (omega arith))
  ]

  -- The whole parameter: at least one byte
  parameter_lem :
      (caps : Caps)
      → run false (join (capture (suc n) (value_re stop)) rest) start text caps at_end
        ≡ found n (value_of stop more [] text) caps
  unfolding run
  parameter_lem caps = entered text caps refl

-- What is left behind the pieces
abbrev pub IsEnd : Bool → Re → Type 0
IsEnd strict end =
    (q : ℕ) (u : Bytes) (caps : Caps)
    → run false end q u caps at_end ≡ (if is_left strict u then some caps else none)

if_left :
    (n : ℕ) (left : Bool) (caps : Caps)
    → (if left then some caps else none) ≡ found n (if left then some [] else none) caps
if_left n true caps = refl
if_left n false caps = refl

found_bind :
    (n : ℕ) (o : Option Bytes) (k : Bytes → Option (List Bytes)) (caps : Caps)
    → o >>= (λ u. found n (k u) caps) ≡ found n (o >>= k) caps
found_bind n none k caps = refl
found_bind n (some u) k caps = refl

pub run-pieces_re :
    (strict : Bool) (end : Re)
    → IsEnd strict end
    → (ps : List Piece) (n q : ℕ) (u : Bytes) (caps : Caps)
    → run false (pieces_re n ps end) q u caps at_end ≡ found n (fit strict ps u) caps
unfolding pieces_re fit
run-pieces_re strict end h [] n q u caps = h q u caps ∙ if_left n (is_left strict u) caps
run-pieces_re strict end h (literal t ∷ ps) n q u caps =
    run-bytes_re t (pieces_re n ps end) q u caps at_end (λ v. found n (fit strict ps v) caps)
      (λ p v. run-pieces_re strict end h ps n p v caps)
    ∙ found_bind n (strip_prefix t u) (fit strict ps) caps
run-pieces_re strict end h (parameter name sep partial ∷ ps) n q u caps =
    run-bytes_re (prefix_of sep)
      (join (capture (suc n) (value_re (stop_of sep))) (pieces_re (suc n) ps end)) q u caps at_end
      (λ v. found n (value_of (stop_of sep) (fit strict ps) [] v) caps)
      (λ p v.
        parameter_lem n (stop_of sep) p v (fit strict ps) (pieces_re (suc n) ps end)
          (λ r w caps'. run-pieces_re strict end h ps (suc n) r w caps') caps)
    ∙ found_bind n (strip_prefix (prefix_of sep) u) (value_of (stop_of sep) (fit strict ps) []) caps

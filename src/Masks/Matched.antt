-- ===== src/Masks/Matched.antt =====
-- `matches` on the matcher of a plain mask.
use http_router.Base.{
  ℕ, suc, ◌+◌, ◌-◌, ◌*◌, ◌≤◌, ◌≡◌, refl, ap, ◌∙◌, Bool, false, Option, none, some, List, [], ◌∷◌,
  arith, Bytes, length,
}
use http_router.Regex.Syntax as Syntax
use http_router.Regex.Syntax.{
  Re, join, Parsed, joined, behind_sequence, alternatives_at, sequence_at, atom_at,
}
use http_router.Regex.{Caps, run, at_end, Regex, whole, compile, submatch, submatches, regex_match}
use http_router.Masks.Pieces.{Piece, fit}
use http_router.Masks.Running.{pieces_re, added, found, run-pieces_re}
use http_router.Masks.Reading.{
  pieces_text, fuel_of, groups, eight, Unquantified-pieces, sequence_at-atom, sequence_at-pieces,
}
use http_router.Masks.Compiled.{
  end_text, end_re, end_text-IsEndText, end_re-IsEnd, count, fuel_of-count, count-le,
}

-- The expression of a plain mask, from its first byte on
abbrev pub mask_text : List Piece → (strict end : Bool) → Bytes
mask_text ps strict end = b'^' ∷ pieces_text ps (end_text strict end)

abbrev pub mask_regex : List Piece → (strict end icase : Bool) → Regex
mask_regex ps strict end icase = record {
  icase = icase;
  re = join Syntax.begin (pieces_re 0 ps (end_re strict end));
  groups = groups 0 ps;
}

alternatives_at-mask :
    (ps : List Piece) (strict end : Bool) (f : ℕ)
    → alternatives_at (suc (suc (fuel_of ps (eight f)))) 0 (mask_text ps strict end)
      ≡ some (join Syntax.begin (pieces_re 0 ps (end_re strict end)), groups 0 ps, [])
unfolding alternatives_at
alternatives_at-mask ps strict end f =
    ap (behind_sequence (alternatives_at (suc (fuel_of ps (eight f))))) (
      sequence_at-atom (fuel_of ps (eight f)) 0 b'^' 0 (pieces_text ps (end_text strict end))
        (pieces_text ps (end_text strict end)) Syntax.begin refl (unfold atom_at in refl)
        (Unquantified-pieces ps (end_text strict end) (end_text-IsEndText strict end).0)
      ∙ ap (joined Syntax.begin) (
          sequence_at-pieces ps (end_text strict end) (end_re strict end) f 0
            (end_text-IsEndText strict end)))

fuel_lem :
    (ps : List Piece) (strict end : Bool)
    → (f : ℕ) × (20 + 2 * length (mask_text ps strict end) ≡ suc (suc (fuel_of ps (eight f))))
fuel_lem ps strict end =
    let f = 20 + 2 * length (mask_text ps strict end) - 10 - count ps in
    (f, omega (arith, fuel_of-count ps (eight f), count-le ps (end_text strict end)))

pub compile-mask :
    (ps : List Piece) (strict end icase optimize : Bool)
    → compile icase optimize (mask_text ps strict end) ≡ some (mask_regex ps strict end icase)
unfolding compile
compile-mask ps strict end icase optimize =
    let (f, e) = fuel_lem ps strict end in
    ap (λ k. whole icase (alternatives_at k 0 (mask_text ps strict end))) e
    ∙ ap (whole icase) (alternatives_at-mask ps strict end f)

-- The submatches of a match are the values.
submatch-added :
    (i n : ℕ) (vs : List Bytes) (caps : Caps)
    → i ≤ n
    → submatch i (added n vs caps) ≡ submatch i caps
unfolding submatch
submatch-added i n [] caps h = refl
submatch-added i n (v ∷ vs) caps h =
    submatch-added i (suc n) vs ((suc n, v) ∷ caps) (omega (arith, h)) ∙ other
  where
    other : submatch i ((suc n, v) ∷ caps) ≡ submatch i caps
    other = ground arith

pub submatches-added :
    (n : ℕ) (vs : List Bytes) (caps : Caps) → submatches n (length vs) (added n vs caps) ≡ vs
unfolding submatch
submatches-added n [] caps = refl
submatches-added n (v ∷ vs) caps =
    ap (λ w. w ∷ submatches (suc n) (length vs) (added (suc n) vs ((suc n, v) ∷ caps)))
      (submatch-added (suc n) (suc n) vs ((suc n, v) ∷ caps) (omega arith) ∙ own)
    ∙ ap (◌∷◌ v) (submatches-added (suc n) vs ((suc n, v) ∷ caps))
  where
    own : submatch (suc n) ((suc n, v) ∷ caps) ≡ v
    own = ground arith

abbrev pub answer : ℕ → Bytes → Option Caps → Option (List Bytes)
answer k path none = none
answer k path (some caps) = some (path ∷ submatches 0 k caps)

pub regex_match-run :
    (ps : List Piece) (strict end : Bool) (path : Bytes)
    → regex_match (mask_regex ps strict end false) path
      ≡ answer (groups 0 ps) path (found 0 (fit strict ps path) [])
unfolding regex_match run
regex_match-run ps strict end path =
    elim_answer (run false (pieces_re 0 ps (end_re strict end)) 0 path [] at_end)
    ∙ ap (answer (groups 0 ps) path)
        (run-pieces_re strict (end_re strict end) (end_re-IsEnd strict end) ps 0 0 path [])
  where
    elim_answer :
        (o : Option Caps)
        → elim o [ none ↦ none | some caps ↦ some (path ∷ submatches 0 (groups 0 ps) caps) ]
          ≡ answer (groups 0 ps) path o
    elim_answer none = refl
    elim_answer (some caps) = refl

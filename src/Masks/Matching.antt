-- ===== src/Masks/Matching.antt =====
-- `matcher::make` and `matcher::matches` on a plain mask, with the expressions of `std::regex`.
use http_router.Base.{
  ℕ, suc, ◌+◌, ◌≡◌, refl, sym, ap, ◌∙◌, Bool, true, false, not, ◌⊎◌, inl, inr, Option, none, some,
  List, [], ◌∷◌, map, arith, Bytes, length, ◌>>=◌, Option-cases,
}
use http_router.PathCompiler.Key.{KeyName, Compile}
use http_router.PathCompiler.Matcher.{param}
use http_router.Masks.Values.{value_under, param-values}
use http_router.PathCompiler.Mask.{parse_matcher}
use http_router.PathCompiler.Describe.{ends_with_slash, make, make_mask}
use http_router.PathCompiler.Matcher.{
  Params, fill, Matcher, make_description, make_matcher, matches,
}
use http_router.Regex.{submatches, regex_match, ecma}
use http_router.Masks.Pieces.{Piece, literal, parameter, key_of_piece, fit}
use http_router.Masks.Running.{added, found}
use http_router.Masks.Reading.{groups}
use http_router.Masks.Compiled.{parameters, make-pieces}
use http_router.Masks.Matched.{
  mask_text, mask_regex, answer, compile-mask, regex_match-run, submatches-added,
}
use http_router.Masks.Fits.{Fits}
use http_router.Masks.Fits.Search.{fit-Fits, fit-none}

groups-values :
    (strict : Bool) (ps : List Piece) (n : ℕ) (s : Bytes) (vs : List Bytes)
    → Fits strict ps s vs
    → groups n ps ≡ n + length vs
unfolding Fits
groups-values strict [] n s [] h = omega arith
groups-values strict [] n s (v ∷ vs) h = absurd h
groups-values strict (literal t ∷ ps) n s vs (u, e, h) = groups-values strict ps n u vs h
groups-values strict (parameter name sep partial ∷ ps) n s [] h = absurd h
groups-values strict (parameter name sep partial ∷ ps) n s (v ∷ vs) (u, e, is, h) =
    omega (arith, groups-values strict ps (suc n) u vs h)

-- The match and the submatches, or none
regex_match-fit :
    (ps : List Piece) (strict end : Bool) (path : Bytes)
    → regex_match (mask_regex ps strict end false) path
      ≡ fit strict ps path >>= (λ vs. some (path ∷ vs))
regex_match-fit ps strict end path =
    regex_match-run ps strict end path ∙ elim (Option-cases (fit strict ps path)) [
      | inl e ↦ rw e refl
      | inr (vs, e) ↦
          ap (λ o. answer (groups 0 ps) path (found 0 o [])) e
          ∙ ap (λ k. some (path ∷ submatches 0 k (added 0 vs [])))
              (omega (arith, groups-values strict ps 0 path vs (fit-Fits strict ps path vs e)))
          ∙ ap (λ ws. some (path ∷ ws)) (submatches-added 0 vs [])
          ∙ sym (ap (λ o. o >>= (λ ws. some (path ∷ ws))) e)
    ]

-- The matcher of a plain mask
abbrev pub mask_matcher : List Piece → Compile → Matcher ecma
mask_matcher ps options = record {
  regex = mask_regex ps options.strict options.end false;
  keys = parameters ps;
}

make_matcher-pieces :
    (ps : List Piece) (mask : Bytes) (options : Compile)
    → parse_matcher mask ≡ some (map key_of_piece ps)
    → options.take_rest ≡ false
    → options.sensitive ≡ true
    → ends_with_slash (map key_of_piece ps) ≡ false
    → make_matcher ecma mask options ≡ some (mask_matcher ps options)
unfolding make_matcher make_description make_mask
make_matcher-pieces ps mask options parsed plain case slash =
    ap (λ o. o >>= (λ tokens. make tokens options) >>= (λ d. make_description ecma d options))
      parsed
    ∙ ap (λ o. o >>= (λ d. make_description ecma d options)) (make-pieces ps options plain slash)
    ∙ ap (λ o. o >>= (λ regex. some (record { regex = regex; keys = parameters ps })))
        (ap
            (λ icase.
              ecma.compile (not icase) options.optimize (mask_text ps options.strict options.end))
            case
          ∙ compile-mask ps options.strict options.end false options.optimize)

matches-match :
    (m : Matcher ecma) (path : Bytes) (params : Params) (o : Option (List Bytes))
    → regex_match m.regex path ≡ o
    → matches ecma m path params
      ≡ elim o [ none ↦ (false, params) | some submatched ↦ (true, fill submatched 0 m.keys []) ]
unfolding matches
matches-match m path params o e =
    ap
      (λ o'. elim o' as (λ _. Bool × Params) [
        | none ↦ (false, params)
        | some submatched ↦ (true, fill submatched 0 m.keys [])
      ])
      e

-- That the path matched, with these values for the parameters
abbrev pub HasMatched : List Piece → List Bytes → Bool × Params → Type 0
HasMatched ps vs outcome =
    (outcome.0 ≡ true) × ((name : KeyName) → param name outcome.1 ≡ value_under name ps vs)

filled-HasMatched :
    (strict : Bool) (ps : List Piece) (path : Bytes) (vs : List Bytes) (outcome : Bool × Params)
    → Fits strict ps path vs
    → outcome ≡ (true, fill (path ∷ vs) 0 (parameters ps) [])
    → HasMatched ps vs outcome
filled-HasMatched strict ps path vs outcome h e =
    (ap (λ o. o.0) e, (λ name. ap (λ o. param name o.1) e ∙ param-values strict ps path vs name h))

-- What the pieces of a mask say of a path
abbrev pub IsMatch : List Piece → Compile → Bytes → Params → Bool × Params → Type 0
IsMatch ps options path params outcome =
    ((vs : List Bytes) × Fits options.strict ps path vs × HasMatched ps vs outcome)
    ⊎ (((vs : List Bytes) → Fits options.strict ps path vs → ⊥) × (outcome ≡ (false, params)))

-- A mask of texts and plain parameters, which does not end in a slash, compiles where case counts and
-- the last parameter does not take the rest. Its matcher finds a path where the path is the texts with
-- values between them, each of at least one byte and free of the byte that ends its parameter, with
-- nothing left, or a slash where the mask is not strict. What is then to be found under a name is such a
-- value of the last parameter with that name, and nothing under any other name. Any other path is no
-- match and leaves the parameters as they are.
pub matches-IsMatch :
    (ps : List Piece) (mask : Bytes) (options : Compile) (path : Bytes) (params : Params)
    → parse_matcher mask ≡ some (map key_of_piece ps)
    → options.take_rest ≡ false
    → options.sensitive ≡ true
    → ends_with_slash (map key_of_piece ps) ≡ false
    → (m : Matcher ecma) × (make_matcher ecma mask options ≡ some m)
      × IsMatch ps options path params (matches ecma m path params)
matches-IsMatch ps mask options path params parsed plain case slash = (
  mask_matcher ps options,
  make_matcher-pieces ps mask options parsed plain case slash,
  elim (Option-cases (fit options.strict ps path)) [
    | inl e ↦ inr (
      (λ vs h. fit-none options.strict ps path vs e h),
      matches-match (mask_matcher ps options) path params none (
          regex_match-fit ps options.strict options.end path
          ∙ ap (λ o. o >>= (λ vs. some (path ∷ vs))) e),
    )
    | inr (vs, e) ↦ inl (
      vs,
      fit-Fits options.strict ps path vs e,
      filled-HasMatched options.strict ps path vs _ (fit-Fits options.strict ps path vs e) (
          matches-match (mask_matcher ps options) path params (some (path ∷ vs)) (
            regex_match-fit ps options.strict options.end path
            ∙ ap (λ o. o >>= (λ ws. some (path ∷ ws))) e)),
    )
  ],
)

-- ===== src/Masks/Compiled.antt =====
-- The matcher of a plain mask: its expression as `description::make` writes it, as it is read, and as it
-- is run.
use http_router.Base.{
  ℕ, suc, ◌+◌, ◌≤◌, ◌≡◌, refl, ap, ◌∙◌, Bool, true, false, none, some, List, [], ◌∷◌, ◌++◌, map,
  arith, Bytes, codes, length, length-append, append_assoc, if◌then◌else◌, ◌>>=◌, Bool-cases, inl,
  inr, bind_some, last, Option-cases,
}
use http_router.PathCompiler.Key.{Key, Compile}
use http_router.PathCompiler.Escape.{escape, escape_string, is_string}
use http_router.PathCompiler.Describe.{
  ends_with_slash, rest_of, tokens_text, param_text, finish, make_from, make,
}
use http_router.Regex.Syntax as Syntax
use http_router.Regex.Syntax.{
  Re, chr, ahead, join, either, repeat, quantified, sequence_at, alternatives_at,
}
use http_router.Regex.{run}
use http_router.Masks.Pieces.{Piece, literal, parameter, prefix_of, key_of_piece}
use http_router.Masks.Running.{IsEnd}
use http_router.Masks.Reading.{
  add, param_text_lem, group_behind, behind-le, pieces_text, fuel_of, IsEndText,
}

-- What `finish` puts behind the tokens where the last one ends in no slash
abbrev pub end_text : (strict end : Bool) → Bytes
end_text strict end =
    (if strict then [] else codes "(?:\\/(?=$))?") ++ (if end then codes "$" else codes "(?=\\/|$)")

finish_lem :
    (options : Compile) (route : Bytes)
    → finish false options route ≡ route ++ end_text options.strict options.end
unfolding finish
finish_lem options route = elim (Bool-cases options.strict) [
  | inl e ↦ elim (Bool-cases options.end) [ inl f ↦ rw (e, f) refl | inr f ↦ rw (e, f) refl ]
  | inr e ↦ elim (Bool-cases options.end) [
    | inl f ↦ rw (e, f) (append_assoc route _ _)
    | inr f ↦ rw (e, f) (append_assoc route _ _)
  ]
]

abbrev pub parameters : List Piece → List Key
parameters [] = []
parameters (literal s ∷ ps) = parameters ps
parameters (parameter name sep partial ∷ ps) =
    key_of_piece (parameter name sep partial) ∷ parameters ps

tokens_text-pieces :
    (ps : List Piece) → tokens_text (map key_of_piece ps) ≡ some (pieces_text ps [], parameters ps)
unfolding tokens_text pieces_text
tokens_text-pieces [] = refl
tokens_text-pieces (literal s ∷ ps) = rw (tokens_text-pieces ps) refl
tokens_text-pieces (parameter name sep partial ∷ ps) = rw (tokens_text-pieces ps) refl

pieces_text-append : (ps : List Piece) (end : Bytes) → pieces_text ps [] ++ end ≡ pieces_text ps end
unfolding pieces_text
pieces_text-append [] end = refl
pieces_text-append (literal s ∷ ps) end =
    append_assoc (escape_string s) _ end ∙ ap (◌++◌ (escape_string s)) (pieces_text-append ps end)
pieces_text-append (parameter name sep partial ∷ ps) end =
    append_assoc (param_text _) _ end ∙ ap (◌++◌ (param_text _)) (pieces_text-append ps end)

no_rest :
    (tokens : List Key) (options : Compile)
    → options.take_rest ≡ false
    → rest_of tokens options ≡ none
unfolding rest_of
no_rest tokens options e = elim (Option-cases (last tokens)) [
  | inl f ↦ rw (f, rest_of) refl
  | inr (k, f) ↦ rw (f, e, rest_of) (ground arith)
]

make_lem :
    (tokens : List Key) (options : Compile)
    → make tokens options ≡ make_from (rest_of tokens options) tokens options
unfolding make
make_lem tokens options = refl

make_from_lem :
    (tokens : List Key) (options : Compile)
    → make_from none tokens options
      ≡ tokens_text tokens >>= (λ (route, keys).
        some (record { route = b'^' ∷ finish (ends_with_slash tokens) options route; keys = keys }))
unfolding make_from
make_from_lem tokens options = refl

pub make-pieces :
    (ps : List Piece) (options : Compile)
    → options.take_rest ≡ false
    → ends_with_slash (map key_of_piece ps) ≡ false
    → make (map key_of_piece ps) options
      ≡ some (record {
        route = b'^' ∷ pieces_text ps (end_text options.strict options.end);
        keys = parameters ps;
      })
make-pieces ps options e f =
    make_lem (map key_of_piece ps) options
    ∙ ap (λ r. make_from r (map key_of_piece ps) options) (no_rest (map key_of_piece ps) options e)
    ∙ make_from_lem (map key_of_piece ps) options
    ∙ bind_some (tokens_text (map key_of_piece ps)) _ (pieces_text ps [], parameters ps)
        (tokens_text-pieces ps)
    ∙ ap (λ route. some (record { route = b'^' ∷ route; keys = parameters ps }))
        (ap (λ slash. finish slash options (pieces_text ps [])) f
          ∙ finish_lem options (pieces_text ps [])
          ∙ pieces_text-append ps (end_text options.strict options.end))

end_part : Bool → Re
end_part true = Syntax.finish
end_part false = ahead (either (join (chr b'/') Syntax.nothing) (join Syntax.finish Syntax.nothing))

unfoldable pub end_re : (strict end : Bool) → Re
unfolding end_part
end_re true end = join (end_part end) Syntax.nothing
end_re false end =
    join
      (repeat false false false
        (join (chr b'/') (join (ahead (join Syntax.finish Syntax.nothing)) Syntax.nothing)))
      (join (end_part end) Syntax.nothing)

pub end_text-IsEndText : (strict end : Bool) → IsEndText (end_text strict end) (end_re strict end)
unfolding end_re quantified sequence_at
end_text-IsEndText true true = (λ re. refl, λ f n. refl)
end_text-IsEndText true false = (λ re. refl, λ f n. refl)
end_text-IsEndText false true = (λ re. refl, λ f n. refl)
end_text-IsEndText false false = (λ re. refl, λ f n. refl)

pub end_re-IsEnd : (strict end : Bool) → IsEnd strict (end_re strict end)
unfolding end_re run
end_re-IsEnd true true q [] caps = refl
end_re-IsEnd true true q (c ∷ []) caps = refl
end_re-IsEnd true true q (c ∷ d ∷ s) caps = refl
end_re-IsEnd true false q [] caps = refl
end_re-IsEnd true false q (c ∷ []) caps = ground arith
end_re-IsEnd true false q (c ∷ d ∷ s) caps = ground arith
end_re-IsEnd false true q [] caps = refl
end_re-IsEnd false true q (c ∷ []) caps = ground arith
end_re-IsEnd false true q (c ∷ d ∷ s) caps = ground arith
end_re-IsEnd false false q [] caps = refl
end_re-IsEnd false false q (c ∷ []) caps = ground arith
end_re-IsEnd false false q (c ∷ d ∷ s) caps = ground arith

-- The whole expression: its fuel is enough, and its groups are the parameters.
unfoldable pub count : List Piece → ℕ
count [] = 0
count (literal s ∷ ps) = length s + count ps
count (parameter name sep partial ∷ ps) = length (prefix_of sep) + (1 + count ps)

pub add_lem : (s : Bytes) (f : ℕ) → add s f ≡ length s + f
add_lem [] f = omega arith
add_lem (c ∷ s) f = omega (arith, add_lem s f)

pub fuel_of-count : (ps : List Piece) (f : ℕ) → fuel_of ps f ≡ count ps + f
unfolding count
fuel_of-count [] f = omega arith
fuel_of-count (literal s ∷ ps) f = omega (arith, add_lem s (fuel_of ps f), fuel_of-count ps f)
fuel_of-count (parameter name sep partial ∷ ps) f =
    omega (arith, add_lem (prefix_of sep) (suc (fuel_of ps f)), fuel_of-count ps f)

escape-le : (s : Bytes) → length s ≤ length (escape_string s)
unfolding escape
escape-le [] = omega arith
escape-le (c ∷ s) = elim (Bool-cases (is_string c)) [
  | inl e ↦ rw e (omega (arith, escape-le s))
  | inr e ↦ rw e (omega (arith, escape-le s))
]

pub count-le : (ps : List Piece) (end : Bytes) → count ps ≤ length (pieces_text ps end)
unfolding count pieces_text
count-le [] end = omega arith
count-le (literal s ∷ ps) end =
    omega
      (arith, count-le ps end, escape-le s, length-append (escape_string s) (pieces_text ps end))
count-le (parameter name sep partial ∷ ps) end = omega (
  arith,
  count-le ps end,
  ap length (param_text_lem name sep partial (pieces_text ps end)),
  escape-le (prefix_of sep),
  length-append (escape_string (prefix_of sep)) (b'(' ∷ group_behind sep (pieces_text ps end)),
  behind-le sep (pieces_text ps end),
)

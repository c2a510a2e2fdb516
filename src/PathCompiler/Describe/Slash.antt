-- ===== src/PathCompiler/Describe/Slash.antt =====
-- A literal at the end of a mask, and the slash that it may end in.
use http_router.Base.{
  drop_last, last-append, drop_last-append, ℕ, ◌≡◌, refl, sym, ap, ◌∙◌, ◌≢◌, Bool, true, false,
  none, some, List, [], ◌∷◌, ◌++◌, arith, Bytes, codes, length, length-append, if◌then◌else◌, All,
  All-append, append-nil, append_assoc,
}
use http_router.PathCompiler.Key.{Key, as_string, Compile}
use http_router.PathCompiler.Escape.{escape_string, escape, is_string}
use http_router.PathCompiler.Mask.Tokens.{IsToken}
use http_router.PathCompiler.Describe.{
  ends_in_slash, ends_with_slash, rest_of, finish, make_from, make,
}
use http_router.PathCompiler.Describe.Keys.{
  make_lem, make_from-none, parameters, route_text, token_text, tokens_text-route_text,
}

pub route_text-append : (xs ys : List Key) → route_text (xs ++ ys) ≡ route_text xs ++ route_text ys
unfolding route_text
route_text-append [] ys = refl
route_text-append (k ∷ xs) ys =
    ap (◌++◌ (token_text k)) (route_text-append xs ys)
    ∙ sym (append_assoc (token_text k) (route_text xs) (route_text ys))

escape-append :
    (checker : ℕ → Bool) (s t : Bytes)
    → escape checker (s ++ t) ≡ escape checker s ++ escape checker t
unfolding escape
escape-append checker [] t = refl
escape-append checker (c ∷ s) t =
    ap (◌++◌ (if checker c then b'\\' ∷ c ∷ [] else c ∷ [])) (escape-append checker s t)
    ∙ sym (
        append_assoc (if checker c then b'\\' ∷ c ∷ [] else c ∷ []) (escape checker s)
          (escape checker t))

route_text_literal :
    (xs : List Key) (s : Bytes)
    → route_text (xs ++ (as_string s ∷ [])) ≡ route_text xs ++ escape_string s
route_text_literal xs s =
    route_text-append xs (as_string s ∷ [])
    ∙ ap (◌++◌ (route_text xs)) (unfold route_text in append-nil (escape_string s))

slashed : (s : Bytes) → ends_in_slash (s ++ (b'/' ∷ [])) ≡ true
unfolding ends_in_slash
slashed s = rw (last-append s b'/', ends_in_slash)

parameters_literal :
    (xs : List Key) (s : Bytes) → parameters (xs ++ (as_string s ∷ [])) ≡ parameters xs
unfolding parameters
parameters_literal [] s = refl
parameters_literal (k ∷ xs) s =
    ap (λ ks. if k.is_string then ks else k ∷ ks) (parameters_literal xs s)

All-literal :
    (xs : List Key) (s : Bytes) → All IsToken xs → s ≢ [] → All IsToken (xs ++ (as_string s ∷ []))
All-literal xs s h ne = All-append IsToken xs (as_string s ∷ []) h ((s, refl, ne), tt)

rest_of-literal :
    (xs : List Key) (s : Bytes) (options : Compile)
    → rest_of (xs ++ (as_string s ∷ [])) options ≡ none
unfolding rest_of
rest_of-literal xs s options = rw (last-append xs (as_string s), rest_of)

ends_with_slash-literal :
    (xs : List Key) (s : Bytes) → ends_with_slash (xs ++ (as_string s ∷ [])) ≡ ends_in_slash s
unfolding ends_with_slash
ends_with_slash-literal xs s = rw (last-append xs (as_string s), ends_with_slash)

-- What is made of tokens that end in a literal
make-literal :
    (xs : List Key) (s : Bytes) (options : Compile)
    → All IsToken xs
    → s ≢ []
    → make (xs ++ (as_string s ∷ [])) options
      ≡ some (record {
        route = b'^' ∷ finish (ends_in_slash s) options (route_text xs ++ escape_string s);
        keys = parameters xs;
      })
make-literal xs s options h ne =
    make_lem (xs ++ (as_string s ∷ [])) options
    ∙ ap (λ rest. make_from rest (xs ++ (as_string s ∷ [])) options) (rest_of-literal xs s options)
    ∙ make_from-none (xs ++ (as_string s ∷ [])) options _ _
        (tokens_text-route_text (xs ++ (as_string s ∷ [])) (All-literal xs s h ne))
    ∙ rw (ends_with_slash-literal xs s, parameters_literal xs s, route_text_literal xs s)

pub slash_text :
    (r s : Bytes)
    → drop_last (drop_last (r ++ (escape_string (s ++ (b'/' ∷ []))))) ≡ r ++ escape_string s
slash_text r s =
    ap (λ t. drop_last (drop_last t)) regroup
    ∙ ap drop_last (drop_last-append ((r ++ escape_string s) ++ (b'\\' ∷ [])) b'/')
    ∙ drop_last-append (r ++ escape_string s) b'\\'
  where
    regroup :
        r ++ escape_string (s ++ (b'/' ∷ []))
        ≡ ((r ++ escape_string s) ++ (b'\\' ∷ [])) ++ (b'/' ∷ [])
    regroup =
        rw (escape-append is_string s (b'/' ∷ [])) (unfold escape is_string in simp append_assoc)

finish_loose :
    (slash : Bool) (options : Compile) (r : Bytes)
    → options.strict ≡ false
    → finish slash options r
      ≡ ((if slash then drop_last (drop_last r) else r) ++ codes "(?:\\/(?=$))?")
        ++ (if options.end then codes "$" else codes "(?=\\/|$)")
unfolding finish
finish_loose slash options r e = ground arith

-- Unless the mask is strict, a slash behind its last literal makes no difference: the description
-- is the one of the mask without it.
pub make-slash :
    (xs : List Key) (s : Bytes) (options : Compile)
    → All IsToken xs
    → s ≢ []
    → ends_in_slash s ≡ false
    → options.strict ≡ false
    → make (xs ++ (as_string (s ++ (b'/' ∷ [])) ∷ [])) options
      ≡ make (xs ++ (as_string s ∷ [])) options
make-slash xs s options h ne plain loose =
    make-literal xs (s ++ (b'/' ∷ [])) options h
      (λ e. omega (arith, ap length e, length-append s (b'/' ∷ [])))
    ∙ ap (λ r. some (record { route = b'^' ∷ r; keys = parameters xs })) same
    ∙ sym (make-literal xs s options h ne)
  where
    same :
        finish
          (ends_in_slash (s ++ (b'/' ∷ [])))
          options
          (route_text xs ++ escape_string (s ++ (b'/' ∷ [])))
        ≡ finish (ends_in_slash s) options (route_text xs ++ escape_string s)
    same = rw (
      slashed s,
      plain,
      finish_loose true options (route_text xs ++ escape_string (s ++ (b'/' ∷ []))) loose,
      finish_loose false options (route_text xs ++ escape_string s) loose,
      slash_text (route_text xs) s,
    )

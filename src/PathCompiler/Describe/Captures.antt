-- ===== src/PathCompiler/Describe/Captures.antt =====
-- Every description has as many capturing groups as keys.
use http_router.Base.{
  last, drop_last, split_last, ℕ, ◌+◌, ◌≡◌, refl, sym, ap, subst, ◌∙◌, Bool, true, false, Option,
  none, some, List, [], ◌∷◌, ◌++◌, arith, Bytes, codes, length, length-append, if◌then◌else◌, All,
  append-nil, inl, inr, Option-cases, ==_iff,
}
use http_router.PathCompiler.Key.{Key, KeyName, index, text, Compile}
use http_router.PathCompiler.Escape.{escape_string}
use http_router.PathCompiler.Mask.Tokens.{IsToken}
use http_router.PathCompiler.Describe.{
  Description, get_string, ends_in_slash, ends_with_slash, rest_of, param_text, make_from, make,
}
use http_router.PathCompiler.Describe.Keys.{
  make_lem, make_from-none, make_from-some, rest_of-last, All-drop_last, parameters, route_text,
  token_text, literal, tokens_text-route_text,
}
use http_router.PathCompiler.Describe.Slash.{slash_text, route_text-append}
use http_router.PathCompiler.Describe.Groups.{
  groups, HasGroups, HasGroups-append, groups_plain, escape_string-HasGroups, IsClosed,
  route_text-HasGroups,
}
use http_router.PathCompiler.Describe.Ends.{rest_end, append_none, finish-HasGroups}

-- Where the last token is a literal that ends in a slash
pub slash_last : (s : Bytes) → ends_in_slash s ≡ true → drop_last s ++ (b'/' ∷ []) ≡ s
unfolding ends_in_slash
slash_last s e = elim (Option-cases (last s)) [
  | inl n ↦ cc (rw (n, ends_in_slash) at e)
  | inr (c, n) ↦
      ap (λ d. drop_last s ++ (d ∷ [])) (sym ((==_iff c b'/').0 (rw (n, ends_in_slash) at e)))
      ∙ split_last s c n
]

record EndsInLiteral (tokens : List Key) : Type 0 where
  key : Key
  value : Bytes
  is_last : last tokens ≡ some key
  is_literal : key.is_string ≡ true
  is_value : key.value ≡ text value
  slashed : ends_in_slash value ≡ true

value_end :
    (v : KeyName)
    → (elim (get_string v) [ none ↦ false | some s ↦ ends_in_slash s ]) ≡ true
    → (s : Bytes) × (v ≡ text s) × (ends_in_slash s ≡ true)
value_end (index i) e = cc
value_end (text s) e = (s, refl, e)

literal_end : (tokens : List Key) → ends_with_slash tokens ≡ true → EndsInLiteral tokens
unfolding ends_with_slash
literal_end tokens e = elim (Option-cases (last tokens)) [
  | inl n ↦ cc (rw (n, ends_with_slash) at e)
  | inr (k, n) ↦
      let both = rw (n, ends_with_slash) at e in
      let (s, is, slash) = value_end k.value (ground (arith, both)) in
      record {
        key = k;
        value = s;
        is_last = n;
        is_literal = ground (arith, both);
        is_value = is;
        slashed = slash;
      }
]

route_text-literal :
    (k : Key) (s : Bytes)
    → k.is_string ≡ true
    → k.value ≡ text s
    → route_text (k ∷ []) ≡ escape_string s
unfolding route_text
route_text-literal k s is e =
    ap (◌++◌ (token_text k)) refl ∙ append-nil (token_text k) ∙ go k.is_string is k.value e
  where
    go :
        (b : Bool)
        → b ≡ true
        → (v : KeyName) → v ≡ text s
        → (if b then escape_string (literal v) else param_text k) ≡ escape_string s
    go true is v e = ap (λ v. escape_string (literal v)) e
    go false is v e = cc

parameters-literal :
    (xs : List Key) (k : Key) → k.is_string ≡ true → parameters (xs ++ (k ∷ [])) ≡ parameters xs
unfolding parameters
parameters-literal [] k is = ground arith
parameters-literal (x ∷ xs) k is =
    ap (λ ks. if x.is_string then ks else x ∷ ks) (parameters-literal xs k is)

-- A description has the groups of what stands behind its anchor.
anchored : (n : ℕ) (r : Bytes) → HasGroups n r → groups (b'^' ∷ r) ≡ n
anchored n r h =
    groups_plain b'^' r refl refl
    ∙ ap groups (sym (append-nil r))
    ∙ h []
    ∙ (unfold groups in omega arith)

-- Without the slash and the backslash before it, the text has as many groups.
cut_slash :
    (tokens : List Key)
    → All IsClosed tokens
    → ends_with_slash tokens ≡ true
    → HasGroups (length (parameters tokens)) (drop_last (drop_last (route_text tokens)))
cut_slash tokens h e =
    subst (HasGroups (length (parameters tokens))) (sym cut)
      (subst (λ n. HasGroups n (route_text xs ++ escape_string s)) count whole)
  where
    found : EndsInLiteral tokens
    found = literal_end tokens e

    xs : List Key
    xs = drop_last tokens

    s : Bytes
    s = drop_last found.value

    cut : drop_last (drop_last (route_text tokens)) ≡ route_text xs ++ escape_string s
    cut =
        ap (λ t. drop_last (drop_last t))
          (ap route_text (sym (split_last tokens found.key found.is_last))
            ∙ route_text-append xs (found.key ∷ [])
            ∙ ap (◌++◌ (route_text xs)) (
                route_text-literal found.key found.value found.is_literal found.is_value
                ∙ ap escape_string (sym (slash_last found.value found.slashed))))
        ∙ slash_text (route_text xs) s

    count : length (parameters xs) ≡ length (parameters tokens)
    count =
        ap length (sym (parameters-literal xs found.key found.is_literal))
        ∙ ap (λ ks. length (parameters ks)) (split_last tokens found.key found.is_last)

    whole : HasGroups (length (parameters xs)) (route_text xs ++ escape_string s)
    whole =
        append_none (length (parameters xs)) (route_text xs) (escape_string s)
          (route_text-HasGroups xs (All-drop_last IsClosed tokens h)) (escape_string-HasGroups s)

make_from-groups :
    (rest : Option Key) (tokens : List Key) (options : Compile)
    → All IsToken tokens
    → All IsClosed tokens
    → ((k : Key) → rest ≡ some k → (last tokens ≡ some k) × (k.is_string ≡ false))
    → (d : Description) × (make_from rest tokens options ≡ some d)
      × (groups d.route ≡ length d.keys)
make_from-groups none tokens options kinds h k = (
  _,
  make_from-none tokens options _ _ (tokens_text-route_text tokens kinds),
  anchored (length (parameters tokens)) _ (
      finish-HasGroups (length (parameters tokens)) (ends_with_slash tokens) options
        (route_text tokens) (route_text-HasGroups tokens h) (cut_slash tokens h)),
)
make_from-groups (some rest) tokens options kinds h k = (
  _,
  make_from-some rest tokens options _ _
      (tokens_text-route_text (drop_last tokens) (All-drop_last IsToken tokens kinds)),
  anchored (length (parameters (drop_last tokens)) + (0 + 1)) _ (
        HasGroups-append (length (parameters (drop_last tokens))) (0 + 1)
          (route_text (drop_last tokens)) (escape_string rest.prefix ++ codes "(.*)")
          (route_text-HasGroups (drop_last tokens) (All-drop_last IsClosed tokens h))
          (HasGroups-append 0 1 (escape_string rest.prefix) (codes "(.*)")
            (escape_string-HasGroups rest.prefix) rest_end))
      ∙ omega (arith, length-append (parameters (drop_last tokens)) (rest ∷ [])),
)

-- Where no pattern of a token opens a group of its own, the regular expression has exactly as
-- many capturing groups as there are keys, whichever options are set: the group that is read for
-- a key exists, and no other one does.
pub make-groups :
    (tokens : List Key) (options : Compile)
    → All IsToken tokens
    → All IsClosed tokens
    → (d : Description) × (make tokens options ≡ some d) × (groups d.route ≡ length d.keys)
make-groups tokens options kinds h =
    let (d, made, count) =
      make_from-groups (rest_of tokens options) tokens options kinds h
        (rest_of-last tokens options) in
    (d, make_lem tokens options ∙ made, count)

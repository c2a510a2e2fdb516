-- ===== src/PathCompiler/Describe/Keys.antt =====
-- The keys of a description, that it can be made of every mask, and the slash at its end.
use http_router.Base.{
  last, drop_last, ◌≡◌, refl, subst, ◌∙◌, false, Option, none, some, List, [], ◌∷◌, ◌++◌, arith,
  Bytes, codes, if◌then◌else◌, All, Bool-cases, inl, inr,
}
use http_router.PathCompiler.Key.{Key, KeyName, index, text, Compile}
use http_router.PathCompiler.Escape.{escape_string}
use http_router.PathCompiler.Mask.{parse_matcher}
use http_router.PathCompiler.Mask.Tokens.{IsToken, IsKind, parse_matcher-IsToken}
use http_router.PathCompiler.Describe.{
  Description, ends_with_slash, rest_of, param_text, tokens_text, finish, make_from, make,
  make_mask,
}

-- The parameters among the tokens, in order.
unfoldable pub parameters : List Key → List Key
parameters [] = []
parameters (k ∷ ks) = if k.is_string then parameters ks else k ∷ parameters ks

-- The regular expression of the tokens, one behind the other.
abbrev pub literal : KeyName → Bytes
literal (index i) = []
literal (text s) = s

abbrev pub token_text : Key → Bytes
token_text k = if k.is_string then escape_string (literal k.value) else param_text k

unfoldable pub route_text : List Key → Bytes
route_text [] = []
route_text (k ∷ ks) = token_text k ++ route_text ks

tokens_text-cons :
    (k : Key) (tokens : List Key) (r : Bytes) (ks : List Key)
    → IsToken k
    → tokens_text tokens ≡ some (r, ks)
    → tokens_text (k ∷ tokens) ≡ some (token_text k ++ r, (if k.is_string then ks else k ∷ ks))
unfolding tokens_text
tokens_text-cons k tokens r ks h e = elim (Bool-cases k.is_string) [
  | inl is ↦ ground (arith, subst (λ b. IsKind b k) is h)
  | inr plain ↦ ground arith
]

pub tokens_text-route_text :
    (tokens : List Key)
    → All IsToken tokens
    → tokens_text tokens ≡ some (route_text tokens, parameters tokens)
unfolding route_text parameters
tokens_text-route_text [] h = unfold tokens_text in refl
tokens_text-route_text (k ∷ tokens) h =
    tokens_text-cons k tokens (route_text tokens) (parameters tokens) h.0
      (tokens_text-route_text tokens h.1)

pub All-drop_last : (P : Key → Type 0) (tokens : List Key) → All P tokens → All P (drop_last tokens)
unfolding drop_last
All-drop_last P [] h = tt
All-drop_last P (x ∷ []) h = tt
All-drop_last P (x ∷ y ∷ xs) h = (h.0, All-drop_last P (y ∷ xs) h.1)

pub parameters-drop_last :
    (tokens : List Key) (k : Key)
    → last tokens ≡ some k
    → k.is_string ≡ false
    → parameters (drop_last tokens) ++ (k ∷ []) ≡ parameters tokens
unfolding parameters drop_last last
parameters-drop_last [] k e h = cc
parameters-drop_last (x ∷ []) k e h = ground arith
parameters-drop_last (x ∷ y ∷ xs) k e h = ground (arith, parameters-drop_last (y ∷ xs) k e h)

pub make_from-none :
    (tokens : List Key) (options : Compile) (r : Bytes) (ks : List Key)
    → tokens_text tokens ≡ some (r, ks)
    → make_from none tokens options
      ≡ some (record { route = b'^' ∷ finish (ends_with_slash tokens) options r; keys = ks })
unfolding make_from
make_from-none tokens options r ks e = rw (e, make_from)

pub make_from-some :
    (rest : Key) (tokens : List Key) (options : Compile) (r : Bytes) (ks : List Key)
    → tokens_text (drop_last tokens) ≡ some (r, ks)
    → make_from (some rest) tokens options
      ≡ some (record {
        route = b'^' ∷ (r ++ (escape_string rest.prefix ++ codes "(.*)"));
        keys = ks ++ (rest ∷ []);
      })
unfolding make_from
make_from-some rest tokens options r ks e = rw (e, make_from)

pub make_lem :
    (tokens : List Key) (options : Compile)
    → make tokens options ≡ make_from (rest_of tokens options) tokens options
unfolding make
make_lem tokens options = refl

make_from-keys :
    (rest : Option Key) (tokens : List Key) (options : Compile)
    → All IsToken tokens
    → ((k : Key) → rest ≡ some k → (last tokens ≡ some k) × (k.is_string ≡ false))
    → (d : Description) × (make_from rest tokens options ≡ some d) × (d.keys ≡ parameters tokens)
make_from-keys none tokens options h k =
    (_, make_from-none tokens options _ _ (tokens_text-route_text tokens h), refl)
make_from-keys (some rest) tokens options h k =
    let (is_last, plain) = k rest refl in
    (
      _,
      make_from-some rest tokens options _ _
          (tokens_text-route_text (drop_last tokens) (All-drop_last IsToken tokens h)),
      parameters-drop_last tokens rest is_last plain,
    )

pub rest_of-last :
    (tokens : List Key) (options : Compile) (k : Key)
    → rest_of tokens options ≡ some k
    → (last tokens ≡ some k) × (k.is_string ≡ false)
unfolding rest_of
rest_of-last tokens options k e = ground arith

-- A regular expression is made of every mask under every option: nothing is thrown, and the keys
-- are the parameters of the mask, each once and in the order in which they stand there, whether
-- the last one takes the rest of the path or not.
pub make_mask-keys :
    (mask : Bytes) (options : Compile)
    → (tokens : List Key) × (d : Description) × (parse_matcher mask ≡ some tokens)
      × (make_mask mask options ≡ some d)
      × (d.keys ≡ parameters tokens)
unfolding make_mask
make_mask-keys mask options =
    let (tokens, parsed, kinds, _) = parse_matcher-IsToken mask in
    let (d, made, keys) =
      make_from-keys (rest_of tokens options) tokens options kinds (rest_of-last tokens options) in
    (tokens, d, parsed, rw parsed (make_lem tokens options ∙ made), keys)

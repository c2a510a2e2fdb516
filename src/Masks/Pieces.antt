-- ===== src/Masks/Pieces.antt =====
-- The tokens of a plain mask, and what a path has to be for them.
use http_router.Base.{
  ℕ, Bool, true, false, not, ◌&&◌, Option, none, some, List, [], ◌∷◌, ◌++◌, Bytes, codes, ◌==◌,
  if◌then◌else◌, ◌>>=◌,
}
use http_router.PathCompiler.Key.{Key, KeyName, as_string, make_key, set_flags}
use http_router.PathCompiler.Escape.{escape_string}

-- What stands in front of a parameter
pub data Separator : Type 0 where
  bare slash dot : Separator

abbrev pub prefix_of : Separator → Bytes
prefix_of bare = []
prefix_of slash = codes "/"
prefix_of dot = codes "."

-- The byte that ends a parameter
abbrev pub stop_of : Separator → ℕ
stop_of bare = b'/'
stop_of slash = b'/'
stop_of dot = b'.'

pub data Piece : Type 0 where
  literal : Bytes → Piece
  parameter : KeyName → Separator → (partial : Bool) → Piece

-- The token of a piece, as `parse_matcher` makes it where the mask gives no pattern and no modifier
abbrev pub key_of_piece : Piece → Key
key_of_piece (literal s) = as_string s
key_of_piece (parameter name sep partial) = set_flags false false false partial (
    make_key name (prefix_of sep) (stop_of sep ∷ [])
      (codes "[^" ++ (escape_string (stop_of sep ∷ []) ++ codes "]+?")))

-- The text behind a beginning
abbrev pub strip_prefix : Bytes → Bytes → Option Bytes
strip_prefix [] s = some s
strip_prefix (p ∷ ps) [] = none
strip_prefix (p ∷ ps) (c ∷ s) = if p == c then strip_prefix ps s else none

-- What may be left of a path: nothing, or a slash, unless the mask is strict
abbrev pub is_left : (strict : Bool) → Bytes → Bool
is_left strict [] = true
is_left strict (c ∷ []) = not strict && b'/' == c
is_left strict (c ∷ d ∷ s) = false

abbrev pub first_some {ℓ} : {A : Type ℓ} → Option A → Option A → Option A
first_some none other = other
first_some (some a) other = some a

abbrev pub with_value : Bytes → Option (List Bytes) → Option (List Bytes)
with_value v none = none
with_value v (some vs) = some (v ∷ vs)

-- The shortest value of a parameter with which the rest fits
unfoldable pub value_of : ℕ → (Bytes → Option (List Bytes)) → Bytes → Bytes → Option (List Bytes)
value_of stop more taken [] = none
value_of stop more taken (c ∷ s) =
    let rest = value_of stop more (taken ++ (c ∷ [])) s in
    if stop == c then none else first_some (with_value (taken ++ (c ∷ [])) (more s)) rest

-- The values of the parameters, where a path fits the pieces
unfoldable pub fit : (strict : Bool) → List Piece → Bytes → Option (List Bytes)
unfolding value_of
fit strict [] s = if is_left strict s then some [] else none
fit strict (literal t ∷ ps) s = do u ← strip_prefix t s; fit strict ps u
fit strict (parameter name sep partial ∷ ps) s = do
  u ← strip_prefix (prefix_of sep) s
  value_of (stop_of sep) (fit strict ps) [] u

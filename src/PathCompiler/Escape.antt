-- ===== src/PathCompiler/Escape.antt =====
-- `escape` of path_compiler.cc and its two predicates.
use http_router.Base.{
  ℕ, ◌≡◌, refl, Bool, false, ◌||◌, [], ◌∷◌, ◌++◌, Bytes, codes, ◌==◌, if◌then◌else◌, arith,
  Bool-cases, inl, inr, ap, ◌∙◌,
}

-- The labels of a `switch`
unfoldable pub one_of : Bytes → ℕ → Bool
one_of [] c = false
one_of (l ∷ ls) c = l == c || one_of ls c

unfoldable pub is_string : ℕ → Bool
unfolding one_of
is_string = one_of (codes ".+*?=^!${}()[]:|/\\")

unfoldable pub is_group : ℕ → Bool
unfolding one_of
is_group = one_of (codes "=!:$/()")

unfoldable pub escape : (ℕ → Bool) → Bytes → Bytes
escape checker [] = []
escape checker (c ∷ s) = (if checker c then b'\\' ∷ c ∷ [] else c ∷ []) ++ escape checker s

abbrev pub escape_string : Bytes → Bytes
escape_string = escape is_string

abbrev pub escape_group : Bytes → Bytes
escape_group = escape is_group

-- Reading an escaped text back: a backslash stands for the byte behind it.
pub unescape : Bytes → Bytes
unescape [] = []
unescape (c ∷ []) = c ∷ []
unescape (c ∷ d ∷ s) =
    let plain = c ∷ unescape (d ∷ s) in
    let escaped = d ∷ unescape s in if c == b'\\' then escaped else plain

unescape_plain : (c : ℕ) (s : Bytes) → (c == b'\\') ≡ false → unescape (c ∷ s) ≡ c ∷ unescape s
unfolding unescape
unescape_plain c [] h = refl
unescape_plain c (d ∷ s) h = rw h

is_string_plain : (c : ℕ) → is_string c ≡ false → (c == b'\\') ≡ false
unfolding is_string
is_string_plain c h = ground arith

-- Every special byte of the text is escaped, so reading the escaped text gives the text back.
pub unescape-escape_string : (s : Bytes) → unescape (escape_string s) ≡ s
unfolding escape unescape
unescape-escape_string [] = refl
unescape-escape_string (c ∷ s) = elim (Bool-cases (is_string c)) [
  | inl e ↦ rw e (ap (◌∷◌ c) (unescape-escape_string s))
  | inr e ↦ rw e (
      unescape_plain c (escape_string s) (is_string_plain c e)
      ∙ ap (◌∷◌ c) (unescape-escape_string s))
]

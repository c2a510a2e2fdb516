-- ===== src/Masks/Written.antt =====
-- The written form of a plain mask, and what `path_regex` of path_compiler.cc finds in it.
pub mod Scanned
use http_router.Base.{
  ℕ, zero, suc, ◌+◌, ◌-◌, ◌<◌, ◌≡◌, refl, sym, ap, subst, ◌∙◌, Bool, true, false, not, ◌&&◌, ◌||◌,
  Option, none, some, List, [], ◌∷◌, ◌++◌, map, arith, Bytes, codes, All, length, length-append,
  append-nil, append_assoc, equal, isalnum, ◌==◌, if◌then◌else◌, Bool-cases, inl, inr,
}
use http_router.PathCompiler.Key.{Key, KeyName, text, index, as_string}
use http_router.PathCompiler.Escape.{one_of, escape}
use http_router.PathCompiler.Mask.{
  is_word, word_run, group_at, modifier_at, Found, named_at, body_at, param, match_at, Scan, flush,
  key_of, pattern_of, push_key, scan, start, parse_matcher, is_empty, next_of,
}
use http_router.Masks.Reading.{add}
use http_router.Masks.Compiled.{add_lem}
use http_router.Masks.Pieces.{
  Separator, bare, slash, dot, Piece, literal, parameter, prefix_of, key_of_piece,
}

abbrev pub written : List Piece → Bytes
written [] = []
written (literal s ∷ ps) = s ++ written ps
written (parameter (text name) sep partial ∷ ps) = prefix_of sep ++ (b':' ∷ (name ++ written ps))
written (parameter (index i) sep partial ∷ ps) = []

-- A byte that stands for itself
unfoldable pub is_plain : ℕ → Bool
unfolding one_of
is_plain c = not (one_of (codes "\\:(*") c)

-- A text with which a parameter may go on behind its prefix
unfoldable pub may_open : Bytes → Bool
unfolding one_of
may_open [] = false
may_open (c ∷ s) = one_of (codes ":(*") c

-- A text that ends the name of a parameter and is no modifier
unfoldable pub is_behind : Bytes → Bool
unfolding one_of is_word
is_behind [] = true
is_behind (c ∷ s) = not (is_word c || one_of (codes "(+*?") c)

-- No two literals in a row
abbrev pub Fresh : Bytes → List Piece → Type 0
Fresh (c ∷ path) (literal s ∷ ps) = ⊥
Fresh path ps = Unit {0}

abbrev pub IsWritten : List Piece → Type 0
IsWritten [] = Unit {0}
IsWritten (literal [] ∷ ps) = ⊥
IsWritten (literal (c ∷ s) ∷ ps) =
    All (λ d. is_plain d ≡ true) (c ∷ s) × Fresh (c ∷ s) ps × IsWritten ps
IsWritten (parameter (text []) sep partial ∷ ps) = ⊥
IsWritten (parameter (text (c ∷ name)) bare partial ∷ ps) = ⊥
IsWritten (parameter (text (c ∷ name)) sep partial ∷ ps) =
    All (λ d. is_word d ≡ true) (c ∷ name)
    × (is_behind (written ps) ≡ true)
    × (partial ≡ not (is_empty (written ps)))
    × IsWritten ps
IsWritten (parameter (index i) sep partial ∷ ps) = ⊥

pub match_at-plain :
    (c : ℕ) (s : Bytes) → is_plain c ≡ true → may_open s ≡ false → match_at (c ∷ s) ≡ none
unfolding match_at body_at is_plain may_open
match_at-plain c [] h e = ground arith
match_at-plain c (d ∷ s) h e = ground arith

word_run-name :
    (name rest : Bytes)
    → All (λ d. is_word d ≡ true) name
    → is_behind rest ≡ true
    → word_run (name ++ rest) ≡ (name, rest)
unfolding word_run is_behind
word_run-name [] [] h e = refl
word_run-name [] (c ∷ rest) h e = elim (Bool-cases (is_word c)) [
  | inl f ↦ absurd (ground arith)
  | inr f ↦ rw f refl
]
word_run-name (c ∷ name) rest (w, h) e = rw (w, word_run-name name rest h e) refl

group_at-behind : (rest : Bytes) → is_behind rest ≡ true → group_at rest ≡ none
unfolding group_at is_behind
group_at-behind [] e = refl
group_at-behind (c ∷ rest) e = ground arith

modifier_at-behind : (rest : Bytes) → is_behind rest ≡ true → modifier_at rest ≡ ([], rest)
unfolding modifier_at is_behind
modifier_at-behind [] e = refl
modifier_at-behind (c ∷ rest) e = ground arith

-- What is found at a parameter
abbrev pub named : Separator → Bytes → Found
named sep name = record {
  prefix = prefix_of sep;
  name = name;
  capture = [];
  group = [];
  modifier = [];
  asterisk = false;
}

named_at-name :
    (sep : Separator) (c : ℕ) (name rest : Bytes)
    → is_behind rest ≡ true
    → named_at (prefix_of sep) (c ∷ name, rest) ≡ some (named sep (c ∷ name), rest)
unfolding named_at
named_at-name sep c name rest e = rw (group_at-behind rest e, modifier_at-behind rest e) refl

body_at-name :
    (sep : Separator) (c : ℕ) (name rest : Bytes)
    → All (λ d. is_word d ≡ true) (c ∷ name)
    → is_behind rest ≡ true
    → body_at (prefix_of sep) (b':' ∷ ((c ∷ name) ++ rest)) ≡ some (named sep (c ∷ name), rest)
unfolding body_at
body_at-name sep c name rest w e =
    ap (named_at (prefix_of sep)) (word_run-name (c ∷ name) rest w e)
    ∙ named_at-name sep c name rest e

pub match_at-name :
    (sep : Separator) (c : ℕ) (name rest : Bytes)
    → All (λ d. is_word d ≡ true) (c ∷ name)
    → is_behind rest ≡ true
    → match_at (prefix_of sep ++ (b':' ∷ ((c ∷ name) ++ rest)))
      ≡ some (param (named sep (c ∷ name)), rest)
unfolding match_at
match_at-name bare c name rest w e = rw (body_at-name bare c name rest w e) refl
match_at-name slash c name rest w e = rw (body_at-name slash c name rest w e) refl
match_at-name dot c name rest w e = rw (body_at-name dot c name rest w e) refl

pub key_of-name :
    (sep : Separator) (name rest : Bytes)
    → (sep ≡ bare → ⊥)
    → key_of (named sep name) rest (text name)
      ≡ key_of_piece (parameter (text name) sep (not (is_empty rest)))
unfolding key_of pattern_of escape equal
key_of-name bare name rest h = absurd (h refl)
key_of-name slash name [] h = refl
key_of-name slash name (c ∷ rest) h = refl
key_of-name dot name [] h = refl
key_of-name dot name (c ∷ rest) h = refl

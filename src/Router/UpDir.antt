-- ===== src/Router/UpDir.antt =====
-- What `has_up_dir` finds.
use http_router.Base.{
  ℕ, ◌≡◌, refl, sym, ◌∙◌, Bool, false, ◌&&◌, ◌||◌, List, [], ◌∷◌, arith, Bytes, codes, equal,
  starts_with, ends_with, contains, ◌==◌, if◌then◌else◌, Bool-cases, inl, inr,
}
use http_router.Router.{has_up_dir}

abbrev pub onto_first : ℕ → List Bytes → List Bytes
onto_first c [] = (c ∷ []) ∷ []
onto_first c (s ∷ ss) = (c ∷ s) ∷ ss

-- A path cut at its slashes
unfoldable pub segments : Bytes → List Bytes
segments [] = [] ∷ []
segments (c ∷ s) = let more = segments s in if c == b'/' then [] ∷ more else onto_first c more

abbrev pub is_up : Bytes → Bool
is_up s = equal s (codes "..")

abbrev pub any_up : List Bytes → Bool
any_up [] = false
any_up (s ∷ ss) = is_up s || any_up ss

abbrev pub tail : List Bytes → List Bytes
tail [] = []
tail (s ∷ ss) = ss

head : List Bytes → Bytes
head [] = []
head (s ∷ ss) = s

tail_onto : (c : ℕ) (ss : List Bytes) → any_up (tail (onto_first c ss)) ≡ any_up (tail ss)
tail_onto c [] = refl
tail_onto c (s ∷ ss) = refl

first_segment : Bytes → Bytes
first_segment [] = []
first_segment (c ∷ s) = let more = first_segment s in if c == b'/' then [] else c ∷ more

any_up-segments :
    (s : Bytes) → any_up (segments s) ≡ is_up (first_segment s) || any_up (tail (segments s))
unfolding segments first_segment
any_up-segments [] = refl
any_up-segments (c ∷ s) = elim (Bool-cases (c == b'/')) [
  | inl e ↦ rw e refl
  | inr e ↦ rw e (onto c (segments s) (first_segment s) (head-first s))
]
  where
    head-first : (s : Bytes) → (ss : List Bytes) × (segments s ≡ first_segment s ∷ ss)
    head-first [] = ([], refl)
    head-first (c ∷ s) = elim (Bool-cases (c == b'/')) [
      | inl e ↦ (segments s, rw e refl)
      | inr e ↦ let (ss, h) = head-first s in (ss, rw (e, h) refl)
    ]

    onto :
        (c : ℕ) (all : List Bytes) (s : Bytes)
        → (ss : List Bytes) × (all ≡ s ∷ ss)
        → any_up (onto_first c all) ≡ is_up (c ∷ s) || any_up (tail (onto_first c all))
    onto c all s (ss, e) = rw e refl

-- A segment `..` opens where the slash at the head of a text is.
abbrev pub up_at : Bytes → Bool
up_at s = equal s (codes "/..") || starts_with (codes "/../") s

up_at-cons : (c : ℕ) (s : Bytes) → up_at (c ∷ s) ≡ (c == b'/') && is_up (first_segment s)
unfolding equal starts_with first_segment
up_at-cons c [] = ground arith
up_at-cons c (d ∷ []) = ground arith
up_at-cons c (d ∷ e ∷ []) = ground arith
up_at-cons c (d ∷ e ∷ f ∷ s) = ground arith

pub has_up_dir-cons : (c : ℕ) (s : Bytes) → has_up_dir (c ∷ s) ≡ up_at (c ∷ s) || has_up_dir s
unfolding has_up_dir ends_with contains
has_up_dir-cons c s = ground arith

-- `has_up_dir` finds exactly the paths of which a segment behind their first slash is `..`, whether
-- it is the last one or not.
pub has_up_dir-segments : (s : Bytes) → has_up_dir s ≡ any_up (tail (segments s))
unfolding segments
has_up_dir-segments [] = unfold has_up_dir in refl
has_up_dir-segments (c ∷ s) =
    has_up_dir-cons c s
    ∙ rw (up_at-cons c s, has_up_dir-segments s)
        (elim (Bool-cases (c == b'/')) [
          | inl e ↦ rw e (sym (any_up-segments s))
          | inr e ↦ rw e (sym (tail_onto c (segments s)))
        ])

-- ===== src/Router/Prefixes.antt =====
-- Which paths a filter's prefix covers.
use http_router.Base.{
  ℕ, ◌≡◌, ◌⊎◌, ◌↔◌, inl, inr, refl, ap, sym, ◌∙◌, Bool, true, false, ◌||◌, some, [], ◌∷◌, ◌++◌,
  arith, Bytes, starts_with, ◌==◌, Bool-cases, last, drop_last, split_last, last-append, last-cons,
  length, length-append, get_or, ==_iff,
}
use mathlib.Core.List.{append_cancel_left}
use http_router.Router.{prefixes, continues}

starts_with-cut : (p s : Bytes) → starts_with p s ≡ true → (rest : Bytes) × (s ≡ p ++ rest)
unfolding starts_with
starts_with-cut [] s h = (s, refl)
starts_with-cut (c ∷ p) [] h = cc
starts_with-cut (c ∷ p) (d ∷ s) h =
    let (rest, e) = starts_with-cut p s (ground arith) in (rest, ground (arith, e, h))

starts_with-append : (p rest : Bytes) → starts_with p (p ++ rest) ≡ true
unfolding starts_with
starts_with-append [] rest = refl
starts_with-append (c ∷ p) rest = ground (arith, starts_with-append p rest)

get_or-length : (p s : Bytes) (c : ℕ) → get_or (p ++ (c ∷ s)) (length p) 0 ≡ c
get_or-length [] s c = refl
get_or-length (d ∷ p) s c = get_or-length p s c

-- The path is the prefix, or goes on behind it in a segment of its own: with a slash, or behind
-- the slash that the prefix ends in.
abbrev pub GoesOn : Bytes → Bytes → Type 0
GoesOn p rest =
    (rest ≡ []) ⊎ ((t : Bytes) × (rest ≡ b'/' ∷ t)) ⊎ ((q : Bytes) × (p ≡ q ++ (b'/' ∷ [])))

abbrev pub IsUnder : Bytes → Bytes → Type 0
IsUnder p s = (rest : Bytes) × (s ≡ p ++ rest) × GoesOn p rest

prefixes_other :
    (c : ℕ) (p s : Bytes) → starts_with (c ∷ p) s ≡ false → prefixes (c ∷ p) s ≡ some false
unfolding prefixes
prefixes_other c p s h = ground (arith, h)

prefixes_same : (c : ℕ) (p : Bytes) → prefixes (c ∷ p) ((c ∷ p) ++ []) ≡ some true
unfolding prefixes
prefixes_same c p = ground (arith, starts_with-append (c ∷ p) [], length-append (c ∷ p) [])

continues_lem :
    (p : Bytes) (d : ℕ) (r : Bytes) (x : ℕ)
    → last p ≡ some x
    → continues p (p ++ (d ∷ r)) ≡ some (d == b'/' || x == b'/')
continues_lem p d r x h = rw (h, get_or-length p r d) refl

prefixes_more :
    (c : ℕ) (p : Bytes) (d : ℕ) (r : Bytes) (x : ℕ)
    → last (c ∷ p) ≡ some x
    → prefixes (c ∷ p) ((c ∷ p) ++ (d ∷ r)) ≡ some (d == b'/' || x == b'/')
unfolding prefixes
prefixes_more c p d r x h = ground (
  arith,
  starts_with-append (c ∷ p) (d ∷ r),
  length-append (c ∷ p) (d ∷ r),
  continues_lem (c ∷ p) d r x h,
)

or-cases : (a b : Bool) → (a || b) ≡ true → (a ≡ true) ⊎ (b ≡ true)
or-cases true b e = inl refl
or-cases false b e = inr e

module _ (p : Bytes) (d : ℕ) (r : Bytes) (x : ℕ) (h : last p ≡ some x) where
  goes_on_there : (d == b'/' || x == b'/') ≡ true → IsUnder p (p ++ (d ∷ r))
  goes_on_there e = elim (or-cases (d == b'/') (x == b'/') e) [
    | inl slash ↦ (d ∷ r, refl, inr (inl (r, ap (λ c. c ∷ r) ((==_iff d b'/').0 slash))))
    | inr slash ↦ (
      d ∷ r,
      refl,
      inr (
          inr (
            drop_last p,
            sym (split_last p x h) ∙ ap (λ c. drop_last p ++ (c ∷ [])) ((==_iff x b'/').0 slash),
          )),
    )
  ]

  ends_at : (rest : Bytes) → d ∷ r ≡ rest → GoesOn p rest → (d == b'/' || x == b'/') ≡ true
  ends_at rest e (inl none_left) = absurd (omega (arith, ap length (e ∙ none_left)))
  ends_at rest e (inr (inl (t, slash))) = ground (arith, e ∙ slash)
  ends_at rest e (inr (inr (q, slash))) = ground (arith, sym h ∙ ap last slash ∙ last-append q b'/')

  goes_on : ((d == b'/' || x == b'/') ≡ true) ↔ IsUnder p (p ++ (d ∷ r))
  goes_on = (goes_on_there, (λ (rest, e, k). ends_at rest (append_cancel_left p (d ∷ r) rest e) k))

not_under : (p s : Bytes) → starts_with p s ≡ false → IsUnder p s → ⊥
not_under p s h (rest, e, k) = cc (rw e at h, starts_with-append p rest)

-- For a path that begins with a slash, as each that `handle_request` lets pass does, `prefixes` is
-- defined for every prefix, the empty one included, and it holds exactly for the paths under the
-- prefix, cut at the ends of segments.
pub prefixes-IsUnder :
    (p s : Bytes)
    → (covered : Bool) × (prefixes p (b'/' ∷ s) ≡ some covered)
      × ((covered ≡ true) ↔ IsUnder p (b'/' ∷ s))
prefixes-IsUnder [] s = (
  true,
  (unfold prefixes starts_with in refl),
  ((λ e. (b'/' ∷ s, refl, inr (inl (s, refl)))), (λ u. refl)),
)
prefixes-IsUnder (c ∷ p) s = elim (Bool-cases (starts_with (c ∷ p) (b'/' ∷ s))) [
  | inr n ↦ (
    false,
    prefixes_other c p (b'/' ∷ s) n,
    ((λ e. cc), (λ u. absurd (not_under (c ∷ p) (b'/' ∷ s) n u))),
  )
  | inl h ↦ let (rest, e) = starts_with-cut (c ∷ p) (b'/' ∷ s) h in rw e (at_cut c p rest)
]
  where
    at_cut :
        (c : ℕ) (p rest : Bytes)
        → (covered : Bool) × (prefixes (c ∷ p) ((c ∷ p) ++ rest) ≡ some covered)
          × ((covered ≡ true) ↔ IsUnder (c ∷ p) ((c ∷ p) ++ rest))
    at_cut c p [] = (true, prefixes_same c p, ((λ e. ([], refl, inl refl)), (λ u. refl)))
    at_cut c p (d ∷ r) =
        let (x, h) = last-cons c p in (_, prefixes_more c p d r x h, goes_on (c ∷ p) d r x h)

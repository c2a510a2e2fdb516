-- ===== src/StaticFiles/Resolve.antt =====
-- Which file a path stands for.
use http_router.Base.{
  ℕ, suc, ◌≡◌, ◌≢◌, refl, sym, ap, ◌∙◌, Bool, true, false, ◌||◌, Option, none, some, List, [], ◌∷◌,
  ◌++◌, append-nil, append_assoc, arith, Bytes, codes, equal, starts_with, length, length-append,
  drop, ltb, ◌==◌, if◌then◌else◌, ◌>>=◌, Bool-cases, inl, inr, last, last-cons, drop_last,
}
use http_router.PathCompiler.Describe.{ends_in_slash}
use http_router.PathCompiler.Describe.Captures.{slash_last}
use http_router.Router.{has_up_dir}
use http_router.Router.UpDir.{segments, any_up, has_up_dir-cons, has_up_dir-segments}
use http_router.StaticFiles.{resource_at, resource_from, path_append, path_for}

resource_at-inside : (p t : Bytes) → resource_at (p ++ (b'/' ∷ t)) (suc (length p)) ≡ some t
unfolding resource_at
resource_at-inside p t = rw (fits p t, dropped p t) refl
  where
    fits : (p t : Bytes) → ltb (length (p ++ (b'/' ∷ t))) (suc (length p)) ≡ false
    fits p t = ground (arith, length-append p (b'/' ∷ t))

    dropped : (p t : Bytes) → drop (suc (length p)) (p ++ (b'/' ∷ t)) ≡ t
    dropped [] t = refl
    dropped (c ∷ p) t = dropped p t

last-append_cons : (p : Bytes) (c : ℕ) (t : Bytes) → last (p ++ (c ∷ t)) ≡ last (c ∷ t)
unfolding last
last-append_cons [] c t = refl
last-append_cons (d ∷ []) c t = refl
last-append_cons (d ∷ e ∷ p) c t = last-append_cons (e ∷ p) c t

-- The name of the page behind a path that ends in a slash
abbrev pub page : Bytes → Bytes
page path = if ends_in_slash path then codes "index.html" else []

resource_from-some :
    (path prefix t : Bytes) (c : ℕ)
    → resource_at path (suc (length prefix)) ≡ some t
    → last path ≡ some c
    → resource_from path prefix ≡ some (if c == b'/' then t ++ codes "index.html" else t)
unfolding resource_from
resource_from-some path prefix t c e f = rw (e, f, resource_from) refl

page_with :
    (t : Bytes) (c : ℕ)
    → last (b'/' ∷ t) ≡ some c
    → (if c == b'/' then t ++ codes "index.html" else t) ≡ t ++ page (b'/' ∷ t)
unfolding ends_in_slash
page_with t c e = rw (e, ends_in_slash) (added (c == b'/'))
  where
    added :
        (b : Bool)
        → (if b then t ++ codes "index.html" else t) ≡ t ++ (if b then codes "index.html" else [])
    added true = refl
    added false = sym (append-nil t)

pub resource_from-inside :
    (p t : Bytes) → resource_from (p ++ (b'/' ∷ t)) p ≡ some (t ++ page (b'/' ∷ t))
resource_from-inside p t =
    let (c, e) = last-cons b'/' t in
    resource_from-some (p ++ (b'/' ∷ t)) p t c (resource_at-inside p t)
      (last-append_cons p b'/' t ∙ e)
    ∙ ap some (page_with t c e)

resource_from_same : (p : Bytes) → resource_from p p ≡ none
unfolding resource_from resource_at
resource_from_same p = ground arith

-- The file that a path stands for
abbrev pub resolved : Bytes → Bytes → Bytes → Option Bytes
resolved root path prefix = do resource ← resource_from path prefix; some (path_for root resource)

not_empty : (root : Bytes) → root ≢ [] → (length root == 0) ≡ false
not_empty [] h = absurd (h refl)
not_empty (c ∷ root) h = ground arith

path_append-cons :
    (root : Bytes) (c : ℕ) (s : Bytes)
    → root ≢ []
    → ends_in_slash root ≡ false
    → path_append root (c ∷ s) ≡ (if c == b'/' then c ∷ s else root ++ (b'/' ∷ c ∷ s))
unfolding path_append
path_append-cons root c s h plain = rw (not_empty root h, plain) refl

starts_slash : (c : ℕ) (t : Bytes) → starts_with (codes "/") (c ∷ t) ≡ (c == b'/')
unfolding starts_with
starts_slash c t = ground arith

page_slash : page (b'/' ∷ []) ≡ codes "index.html"
unfolding ends_in_slash last
page_slash = refl

-- For a path below the prefix of the filter, the rest of the path behind the slash is looked up under
-- the root, with `index.html` behind a path that ends in a slash. Where the rest begins with a
-- slash itself, it is looked up as it stands, outside of the root. A path that is the prefix
-- itself is `std::out_of_range`.
pub resolved-inside :
    (root p t : Bytes)
    → root ≢ []
    → ends_in_slash root ≡ false
    → (resolved root (p ++ (b'/' ∷ t)) p
        ≡ some (
            if starts_with (codes "/") t
            then t ++ page (b'/' ∷ t)
            else root ++ (b'/' ∷ (t ++ page (b'/' ∷ t)))))
      × (resolved root p p ≡ none)
unfolding starts_with
resolved-inside root p t rooted plain = (
  ap (λ o. o >>= (λ resource. some (path_for root resource))) (resource_from-inside p t)
      ∙ ap some (below t),
  ap (λ o. o >>= (λ resource. some (path_for root resource))) (resource_from_same p),
)
  where
    below :
        (t : Bytes)
        → path_for root (t ++ page (b'/' ∷ t)) ≡ (
            if starts_with (codes "/") t
            then t ++ page (b'/' ∷ t)
            else root ++ (b'/' ∷ (t ++ page (b'/' ∷ t))))
    below [] = rw page_slash (path_append-cons root b'i' (codes "ndex.html") rooted plain)
    below (c ∷ t) =
        path_append-cons root c (t ++ page (b'/' ∷ c ∷ t)) rooted plain
        ∙ ap
            (λ b.
              if b
              then c ∷ (t ++ page (b'/' ∷ c ∷ t))
              else root ++ (b'/' ∷ c ∷ (t ++ page (b'/' ∷ c ∷ t))))
            (sym (starts_slash c t))

index_plain : any_up (segments (codes "index.html")) ≡ false
unfolding segments equal
index_plain = refl

segments-cons : (s : Bytes) → (x : Bytes) × (xs : List Bytes) × (segments s ≡ x ∷ xs)
unfolding segments
segments-cons [] = ([], [], refl)
segments-cons (c ∷ s) = elim (Bool-cases (c == b'/')) [
  | inl e ↦ ([], segments s, rw e refl)
  | inr e ↦ let (x, xs, h) = segments-cons s in (c ∷ x, xs, rw (e, h) refl)
]

segments_slash : (s u : Bytes) → segments (s ++ (b'/' ∷ u)) ≡ segments s ++ segments u
unfolding segments
segments_slash [] u = refl
segments_slash (c ∷ s) u = elim (Bool-cases (c == b'/')) [
  | inl e ↦ rw e (ap (◌∷◌ []) (segments_slash s u))
  | inr e ↦ let (x, xs, h) = segments-cons s in rw (e, segments_slash s u, h) refl
]

any_up-append : (xs ys : List Bytes) → any_up (xs ++ ys) ≡ any_up xs || any_up ys
any_up-append [] ys = refl
any_up-append (x ∷ xs) ys = ground (arith, any_up-append xs ys)

has_up_dir_behind : (p s : Bytes) → has_up_dir (p ++ s) ≡ false → has_up_dir s ≡ false
has_up_dir_behind [] s h = h
has_up_dir_behind (c ∷ p) s h =
    has_up_dir_behind p s (ground (arith, h, has_up_dir-cons c (p ++ s)))

below_up : (t : Bytes) → has_up_dir (b'/' ∷ t) ≡ any_up (segments t)
below_up t = has_up_dir-segments (b'/' ∷ t) ∙ (unfold segments in refl)

ends_skip : (d c : ℕ) (t : Bytes) → ends_in_slash (d ∷ c ∷ t) ≡ ends_in_slash (c ∷ t)
unfolding ends_in_slash last
ends_skip d c t = refl

or_false : (a b : Bool) → (a || b) ≡ false → a ≡ false
or_false true b e = e
or_false false b e = refl

behind_slash :
    (t : Bytes)
    → drop_last t ++ (b'/' ∷ []) ≡ t
    → any_up (segments t) ≡ false
    → any_up (segments (t ++ codes "index.html")) ≡ false
behind_slash t e h =
    ap (λ s. any_up (segments (s ++ codes "index.html"))) (sym e)
    ∙ ap (λ s. any_up (segments s)) (append_assoc (drop_last t) (b'/' ∷ []) (codes "index.html"))
    ∙ ap any_up (segments_slash (drop_last t) (codes "index.html"))
    ∙ any_up-append (segments (drop_last t)) (segments (codes "index.html"))
    ∙ rw (index_plain, front) refl
  where
    front : any_up (segments (drop_last t)) ≡ false
    front = or_false _ _ (
        sym (any_up-append (segments (drop_last t)) (segments []))
        ∙ ap any_up (sym (segments_slash (drop_last t) []))
        ∙ ap (λ s. any_up (segments s)) e
        ∙ h)

page_up :
    (t : Bytes) → any_up (segments t) ≡ false → any_up (segments (t ++ page (b'/' ∷ t))) ≡ false
page_up t h = elim (Bool-cases (ends_in_slash (b'/' ∷ t))) [
  | inr e ↦ rw (e, append-nil t) h
  | inl e ↦ rw e (at_slash t h e)
]
  where
    at_slash :
        (t : Bytes)
        → any_up (segments t) ≡ false
        → ends_in_slash (b'/' ∷ t) ≡ true
        → any_up (segments (t ++ codes "index.html")) ≡ false
    at_slash [] h e = index_plain
    at_slash (c ∷ t) h e =
        behind_slash (c ∷ t) (slash_last (c ∷ t) (sym (ends_skip b'/' c t) ∙ e)) h

-- A file below the prefix of the filter never has a segment `..`, the page of a directory included,
-- where the whole path has none behind its first slash.
pub any_up-resource_from :
    (p t : Bytes)
    → has_up_dir (p ++ (b'/' ∷ t)) ≡ false
    → (r : Bytes) × (resource_from (p ++ (b'/' ∷ t)) p ≡ some r) × (any_up (segments r) ≡ false)
any_up-resource_from p t h = (
  t ++ page (b'/' ∷ t),
  resource_from-inside p t,
  page_up t (sym (below_up t) ∙ has_up_dir_behind p (b'/' ∷ t) h),
)

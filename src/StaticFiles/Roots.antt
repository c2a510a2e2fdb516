-- ===== src/StaticFiles/Roots.antt =====
-- Which of several roots a file is taken from.
use http_router.Base.{
  ℕ, ◌≤◌, ◌≡◌, ◌⊎◌, refl, Option, none, some, List, [], ◌∷◌, ◌++◌, arith, Bytes, leb, Bool-cases,
  Option-cases, inl, inr, All, All-append, append-nil, append_assoc, subst,
}
use http_router.Beast.{Beast}
use http_router.StaticFiles.{FileSystem, path_append, earlier, expand_from, expand}

module _ (b : Beast) (fs : FileSystem b) (filename : Bytes) where
  -- The candidate under a root has no time, or none before the time at hand.
  abbrev pub NotBefore : ℕ → Option ℕ → Type 0
  NotBefore best none = Unit {0}
  NotBefore best (some mtime) = best ≤ mtime

  abbrev time_at : Bytes → Option ℕ
  time_at root = fs.last_write_time (path_append root filename)

  -- The path is the candidate under one of the roots.
  abbrev pub IsUnderOne : Bytes → List Bytes → Type 0
  IsUnderOne path [] = ⊥
  IsUnderOne path (root ∷ roots) = (path ≡ path_append root filename) ⊎ IsUnderOne path roots

  abbrev pub IsLeast : Option (ℕ × Bytes) → List Bytes → Type 0
  IsLeast none roots = All (λ root. time_at root ≡ none) roots
  IsLeast (some (mtime, path)) roots =
      (fs.last_write_time path ≡ some mtime)
      × IsUnderOne path roots
      × All (λ root. NotBefore mtime (time_at root)) roots

  IsUnderOne-append :
      (path : Bytes) (xs ys : List Bytes)
      → IsUnderOne path xs ⊎ IsUnderOne path ys
      → IsUnderOne path (xs ++ ys)
  IsUnderOne-append path [] ys (inl h) = absurd h
  IsUnderOne-append path [] ys (inr h) = h
  IsUnderOne-append path (x ∷ xs) ys (inl (inl h)) = inl h
  IsUnderOne-append path (x ∷ xs) ys (inl (inr h)) = inr (IsUnderOne-append path xs ys (inl h))
  IsUnderOne-append path (x ∷ xs) ys (inr h) = inr (IsUnderOne-append path xs ys (inr h))

  none_before :
      (mtime : ℕ) (roots : List Bytes)
      → All (λ root. time_at root ≡ none) roots
      → All (λ root. NotBefore mtime (time_at root)) roots
  none_before mtime [] h = tt
  none_before mtime (root ∷ roots) h = (rw h.0 tt, none_before mtime roots h.1)

  later_ones :
      (m n : ℕ) (roots : List Bytes)
      → m ≤ n
      → All (λ root. NotBefore n (time_at root)) roots
      → All (λ root. NotBefore m (time_at root)) roots
  later_ones m n [] le h = tt
  later_ones m n (root ∷ roots) le h = (go (time_at root) h.0, later_ones m n roots le h.1)
    where
      go : (o : Option ℕ) → NotBefore n o → NotBefore m o
      go none k = tt
      go (some t) k = omega (arith, le, k)

  earlier-IsLeast :
      (root : Bytes) (seen : List Bytes) (best : Option (ℕ × Bytes)) (time : Option ℕ)
      → time_at root ≡ time
      → IsLeast best seen
      → IsLeast (earlier b fs (path_append root filename) time best) (seen ++ (root ∷ []))
  earlier-IsLeast root seen none none e h = All-append _ seen (root ∷ []) h (e, tt)
  earlier-IsLeast root seen (some (m, path)) none e (known, under, least) = (
    known,
    IsUnderOne-append path seen (root ∷ []) (inl under),
    All-append _ seen (root ∷ []) least (rw e tt, tt),
  )
  earlier-IsLeast root seen none (some t) e h = (
    e,
    IsUnderOne-append _ seen (root ∷ []) (inr (inl refl)),
    All-append _ seen (root ∷ []) (none_before t seen h) (rw e (omega arith), tt),
  )
  earlier-IsLeast root seen (some (m, path)) (some t) e (known, under, least) =
      elim (Bool-cases (leb m t)) [
        | inl le ↦ rw le (
          known,
          IsUnderOne-append path seen (root ∷ []) (inl under),
          All-append _ seen (root ∷ []) least (rw e (ground (arith, le)), tt),
        )
        | inr gt ↦ rw gt (
          e,
          IsUnderOne-append _ seen (root ∷ []) (inr (inl refl)),
          All-append _ seen (root ∷ []) (later_ones t m seen (ground (arith, gt)) least)
              (rw e (omega arith), tt),
        )
      ]

  expand_from-IsLeast :
      (roots seen : List Bytes) (best : Option (ℕ × Bytes))
      → IsLeast best seen
      → IsLeast (expand_from b fs roots filename best) (seen ++ roots)
  unfolding expand_from
  expand_from-IsLeast [] seen best h = rw (append-nil seen) h
  expand_from-IsLeast (root ∷ roots) seen best h =
      subst (IsLeast (expand_from b fs (root ∷ roots) filename best))
        (append_assoc seen (root ∷ []) roots)
        (expand_from-IsLeast roots (seen ++ (root ∷ [])) _
          (earlier-IsLeast root seen best (time_at root) refl h))

  -- With one root at least, `expand` gives a path under one of the roots: of those that have a time
  -- of modification one with the least, so that the oldest file wins; and where none has one, the
  -- path under the first root.
  pub expand-IsLeast :
      (root : Bytes) (roots : List Bytes)
      → (path : Bytes) × (expand b fs (root ∷ roots) filename ≡ some path)
        × (((mtime : ℕ) × IsLeast (some (mtime, path)) (root ∷ roots))
            ⊎ (IsLeast none (root ∷ roots) × (path ≡ path_append root filename)))
  unfolding expand
  expand-IsLeast root roots =
      let least = expand_from-IsLeast (root ∷ roots) [] none tt in
      elim (Option-cases (expand_from b fs (root ∷ roots) filename none)) [
        | inl e ↦ (path_append root filename, rw (e, expand) refl, inr (rw e at least, refl))
        | inr ((mtime, path), e) ↦ (path, rw (e, expand) refl, inl (mtime, rw e at least))
      ]

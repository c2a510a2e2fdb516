-- ===== src/Router/Config/Maps.antt =====
-- The maps from a verb that `router::cfg` of router.cc keeps, as association lists.
use http_router.Base.{
  ◌≡◌, refl, sym, ap, ◌∙◌, false, List, [], ◌∷◌, ◌++◌, append-nil, arith, equal, equal_iff,
  if◌then◌else◌, Bool-cases, inl, inr,
}
use http_router.Beast.{Verb}
use http_router.Router.Config.{at_verb}

-- What a map holds for a verb, and all that a walk over the map meets for it.
abbrev pub at : {A : Type 0} → Verb → List (Verb × List A) → List A
at verb [] = []
at verb ((v, xs) ∷ entries) = if equal v verb then xs else at verb entries

abbrev pub met : {A : Type 0} → Verb → List (Verb × List A) → List A
met verb [] = []
met verb ((v, xs) ∷ entries) = if equal v verb then xs ++ met verb entries else met verb entries

-- Each verb has one entry at most.
abbrev pub IsMap : {A : Type 0} → List (Verb × List A) → Type 0
IsMap [] = Unit
IsMap ((v, xs) ∷ entries) = (met v entries ≡ []) × IsMap entries

module _ {A : Type 0} (key : Verb) (change : List A → List A) where
  pub at-at_verb :
      (verb : Verb) (entries : List (Verb × List A))
      → at verb (at_verb key change entries)
        ≡ (if equal key verb then change (at verb entries) else at verb entries)
  unfolding at_verb
  at-at_verb verb [] = refl
  at-at_verb verb ((v, xs) ∷ entries) =
      ground (arith, equal_iff v key, equal_iff v verb, equal_iff key verb, at-at_verb verb entries)

  met-at_verb_other :
      (verb : Verb) (entries : List (Verb × List A))
      → equal key verb ≡ false
      → met verb (at_verb key change entries) ≡ met verb entries
  unfolding at_verb
  met-at_verb_other verb [] e = rw e refl
  met-at_verb_other verb ((v, xs) ∷ entries) e = ground (
    arith,
    equal_iff v key,
    equal_iff v verb,
    equal_iff key verb,
    met-at_verb_other verb entries e,
  )

  pub at_verb-IsMap :
      (entries : List (Verb × List A)) → IsMap entries → IsMap (at_verb key change entries)
  unfolding at_verb
  at_verb-IsMap [] h = (refl, tt)
  at_verb-IsMap ((v, xs) ∷ entries) h = elim (Bool-cases (equal v key)) [
    | inl e ↦ rw e h
    | inr e ↦ rw e (
      met-at_verb_other v entries (ground (arith, equal_iff v key, equal_iff key v)) ∙ h.0,
      at_verb-IsMap entries h.1,
    )
  ]

module _ {A : Type 0} (verb : Verb) where
  pub met-at : (entries : List (Verb × List A)) → IsMap entries → met verb entries ≡ at verb entries
  met-at [] h = refl
  met-at ((v, xs) ∷ entries) h = elim (Bool-cases (equal v verb)) [
    | inl e ↦ rw e (
        ap (◌++◌ xs) (ap (λ w. met w entries) (sym ((equal_iff v verb).0 e)) ∙ h.0) ∙ append-nil xs)
    | inr e ↦ rw e (met-at entries h.1)
  ]

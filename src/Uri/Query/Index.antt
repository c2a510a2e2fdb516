-- ===== src/Uri/Query/Index.antt =====
-- The index of a query agrees with its list, and the operations are those of a plain list of
-- parameters, whatever calls built the query.
use http_router.Base.{
  ℕ, zero, suc, ◌≡◌, refl, sym, ap, subst, ◌∙◌, inl, inr, Bool, true, false, Option, none, some,
  List, [], ◌∷◌, ◌++◌, arith, Bytes, length, if◌then◌else◌, equal, equal_iff, Option-cases,
}
use http_router.Uri.Query.{
  Param, Keys, Query, key_find, assign, key_erase, lower, lower_keys, modify, erase_at, update,
  remove,
}

-- The first place of a name in the list.
unfoldable pub position : Bytes → List Param → Option ℕ
position name [] = none
position name ((n, vs) ∷ ps) =
    if equal n name
    then some 0
    else (elim (position name ps) [ none ↦ none | some i ↦ some (suc i) ])

abbrev pub IsDistinct : List Param → Type 0
IsDistinct [] = Unit {0}
IsDistinct ((n, vs) ∷ ps) = (position n ps ≡ none) × IsDistinct ps

-- Each name stands in the list once, and the index holds its place, and nothing else.
pub record IsIndexed (q : Query) : Type 0 where
  pub places : (name : Bytes) → key_find name q.keys ≡ position name q.values
  pub distinct : IsDistinct q.values

-- The operations on the list alone.
unfoldable pub upsert : (List Bytes → List Bytes) → Bytes → List Param → List Param
upsert f name [] = (name, f []) ∷ []
upsert f name ((n, vs) ∷ ps) = if equal n name then (n, f vs) ∷ ps else (n, vs) ∷ upsert f name ps

unfoldable pub without : Bytes → List Param → List Param
without name [] = []
without name ((n, vs) ∷ ps) = if equal n name then ps else (n, vs) ∷ without name ps

key_find-assign :
    (name m : Bytes) (i : ℕ) (keys : Keys)
    → key_find m (assign name i keys) ≡ (if equal name m then some i else key_find m keys)
unfolding key_find assign
key_find-assign name m i [] = refl
key_find-assign name m i ((k, j) ∷ keys) =
    ground (arith, equal_iff k name, equal_iff k m, equal_iff name m, key_find-assign name m i keys)

modify-position :
    (f : List Bytes → List Bytes) (name : Bytes) (ps : List Param) (i : ℕ)
    → position name ps ≡ some i
    → modify i f ps ≡ upsert f name ps
unfolding position modify upsert
modify-position f name [] i e = cc
modify-position f name ((n, vs) ∷ ps) zero e = ground arith
modify-position f name ((n, vs) ∷ ps) (suc i) e = ground (arith, modify-position f name ps i)

pub upsert_fresh :
    (f : List Bytes → List Bytes) (name : Bytes) (ps : List Param)
    → position name ps ≡ none
    → upsert f name ps ≡ ps ++ ((name, f []) ∷ [])
unfolding position upsert
upsert_fresh f name [] e = refl
upsert_fresh f name ((n, vs) ∷ ps) e = ground (arith, upsert_fresh f name ps)

-- A new name goes to the end, and no other name moves.
abbrev placed : Option ℕ → Bool → ℕ → Option ℕ
placed (some i) same n = some i
placed none same n = if same then some n else none

position-upsert :
    (f : List Bytes → List Bytes) (name m : Bytes) (ps : List Param)
    → position m (upsert f name ps) ≡ placed (position m ps) (equal name m) (length ps)
unfolding position upsert
position-upsert f name m [] = refl
position-upsert f name m ((n, vs) ∷ ps) =
    ground (arith, equal_iff n name, equal_iff n m, equal_iff name m, position-upsert f name m ps)

upsert-IsDistinct :
    (f : List Bytes → List Bytes) (name : Bytes) (ps : List Param)
    → IsDistinct ps
    → IsDistinct (upsert f name ps)
unfolding upsert position
upsert-IsDistinct f name [] h = (refl, tt)
upsert-IsDistinct f name ((n, vs) ∷ ps) h = ground (
  arith,
  equal_iff n name,
  equal_iff name n,
  position-upsert f name n ps,
  upsert-IsDistinct f name ps h.1,
)

-- `remove` drops the name, and the places behind it move up by one.
abbrev moved : Bool → ℕ → Option ℕ → Option ℕ
moved true index place = none
moved false index none = none
moved false index (some i) = some (lower index i)

key_find_lowered :
    (index : ℕ) (name m : Bytes) (keys : Keys)
    → key_find m (lower_keys index (key_erase name keys))
      ≡ moved (equal name m) index (key_find m keys)
unfolding key_find key_erase lower_keys
key_find_lowered index name m [] = ground arith
key_find_lowered index name m ((k, j) ∷ keys) =
    ground
      (arith, equal_iff k name, equal_iff k m, equal_iff name m, key_find_lowered index name m keys)

erase_at-position :
    (name : Bytes) (ps : List Param) (i : ℕ)
    → position name ps ≡ some i
    → erase_at i ps ≡ without name ps
unfolding position erase_at without
erase_at-position name [] i e = cc
erase_at-position name ((n, vs) ∷ ps) zero e = ground arith
erase_at-position name ((n, vs) ∷ ps) (suc i) e = ground (arith, erase_at-position name ps i)

position-erase_at :
    (name m : Bytes) (ps : List Param) (i : ℕ)
    → IsDistinct ps
    → position name ps ≡ some i
    → position m (erase_at i ps) ≡ moved (equal name m) i (position m ps)
unfolding position erase_at
position-erase_at name m [] i h e = cc
position-erase_at name m ((n, vs) ∷ ps) zero h e =
    ground (arith, equal_iff n name, equal_iff n m, equal_iff name m)
position-erase_at name m ((n, vs) ∷ ps) (suc i) h e =
    ground
      (arith, equal_iff n name, equal_iff n m, equal_iff name m, position-erase_at name m ps i h.1)

position-without :
    (name m : Bytes) (ps : List Param) → position m ps ≡ none → position m (without name ps) ≡ none
unfolding position without
position-without name m [] e = refl
position-without name m ((n, vs) ∷ ps) e = ground (arith, position-without name m ps)

without-IsDistinct : (name : Bytes) (ps : List Param) → IsDistinct ps → IsDistinct (without name ps)
unfolding without
without-IsDistinct name [] h = tt
without-IsDistinct name ((n, vs) ∷ ps) h =
    ground (arith, without-IsDistinct name ps h.1, position-without name n ps h.0)

without_missing : (name : Bytes) (ps : List Param) → position name ps ≡ none → without name ps ≡ ps
unfolding position without
without_missing name [] e = refl
without_missing name ((n, vs) ∷ ps) e = ground (arith, without_missing name ps)

module _ (change : List Bytes → List Bytes) (fresh : List Bytes) (name : Bytes) (q : Query) where
  update_found :
      (i : ℕ)
      → key_find name q.keys ≡ some i
      → update change fresh name q ≡ record q { values = modify i change q.values }
  unfolding update
  update_found i e = rw (e, update)

  update_new :
      key_find name q.keys ≡ none
      → update change fresh name q ≡ record {
        values = q.values ++ ((name, fresh) ∷ []);
        keys = assign name (length q.values) q.keys;
      }
  unfolding update
  update_new e = rw (e, update)

module _ (q : Query) (h : IsIndexed q) where
  module _ (f : List Bytes → List Bytes) (name : Bytes) where
    pub update-values : (update f (f []) name q).values ≡ upsert f name q.values
    update-values = elim (Option-cases (key_find name q.keys)) [
      | inl e ↦
          ap (λ p. p.values) (update_new f (f []) name q e)
          ∙ sym (upsert_fresh f name q.values (sym (h.places name) ∙ e))
      | inr (i, e) ↦
          ap (λ p. p.values) (update_found f (f []) name q i e)
          ∙ modify-position f name q.values i (sym (h.places name) ∙ e)
    ]

    update-keys :
        (m : Bytes)
        → key_find m (update f (f []) name q).keys
          ≡ placed (key_find m q.keys) (equal name m) (length q.values)
    update-keys m = elim (Option-cases (key_find name q.keys)) [
      | inl e ↦
          ap (λ p. key_find m p.keys) (update_new f (f []) name q e)
          ∙ key_find-assign name m (length q.values) q.keys
          ∙ ground (arith, e, equal_iff name m)
      | inr (i, e) ↦
          ap (λ p. key_find m p.keys) (update_found f (f []) name q i e)
          ∙ ground (arith, e, equal_iff name m)
    ]

    pub update-IsIndexed : IsIndexed (update f (f []) name q)
    update-IsIndexed = record {
      places = λ m.
          update-keys m
          ∙ ap (λ o. placed o (equal name m) (length q.values)) (h.places m)
          ∙ sym (ap (position m) update-values ∙ position-upsert f name m q.values);
      distinct =
          subst IsDistinct (sym update-values) (upsert-IsDistinct f name q.values h.distinct);
    }

  remove_found :
      (name : Bytes) (i : ℕ)
      → key_find name q.keys ≡ some i
      → remove name q
        ≡ record { values = erase_at i q.values; keys = lower_keys i (key_erase name q.keys) }
  unfolding remove
  remove_found name i e = rw (e, remove)

  remove_missing : (name : Bytes) → key_find name q.keys ≡ none → remove name q ≡ q
  unfolding remove
  remove_missing name e = rw (e, remove)

  pub remove-values : (name : Bytes) → (remove name q).values ≡ without name q.values
  remove-values name = elim (Option-cases (key_find name q.keys)) [
    | inl e ↦
        ap (λ p. p.values) (remove_missing name e)
        ∙ sym (without_missing name q.values (sym (h.places name) ∙ e))
    | inr (i, e) ↦
        ap (λ p. p.values) (remove_found name i e)
        ∙ erase_at-position name q.values i (sym (h.places name) ∙ e)
  ]

  pub remove-IsIndexed : (name : Bytes) → IsIndexed (remove name q)
  remove-IsIndexed name = elim (Option-cases (key_find name q.keys)) [
    | inl e ↦ subst IsIndexed (sym (remove_missing name e)) h
    | inr (i, e) ↦ record {
      places = λ m.
          ap (λ p. key_find m p.keys) (remove_found name i e)
          ∙ key_find_lowered i name m q.keys
          ∙ ap (moved (equal name m) i) (h.places m)
          ∙ sym (
              ap (λ p. position m p.values) (remove_found name i e)
              ∙ position-erase_at name m q.values i h.distinct (sym (h.places name) ∙ e));
      distinct =
          subst IsDistinct (sym (remove-values name)) (without-IsDistinct name q.values h.distinct);
    }
  ]

-- ===== src/Uri/Query/Calls.antt =====
-- What sequences of calls make of a query, as its list and as its users see it by name.
use http_router.Base.{
  ℕ, zero, suc, ◌≡◌, refl, sym, ap, ◌∙◌, Option, none, some, List, [], ◌∷◌, ◌++◌, arith, Bytes,
  get_elem?, length, length-append, if◌then◌else◌, equal, equal_iff, Option-cases, inl, inr,
}
use http_router.Uri.Query.{
  Param, Query, empty, key_find, add, set, remove, find_param, flat_values, flat_list_of,
  flat_length,
}
use http_router.Uri.Query.Index.{
  position, IsDistinct, IsIndexed, upsert, without, update-values, update-IsIndexed, remove-values,
  remove-IsIndexed,
}

-- The values of a name.
unfoldable pub lookup_values : Bytes → List Param → Option (List Bytes)
lookup_values name [] = none
lookup_values name ((n, vs) ∷ ps) = if equal n name then some vs else lookup_values name ps

-- No entry and an entry with no value are alike to a change.
abbrev pub values_or : Option (List Bytes) → List Bytes
values_or none = []
values_or (some vs) = vs

-- The calls that build a query.
pub data Call : Type 0 where
  adds : Bytes → Bytes → Call
  sets removes : Bytes → Call

unfoldable pub step : Query → Call → Query
step q (adds name value) = add name value q
step q (sets name) = set name q
step q (removes name) = remove name q

unfoldable pub run : Query → List Call → Query
run q [] = q
run q (c ∷ cs) = run (step q c) cs

-- What a call does to a plain list of parameters.
abbrev pub step_list : List Param → Call → List Param
step_list ps (adds name value) = upsert (λ vs. vs ++ (value ∷ [])) name ps
step_list ps (sets name) = upsert (λ vs. []) name ps
step_list ps (removes name) = without name ps

abbrev pub run_list : List Param → List Call → List Param
run_list ps [] = ps
run_list ps (c ∷ cs) = run_list (step_list ps c) cs

pub step-IsIndexed : (q : Query) (c : Call) → IsIndexed q → IsIndexed (step q c)
unfolding step add set
step-IsIndexed q (adds name value) h = update-IsIndexed q h (λ vs. vs ++ (value ∷ [])) name
step-IsIndexed q (sets name) h = update-IsIndexed q h (λ vs. []) name
step-IsIndexed q (removes name) h = remove-IsIndexed q h name

pub step-values : (q : Query) (c : Call) → IsIndexed q → (step q c).values ≡ step_list q.values c
unfolding step add set
step-values q (adds name value) h = update-values q h (λ vs. vs ++ (value ∷ [])) name
step-values q (sets name) h = update-values q h (λ vs. []) name
step-values q (removes name) h = remove-values q h name

run-Indexed :
    (q : Query) (cs : List Call)
    → IsIndexed q
    → IsIndexed (run q cs) × ((run q cs).values ≡ run_list q.values cs)
unfolding run
run-Indexed q [] h = (h, refl)
run-Indexed q (c ∷ cs) h =
    let (indexed, same) = run-Indexed (step q c) cs (step-IsIndexed q c h) in
    (indexed, same ∙ ap (λ ps. run_list ps cs) (step-values q c h))

pub empty-IsIndexed : IsIndexed empty
unfolding key_find position
empty-IsIndexed = record { places = λ name. refl; distinct = tt }

-- Whatever calls of `add`, `set` and `remove` build a query, its index holds exactly the place of
-- each name in its list, each name stands there once, and the list is what the calls make of a
-- plain list of parameters, without any index.
pub run_refines :
    (cs : List Call) → IsIndexed (run empty cs) × ((run empty cs).values ≡ run_list [] cs)
run_refines cs = run-Indexed empty cs empty-IsIndexed

abbrev pub named : Bytes → Option (List Bytes) → Option Param
named name none = none
named name (some vs) = some (name, vs)

get_elem?-position :
    (name : Bytes) (ps : List Param) (i : ℕ)
    → position name ps ≡ some i
    → get_elem? ps i ≡ named name (lookup_values name ps)
unfolding position lookup_values
get_elem?-position name [] i e = cc
get_elem?-position name ((n, vs) ∷ ps) zero e = ground (arith, equal_iff n name)
get_elem?-position name ((n, vs) ∷ ps) (suc i) e =
    ground (arith, equal_iff n name, get_elem?-position name ps i)

lookup_values_missing :
    (name : Bytes) (ps : List Param) → position name ps ≡ none → lookup_values name ps ≡ none
unfolding position lookup_values
lookup_values_missing name [] e = refl
lookup_values_missing name ((n, vs) ∷ ps) e = ground (arith, lookup_values_missing name ps)

find_param-lookup :
    (name : Bytes) (q : Query)
    → IsIndexed q
    → find_param name q ≡ named name (lookup_values name q.values)
unfolding find_param
find_param-lookup name q h = elim (Option-cases (key_find name q.keys)) [
  | inl e ↦
      rw (e, find_param)
        (sym (ap (named name) (lookup_values_missing name q.values (sym (h.places name) ∙ e))))
  | inr (i, e) ↦ rw (e, find_param) (get_elem?-position name q.values i (sym (h.places name) ∙ e))
]

lookup_values-upsert :
    (f : List Bytes → List Bytes) (name m : Bytes) (ps : List Param)
    → lookup_values m (upsert f name ps)
      ≡ (if equal name m then some (f (values_or (lookup_values m ps))) else lookup_values m ps)
unfolding lookup_values upsert
lookup_values-upsert f name m [] = ground arith
lookup_values-upsert f name m ((n, vs) ∷ ps) =
    ground
      (arith, equal_iff n name, equal_iff n m, equal_iff name m, lookup_values-upsert f name m ps)

lookup_values-without :
    (name m : Bytes) (ps : List Param)
    → IsDistinct ps
    → lookup_values m (without name ps) ≡ (if equal name m then none else lookup_values m ps)
unfolding lookup_values without
lookup_values-without name m [] h = ground arith
lookup_values-without name m ((n, vs) ∷ ps) h = ground (
  arith,
  equal_iff n name,
  equal_iff n m,
  equal_iff name m,
  lookup_values-without name m ps h.1,
  lookup_values_missing n ps h.0,
)

-- What is found under a name after a call.
abbrev pub found_after : Call → Bytes → Option (List Bytes) → Option (List Bytes)
found_after (adds name value) m found =
    if equal name m then some (values_or found ++ (value ∷ [])) else found
found_after (sets name) m found = if equal name m then some [] else found
found_after (removes name) m found = if equal name m then none else found

lookup_values-step_list :
    (ps : List Param) (c : Call) (m : Bytes)
    → IsDistinct ps
    → lookup_values m (step_list ps c) ≡ found_after c m (lookup_values m ps)
lookup_values-step_list ps (adds name value) m h =
    lookup_values-upsert (λ vs. vs ++ (value ∷ [])) name m ps
lookup_values-step_list ps (sets name) m h = lookup_values-upsert (λ vs. []) name m ps
lookup_values-step_list ps (removes name) m h = lookup_values-without name m ps h

-- `find` after a call, in a query whose index is right: `add` appends to the values of its name
-- alone, `set` leaves its name with no value, `remove` takes its name away, and every other name
-- is found as before.
pub find_param-step :
    (q : Query) (c : Call) (m : Bytes)
    → IsIndexed q
    → (find_param m q ≡ named m (lookup_values m q.values))
      × (find_param m (step q c) ≡ named m (found_after c m (lookup_values m q.values)))
find_param-step q c m h = (
  find_param-lookup m q h,
  find_param-lookup m (step q c) (step-IsIndexed q c h)
      ∙ ap (λ ps. named m (lookup_values m ps)) (step-values q c h)
      ∙ ap (named m) (lookup_values-step_list q.values c m h.distinct),
)

length-flat_values : (name : Bytes) (vs : List Bytes) → length (flat_values name vs) ≡ length vs
unfolding flat_values
length-flat_values name [] = refl
length-flat_values name (v ∷ vs) = ap suc (length-flat_values name vs)

-- The first loop of `flat_list` reserves exactly the length of the list that the second builds.
pub length-flat_list_of : (ps : List Param) → length (flat_list_of ps) ≡ flat_length ps
unfolding flat_list_of flat_length
length-flat_list_of [] = refl
length-flat_list_of ((name, []) ∷ ps) = ap suc (length-flat_list_of ps)
length-flat_list_of ((name, v ∷ vs) ∷ ps) = omega (
  arith,
  length-append (flat_values name (v ∷ vs)) (flat_list_of ps),
  length-flat_values name (v ∷ vs),
  length-flat_list_of ps,
)

-- ===== src/Uri/Query.antt =====
-- The class `query` of uri.hh and uri.cc: a list of parameters with their values, and an index of
-- it by name. The index, a `std::unordered_map`, is an association list: no operation depends on
-- its order. An access to `values_` out of range, which the source has no check for, would leave
-- the list as it is; the index never asks for one (Query/Index).
pub mod Index
pub mod Calls
use http_router.Base.{
  ℕ, zero, suc, ◌+◌, ◌-◌, ◌≡◌, Bool, true, false, Option, none, some, List, [], ◌∷◌, ◌++◌, map,
  Bytes, codes, length, get_elem?, ltb, if◌then◌else◌, equal,
}
use http_router.Uri.Escape.{query_urlencode}

-- `multi_param_type` and `multi_list_type`
abbrev pub Param : Type 0
Param = Bytes × List Bytes

abbrev pub Keys : Type 0
Keys = List (Bytes × ℕ)

pub record Query : Type 0 where
  pub values : List Param
  pub keys : Keys

abbrev pub empty : Query
empty = record { values = []; keys = [] }

-- `keys_.find`
unfoldable pub key_find : Bytes → Keys → Option ℕ
key_find name [] = none
key_find name ((k, i) ∷ keys) = if equal k name then some i else key_find name keys

-- `keys_[name] = index`
unfoldable pub assign : Bytes → ℕ → Keys → Keys
assign name index [] = (name, index) ∷ []
assign name index ((k, i) ∷ keys) =
    if equal k name then (k, index) ∷ keys else (k, i) ∷ assign name index keys

-- `keys_.erase(name)`
unfoldable pub key_erase : Bytes → Keys → Keys
key_erase name [] = []
key_erase name ((k, i) ∷ keys) =
    let rest = key_erase name keys in if equal k name then rest else (k, i) ∷ rest

-- `if (key.second > index) --key.second`
abbrev pub lower : ℕ → ℕ → ℕ
lower index i = if ltb index i then i - 1 else i

unfoldable pub lower_keys : ℕ → Keys → Keys
lower_keys index [] = []
lower_keys index ((k, i) ∷ keys) = (k, lower index i) ∷ lower_keys index keys

-- A change of `values_[index].second`
unfoldable pub modify : ℕ → (List Bytes → List Bytes) → List Param → List Param
modify index f [] = []
modify zero f ((name, vs) ∷ ps) = (name, f vs) ∷ ps
modify (suc index) f (p ∷ ps) = p ∷ modify index f ps

-- `values_.erase(begin + index)`
unfoldable pub erase_at : ℕ → List Param → List Param
erase_at index [] = []
erase_at zero (p ∷ ps) = ps
erase_at (suc index) (p ∷ ps) = p ∷ erase_at index ps

-- What `add` and `set` share: a change of the values at hand, or a new parameter at the end.
unfoldable pub update : (List Bytes → List Bytes) → List Bytes → Bytes → Query → Query
update change fresh name q = elim (key_find name q.keys) [
  | some index ↦ record q { values = modify index change q.values }
  | none ↦ record {
    values = q.values ++ ((name, fresh) ∷ []);
    keys = assign name (length q.values) q.keys;
  }
]

unfoldable pub add : Bytes → Bytes → Query → Query
unfolding update
add name value q = update (λ vs. vs ++ (value ∷ [])) (value ∷ []) name q

unfoldable pub set : Bytes → Query → Query
unfolding update
set name q = update (λ vs. []) [] name q

unfoldable pub remove : Bytes → Query → Query
remove name q = elim (key_find name q.keys) [
  | none ↦ q
  | some index ↦ record {
    values = erase_at index q.values;
    keys = lower_keys index (key_erase name q.keys);
  }
]

-- `find`; `none` is `end()`.
unfoldable pub find_param : Bytes → Query → Option Param
find_param name q = elim (key_find name q.keys) [
  | none ↦ none
  | some index ↦ get_elem? q.values index
]

-- `flat_param_type`
abbrev pub FlatParam : Type 0
FlatParam = Bytes × Option Bytes

unfoldable pub flat_values : Bytes → List Bytes → List FlatParam
flat_values name [] = []
flat_values name (v ∷ vs) = (name, some v) ∷ flat_values name vs

unfoldable pub flat_list_of : List Param → List FlatParam
unfolding flat_values
flat_list_of [] = []
flat_list_of ((name, []) ∷ ps) = (name, none) ∷ flat_list_of ps
flat_list_of ((name, v ∷ vs) ∷ ps) = flat_values name (v ∷ vs) ++ flat_list_of ps

abbrev pub flat_list : Query → List FlatParam
flat_list q = flat_list_of q.values

-- The first loop of `flat_list`: the length to reserve.
unfoldable pub flat_length : List Param → ℕ
flat_length [] = 0
flat_length ((name, []) ∷ ps) = suc (flat_length ps)
flat_length ((name, v ∷ vs) ∷ ps) = length (v ∷ vs) + flat_length ps

-- `add_prefix` of `string`, with the flag `first`
abbrev pub add_prefix : Bool → Bytes
add_prefix first = if first then [] else b'&' ∷ []

unfoldable pub values_string : Bool → Bytes → List Bytes → Bytes
values_string first name [] = []
values_string first name (v ∷ vs) =
    add_prefix first ++ ((name ++ query_urlencode v) ++ values_string false name vs)

unfoldable pub string_of : Bool → List Param → Bytes
unfolding values_string
string_of first [] = []
string_of first ((name, []) ∷ ps) = add_prefix first ++ (query_urlencode name ++ string_of false ps)
string_of first ((name, v ∷ vs) ∷ ps) =
    values_string first (query_urlencode name ++ (b'=' ∷ [])) (v ∷ vs) ++ string_of false ps

unfoldable pub string : Query → Bytes
unfolding string_of
string q = string_of true q.values

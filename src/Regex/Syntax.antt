-- ===== src/Regex/Syntax.antt =====
-- The grammar of `std::regex`, as far as it is modelled.
use http_router.Base.{
  ℕ, zero, suc, Bool, true, false, ◌||◌, Option, none, some, List, [], ◌∷◌, Bytes, ◌==◌,
  if◌then◌else◌, isalnum,
}

pub data Re : Type 0 where
  nothing dot begin finish : Re
  chr : ℕ → Re
  set : (negated : Bool) → List ℕ → Re
  capture : ℕ → Re → Re
  ahead : Re → Re
  join : Re → Re → Re
  either : Re → Re → Re
  -- At least once or not, and more than once or not
  repeat : (once many lazy : Bool) → Re → Re

-- A quantifier behind an atom
unfoldable pub lazily : (once many : Bool) → Re → Bytes → Re × Bytes
lazily once many re [] = (repeat once many false re, [])
lazily once many re (c ∷ s) =
    if c == b'?' then (repeat once many true re, s) else (repeat once many false re, c ∷ s)

unfoldable pub quantified : Re → Bytes → Re × Bytes
unfolding lazily
quantified re [] = (re, [])
quantified re (c ∷ s) =
    if c == b'*'
    then lazily false true re s
    else if c == b'+'
    then lazily true true re s
    else if c == b'?'
    then lazily false false re s
    else (re, c ∷ s)

abbrev with_item : ℕ → Option (List ℕ × Bytes) → Option (List ℕ × Bytes)
with_item c none = none
with_item c (some (items, rest)) = some (c ∷ items, rest)

-- The items of a class, behind its bracket
unfoldable pub items_at : Bytes → Option (List ℕ × Bytes)
unfolding isalnum
items_at [] = none
items_at (c ∷ []) = if c == b']' then some ([], []) else none
items_at (c ∷ d ∷ s) =
    let escaped = with_item d (items_at s) in
    let plain = with_item c (items_at (d ∷ s)) in
    if c == b']'
    then some ([], d ∷ s)
    else if c == b'-' || c == b'['
    then none
    else if c == b'\\'
    then (if isalnum d then none else escaped)
    else plain

-- An expression that was read, the number of its last group, and what is behind it
abbrev pub Parsed : Type 0
Parsed = Option (Re × ℕ × Bytes)

abbrev pub closed : (ℕ → Re → Re) → Parsed → Parsed
closed make none = none
closed make (some (re, n, [])) = none
closed make (some (re, n, c ∷ s)) = if c == b')' then some (make n re, n, s) else none

abbrev pub class_of : Bool → ℕ → Option (List ℕ × Bytes) → Parsed
class_of negated n none = none
class_of negated n (some (items, s)) = some (set negated items, n, s)

-- Behind `(`; a group has its number by its bracket.
unfoldable pub group_at : (ℕ → Bytes → Parsed) → ℕ → Bytes → Parsed
group_at alternatives n (c ∷ d ∷ s) =
    if c == b'?'
    then (if d == b':'
        then closed (λ _ re. re) (alternatives n s)
        else if d == b'='
        then closed (λ _ re. ahead re) (alternatives n s)
        else none)
    else closed (λ _ re. capture (suc n) re) (alternatives (suc n) (c ∷ d ∷ s))
group_at alternatives n s = closed (λ _ re. capture (suc n) re) (alternatives (suc n) s)

unfoldable pub bracket_at : ℕ → Bytes → Parsed
unfolding items_at
bracket_at n [] = none
bracket_at n (c ∷ s) =
    if c == b'^' then class_of true n (items_at s) else class_of false n (items_at (c ∷ s))

unfoldable pub escape_at : ℕ → Bytes → Parsed
unfolding isalnum
escape_at n [] = none
escape_at n (c ∷ s) = if isalnum c then none else some (chr c, n, s)

-- An atom, of which the first byte is given
unfoldable pub atom_at : (ℕ → Bytes → Parsed) → ℕ → ℕ → Bytes → Parsed
unfolding group_at bracket_at escape_at
atom_at alternatives n c s =
    if c == b'('
    then group_at alternatives n s
    else if c == b'['
    then bracket_at n s
    else if c == b'\\'
    then escape_at n s
    else if c == b'.'
    then some (dot, n, s)
    else if c == b'^'
    then some (begin, n, s)
    else if c == b'$'
    then some (finish, n, s)
    else if c == b'*' || c == b'+' || c == b'?' || c == b'{' || c == b'}' || c == b']'
    then none
    else some (chr c, n, s)

abbrev pub joined : Re → Parsed → Parsed
joined re none = none
joined re (some (rest, n, s)) = some (join re rest, n, s)

abbrev pub behind_atom : (ℕ → Bytes → Parsed) → Parsed → Parsed
behind_atom sequence none = none
behind_atom sequence (some (re, n, s)) =
    let (q, rest) = quantified re s in joined q (sequence n rest)

abbrev pub behind_sequence : (ℕ → Bytes → Parsed) → Parsed → Parsed
behind_sequence alternatives none = none
behind_sequence alternatives (some (re, n, [])) = some (re, n, [])
behind_sequence alternatives (some (re, n, c ∷ s)) = elim (c == b'|') [
  | false ↦ some (re, n, c ∷ s)
  | true ↦ elim (alternatives n s) [
    | none ↦ none
    | some (other, m, rest) ↦ some (either re other, m, rest)
  ]
]

-- A sequence ends before `)` and `|`; on fuel.
unfoldable mutual
  unfolding atom_at quantified

  pub alternatives_at : ℕ → ℕ → Bytes → Parsed
  alternatives_at zero n s = none
  alternatives_at (suc fuel) n s = behind_sequence (alternatives_at fuel) (sequence_at fuel n s)

  pub sequence_at : ℕ → ℕ → Bytes → Parsed
  sequence_at zero n s = none
  sequence_at (suc fuel) n [] = some (nothing, n, [])
  sequence_at (suc fuel) n (c ∷ s) = elim (c == b')' || c == b'|') [
    | true ↦ some (nothing, n, c ∷ s)
    | false ↦ behind_atom (sequence_at fuel) (atom_at (alternatives_at fuel) n c s)
  ]

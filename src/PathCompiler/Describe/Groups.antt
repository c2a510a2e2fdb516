-- ===== src/PathCompiler/Describe/Groups.antt =====
-- The capturing groups of a route's regular expression, against its keys: `matcher::matches` reads
-- the group `id` for the key with that number.
use http_router.Base.{
  ℕ, suc, ◌+◌, ◌≡◌, refl, sym, ap, subst, ◌∙◌, Bool, true, false, ◌||◌, ◌&&◌, not, List, [], ◌∷◌,
  ◌++◌, arith, Bytes, codes, length, ◌==◌, if◌then◌else◌, All, append_assoc, Bool-cases, inl, inr,
  Free,
}
use http_router.PathCompiler.Key.{Key}
use http_router.PathCompiler.Escape.{escape_string, escape, is_string}
use http_router.PathCompiler.Describe.{capture_of, param_text}
use http_router.PathCompiler.Describe.Keys.{parameters, route_text, token_text, literal}

-- The capturing groups of a regular expression whose classes hold no parenthesis: an opening
-- parenthesis that no backslash stands before and no question mark behind.
unfoldable pub groups : Bytes → ℕ
groups [] = 0
groups (c ∷ []) = if c == b'(' then 1 else 0
groups (c ∷ d ∷ s) =
    let escaped = groups s in
    let plain = groups (d ∷ s) in
    if c == b'\\' then escaped else if c == b'(' && not (d == b'?') then suc plain else plain

-- A piece of an expression with so many groups, whatever stands behind it.
abbrev pub HasGroups : ℕ → Bytes → Type 0
HasGroups n t = (rest : Bytes) → groups (t ++ rest) ≡ n + groups rest

pub groups_plain :
    (c : ℕ) (s : Bytes) → (c == b'\\') ≡ false → (c == b'(') ≡ false → groups (c ∷ s) ≡ groups s
unfolding groups
groups_plain c [] h k = rw k
groups_plain c (d ∷ s) h k = rw (h, k)

groups_escaped : (c : ℕ) (s : Bytes) → groups (b'\\' ∷ c ∷ s) ≡ groups s
unfolding groups
groups_escaped c s = refl

pub HasGroups-append :
    (m n : ℕ) (s t : Bytes) → HasGroups m s → HasGroups n t → HasGroups (m + n) (s ++ t)
HasGroups-append m n s t h k rest =
    ap groups (append_assoc s t rest) ∙ h (t ++ rest) ∙ omega (arith, k rest)

string_plain : (c : ℕ) → is_string c ≡ false → ((c == b'\\') ≡ false) × ((c == b'(') ≡ false)
unfolding is_string
string_plain c h = ground arith

pub escape_string-HasGroups : (s : Bytes) → HasGroups 0 (escape_string s)
unfolding escape
escape_string-HasGroups [] rest = omega arith
escape_string-HasGroups (c ∷ s) rest = elim (Bool-cases (is_string c)) [
  | inl e ↦ rw e (groups_escaped c (escape_string s ++ rest) ∙ escape_string-HasGroups s rest)
  | inr e ↦
      let (slash, paren) = string_plain c e in
      rw e (groups_plain c (escape_string s ++ rest) slash paren ∙ escape_string-HasGroups s rest)
]

-- A text without backslashes and opening parentheses
abbrev pub is_special : ℕ → Bool
is_special c = c == b'\\' || c == b'('

pub plain-HasGroups : (s : Bytes) → Free is_special s → HasGroups 0 s
plain-HasGroups [] h rest = omega arith
plain-HasGroups (c ∷ s) h rest =
    groups_plain c (s ++ rest) (ground arith) (ground arith) ∙ plain-HasGroups s h.1 rest

pub opening : HasGroups 0 (codes "(?:")
unfolding groups
opening rest = omega (arith, groups_plain b':' rest refl refl)

-- `(?:` ... and a closing text around a piece add no group.
wrapped :
    (n : ℕ) (t close : Bytes)
    → HasGroups n t
    → Free is_special close
    → HasGroups n (codes "(?:" ++ (t ++ close))
wrapped n t close h k rest =
    HasGroups-append 0 (n + 0) (codes "(?:") (t ++ close) opening
      (HasGroups-append n 0 t close h (plain-HasGroups close k)) rest
    ∙ omega arith

-- `(` before a group that captures nothing
capturing :
    (n : ℕ) (t : Bytes)
    → HasGroups n (codes "(?:" ++ t)
    → HasGroups (suc n) (codes "(" ++ (codes "(?:" ++ t))
unfolding groups
capturing n t h rest = omega (arith, h rest)

-- The two tests of a parameter's text, as arguments
abbrev captured : Bool → Bytes → Bytes → Bytes
captured repeat prefix pattern =
    let once = codes "(?:" ++ (pattern ++ codes ")") in
    if repeat then once ++ (codes "(?:" ++ (prefix ++ (once ++ codes ")*"))) else once

captured-HasGroups :
    (repeat : Bool) (prefix pattern : Bytes)
    → HasGroups 0 prefix
    → HasGroups 0 pattern
    → HasGroups 0 (captured repeat prefix pattern)
captured-HasGroups false prefix pattern h k = wrapped 0 pattern (codes ")") k (refl, tt)
captured-HasGroups true prefix pattern h k =
    HasGroups-append 0 0 (codes "(?:" ++ (pattern ++ codes ")")) _
      (wrapped 0 pattern (codes ")") k (refl, tt))
      (HasGroups-append 0 0 (codes "(?:") _ opening (
        HasGroups-append 0 0 prefix _ h (
          HasGroups-append 0 0 (codes "(?:" ++ (pattern ++ codes ")")) (codes ")*")
            (wrapped 0 pattern (codes ")") k (refl, tt))
            (plain-HasGroups (codes ")*") (refl, (refl, tt))))))

-- The group of a parameter
group-HasGroups :
    (repeat : Bool) (prefix pattern close : Bytes)
    → HasGroups 0 prefix
    → HasGroups 0 pattern
    → Free is_special close
    → HasGroups 1 (codes "(" ++ (captured repeat prefix pattern ++ close))
group-HasGroups false prefix pattern close h k l = capturing 0 ((pattern ++ codes ")") ++ close) (
    HasGroups-append 0 0 (captured false prefix pattern) close
      (captured-HasGroups false prefix pattern h k) (plain-HasGroups close l))
group-HasGroups true prefix pattern close h k l = capturing 0 _ (
    HasGroups-append 0 0 (captured true prefix pattern) close
      (captured-HasGroups true prefix pattern h k) (plain-HasGroups close l))

-- Each parameter brings one group.
param_text-HasGroups : (k : Key) → HasGroups 0 k.pattern → HasGroups 1 (param_text k)
unfolding param_text capture_of
param_text-HasGroups k h = go k.optional k.partial
  where
    prefix : Bytes
    prefix = escape_string k.prefix

    neutral : HasGroups 0 prefix
    neutral = escape_string-HasGroups k.prefix

    capture : Bytes
    capture = codes "(" ++ (captured k.repeat prefix k.pattern ++ codes ")")

    once : HasGroups 1 capture
    once = group-HasGroups k.repeat prefix k.pattern (codes ")") neutral h (refl, tt)

    go :
        (optional partial : Bool)
        → HasGroups 1 (
            if optional
            then (if partial
                then prefix ++ (capture ++ codes "?")
                else codes "(?:" ++ (prefix ++ (capture ++ codes ")?")))
            else prefix ++ capture)
    go false partial = HasGroups-append 0 1 prefix capture neutral once
    go true true =
        HasGroups-append 0 1 prefix (capture ++ codes "?") neutral
          (HasGroups-append 1 0 capture (codes "?") once (plain-HasGroups (codes "?") (refl, tt)))
    go true false = HasGroups-append 0 1 (codes "(?:") (prefix ++ (capture ++ codes ")?")) opening (
        HasGroups-append 0 1 prefix (capture ++ codes ")?") neutral (
          HasGroups-append 1 0 capture (codes ")?") once
            (plain-HasGroups (codes ")?") (refl, (refl, tt)))))

-- A pattern that opens no group of its own
abbrev pub IsClosed : Key → Type 0
IsClosed k = HasGroups 0 k.pattern

token-HasGroups :
    (b : Bool) (literal param : Bytes)
    → HasGroups 0 literal
    → HasGroups 1 param
    → HasGroups (if b then 0 else 1) (if b then literal else param)
token-HasGroups true literal param h k = h
token-HasGroups false literal param h k = k

length-parameters :
    (b : Bool) (k : Key) (ks : List Key)
    → length (if b then ks else k ∷ ks) ≡ (if b then 0 else 1) + length ks
length-parameters true k ks = omega arith
length-parameters false k ks = omega arith

pub route_text-HasGroups :
    (ks : List Key) → All IsClosed ks → HasGroups (length (parameters ks)) (route_text ks)
unfolding route_text parameters
route_text-HasGroups [] h = λ rest. omega arith
route_text-HasGroups (k ∷ ks) h =
    subst (λ n. HasGroups n (token_text k ++ route_text ks))
      (sym (length-parameters k.is_string k (parameters ks)))
      (HasGroups-append (if k.is_string then 0 else 1) (length (parameters ks)) (token_text k)
        (route_text ks)
        (token-HasGroups k.is_string (escape_string (literal k.value)) (param_text k)
          (escape_string-HasGroups (literal k.value)) (param_text-HasGroups k h.0))
        (route_text-HasGroups ks h.1))

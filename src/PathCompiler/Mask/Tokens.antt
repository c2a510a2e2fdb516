-- ===== src/PathCompiler/Mask/Tokens.antt =====
-- What the tokens of every mask are like.
use mathlib.Core.Path.{ap₂}
use http_router.Base.{
  List-cases, ℕ, zero, suc, ◌≡◌, refl, ap, ◌∙◌, ◌≢◌, Bool, true, false, some, List, [], ◌∷◌, ◌++◌,
  arith, Bytes, codes, length, All, All-append, append-nil, inl, inr,
}
use http_router.PathCompiler.Key.{Key, KeyName, index, text, as_string}
use http_router.PathCompiler.Escape.{escape, is_group}
use http_router.PathCompiler.Mask.{
  Found, Scan, flush, or_else, pattern_of, key_of, push_key, start, parse_matcher,
}
use http_router.PathCompiler.Mask.Total.{scan_inv}

-- A literal is a text of one byte at least, and a parameter has a delimiter and a pattern.
abbrev pub IsKind : Bool → Key → Type 0
IsKind true k = (s : Bytes) × (k.value ≡ text s) × (s ≢ [])
IsKind false k = (k.delimiter ≢ []) × (k.pattern ≢ [])

abbrev pub IsToken : Key → Type 0
IsToken k = IsKind k.is_string k

-- The numbers given to parameters with no name, in order.
abbrev indexes_with : KeyName → List ℕ → List ℕ
indexes_with (index i) is = i ∷ is
indexes_with (text s) is = is

abbrev pub indexes : List Key → List ℕ
indexes [] = []
indexes (k ∷ ks) = indexes_with k.value (indexes ks)

abbrev pub upto : ℕ → List ℕ
upto zero = []
upto (suc n) = upto n ++ (n ∷ [])

indexes_with-append :
    (v : KeyName) (is js ks : List ℕ) → is ≡ js ++ ks → indexes_with v is ≡ indexes_with v js ++ ks
indexes_with-append (index i) is js ks e = ap (◌∷◌ i) e
indexes_with-append (text s) is js ks e = e

indexes-append : (xs ys : List Key) → indexes (xs ++ ys) ≡ indexes xs ++ indexes ys
indexes-append [] ys = refl
indexes-append (k ∷ xs) ys =
    indexes_with-append k.value (indexes (xs ++ ys)) (indexes xs) (indexes ys)
      (indexes-append xs ys)

record IsScan (st : Scan) : Type 0 where
  tokens : All IsToken st.out
  numbered : indexes st.out ≡ upto st.key

flush-IsToken : (path : Bytes) (out : List Key) → All IsToken out → All IsToken (flush path out)
flush-IsToken [] out h = h
flush-IsToken (c ∷ path) out h =
    All-append IsToken out (as_string (c ∷ path) ∷ []) h ((c ∷ path, refl, (λ e. cc)), tt)

indexes-flush : (path : Bytes) (out : List Key) → indexes (flush path out) ≡ indexes out
indexes-flush [] out = refl
indexes-flush (c ∷ path) out =
    indexes-append out (as_string (c ∷ path) ∷ []) ∙ append-nil (indexes out)

escape-ne-nil : (checker : ℕ → Bool) (c : ℕ) (s : Bytes) → escape checker (c ∷ s) ≢ []
unfolding escape
escape-ne-nil checker c s e = ground arith

pattern_of-ne-nil : (f : Found) (delimiter : Bytes) → pattern_of f delimiter ≢ []
unfolding pattern_of
pattern_of-ne-nil f delimiter e = elim (List-cases (or_else f.capture f.group)) [
  | inl n ↦ ground arith
  | inr (c, s, n) ↦ escape-ne-nil is_group c s (rw (n, pattern_of) at e)
]

or_else-ne-nil : (s : Bytes) (c : ℕ) (t : Bytes) → or_else s (c ∷ t) ≢ []
or_else-ne-nil [] c t e = cc
or_else-ne-nil (d ∷ s) c t e = cc

key_of-IsToken : (f : Found) (rest : Bytes) (v : KeyName) → IsToken (key_of f rest v)
unfolding key_of
key_of-IsToken f rest v =
    (or_else-ne-nil f.prefix b'/' [], pattern_of-ne-nil f (or_else f.prefix (codes "/")))

key_of-value : (f : Found) (rest : Bytes) (v : KeyName) → (key_of f rest v).value ≡ v
unfolding key_of
key_of-value f rest v = refl

add_key-IsToken :
    (path : Bytes) (out : List Key) (f : Found) (rest : Bytes) (v : KeyName)
    → All IsToken out
    → All IsToken (flush path out ++ (key_of f rest v ∷ []))
add_key-IsToken path out f rest v h =
    All-append IsToken (flush path out) (key_of f rest v ∷ []) (flush-IsToken path out h)
      (key_of-IsToken f rest v, tt)

indexes-add_key :
    (path : Bytes) (out : List Key) (f : Found) (rest : Bytes) (v : KeyName)
    → indexes (flush path out ++ (key_of f rest v ∷ [])) ≡ indexes out ++ indexes_with v []
indexes-add_key path out f rest v =
    indexes-append (flush path out) (key_of f rest v ∷ [])
    ∙ ap₂ ◌++◌ (indexes-flush path out) (ap (λ w. indexes_with w []) (key_of-value f rest v))

push_key-IsScan : (st : Scan) (f : Found) (rest : Bytes) → IsScan st → IsScan (push_key f rest st)
unfolding push_key
push_key-IsScan st f rest h = elim (List-cases f.name) [
  | inl e ↦
      rw (e, push_key)
        (record {
          tokens = add_key-IsToken st.path st.out f rest (index st.key) h.tokens;
          numbered =
              indexes-add_key st.path st.out f rest (index st.key)
              ∙ ap (λ is. is ++ (st.key ∷ [])) h.numbered;
        })
  | inr (c, name, e) ↦
      rw (e, push_key)
        (record {
          tokens = add_key-IsToken st.path st.out f rest (text (c ∷ name)) h.tokens;
          numbered =
              indexes-add_key st.path st.out f rest (text (c ∷ name))
              ∙ append-nil (indexes st.out)
              ∙ h.numbered;
        })
]

-- Every mask is taken apart, whatever it holds: the scanner ends; each literal token is a text of
-- a byte at least, each other one has a delimiter and a pattern; and the parameters without a
-- name are numbered 0, 1, 2 and so on in the order in which they stand in the mask.
pub parse_matcher-IsToken :
    (mask : Bytes)
    → (tokens : List Key) × (parse_matcher mask ≡ some tokens)
      × All IsToken tokens
      × ((n : ℕ) × (indexes tokens ≡ upto n))
unfolding parse_matcher
parse_matcher-IsToken mask =
    let (last, h, e) =
      scan_inv IsScan (λ st c k. record { tokens = k.tokens; numbered = k.numbered })
        push_key-IsScan (suc (length mask)) mask start (omega arith)
        (record { tokens = tt; numbered = refl }) in
    (
      flush last.path last.out,
      e,
      flush-IsToken last.path last.out h.tokens,
      (last.key, indexes-flush last.path last.out ∙ h.numbered),
    )

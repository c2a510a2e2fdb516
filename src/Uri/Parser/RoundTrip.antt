-- ===== src/Uri/Parser/RoundTrip.antt =====
-- `query::parse` reads back what `query::string` wrote.
use mathlib.Core.List.{map-append}
use http_router.Base.{
  ℕ, ◌<◌, ◌≡◌, refl, sym, ap, ◌∙◌, true, false, none, some, List, [], ◌∷◌, ◌++◌, map, arith, Bytes,
  length, append-nil, append_assoc, ◌==◌, Free, All, word, equal, equal_iff, equal_self,
}
use http_router.Uri.Escape.{query_urlencode}
use http_router.Uri.Escape.RoundTrip.{ends_token}
use http_router.Uri.Query.{
  Param, FlatParam, Query, empty, flat_values, flat_list_of, flat_list, string_of, string,
}
use http_router.Uri.Query.Index.{position, IsDistinct, IsIndexed, upsert, upsert_fresh}
use http_router.Uri.Query.Calls.{Call, run, run_list, step_list, run_refines}
use http_router.Uri.Parser.{drop_mark, parse}
use http_router.Uri.Parser.Tokens.{IsBounded}
use http_router.Uri.Parser.Fields.{fields, call_of}
use http_router.Uri.Parser.Calls.{parse-fields}
use http_router.Uri.Parser.Pieces.{
  encoded, joined, string_of-joined, EndsWell, IsText, fields-joined, flat_call, calls-pieces,
  encoded-Free,
}

-- The `?` that `parse` would drop never begins the text.
abbrev IsUnmarked : Bytes → Type 0
IsUnmarked [] = Unit {0}
IsUnmarked (c ∷ s) = (c == b'?') ≡ false

drop_mark-IsUnmarked : (s : Bytes) → IsUnmarked s → drop_mark s ≡ s
drop_mark-IsUnmarked [] h = refl
drop_mark-IsUnmarked (c ∷ s) h = rw h

IsUnmarked-append : (s t : Bytes) → Free (λ c. c == b'?') s → IsUnmarked t → IsUnmarked (s ++ t)
IsUnmarked-append [] t h k = k
IsUnmarked-append (c ∷ s) t h k = h.0

mark_ends : (c : ℕ) → ends_token c ≡ false → (c == b'?') ≡ false
mark_ends c h = ground arith

joined-IsUnmarked : (fs : List FlatParam) → All IsText fs → IsUnmarked (joined true fs)
unfolding joined encoded
joined-IsUnmarked [] h = tt
joined-IsUnmarked ((name, none) ∷ fs) h =
    IsUnmarked-append (query_urlencode name) (joined false fs)
      (encoded-Free (λ c. c == b'?') name mark_ends h.0) (rest fs)
  where
    rest : (gs : List FlatParam) → IsUnmarked (joined false gs)
    rest [] = tt
    rest (g ∷ gs) = refl
joined-IsUnmarked ((name, some value) ∷ fs) h = rw append_assoc (
    IsUnmarked-append (query_urlencode name) _ (encoded-Free (λ c. c == b'?') name mark_ends h.0.0)
      refl)

-- The calls of a flat list build the list of parameters again.
position-append :
    (m n : Bytes) (vs : List Bytes) (xs ys : List Param)
    → position m (xs ++ ((n, vs) ∷ ys)) ≡ none
    → equal n m ≡ false
unfolding position
position-append m n vs [] ys e = ground arith
position-append m n vs ((k, us) ∷ xs) ys e = position-append m n vs xs ys (ground arith)

fresh_name :
    (n : Bytes) (vs : List Bytes) (xs ys : List Param)
    → IsDistinct (xs ++ ((n, vs) ∷ ys))
    → position n xs ≡ none
unfolding position
fresh_name n vs [] ys h = refl
fresh_name n vs ((k, us) ∷ xs) ys h = ground (
  arith,
  equal_iff k n,
  equal_iff n k,
  position-append k n vs xs ys h.0,
  fresh_name n vs xs ys h.1,
)

upsert_last :
    (f : List Bytes → List Bytes) (n : Bytes) (vs : List Bytes) (xs : List Param)
    → position n xs ≡ none
    → upsert f n (xs ++ ((n, vs) ∷ [])) ≡ xs ++ ((n, f vs) ∷ [])
unfolding position upsert
upsert_last f n vs [] e = rw (equal_self n)
upsert_last f n vs ((k, us) ∷ xs) e = ground (arith, upsert_last f n vs xs)

run_list-append :
    (ps : List Param) (xs ys : List Call) → run_list ps (xs ++ ys) ≡ run_list (run_list ps xs) ys
run_list-append ps [] ys = refl
run_list-append ps (x ∷ xs) ys = run_list-append (step_list ps x) xs ys

run_list-values :
    (n : Bytes) (us vs : List Bytes) (xs : List Param)
    → position n xs ≡ none
    → run_list (xs ++ ((n, us) ∷ [])) (map flat_call (flat_values n vs))
      ≡ xs ++ ((n, us ++ vs) ∷ [])
unfolding flat_values
run_list-values n us [] xs e = rw (append-nil us)
run_list-values n us (v ∷ vs) xs e =
    ap (λ ps. run_list ps (map flat_call (flat_values n vs)))
      (upsert_last (λ ws. ws ++ (v ∷ [])) n us xs e)
    ∙ run_list-values n (us ++ (v ∷ [])) vs xs e
    ∙ ap (λ ws. xs ++ ((n, ws) ∷ [])) (append_assoc us (v ∷ []) vs)

run_list-flat_list_of :
    (xs ps : List Param)
    → IsDistinct (xs ++ ps)
    → run_list xs (map flat_call (flat_list_of ps)) ≡ xs ++ ps
unfolding flat_list_of flat_values
run_list-flat_list_of xs [] h = sym (append-nil xs)
run_list-flat_list_of xs ((n, []) ∷ ps) h =
    ap (λ qs. run_list qs (map flat_call (flat_list_of ps)))
      (upsert_fresh (λ vs. []) n xs (fresh_name n [] xs ps h))
    ∙ run_list-flat_list_of (xs ++ ((n, []) ∷ [])) ps (rw append_assoc h)
    ∙ append_assoc xs ((n, []) ∷ []) ps
run_list-flat_list_of xs ((n, v ∷ vs) ∷ ps) h =
    let fresh = fresh_name n (v ∷ vs) xs ps h in
    ap (run_list xs) (map-append flat_call (flat_values n (v ∷ vs)) (flat_list_of ps))
    ∙ run_list-append xs (map flat_call (flat_values n (v ∷ vs))) (map flat_call (flat_list_of ps))
    ∙ ap (λ qs. run_list qs (map flat_call (flat_list_of ps)))
        (ap (λ qs. run_list qs (map flat_call (flat_values n vs)))
            (upsert_fresh (λ ws. ws ++ (v ∷ [])) n xs fresh)
          ∙ run_list-values n (v ∷ []) vs xs fresh)
    ∙ run_list-flat_list_of (xs ++ ((n, v ∷ vs) ∷ [])) ps (rw append_assoc h)
    ∙ append_assoc xs ((n, v ∷ vs) ∷ []) ps

-- A query whose index is right, whose texts are bytes, and whose list does not end in an empty
-- name without a value: `parse` of its `string`, wherever that stands before a byte that is no
-- hexadecimal digit, is a query with the same parameters and values in the same order.
pub parse-string :
    (q : Query) (after : Bytes)
    → IsIndexed q
    → All IsText (flat_list q)
    → EndsWell (flat_list q)
    → length (string q) < word
    → IsBounded after
    → (q' : Query) × (parse (string q) after ≡ some q') × IsIndexed q' × (q'.values ≡ q.values)
unfolding string
parse-string q after indexed text ends fits bounded =
    let calls = map flat_call (flat_list q) in
    let (indexed', same) = run_refines calls in
    (
      run empty calls,
      parse-fields (string_of true q.values) after bounded fits
          ∙ ap (λ cs. some (run empty cs)) same_calls,
      indexed',
      same ∙ run_list-flat_list_of [] q.values indexed.distinct,
    )
  where
    same_calls :
        map call_of (fields (drop_mark (string_of true q.values))) ≡ map flat_call (flat_list q)
    same_calls =
        rw
          (
            string_of-joined true q.values,
            drop_mark-IsUnmarked (joined true (flat_list q)) (joined-IsUnmarked (flat_list q) text),
            fields-joined (flat_list q) text ends,
          )
          (calls-pieces (flat_list q) text)

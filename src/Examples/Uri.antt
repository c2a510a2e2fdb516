-- ===== src/Examples/Uri.antt =====
-- Targets, escapes and queries
use http_router.Base.{
  ◌≡◌, refl, none, some, List, [], ◌∷◌, ◌++◌, arith, Bytes, codes, length, Free, All, if◌then◌else◌,
  isxdigit, isalnum, is_digit, ◌&&◌, map,
}
use http_router.Base.{◌==◌, ◌||◌}
use http_router.Uri.Target.{BeginsQuery, split, split-render, split_path}
use http_router.Uri.Escape.{
  read_ch, urldecode_impl, urldecode, query_urldecode, path_urlencode, query_urlencode, from_hex,
  urlencode_impl, encode_char, hexes,
}
use http_router.Uri.Escape.Decoded.{decoded, urldecode_impl-decoded, urldecode_impl_lone}
use http_router.Uri.Escape.RoundTrip.{urldecode-urlencode}
use http_router.Uri.Query.{
  Query, empty, find_param, flat_list_of, string, flat_list, flat_values, string_of, values_string,
  add, update, key_find,
}
use http_router.Uri.Query.Index.{IsIndexed}
use http_router.Uri.Query.Calls.{
  Call, adds, sets, removes, run, run_list, step, named, lookup_values, found_after, run_refines,
  find_param-step, empty-IsIndexed, step-IsIndexed,
}
use http_router.Uri.Parser.{parse, drop_mark}
use http_router.Uri.Parser.Pieces.{IsText, EndsWell}
use http_router.Uri.Parser.Fields.{fields, call_of}
use http_router.Uri.Parser.Calls.{parse-fields}
use http_router.Uri.Parser.RoundTrip.{parse-string}

split-render_example : split (codes "/a?b=1#") ≡ (codes "/a", codes "b=1#")
split-render_example =
    split-render (codes "/a") (some (codes "b=1")) (some []) (refl, (refl, tt))
      (refl, (refl, (refl, tt)))

split_path_example :
    Free (λ c. c == b'?' || c == b'#') (split (codes "/a?b")).0
    × ((rest : Bytes) × ((split (codes "/a?b")).0 ++ rest ≡ codes "/a?b") × BeginsQuery rest)
split_path_example = split_path (codes "/a?b")

urldecode_impl-decoded_example :
    urldecode_impl read_ch (codes "/%41%4" ++ codes "1") 6 ≡ some (decoded read_ch (codes "/%41%4"))
urldecode_impl-decoded_example =
    urldecode_impl-decoded read_ch (codes "/%41%4") (codes "1") (omega arith) (λ e. cc)

urldecode_impl_lone_example :
    (urldecode_impl read_ch (codes "%") 1 ≡ none)
    × (urldecode_impl read_ch (codes "%4") 1 ≡ (if isxdigit b'4' then none else some (codes "%")))
    × (urldecode_impl read_ch (codes "%41") 1
        ≡ some (if isxdigit b'4' && isxdigit b'1' then from_hex b'4' b'1' ∷ [] else codes "%"))
urldecode_impl_lone_example = urldecode_impl_lone read_ch b'4' b'1' []

path_short : length (path_urlencode (codes "a b")) ≡ 5
unfolding urlencode_impl encode_char hexes isalnum is_digit
path_short = refl

query_short : length (query_urlencode (codes "a b")) ≡ 3
unfolding urlencode_impl encode_char hexes isalnum is_digit
query_short = refl

urldecode-urlencode_example :
    (urldecode (path_urlencode (codes "a b") ++ codes "!") (length (path_urlencode (codes "a b")))
      ≡ some (codes "a b"))
    × (query_urldecode
          (query_urlencode (codes "a b") ++ codes "!")
          (length (query_urlencode (codes "a b")))
        ≡ some (codes "a b"))
urldecode-urlencode_example =
    urldecode-urlencode (codes "a b") (codes "!") (omega arith, (omega arith, (omega arith, tt)))
      (omega (arith, path_short)) (omega (arith, query_short))

abbrev calls : List Call
calls = adds (codes "a") (codes "1") ∷ sets (codes "b") ∷ removes (codes "a") ∷ []

run_refines_example : IsIndexed (run empty calls) × ((run empty calls).values ≡ run_list [] calls)
run_refines_example = run_refines calls

abbrev one : Query
one = step empty (adds (codes "a") (codes "1"))

find_param-step_example :
    (find_param (codes "a") one ≡ named (codes "a") (lookup_values (codes "a") one.values))
    × (find_param (codes "a") (step one (removes (codes "a")))
        ≡ named
            (codes "a")
            (found_after (removes (codes "a")) (codes "a") (lookup_values (codes "a") one.values)))
find_param-step_example =
    find_param-step one (removes (codes "a")) (codes "a")
      (step-IsIndexed empty (adds (codes "a") (codes "1")) empty-IsIndexed)

parse-fields_example :
    parse (codes "?a=1&b") (0 ∷ [])
    ≡ some (run empty (map call_of (fields (drop_mark (codes "?a=1&b")))))
parse-fields_example =
    parse-fields (codes "?a=1&b") (0 ∷ []) (unfold isxdigit in refl) (omega arith)

string_short : length (string one) ≡ 3
unfolding string string_of values_string step add update key_find urlencode_impl encode_char isalnum
    is_digit
string_short = refl

one-IsText : All IsText (flat_list one)
unfolding step add update key_find flat_list_of flat_values
one-IsText = (((omega arith, tt), (omega arith, tt)), tt)

one_ends : EndsWell (flat_list one)
unfolding step add update key_find flat_list_of flat_values
one_ends e = cc

parse-string_example :
    (q' : Query) × (parse (string one) (0 ∷ []) ≡ some q') × IsIndexed q' × (q'.values ≡ one.values)
parse-string_example =
    parse-string one (0 ∷ []) (step-IsIndexed empty (adds (codes "a") (codes "1")) empty-IsIndexed)
      one-IsText one_ends (omega (arith, string_short)) (unfold isxdigit in refl)

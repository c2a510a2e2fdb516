-- ===== src/Uri/Parser/Calls.antt =====
-- `parse` against the description of a query text by its fields.
use http_router.Base.{
  ℕ, zero, suc, ◌+◌, ◌≤◌, ◌<◌, ◌≡◌, refl, ap, subst, ◌∙◌, Option, none, some, [], ◌∷◌, ◌++◌, map,
  arith, Bytes, length, length-append, append_assoc, Free, isxdigit, word,
}
use http_router.Uri.Query.{Query, empty, add, set}
use http_router.Uri.Query.Calls.{run, step}
use http_router.Uri.Parser.{
  is_amp, is_separator, look_for, parse_value, parse_next, parse_round, parse_loop, drop_mark,
  parse,
}
use http_router.Uri.Parser.Tokens.{
  query_decoded, IsBounded, Stops, look_for_stop, token-decoded, Stops-IsBounded, amp-separator,
}
use http_router.Uri.Parser.Fields.{
  fields, cut, call_of, call_of_cut, glue, IsPart, glue-cut, IsPart-cut, head_field, fields_behind,
  head_field-append, head_field-Free, look_for-Stops, fields-head_field,
}

parse_value_none :
    (after name : Bytes) (q : Query) (rest : Bytes)
    → Stops is_amp rest
    → parse_value after name q rest ≡ some (set name q, rest)
unfolding parse_value
parse_value_none after name q [] h = refl
parse_value_none after name q (c ∷ rest) h = ground arith

parse_value-some :
    (after name value : Bytes) (q : Query) (rest : Bytes)
    → IsBounded after
    → Stops is_amp rest
    → Free is_amp value
    → length value < word
    → parse_value after name q (b'=' ∷ (value ++ rest))
      ≡ some (add name (query_decoded value) q, rest)
unfolding parse_value
parse_value-some after name value q rest bounded h part fits = rw (
  look_for_stop is_amp value rest part h,
  token-decoded value rest after fits (Stops-IsBounded rest after (amp-separator rest h) bounded),
)

-- One round of the loop makes the call of the field at `it`.
module _ (next : Bytes → Query → Option Query) (after : Bytes) (bounded : IsBounded after)
    (rest : Bytes) (h : Stops is_amp rest) where
  parse_round-call :
      (p : Bytes × Option Bytes) (q : Query)
      → IsPart p
      → length (glue p) < word
      → parse_round next after (glue p ++ rest) q ≡ parse_next next (step q (call_of_cut p)) rest
  unfolding parse_round step
  parse_round-call (name, none) q part fits = rw (
    look_for_stop is_separator name rest part (amp-separator rest h),
    token-decoded name rest after fits (Stops-IsBounded rest after (amp-separator rest h) bounded),
    parse_value_none after (query_decoded name) q rest h,
  )
  parse_round-call (name, some value) q (part, part') fits =
      let size = length-append name (b'=' ∷ value) in
      rw (
        append_assoc name (b'=' ∷ value) rest,
        look_for_stop is_separator name (b'=' ∷ (value ++ rest)) part refl,
        token-decoded name (b'=' ∷ (value ++ rest)) after (omega (arith, size))
            (unfold isxdigit in refl),
        parse_value-some after (query_decoded name) value q rest bounded h part'
            (omega (arith, size)),
      )

length-drop_mark : (str : Bytes) → length (drop_mark str) ≤ length str
length-drop_mark [] = omega arith
length-drop_mark (c ∷ str) = ground arith

next-fields :
    (fuel : ℕ) (after : Bytes) (q : Query) (rest : Bytes)
    → ((r : Bytes)
        → length r < length rest
        → parse_loop fuel after r q ≡ some (run q (map call_of (fields r))))
    → Stops is_amp rest
    → parse_next (parse_loop fuel after) q rest ≡ some (run q (map call_of (fields_behind rest)))
unfolding parse_next
next-fields fuel after q [] ih h = unfold run in refl
next-fields fuel after q (c ∷ rest) ih h = rw h (ih rest (omega arith))

parse_loop-fields :
    (fuel : ℕ) (after it : Bytes) (q : Query)
    → IsBounded after
    → length it < word
    → length it < fuel
    → parse_loop fuel after it q ≡ some (run q (map call_of (fields it)))
unfolding parse_loop
parse_loop-fields zero after it q b fits h = absurd (omega arith)
parse_loop-fields (suc fuel) after [] q b fits h = unfold fields run in refl
parse_loop-fields (suc fuel) after (c ∷ it) q b fits h =
    subst
      (λ s.
        parse_round (parse_loop fuel after) after s q
        ≡ some (run q (map call_of (fields (c ∷ it)))))
      whole
      (parse_round-call (parse_loop fuel after) after b rest stops (cut field) q
          (IsPart-cut field (head_field-Free (c ∷ it)))
          (omega (arith, ap length (glue-cut field), size))
        ∙ next-fields fuel after (step q (call_of field)) rest
            (λ r k.
              parse_loop-fields fuel after r (step q (call_of field)) b (omega (arith, size))
                (omega (arith, size)))
            stops
        ∙ rw (fields-head_field c it) (unfold run in refl))
  where
    field : Bytes
    field = head_field (c ∷ it)

    rest : Bytes
    rest = look_for is_amp (c ∷ it)

    stops : Stops is_amp rest
    stops = look_for-Stops (c ∷ it)

    whole : glue (cut field) ++ rest ≡ c ∷ it
    whole = rw (glue-cut field) (head_field-append (c ∷ it))

    size : length field + length rest ≡ suc (length it)
    size = omega (arith, length-append field rest, ap length (head_field-append (c ∷ it)))

-- For every query text that no hexadecimal digit follows in memory, such as the bytes of a
-- `std::string`, the parser ends, faults nowhere, and makes the calls of its fields in order: `add`
-- for a field with a `=`, `set` for one without, names and values decoded.
pub parse-fields :
    (str after : Bytes)
    → IsBounded after
    → length str < word
    → parse str after ≡ some (run empty (map call_of (fields (drop_mark str))))
unfolding parse
parse-fields str after b fits =
    parse_loop-fields (suc (length str)) after (drop_mark str) empty b
      (omega (arith, length-drop_mark str)) (omega (arith, length-drop_mark str))

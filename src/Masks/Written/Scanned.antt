-- ===== src/Masks/Written/Scanned.antt =====
-- `parse_matcher` of path_compiler.cc on the written form of a plain mask.
use http_router.Base.{
  ℕ, zero, suc, ◌-◌, ◌<◌, ◌≡◌, refl, sym, ap, ◌∙◌, Bool, true, false, not, some, List, [], ◌∷◌,
  ◌++◌, map, arith, Bytes, All, length, length-append, append-nil, append_assoc,
}
use http_router.PathCompiler.Key.{Key, text, index, as_string}
use http_router.PathCompiler.Mask.{
  is_word, Found, param, match_at, Scan, flush, key_of, push_key, scan, start, parse_matcher,
  is_empty,
}
use http_router.Masks.Reading.{add}
use http_router.Masks.Compiled.{add_lem}
use http_router.Masks.Pieces.{
  Separator, bare, slash, dot, Piece, literal, parameter, prefix_of, key_of_piece,
}
use http_router.Masks.Written.{
  written, is_plain, may_open, is_behind, Fresh, IsWritten, match_at-plain, named, match_at-name,
  key_of-name,
}

-- Bytes that stand for themselves go to `path`.
may_open-plain :
    (s rest : Bytes)
    → All (λ d. is_plain d ≡ true) s
    → may_open rest ≡ false
    → may_open (s ++ rest) ≡ false
unfolding may_open is_plain
may_open-plain [] rest h e = e
may_open-plain (c ∷ s) rest (p, h) e = ground arith

path_added : Scan → Bytes → Scan
path_added st s = record st { path = st.path ++ s }

scan-plain :
    (s rest : Bytes) (fuel : ℕ) (st : Scan)
    → All (λ d. is_plain d ≡ true) s
    → may_open rest ≡ false
    → scan (add s fuel) (s ++ rest) st ≡ scan fuel rest (path_added st s)
unfolding scan path_added
scan-plain [] rest fuel st h e =
    ap (λ p. scan fuel rest (record st { path = p })) (sym (append-nil st.path))
scan-plain (c ∷ s) rest fuel st (p, h) e =
    rw (match_at-plain c (s ++ rest) p (may_open-plain s rest h e), scan)
      (scan-plain s rest fuel (record st { path = st.path ++ (c ∷ []) }) h e
        ∙ ap (λ p. scan fuel rest (record st { path = p })) (append_assoc st.path (c ∷ []) s))

-- A parameter takes one round.
scan-found :
    (c : ℕ) (mask rest : Bytes) (f : Found) (fuel : ℕ) (st : Scan)
    → match_at (c ∷ mask) ≡ some (param f, rest)
    → scan (suc fuel) (c ∷ mask) st ≡ scan fuel rest (push_key f rest st)
unfolding scan
scan-found c mask rest f fuel st e = rw (e, scan) refl

push_key-named :
    (sep : Separator) (c : ℕ) (name rest : Bytes) (st : Scan)
    → push_key (named sep (c ∷ name)) rest st ≡ record st {
      out = flush st.path st.out ++ (key_of (named sep (c ∷ name)) rest (text (c ∷ name)) ∷ []);
      path = [];
    }
unfolding push_key
push_key-named sep c name rest st = refl

may_open-written :
    (c : ℕ) (s : Bytes) (ps : List Piece)
    → Fresh (c ∷ s) ps
    → IsWritten ps
    → may_open (written ps) ≡ false
unfolding may_open
may_open-written c s [] h w = refl
may_open-written c s (literal t ∷ ps) h w = absurd h
may_open-written c s (parameter (text []) sep partial ∷ ps) h w = absurd w
may_open-written c s (parameter (text (d ∷ name)) bare partial ∷ ps) h w = absurd w
may_open-written c s (parameter (text (d ∷ name)) slash partial ∷ ps) h w = refl
may_open-written c s (parameter (text (d ∷ name)) dot partial ∷ ps) h w = refl
may_open-written c s (parameter (index i) sep partial ∷ ps) h w = absurd w

abbrev pushed : Separator → Bytes → Bytes → Scan → Scan
pushed sep name rest st = record st {
  out =
      flush st.path st.out ++ (key_of_piece (parameter (text name) sep (not (is_empty rest))) ∷ []);
  path = [];
}

scan-parameter :
    (sep : Separator) (c : ℕ) (name rest : Bytes) (fuel : ℕ) (st : Scan)
    → (sep ≡ bare → ⊥)
    → All (λ d. is_word d ≡ true) (c ∷ name)
    → is_behind rest ≡ true
    → scan (suc fuel) (prefix_of sep ++ (b':' ∷ ((c ∷ name) ++ rest))) st
      ≡ scan fuel rest (pushed sep (c ∷ name) rest st)
scan-parameter sep c name rest fuel st h w e =
    round sep (match_at-name sep c name rest w e)
    ∙ ap (scan fuel rest) (
        push_key-named sep c name rest st
        ∙ ap (λ k. record st { out = flush st.path st.out ++ (k ∷ []); path = [] })
            (key_of-name sep (c ∷ name) rest h))
  where
    round :
        (sep' : Separator)
        → match_at (prefix_of sep' ++ (b':' ∷ ((c ∷ name) ++ rest)))
          ≡ some (param (named sep (c ∷ name)), rest)
        → scan (suc fuel) (prefix_of sep' ++ (b':' ∷ ((c ∷ name) ++ rest))) st
          ≡ scan fuel rest (push_key (named sep (c ∷ name)) rest st)
    round bare m = scan-found b':' ((c ∷ name) ++ rest) rest _ fuel st m
    round slash m = scan-found b'/' (b':' ∷ ((c ∷ name) ++ rest)) rest _ fuel st m
    round dot m = scan-found b'.' (b':' ∷ ((c ∷ name) ++ rest)) rest _ fuel st m

-- A parameter and what is written behind it
behind_parameter :
    (sep : Separator) (c : ℕ) (name : Bytes) (partial : Bool) (ps : List Piece) (fuel : ℕ)
    (st : Scan)
    → (sep ≡ bare → ⊥)
    → All (λ d. is_word d ≡ true) (c ∷ name)
    → is_behind (written ps) ≡ true
    → partial ≡ not (is_empty (written ps))
    → ((st' : Scan)
        → Fresh st'.path ps
        → scan fuel (written ps) st' ≡ some (flush st'.path st'.out ++ map key_of_piece ps))
    → scan (suc fuel) (written (parameter (text (c ∷ name)) sep partial ∷ ps)) st
      ≡ some
          (flush st.path st.out ++ map key_of_piece (parameter (text (c ∷ name)) sep partial ∷ ps))
behind_parameter sep c name partial ps fuel st h w e same more =
    scan-parameter sep c name (written ps) fuel st h w e
    ∙ more (pushed sep (c ∷ name) (written ps) st) tt
    ∙ ap some (append_assoc (flush st.path st.out) _ (map key_of_piece ps))
    ∙ ap
        (λ b. some (
          flush st.path st.out
          ++ (key_of_piece (parameter (text (c ∷ name)) sep b) ∷ map key_of_piece ps)))
        (sym same)

-- A literal and what is written behind it
behind_literal :
    (c : ℕ) (s : Bytes) (ps : List Piece) (fuel : ℕ) (path : Bytes) (out : List Key) (key : ℕ)
    → All (λ d. is_plain d ≡ true) (c ∷ s)
    → may_open (written ps) ≡ false
    → Fresh path (literal (c ∷ s) ∷ ps)
    → length (c ∷ s) < fuel
    → scan (fuel - length (c ∷ s)) (written ps) (record { out = out; path = c ∷ s; key = key })
      ≡ some (flush (c ∷ s) out ++ map key_of_piece ps)
    → scan fuel (written (literal (c ∷ s) ∷ ps)) (record { out = out; path = path; key = key })
      ≡ some (flush path out ++ map key_of_piece (literal (c ∷ s) ∷ ps))
unfolding path_added
behind_literal c s ps fuel (d ∷ path) out key plain e fresh le more = absurd fresh
behind_literal c s ps fuel [] out key plain e fresh le more =
    let st : Scan = record { out = out; path = []; key = key } in
    ap (λ k. scan k ((c ∷ s) ++ written ps) st)
      (omega (arith, le, add_lem (c ∷ s) (fuel - length (c ∷ s))))
    ∙ scan-plain (c ∷ s) (written ps) (fuel - length (c ∷ s)) st plain e
    ∙ more
    ∙ ap some (append_assoc out (as_string (c ∷ s) ∷ []) (map key_of_piece ps))

scan-written :
    (ps : List Piece) (fuel : ℕ) (st : Scan)
    → IsWritten ps
    → Fresh st.path ps
    → length (written ps) < fuel
    → scan fuel (written ps) st ≡ some (flush st.path st.out ++ map key_of_piece ps)
unfolding scan
scan-written ps zero st w h le = absurd (omega (arith, le))
scan-written [] (suc fuel) st w h le = ap some (sym (append-nil (flush st.path st.out)))
scan-written (literal [] ∷ ps) (suc fuel) st w h le = absurd w
scan-written (literal (c ∷ s) ∷ ps) (suc fuel) st (plain, fresh, w) h le =
    behind_literal c s ps (suc fuel) st.path st.out st.key plain (may_open-written c s ps fresh w) h
      (omega (arith, le, length-append s (written ps)))
      (scan-written ps (suc fuel - length (c ∷ s)) (record st { path = c ∷ s }) w fresh
        (omega (arith, le, length-append s (written ps))))
scan-written (parameter (text []) sep partial ∷ ps) (suc fuel) st w h le = absurd w
scan-written (parameter (text (c ∷ name)) bare partial ∷ ps) (suc fuel) st w h le = absurd w
scan-written (parameter (text (c ∷ name)) slash partial ∷ ps) (suc fuel) st (word, e, same, w) h
      le =
    behind_parameter slash c name partial ps fuel st (λ f. cc) word e same
      (λ st' fresh.
        scan-written ps fuel st' w fresh (omega (arith, le, length-append name (written ps))))
scan-written (parameter (text (c ∷ name)) dot partial ∷ ps) (suc fuel) st (word, e, same, w) h le =
    behind_parameter dot c name partial ps fuel st (λ f. cc) word e same
      (λ st' fresh.
        scan-written ps fuel st' w fresh (omega (arith, le, length-append name (written ps))))
scan-written (parameter (index i) sep partial ∷ ps) (suc fuel) st w h le = absurd w

-- The tokens of a written mask are those of its pieces.
pub parse_matcher-written :
    (ps : List Piece) → IsWritten ps → parse_matcher (written ps) ≡ some (map key_of_piece ps)
unfolding parse_matcher
parse_matcher-written ps w = scan-written ps (suc (length (written ps))) start w tt (omega arith)

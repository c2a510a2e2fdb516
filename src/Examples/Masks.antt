-- ===== src/Examples/Masks.antt =====
-- Masks and the regular expressions made of them
use http_router.Base.{
  ℕ, ◌≡◌, refl, false, some, List, [], ◌∷◌, ◌++◌, arith, codes, All, length, last, map, true,
}
use http_router.PathCompiler.Key.{Key, text, as_string, make_key, default}
use http_router.PathCompiler.Mask.{is_word, parse_matcher}
use http_router.PathCompiler.Mask.Tokens.{IsToken, indexes, upto, parse_matcher-IsToken}
use http_router.PathCompiler.Describe.{Description, ends_in_slash, make, ends_with_slash, make_mask}
use http_router.PathCompiler.Describe.Keys.{parameters, make_mask-keys}
use http_router.PathCompiler.Describe.Slash.{make-slash}
use http_router.PathCompiler.Describe.Groups.{groups, IsClosed, groups_plain}
use http_router.PathCompiler.Describe.Captures.{make-groups}
use http_router.PathCompiler.Matcher.{Matcher, make_matcher, matches, param, fill}
use http_router.Regex.{regex_match, ecma}
use http_router.Masks.Pieces.{Piece, literal, parameter, slash, key_of_piece}
use http_router.Masks.Running.{pieces_re}
use http_router.Masks.Compiled.{end_re}
use http_router.Masks.Fits.{is_value}
use http_router.Masks.Written.{written, is_plain, is_behind, IsWritten}
use http_router.Masks.Paths.{path_of, HasValues, begins, IsCut, matches-path_of}
use http_router.Masks.Matching.{HasMatched, mask_matcher, IsMatch, matches-IsMatch}
use http_router.PathCompiler.Matcher.Params.{stored, matches-param}

parse_matcher-IsToken_example :
    (tokens : List Key) × (parse_matcher (codes "/u/:id/(\\d+)") ≡ some tokens)
    × All IsToken tokens
    × ((n : ℕ) × (indexes tokens ≡ upto n))
parse_matcher-IsToken_example = parse_matcher-IsToken (codes "/u/:id/(\\d+)")

make_mask-keys_example :
    (tokens : List Key) × (d : Description) × (parse_matcher (codes "/u/:id") ≡ some tokens)
    × (make_mask (codes "/u/:id") default ≡ some d)
    × (d.keys ≡ parameters tokens)
make_mask-keys_example = make_mask-keys (codes "/u/:id") default

-- `/u/:id` as tokens
abbrev id_key : Key
id_key = make_key (text (codes "id")) (codes "/") (codes "/") (codes "[^\\/]+?")

abbrev tokens : List Key
tokens = as_string (codes "/u") ∷ id_key ∷ []

tokens-IsToken : All IsToken tokens
tokens-IsToken = ((codes "/u", refl, (λ e. cc)), (((λ e. cc), (λ e. cc)), tt))

tokens-IsClosed : All IsClosed tokens
unfolding groups
tokens-IsClosed =
    ((λ rest. omega arith), ((λ rest. omega (arith, groups_plain b'?' rest refl refl)), tt))

slash_free : ends_in_slash (codes "/x") ≡ false
unfolding ends_in_slash last
slash_free = refl

make-slash_example :
    make ((as_string (codes "/u") ∷ []) ++ (as_string (codes "/x" ++ (b'/' ∷ [])) ∷ [])) default
    ≡ make ((as_string (codes "/u") ∷ []) ++ (as_string (codes "/x") ∷ [])) default
make-slash_example =
    make-slash (as_string (codes "/u") ∷ []) (codes "/x") default (tokens-IsToken.0, tt) (λ e. cc)
      slash_free refl

make-groups_example :
    (d : Description) × (make tokens default ≡ some d) × (groups d.route ≡ length d.keys)
make-groups_example = make-groups tokens default tokens-IsToken tokens-IsClosed

-- `/u/:id` as pieces
abbrev id_pieces : List Piece
id_pieces = literal (codes "/u") ∷ parameter (text (codes "id")) slash false ∷ []

id_parsed : parse_matcher (codes "/u/:id") ≡ some (map key_of_piece id_pieces)
unfolding parse_matcher
id_parsed = refl

id_open : ends_with_slash (map key_of_piece id_pieces) ≡ false
unfolding ends_with_slash
id_open = refl

matches-IsMatch_example :
    (m : Matcher ecma) × (make_matcher ecma (codes "/u/:id") default ≡ some m)
    × IsMatch id_pieces default (codes "/u/7/") [] (matches ecma m (codes "/u/7/") [])
matches-IsMatch_example =
    matches-IsMatch id_pieces (codes "/u/:id") default (codes "/u/7/") [] id_parsed refl refl
      id_open

matches-param_example :
    (
      (matches ecma (mask_matcher id_pieces default) (codes "/u/7") []).0,
      param (text (codes "id")) (matches ecma (mask_matcher id_pieces default) (codes "/u/7") []).1,
    )
    ≡ stored []
        (text (codes "id"))
        (mask_matcher id_pieces default).keys
        (ecma.regex_match (mask_matcher id_pieces default).regex (codes "/u/7"))
matches-param_example =
    matches-param ecma (mask_matcher id_pieces default) (codes "/u/7") [] (text (codes "id"))

-- `/u/:id/x`, in its written form
abbrev deep_pieces : List Piece
deep_pieces =
    literal (codes "/u") ∷ parameter (text (codes "id")) slash true ∷ literal (codes "/x") ∷ []

deep_pieces-IsWritten : IsWritten deep_pieces
unfolding is_plain is_behind is_word
deep_pieces-IsWritten =
    ((refl, (refl, tt)), tt, ((refl, (refl, tt)), refl, refl, ((refl, (refl, tt)), tt, tt)))

deep_pieces-IsCut : IsCut false deep_pieces
unfolding begins
deep_pieces-IsCut = (refl, tt)

deep_pieces-HasValues : HasValues deep_pieces (codes "7.a" ∷ [])
unfolding is_value
deep_pieces-HasValues = (refl, tt)

deep_open : ends_with_slash (map key_of_piece deep_pieces) ≡ false
unfolding ends_with_slash ends_in_slash last
deep_open = refl

matches-path_of_example :
    (m : Matcher ecma) × (make_matcher ecma (written deep_pieces) default ≡ some m)
    × HasMatched deep_pieces
        (codes "7.a" ∷ [])
        (matches ecma m (path_of deep_pieces (codes "7.a" ∷ [])) [])
matches-path_of_example =
    matches-path_of deep_pieces (codes "7.a" ∷ []) default [] deep_pieces-IsWritten
      deep_pieces-IsCut deep_pieces-HasValues refl refl deep_open

-- The written form and the path
deep_written : written deep_pieces ≡ codes "/u/:id/x"
deep_written = refl

deep_path : path_of deep_pieces (codes "7.a" ∷ []) ≡ codes "/u/7.a/x"
unfolding path_of
deep_path = refl

-- What the run of the expression gives, for a path that fits and for one that does not
seven :
    matches ecma (mask_matcher id_pieces default) (codes "/u/7/") []
    ≡ (true, (text (codes "id"), codes "7") ∷ [])
unfolding matches regex_match fill pieces_re end_re
seven = refl

too_deep : matches ecma (mask_matcher id_pieces default) (codes "/u/7/x") [] ≡ (false, [])
unfolding matches regex_match pieces_re end_re
too_deep = refl

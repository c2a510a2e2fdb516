-- ===== src/MimeTypes/Rows.antt =====
-- The rows of the table as the code keeps them, in ascending order of their numbers.
use Prim.Native.String.{String}
use http_router.Base.{
  ℕ, ◌<◌, ◌≡◌, refl, ap, ◌∙◌, Bool, true, ◌&&◌, List, [], ◌∷◌, map, arith, zero, suc, some,
  get_elem?, ltb,
}
use http_router.MimeTypes.{ext_u32, is_less, insert, sort, keyed, find_type, create_types}
use http_router.MimeTypes.Table.{types}

pub ascending : List (ℕ × String) → Bool
ascending [] = true
ascending (row ∷ []) = true
ascending ((key, mime) ∷ (key', mime') ∷ rows) = ltb key key' && ascending ((key', mime') ∷ rows)

insert_least :
    (row : ℕ × String) (rows : List (ℕ × String))
    → ascending (row ∷ rows) ≡ true
    → insert row rows ≡ row ∷ rows
unfolding ascending insert is_less
insert_least (key, mime) [] h = refl
insert_least (key, mime) ((key', mime') ∷ rows) h = ground arith

ascending-tail :
    (row : ℕ × String) (rows : List (ℕ × String))
    → ascending (row ∷ rows) ≡ true
    → ascending rows ≡ true
unfolding ascending
ascending-tail (key, mime) [] h = refl
ascending-tail (key, mime) ((key', mime') ∷ rows) h = ground arith

sort-ascending : (rows : List (ℕ × String)) → ascending rows ≡ true → sort rows ≡ rows
unfolding sort
sort-ascending [] h = refl
sort-ascending (row ∷ rows) h =
    ap (insert row) (sort-ascending rows (ascending-tail row rows h)) ∙ insert_least row rows h

-- Every later number is greater, so a row is found by its own.
least :
    (key : ℕ) (mime : String) (rows : List (ℕ × String)) (i key' : ℕ) (mime' : String)
    → ascending ((key, mime) ∷ rows) ≡ true
    → get_elem? rows i ≡ some (key', mime')
    → key < key'
unfolding ascending
least key mime [] i key' mime' h e = cc
least key mime ((k, m) ∷ rows) zero key' mime' h e = ground arith
least key mime ((k, m) ∷ rows) (suc i) key' mime' h e = ground (arith, least k m rows i key' mime')

pub find_type-get_elem? :
    (rows : List (ℕ × String)) (i key : ℕ) (mime : String)
    → ascending rows ≡ true
    → get_elem? rows i ≡ some (key, mime)
    → find_type key rows ≡ mime
unfolding find_type
find_type-get_elem? [] i key mime h e = cc
find_type-get_elem? ((k, m) ∷ rows) zero key mime h e = ground arith
find_type-get_elem? ((k, m) ∷ rows) (suc i) key mime h e = ground (
  arith,
  least k m rows i key mime h e,
  find_type-get_elem? rows i key mime (ascending-tail (k, m) rows h) e,
)

pub keyed-ascending : ascending (map keyed types) ≡ true
unfolding ascending types ext_u32
keyed-ascending = refl

-- The file lists its rows in the order of the sorted array.
pub create_types-keyed : create_types ≡ map keyed types
unfolding create_types
create_types-keyed = sort-ascending (map keyed types) keyed-ascending

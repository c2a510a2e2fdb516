-- ===== src/UiText/Buffers.antt =====
-- A buffer has room for its characters and the zero behind them, on the stack and on the heap.
use http_router.Base.{
  ℕ, zero, suc, ◌≤◌, ◌<◌, ◌≡◌, refl, sym, subst, Bool, true, false, Option, none, some, List, [],
  ◌∷◌, ◌++◌, arith, length, drop, leb, if◌then◌else◌, ◌>>=◌, bind_some,
}
use http_router.UiText.{CharBuff, zeros, cells, with_cells, sized_buff, put_at, overwrite, new_buff}

length-zeros : (n : ℕ) → length (zeros n) ≡ n
length-zeros zero = refl
length-zeros (suc n) = omega (arith, length-zeros n)

put_at-some :
    (i ch : ℕ) (xs : List ℕ)
    → i < length xs
    → (ys : List ℕ) × (put_at i ch xs ≡ some ys) × (length ys ≡ length xs)
unfolding put_at
put_at-some i ch [] h = absurd (omega arith)
put_at-some zero ch (x ∷ xs) h = (ch ∷ xs, refl, refl)
put_at-some (suc i) ch (x ∷ xs) h =
    let (ys, e, same) = put_at-some i ch xs (omega arith) in
    (x ∷ ys, rw e refl, omega (arith, same))

pub overwrite-some :
    (chs xs : List ℕ)
    → length chs ≤ length xs
    → overwrite chs xs ≡ some (chs ++ drop (length chs) xs)
unfolding overwrite
overwrite-some [] xs h = refl
overwrite-some (ch ∷ chs) [] h = absurd (omega arith)
overwrite-some (ch ∷ chs) (x ∷ xs) h = rw (overwrite-some chs xs (omega arith)) refl

cells_case :
    (array stack : List ℕ) (heap : Option (List ℕ)) (used : ℕ)
    → let buff = with_cells array (record { stack = stack; heap = heap; used = used }) in
      (cells buff ≡ array) × (buff.used ≡ used)
cells_case array stack none used = (refl, refl)
cells_case array stack (some old) used = (refl, refl)

-- Other cells in place of those of a buffer
pub cells-with_cells :
    (array : List ℕ) (buff : CharBuff)
    → (cells (with_cells array buff) ≡ array) × ((with_cells array buff).used ≡ buff.used)
cells-with_cells array buff = cells_case array buff.stack buff.heap buff.used

has_room :
    (count size : ℕ) (large : Bool)
    → leb count size ≡ large
    → let heap : Option (List ℕ) = if large then some (zeros (suc size)) else none in
      size < length (cells (record { stack = zeros count; heap = heap; used = size }))
has_room count size true e = omega (arith, length-zeros size)
has_room count size false e = ground (arith, length-zeros count)

ended :
    (size : ℕ) (buff : CharBuff)
    → size < length (cells buff)
    → (buff' : CharBuff) × (put_at size 0 (cells buff) >>= (λ array. some (with_cells array buff))
        ≡ some buff')
      × (size < length (cells buff'))
      × (buff'.used ≡ buff.used)
ended size buff h =
    let (array, e, same) = put_at-some size 0 (cells buff) h in
    let (is, used) = cells-with_cells array buff in
    (
      with_cells array buff,
      bind_some (put_at size 0 (cells buff)) _ array e,
      subst (λ xs. size < length xs) (sym is) (omega (arith, same, h)),
      used,
    )

pub new_buff-some :
    (count size : ℕ)
    → (buff : CharBuff) × (new_buff count size ≡ some buff)
      × (size < length (cells buff))
      × (buff.used ≡ size)
unfolding new_buff
new_buff-some count size =
    ended size (sized_buff count size) (has_room count size (leb count size) refl)

-- ===== src/UiText/Converted.antt =====
-- The text that a message is turned into.
use http_router.Base.{
  ℕ, ◌^◌, ◌<◌, ◌≡◌, refl, sym, ap, subst, ◌∙◌, Bool, true, false, not, Option, some, List, [], ◌∷◌,
  ◌++◌, arith, Bytes, length, take, drop, take-append, ◌==◌, if◌then◌else◌, ◌>>=◌, bind_some,
  Bool-cases, inl, inr,
}
use http_router.UiText.{
  Convert, Win32, to_int, calc, CharBuff, cells, with_cells, overwrite, new_buff, view, conv,
  conv_sized, narrowed, ui_to_utf8, small_size, empty_buff, view_or,
}
use http_router.UiText.Buffers.{cells-with_cells, new_buff-some, overwrite-some}

-- What is documented of a conversion to a text: with no room it returns the length of the text, and
-- with room for it also writes the text, which is empty where the conversion fails; lengths are `int`.
pub record Converts (convert : Convert) (text : List ℕ → List ℕ) : Type 0 where
  pub counts : (input : List ℕ) → (convert input 0).0 ≡ length (text input)
  pub writes :
      (input : List ℕ) → convert input (length (text input)) ≡ (length (text input), text input)
  pub is_int : (input : List ℕ) → length (text input) < 2 ^ 31

take-length {ℓ} : {A : Type ℓ} (xs : List A) → take (length xs) xs ≡ xs
take-length [] = refl
take-length (x ∷ xs) = ap (◌∷◌ x) (take-length xs)

module _ (convert : Convert) (text : List ℕ → List ℕ) (laws : Converts convert text) where
  input_lem : (input : List ℕ) → length input < 2 ^ 31 → take (to_int (length input)) input ≡ input
  input_lem input h = ap (λ n. take n input) (omega (arith, h)) ∙ take-length input

  calc_size :
      (input : List ℕ) → length input < 2 ^ 31 → (calc convert input 0).0 ≡ length (text input)
  calc_size input h = ap (λ xs. (convert xs 0).0) (input_lem input h) ∙ laws.counts input

  calc_text :
      (input : List ℕ)
      → length input < 2 ^ 31
      → calc convert input (length (text input)) ≡ (length (text input), text input)
  calc_text input h =
      ap (λ xs. convert xs (to_int (length (text input)))) (input_lem input h)
      ∙ ap (convert input) (omega (arith, laws.is_int input))
      ∙ laws.writes input

  conv_sized_lem :
      (count : ℕ) (input : List ℕ)
      → length input < 2 ^ 31
      → (buff : CharBuff) × (conv_sized convert count input (length (text input))
          ≡ some (not (length (text input) == 0), buff))
        × (view buff ≡ text input)
  unfolding conv_sized
  conv_sized_lem count input h =
      let (buff, e, room, used) = new_buff-some count (length (text input)) in
      let array = text input ++ drop (length (text input)) (cells buff) in
      let (is, used') = cells-with_cells array buff in
      (
        with_cells array buff,
        bind_some (new_buff count (length (text input))) _ buff e
            ∙ ap
                (λ r.
                  overwrite r.1 (cells buff)
                  >>= (λ array. some (not (r.0 == 0), with_cells array buff)))
                (calc_text input h)
            ∙ bind_some (overwrite (text input) (cells buff)) _ array
                (overwrite-some (text input) (cells buff) (omega (arith, room))),
        ap (λ n. take n (cells (with_cells array buff))) (used' ∙ used)
            ∙ ap (take (length (text input))) is
            ∙ take-append (text input) _,
      )

  -- The result of `conv`: whether there is a text, and the buffer with it
  abbrev IsConverted : List ℕ → Option (Bool × CharBuff) → Type 0
  IsConverted input after =
      (buff : CharBuff) × (after ≡ some (not (length (text input) == 0), buff))
      × (0 < length (text input) → view buff ≡ text input)

  conv_branches :
      (count : ℕ) (input : List ℕ) (result : CharBuff) (size : ℕ)
      → (calc convert input 0).0 ≡ size
      → conv convert count input result
        ≡ (if size == 0 then some (false, result) else conv_sized convert count input size)
  unfolding conv
  conv_branches count input result size e =
      ap (λ n. if n == 0 then some (false, result) else conv_sized convert count input n) e

  pub conv_lem :
      (count : ℕ) (input : List ℕ) (result : CharBuff)
      → length input < 2 ^ 31
      → IsConverted input (conv convert count input result)
  conv_lem count input result h =
      subst (IsConverted input) (sym (conv_branches count input result _ (calc_size input h)))
        (elim (Bool-cases (length (text input) == 0)) [
          | inl nothing ↦
              rw nothing (result, refl, λ some_text. absurd (ground (arith, nothing, some_text)))
          | inr something ↦
              let (buff, e, is) = conv_sized_lem count input h in
              rw something (buff, rw something at e, λ some_text. is)
        ])

-- What the message becomes: its conversion to wide characters converted to UTF-8, or the message
-- where a conversion fails
abbrev pub or_message : Bytes → List ℕ → List ℕ
or_message msg text = if length text == 0 then msg else text

abbrev pub utf8_of : (List ℕ → List ℕ) → (List ℕ → List ℕ) → Bytes → Bytes
utf8_of wide narrow msg = if length (wide msg) == 0 then msg else or_message msg (narrow (wide msg))

ui_lem :
    (win32 : Win32) (msg : Bytes)
    → ui_to_utf8 win32 msg
      ≡ conv win32.MultiByteToWideChar small_size msg (empty_buff small_size) >>= narrowed win32 msg
unfolding ui_to_utf8
ui_lem win32 msg = refl

narrowed_failed :
    (win32 : Win32) (msg : Bytes) (wide : CharBuff) → narrowed win32 msg (false, wide) ≡ some msg
unfolding narrowed
narrowed_failed win32 msg wide = refl

narrowed_lem :
    (win32 : Win32) (msg : Bytes) (wide : CharBuff)
    → narrowed win32 msg (true, wide)
      ≡ conv win32.WideCharToMultiByte small_size (view wide) (empty_buff small_size)
        >>= (λ narrow. some (view_or msg narrow))
unfolding narrowed
narrowed_lem win32 msg wide = refl

viewed :
    (msg : Bytes) (text : List ℕ) (buff : CharBuff)
    → (0 < length text → view buff ≡ text)
    → view_or msg (not (length text == 0), buff) ≡ or_message msg text
viewed msg text buff is = elim (Bool-cases (length text == 0)) [
  | inl nothing ↦ rw nothing refl
  | inr something ↦ rw something (is (ground (arith, something)))
]

narrowed_converted :
    (win32 : Win32) (narrow : List ℕ → List ℕ) (msg : Bytes) (text : List ℕ) (wide : CharBuff)
    → Converts win32.WideCharToMultiByte narrow
    → length text < 2 ^ 31
    → view wide ≡ text
    → narrowed win32 msg (true, wide) ≡ some (or_message msg (narrow text))
narrowed_converted win32 narrow msg text wide laws h is =
    let convert = win32.WideCharToMultiByte in
    let (buff, e, same) = conv_lem convert narrow laws small_size text (empty_buff small_size) h in
    narrowed_lem win32 msg wide
    ∙ ap (λ t. conv convert small_size t (empty_buff small_size) >>= (λ n. some (view_or msg n))) is
    ∙ bind_some (conv convert small_size text (empty_buff small_size)) _ _ e
    ∙ ap some (viewed msg (narrow text) buff same)

-- Where the system converts as it is documented, and for a message shorter than 2 ^ 31: both
-- buffers have room for what is written to them and for the zero behind it, whether it goes to the
-- stack or to the heap, and the result is the message in UTF-8, or the message itself where a
-- conversion fails.
pub ui_to_utf8-utf8_of :
    (win32 : Win32) (wide narrow : List ℕ → List ℕ) (msg : Bytes)
    → Converts win32.MultiByteToWideChar wide
    → Converts win32.WideCharToMultiByte narrow
    → length msg < 2 ^ 31
    → ui_to_utf8 win32 msg ≡ some (utf8_of wide narrow msg)
ui_to_utf8-utf8_of win32 wide narrow msg laws laws' h =
    let (buff, e, is) =
      conv_lem win32.MultiByteToWideChar wide laws small_size msg (empty_buff small_size) h in
    ui_lem win32 msg
    ∙ bind_some (conv win32.MultiByteToWideChar small_size msg (empty_buff small_size)) _ _ e
    ∙ (elim (Bool-cases (length (wide msg) == 0)) [
      | inl nothing ↦ rw nothing (narrowed_failed win32 msg buff)
      | inr something ↦ rw something (
          narrowed_converted win32 narrow msg (wide msg) buff laws' (laws.is_int msg)
            (is (ground (arith, something))))
    ])

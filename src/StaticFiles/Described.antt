-- ===== src/StaticFiles/Described.antt =====
-- That the fields of an answer with a file can be set.
use http_router.Base.{
  ℕ, sym, ◌≢◌, ◌+◌, ◌⊎◌, inl, inr, some_of_bind, zero, suc, ◌≤◌, ◌≡◌, refl, ap, ◌∙◌, Option, none,
  some, [], ◌∷◌, ◌++◌, arith, Bytes, length, length-append, codes, ◌>>=◌, bind_some,
}
use mathlib.Core.Option.{some-injective}
use http_router.Beast.{Beast, IsBeast, Field, last_modified, content_type, accept_ranges, date}
use http_router.MimeTypes.{ext_rounds, ext_tmplt, key_of, mime_type, extension}
use http_router.MimeTypes.Lookup.{mime_type-key}
use http_router.StaticFiles.Dates.{format_date}
use http_router.StaticFiles.Dates.Columns.{IsTm, read_date-format_date}
use http_router.StaticFiles.{FileSystem, dated, described}

ext_rounds-total :
    (more shl result : ℕ) (e : Bytes)
    → more ≤ length e
    → (key : ℕ) × (ext_rounds more shl result e ≡ some key)
unfolding ext_rounds
ext_rounds-total zero shl result e h = (result, refl)
ext_rounds-total (suc more) shl result [] h = absurd (omega arith)
ext_rounds-total (suc more) shl result (c ∷ e) h = ext_rounds-total more _ _ e (omega arith)

key_of-total :
    (behind ext : Bytes)
    → (ext ≡ []) ⊎ (4 ≤ length ext + length behind)
    → (key : ℕ) × (key_of behind ext ≡ some key)
unfolding key_of ext_tmplt
key_of-total behind [] h = (0, refl)
key_of-total behind (dot ∷ view) (inl e) = cc
key_of-total behind (dot ∷ view) (inr h) =
    ext_rounds-total 4 24 0 (view ++ (0 ∷ behind))
      (omega (arith, h, length-append {0} view (0 ∷ behind)))

pub mime_type-total :
    (behind path : Bytes)
    → (extension path ≡ []) ⊎ (4 ≤ length (extension path) + length behind)
    → (mime : Bytes) × (mime_type behind path ≡ some mime)
mime_type-total behind path h =
    let (key, e) = key_of-total behind (extension path) h in (_, mime_type-key behind path key e)

module _ (b : Beast) (fs : FileSystem b) where
  -- A file whose fields can be set. `ext_tmplt` reads four bytes from the extension on, behind the dot:
  -- an extension of three letters or more has them with the zero at its end, and behind a shorter one
  -- there is as much memory as is missing. The present time and that of the file are in the years
  -- from 1900 to 9999.
  pub record IsDescribable (path : Bytes) : Type 0 where
    pub readable : (extension path ≡ []) ⊎ (4 ≤ length (extension path) + length (fs.behind path))
    pub today : IsTm (fs.gmtime fs.now)
    pub written : (t : ℕ) → fs.last_write_time path ≡ some t → IsTm (fs.gmtime t)

  described_lem :
      (path : Bytes) (h : b.Header)
      → described b fs path h
        ≡ mime_type (fs.behind path) path >>= (λ mime. format_date (fs.gmtime fs.now) >>= (λ today.
          dated b fs
            (fs.last_write_time path)
            (b.set date today (b.set accept_ranges (codes "bytes") (b.set content_type mime h)))))
  unfolding described
  described_lem path h = refl

  format_date-total :
      (t : ℕ) → IsTm (fs.gmtime t) → (text : Bytes) × (format_date (fs.gmtime t) ≡ some text)
  format_date-total t h = let (text, e, _, _) = read_date-format_date (fs.gmtime t) h in (text, e)

  dated-total :
      (time : Option ℕ) (h : b.Header)
      → ((t : ℕ) → time ≡ some t → IsTm (fs.gmtime t))
      → (after : b.Header) × (dated b fs time h ≡ some after)
  dated-total none h is = (h, refl)
  dated-total (some t) h is =
      let (text, e) = format_date-total t (is t refl) in
      (b.set last_modified text h, ap (λ o. o >>= (λ text. some (b.set last_modified text h))) e)

  pub described-total :
      (path : Bytes) (h : b.Header)
      → IsDescribable path
      → (after : b.Header) × (described b fs path h ≡ some after)
  described-total path h is =
      let (mime, e) = mime_type-total (fs.behind path) path is.readable in
      let (today, f) = format_date-total fs.now is.today in
      let (after, g) =
        dated-total (fs.last_write_time path)
          (b.set date today (b.set accept_ranges (codes "bytes") (b.set content_type mime h)))
          is.written in
      (after, described_lem path h ∙ bind_some _ _ mime e ∙ bind_some _ _ today f ∙ g)

  -- The type of the file is set, and no later field takes its place.
  module _ (beast : IsBeast b) where
    kept :
        (f : Field) (v : Bytes) (h : b.Header)
        → content_type ≢ f
        → b.get content_type (b.set f v h) ≡ b.get content_type h
    kept f v h other = beast.get-set_other content_type f v h other

    get-dated :
        (time : Option ℕ) (h after : b.Header)
        → dated b fs time h ≡ some after
        → b.get content_type after ≡ b.get content_type h
    get-dated none h after e = ap (b.get content_type) (sym (some-injective _ _ e))
    get-dated (some t) h after e =
        let (text, f, g) = some_of_bind (format_date (fs.gmtime t)) _ after e in
        ap (b.get content_type) (sym (some-injective _ _ g)) ∙ kept last_modified text h (λ e. cc)

    pub get-described :
        (path : Bytes) (h after : b.Header)
        → described b fs path h ≡ some after
        → b.get content_type after ≡ mime_type (fs.behind path) path
    get-described path h after e =
        let (mime, f, g) =
          some_of_bind (mime_type (fs.behind path) path) _ after (sym (described_lem path h) ∙ e) in
        let (today, _, k) = some_of_bind (format_date (fs.gmtime fs.now)) _ after g in
        get-dated (fs.last_write_time path) _ after k
        ∙ kept date today _ (λ e. cc)
        ∙ kept accept_ranges (codes "bytes") _ (λ e. cc)
        ∙ beast.get-set content_type mime h
        ∙ sym f

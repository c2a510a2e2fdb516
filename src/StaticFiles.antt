-- ===== src/StaticFiles.antt =====
-- libs/static_files: the filter that answers with files, and libs/http-router/src/shared_roots.cc.
-- The file system, the clock and the dates are a parameter. A point in time is a number of ticks,
-- and a time that could not be had, `time_point::min()` in the code, is `none`.
pub mod Dates
pub mod Described
pub mod Resolve
pub mod Roots
pub mod Answers
pub mod Partial
pub mod Site
use http_router.Base.{
  ℕ, zero, suc, ◌+◌, ◌-◌, Bool, true, false, not, ◌&&◌, ◌||◌, Option, none, some, List, [], ◌∷◌,
  ◌++◌, Bytes, codes, equal, length, drop, ltb, leb, ◌==◌, if◌then◌else◌, ◌>>=◌, sub64, add64, last,
}
use http_router.Beast.{
  Beast, Field, content_type, accept_ranges, date, last_modified, content_range, range,
  if_modified_since,
}
use http_router.Request.{Request}
use http_router.Range.{Range, RangeField, present, absent, invalid, request_ranges}
use http_router.Response.{
  Response, digits, empty_body, file_body, is_set, set, result, send, moved, bad_request,
  stock_response, decimal,
}
use http_router.Filters.{Filtering, carry_on, finished, Filter, base, supports_none}
use http_router.PathCompiler.Describe.{ends_in_slash}
use http_router.MimeTypes.{mime_type}
use http_router.StaticFiles.Dates.{Tm, format_date}

-- `resource_from`; `none` is `std::out_of_range`, or `back()` of an empty view.
unfoldable pub resource_at : Bytes → ℕ → Option Bytes
resource_at path pos = if ltb (length path) pos then none else some (drop pos path)

unfoldable pub resource_from : Bytes → Bytes → Option Bytes
unfolding resource_at last
resource_from decoded_path prefix = do
  path ← resource_at decoded_path (suc (length prefix))
  back ← last decoded_path
  some (if back == b'/' then path ++ codes "index.html" else path)

-- `operator/` of `std::filesystem::path`, on a system where `/` is the separator
unfoldable pub path_append : Bytes → Bytes → Bytes
unfolding ends_in_slash
path_append root [] = if length root == 0 || ends_in_slash root then root else root ++ (b'/' ∷ [])
path_append root (c ∷ s) =
    if c == b'/'
    then c ∷ s
    else if length root == 0 || ends_in_slash root
    then root ++ (c ∷ s)
    else root ++ (b'/' ∷ c ∷ s)

-- `root_directory::path_for`; `make_preferred` changes nothing there.
abbrev pub path_for : Bytes → Bytes → Bytes
path_for root filename = path_append root filename

module _ (b : Beast) where
  -- What the code asks of the file system and of the clock. `behind` is what stands in memory behind
  -- the copy that `mime_type` makes of the extension of a path.
  pub record FileSystem : Type 0 where
    pub is_directory : Bytes → Bool
    pub open_scan : Bytes → Option b.File
    pub last_write_time : Bytes → Option ℕ
    pub now : ℕ
    pub seconds : ℕ → ℕ
    pub gmtime : ℕ → Tm
    pub get_time : Bytes → Option ℕ
    pub behind : Bytes → Bytes

  module _ (fs : FileSystem) where
    -- `modified_since`; a date that cannot be read is before all others.
    abbrev pub is_later : ℕ → Option ℕ → Bool
    is_later modified none = true
    is_later modified (some since) = ltb (fs.seconds since) (fs.seconds modified)

    unfoldable pub modified_since : Option ℕ → Request → Bool
    modified_since none req = false
    modified_since (some modified) req = elim (req.req.find if_modified_since) [
      | none ↦ false
      | some value ↦ is_later modified (fs.get_time value)
    ]

    -- The texts of `Content-Range`
    abbrev pub unsatisfied : ℕ → Bytes
    unsatisfied size = codes "bytes */" ++ decimal size

    abbrev pub satisfied : Range → ℕ → Bytes
    satisfied r size =
        codes "bytes " ++ (decimal r.start ++ (b'-' ∷ (decimal r.end ++ (b'/' ∷ decimal size))))

    -- `size = ranges.front().end - ranges.front().start + 1`
    abbrev pub range_size : Range → ℕ
    range_size r = add64 (sub64 r.end r.start) 1

    abbrev pub dated : Option ℕ → b.Header → Option b.Header
    dated none header = some header
    dated (some time) header = do
      text ← format_date (fs.gmtime time)
      some (b.set last_modified text header)

    -- The fields that every answer with a file has; `none` is a read out of range.
    unfoldable pub described : Bytes → b.Header → Option b.Header
    unfolding mime_type format_date
    described path header = do
      mime ← mime_type (fs.behind path) path
      today ← format_date (fs.gmtime fs.now)
      dated (fs.last_write_time path)
          (b.set date today (b.set accept_ranges (codes "bytes") (b.set content_type mime header)))

    module _ (Out : Type 0) where
      abbrev pub content_length : ℕ → Response b Out → Response b Out
      content_length size resp = record resp { header = b.content_length size resp.header }

      abbrev pub done : Option (Response b Out) → Option (Filtering × Response b Out)
      done none = none
      done (some resp) = some (finished, resp)

      -- The end of `get_file`, behind `resp.content_length(size)`
      unfoldable pub deliver :
          b.File → RangeField → Bytes → Response b Out → Option (Response b Out)
      unfolding modified_since send
      deliver body status path resp =
          if equal resp.req.req.method (codes "HEAD")
          then send b Out empty_body is_set resp
          else if (elim status [ present ↦ false | _ ↦ true ])
              && modified_since (fs.last_write_time path) resp.req
          then send b Out empty_body is_set (result b Out 304 resp)
          else send b Out (file_body body) is_set resp

      -- The branches on the range
      unfoldable pub answer_range :
          b.File → Bytes → RangeField × List Range → Response b Out → Option (Response b Out)
      unfolding deliver send digits
      answer_range body path (absent, ranges) resp =
          deliver body absent path (content_length (b.size body) resp)
      answer_range body path (invalid, ranges) resp =
          send b Out empty_body is_set
            (set b Out content_range (unsatisfied (b.size body)) (result b Out 416 resp))
      answer_range body path (present, []) resp = none
      answer_range body path (present, r ∷ ranges) resp =
          deliver (b.fragment r.start (add64 r.end 1) body) present path (
            content_length (range_size r)
              (set b Out content_range (satisfied r (b.size body)) (result b Out 206 resp)))

      unfoldable pub open_file :
          Bytes → Option b.File → Response b Out → Option (Filtering × Response b Out)
      unfolding answer_range request_ranges described
      open_file path none resp = some (carry_on, resp)
      open_file path (some body) resp = do
        ranges ← request_ranges (b.size body) (resp.req.req.find range)
        header ← described path resp.header
        done (answer_range body path ranges (record resp { header = header }))

      unfoldable pub get_file : Bytes → Response b Out → Option (Filtering × Response b Out)
      unfolding open_file moved stock_response
      get_file path resp =
          if fs.is_directory path
          then done (moved b Out 301 (resp.req.path ++ (b'/' ∷ [])) resp)
          else if not (equal resp.req.req.method (codes "GET"))
              && not (equal resp.req.req.method (codes "HEAD"))
          then done (bad_request b Out (codes "Unknown HTTP-method") resp)
          else open_file path (fs.open_scan path) resp

    -- The loop of `shared_roots::expand`: the least time of all so far, if any, and its candidate.
    -- `none` is the start value `file_time_type::max()`, which no file has here.
    abbrev pub earlier : Bytes → Option ℕ → Option (ℕ × Bytes) → Option (ℕ × Bytes)
    earlier candidate none best = best
    earlier candidate (some mtime) none = some (mtime, candidate)
    earlier candidate (some mtime) (some (best_mtime, best)) =
        if leb best_mtime mtime then some (best_mtime, best) else some (mtime, candidate)

    unfoldable pub expand_from : List Bytes → Bytes → Option (ℕ × Bytes) → Option (ℕ × Bytes)
    expand_from [] filename best = best
    expand_from (root ∷ roots) filename best =
        let candidate = path_append root filename in
        expand_from roots filename (earlier candidate (fs.last_write_time candidate) best)

    -- `shared_roots::expand`; `none` is `front()` of no roots.
    unfoldable pub expand : List Bytes → Bytes → Option Bytes
    unfolding expand_from path_append
    expand roots filename = elim (expand_from roots filename none) [
      | some (mtime, candidate) ↦ some candidate
      | none ↦ elim roots [ [] ↦ none | root ∷ more ↦ some (path_append root filename) ]
    ]

    -- The mappers that `static_files` is made with: `root_directory`, whose name is its path, and
    -- `root_directories` with a name or without; `none` is `front()` of no roots.
    pub record Mapper : Type 0 where
      pub name : Bytes
      pub path_for : Bytes → Option Bytes

    abbrev pub root_directory : Bytes → Mapper
    root_directory root = record {
      name = root;
      path_for = λ filename. some (path_for root filename);
    }

    abbrev pub root_directories : List Bytes → Mapper
    root_directories roots = record { name = codes "<shared roots>"; path_for = expand roots }

    abbrev pub named_root_directories : Bytes → List Bytes → Mapper
    named_root_directories stored_name roots = record (root_directories roots) {
      name = stored_name;
    }

    module _ (Out : Type 0) where
      -- `static_files::preproc`
      unfoldable pub serve : Mapper → Response b Out → Bytes → Option (Filtering × Response b Out)
      unfolding get_file resource_from path_append
      serve mapper resp prefix = do
        resource ← resource_from resp.req.decoded_path prefix
        path ← mapper.path_for resource
        get_file Out path resp

      abbrev pub static_files : Mapper → Filter b Out
      static_files mapper =
          record (base b Out (b'[' ∷ (mapper.name ++ (b']' ∷ [])))
            (record supports_none { pre = true })) { preproc = serve mapper }

-- ===== src/Examples/Files.antt =====
-- Files, over a small file system.
use http_router.Base.{
  ℕ, ◌<◌, ◌≡◌, ◌⊎◌, refl, ap, true, false, none, some, List, [], ◌∷◌, ◌++◌, arith, Bytes, codes,
  equal, length, if◌then◌else◌, starts_with, ◌>>=◌, word, last, ends_with, contains, is_digit,
  isspace, find,
}
use http_router.Range.{
  present, request_ranges, parse_byte_ranges, ranges_loop, parse_byte_range, range_at, clamp, parse,
  from_chars, from_digits, strip, strip_front,
}
use http_router.Request.{Request}
use http_router.Response.{Response, Message, make_response}
use http_router.Filters.{finished, logger, cors}
use http_router.PathCompiler.Describe.{ends_in_slash}
use http_router.Router.{has_up_dir, Router, handle_request}
use http_router.Router.Answers.{IsAnswered}
use http_router.Router.UpDir.{any_up, segments}
use http_router.StaticFiles.Site.{
  HasFiles, has_logger, has_cors, has_files, handle_request-library_filters,
}
use http_router.StaticFiles.{
  FileSystem, root_directory, static_files, resource_from, path_append, get_file, expand,
}
use http_router.StaticFiles.Dates.{Tm}
use http_router.StaticFiles.Dates.Columns.{IsTm}
use http_router.Base.{◌⊎◌, inl, inr, ◌≤◌, ◌+◌}
use http_router.MimeTypes.{extension, filename, behind_last, extension_of, last_dot}
use http_router.StaticFiles.Described.{IsDescribable}
use http_router.StaticFiles.Resolve.{page, resolved, resolved-inside, any_up-resource_from}
use http_router.StaticFiles.Answers.{IsFinished, get_file-answers}
use http_router.StaticFiles.Partial.{IsPart, get_file-IsPart}
use http_router.StaticFiles.Roots.{IsLeast, expand-IsLeast}
use http_router.Examples.Http.{beast, beast-IsBeast, Fields, keeping}
use http_router.Examples.Sessions.{literal}

root_plain : ends_in_slash (codes "/srv") ≡ false
unfolding ends_in_slash last
root_plain = refl

resolved-inside_example :
    (resolved (codes "/srv") (codes "/f" ++ (b'/' ∷ codes "a/")) (codes "/f")
      ≡ some (
          if starts_with (codes "/") (codes "a/")
          then codes "a/" ++ page (b'/' ∷ codes "a/")
          else codes "/srv" ++ (b'/' ∷ (codes "a/" ++ page (b'/' ∷ codes "a/")))))
    × (resolved (codes "/srv") (codes "/f") (codes "/f") ≡ none)
resolved-inside_example =
    resolved-inside (codes "/srv") (codes "/f") (codes "a/") (λ e. cc) root_plain

no_up : has_up_dir (codes "/f" ++ (b'/' ∷ codes "a/")) ≡ false
unfolding has_up_dir ends_with contains starts_with equal
no_up = refl

any_up-resource_from_example :
    (r : Bytes) × (resource_from (codes "/f" ++ (b'/' ∷ codes "a/")) (codes "/f") ≡ some r)
    × (any_up (segments r) ≡ false)
any_up-resource_from_example = any_up-resource_from (codes "/f") (codes "a/") no_up

-- Every path is a file of ten bytes.
abbrev ten : Bytes
ten = codes "0123456789"

-- Sun, 06 Nov 1994 08:49:37 GMT
abbrev pub sunday : Tm
sunday = record {
  tm_sec = 37;
  tm_min = 49;
  tm_hour = 8;
  tm_mday = 6;
  tm_mon = 10;
  tm_year = 94;
  tm_wday = 0;
}

pub sunday-IsTm : IsTm sunday
sunday-IsTm = omega arith

abbrev files : FileSystem beast
files = record {
  is_directory = λ path. false;
  open_scan = λ path. some ten;
  last_write_time = λ path. some 7;
  now = 9;
  seconds = λ t. t;
  gmtime = λ t. sunday;
  get_time = λ s. none;
  behind = λ path. 0 ∷ 0 ∷ 0 ∷ [];
}

page-IsDescribable : IsDescribable beast files (codes "/srv/a.html")
unfolding extension filename behind_last extension_of last_dot equal
page-IsDescribable = record {
  readable = inr (omega arith);
  today = sunday-IsTm;
  written = λ t e. sunday-IsTm;
}

abbrev ranged_request : Request
ranged_request = record {
  req = record {
    target = codes "/f/a";
    method = codes "GET";
    version = 11;
    keep_alive = true;
    find = λ f. some (codes "bytes=2-4");
  };
  path = codes "/f/a";
  decoded_path = codes "/f/a";
  query = [];
  remote = [];
}

abbrev ask : Response beast (List (Message beast))
ask = make_response beast (List (Message beast)) 11 ranged_request keeping []

ten_bytes : (body : Bytes) → ten ≡ body → (0 < length body) × (length body < word)
ten_bytes body e = (omega (arith, ap length e), omega (arith, ap length e))

get_file-answers_example :
    IsFinished beast literal files
      (List (Message beast))
      ask
      (get_file beast files (List (Message beast)) (codes "/srv/a.html") ask)
get_file-answers_example =
    get_file-answers beast literal files (List (Message beast)) (codes "/srv/a.html") ask
      (λ body e. page-IsDescribable) (λ msg out. (out ++ (msg ∷ []), refl))

two_to_four :
    request_ranges 10 (some (codes "bytes=2-4"))
    ≡ some (present, record { start = 2; end = 4 } ∷ [])
unfolding request_ranges parse_byte_ranges ranges_loop parse_byte_range range_at clamp parse
    from_chars from_digits is_digit find strip strip_front isspace equal
two_to_four = refl

get_file-IsPart_example :
    (m : Message beast) × (after : Fields) × (get_file beast files
        (List (Message beast))
        (codes "/srv/a.html")
        ask
      ≡ keeping ranged_request m []
        >>= (λ out. some (finished, record ask { header = after; out = out })))
    × IsPart beast beast-IsBeast literal files
        (List (Message beast))
        (codes "/srv/a.html")
        ten
        (record { start = 2; end = 4 })
        m
get_file-IsPart_example =
    get_file-IsPart beast beast-IsBeast literal files (List (Message beast)) (codes "/srv/a.html")
      ask ten (record { start = 2; end = 4 }) [] page-IsDescribable refl refl refl (omega arith)
      (omega arith) two_to_four

expand-IsLeast_example :
    (path : Bytes) × (expand beast files (codes "/a" ∷ codes "/b" ∷ []) (codes "x") ≡ some path)
    × (((mtime : ℕ) × IsLeast beast files
            (codes "x")
            (some (mtime, path))
            (codes "/a" ∷ codes "/b" ∷ []))
        ⊎ (IsLeast beast files (codes "x") none (codes "/a" ∷ codes "/b" ∷ [])
            × (path ≡ path_append (codes "/a") (codes "x"))))
expand-IsLeast_example = expand-IsLeast beast files (codes "x") (codes "/a") (codes "/b" ∷ [])

-- A server of files: `simple-server`, with the filters that print
abbrev file_server : Router beast literal (List (Message beast))
file_server = record {
  routes = [];
  filters =
      (codes "/", logger beast (List (Message beast)))
      ∷ ([], cors beast (List (Message beast)))
      ∷ (
        [],
        static_files beast files (List (Message beast)) (root_directory beast files (codes ".")),
      )
      ∷ [];
}

-- Three bytes can be read behind each copy of an extension.
enough : (ext : Bytes) → (ext ≡ []) ⊎ (4 ≤ length ext + 3)
enough [] = inl refl
enough (c ∷ ext) = inr (omega arith)

files-HasFiles : HasFiles beast literal files (List (Message beast))
files-HasFiles path body e = record {
  readable = enough (extension path);
  today = sunday-IsTm;
  written = λ t e. sunday-IsTm;
}

handle_request-library_filters_example :
    IsAnswered beast literal
      (List (Message beast))
      1
      ask
      (handle_request beast literal (List (Message beast)) file_server ask)
handle_request-library_filters_example =
    handle_request-library_filters beast literal files (List (Message beast)) file_server ask
      files-HasFiles (has_logger (codes "/"), (has_cors [], (has_files (codes "."), tt))) tt
      (λ msg out. (out ++ (msg ∷ []), refl))

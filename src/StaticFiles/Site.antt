-- ===== src/StaticFiles/Site.antt =====
-- That a server with the filters of the library answers.
use http_router.Base.{
  ◌≡◌, refl, sym, ap, subst, ◌∙◌, some, List, [], ◌∷◌, ◌++◌, Bytes, codes, All, bind_some,
}
use http_router.Beast.{Beast, access_control_allow_origin}
use http_router.Response.{Response}
use http_router.Filters.{carry_on, Filter, cors, headers, logger}
use http_router.PathCompiler.Matcher.{Engine}
use http_router.Router.{FilterList, Router, handle_request}
use http_router.Router.Answers.{Takes, IsAnswered, AnswersFilter, AnswersRoutes}
use http_router.Router.Answers.Requests.{handle_request-answers}
use http_router.StaticFiles.{
  FileSystem, resource_from, path_for, get_file, Mapper, root_directory, root_directories, serve,
  static_files,
}
use http_router.StaticFiles.Roots.{expand-IsLeast}
use http_router.StaticFiles.Resolve.{page, resource_from-inside}
use http_router.StaticFiles.Described.{IsDescribable}
use http_router.StaticFiles.Answers.{IsFinished, get_file-answers}

module _ (b : Beast) (engine : Engine) (fs : FileSystem b) (Out : Type 0) where
  -- The filters of the library: those that answer nothing, with any prefix, and files with none
  pub data IsLibraryFilter : Bytes → Filter b Out → Type 0 where
    has_cors : (prefix : Bytes) → IsLibraryFilter prefix (cors b Out)
    has_headers : (prefix : Bytes) → IsLibraryFilter prefix (headers b Out)
    has_logger : (prefix : Bytes) → IsLibraryFilter prefix (logger b Out)
    has_files :
        (root : Bytes) → IsLibraryFilter [] (static_files b fs Out (root_directory b fs root))
    has_shared_files :
        (root : Bytes) (roots : List Bytes)
        → IsLibraryFilter [] (static_files b fs Out (root_directories b fs (root ∷ roots)))

  -- The fields of every file that opens can be set.
  abbrev pub HasFiles : Type 0
  HasFiles =
      (path : Bytes) (body : b.File) → fs.open_scan path ≡ some body → IsDescribable b fs path

  serve_lem :
      (mapper : Mapper b fs) (resource path prefix : Bytes) (resp : Response b Out)
      → resource_from resp.req.decoded_path prefix ≡ some resource
      → mapper.path_for resource ≡ some path
      → serve b fs Out mapper resp prefix ≡ get_file b fs Out path resp
  unfolding serve
  serve_lem mapper resource path prefix resp e f = bind_some _ _ resource e ∙ bind_some _ _ path f

  -- A filter whose mapper has a path for every file
  serve-answers :
      (mapper : Mapper b fs)
      → HasFiles
      → ((filename : Bytes) → (path : Bytes) × (mapper.path_for filename ≡ some path))
      → AnswersFilter b engine Out [] (static_files b fs Out mapper)
  serve-answers mapper files total = record {
    preprocessed = λ resp s takes rooted under.
        let resource = s ++ page (b'/' ∷ s) in
        let (path, e) = total resource in
        subst (IsFinished b engine fs Out resp)
          (sym (
            serve_lem mapper resource path [] resp
              (ap (λ p. resource_from p []) rooted ∙ resource_from-inside [] s) e))
          (get_file-answers b engine fs Out path resp (files path) takes);
  }

  carries_on :
      (prefix : Bytes) (f : Filter b Out) (header : b.Header → b.Header)
      → ((resp : Response b Out)
          → f.preproc resp prefix ≡ some (carry_on, record resp { header = header resp.header }))
      → AnswersFilter b engine Out prefix f
  carries_on prefix f header ran = record {
    preprocessed = λ resp s takes rooted under. (
      carry_on,
      record resp { header = header resp.header },
      ran resp,
      record { same_sender = refl; same_req = refl; calls = refl },
    );
  }

  IsLibraryFilter-answers :
      {prefix : Bytes} {f : Filter b Out}
      → HasFiles
      → IsLibraryFilter prefix f
      → AnswersFilter b engine Out prefix f
  IsLibraryFilter-answers files (has_cors prefix) =
      carries_on prefix _ (b.set access_control_allow_origin (codes "*")) (λ resp. refl)
  IsLibraryFilter-answers files (has_headers prefix) = carries_on prefix _ (λ h. h) (λ resp. refl)
  IsLibraryFilter-answers files (has_logger prefix) = carries_on prefix _ (λ h. h) (λ resp. refl)
  IsLibraryFilter-answers files (has_files root) =
      serve-answers (root_directory b fs root) files (λ filename. (path_for root filename, refl))
  IsLibraryFilter-answers files (has_shared_files root roots) =
      serve-answers (root_directories b fs (root ∷ roots)) files
        (λ filename. let (path, e, _) = expand-IsLeast b fs filename root roots in (path, e))

  filters-answer :
      (filters : FilterList b engine Out)
      → HasFiles
      → All (λ (prefix, f). IsLibraryFilter prefix f) filters
      → All (λ (prefix, f). AnswersFilter b engine Out prefix f) filters
  filters-answer [] files h = tt
  filters-answer (f ∷ filters) files (is, more) =
      (IsLibraryFilter-answers files is, filters-answer filters files more)

  -- A server whose filters are those of the library, with any prefixes but for files, which are served
  -- from the root of its paths: every request is answered exactly once, whatever its method and
  -- path. So do the servers without any route. What is relied on: the callbacks of the routes call the
  -- sender once, and it takes the messages of the request; and of every file that opens, the four bytes
  -- that are read of its extension, if it has one, are in memory, as of three letters or more they always
  -- are, and its time and the present time are in the years from 1900 to 9999.
  pub handle_request-library_filters :
      (router : Router b engine Out) (resp : Response b Out)
      → HasFiles
      → All (λ (prefix, f). IsLibraryFilter prefix f) router.filters
      → All (λ (verb, routes). AnswersRoutes b engine Out routes) router.routes
      → Takes b engine Out resp
      → IsAnswered b engine Out 1 resp (handle_request b engine Out router resp)
  handle_request-library_filters router resp files filters routes takes =
      handle_request-answers b engine Out router resp
        (record {
          filters_answer = filters-answer router.filters files filters;
          routes_answer = routes;
        })
        takes

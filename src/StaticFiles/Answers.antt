-- ===== src/StaticFiles/Answers.antt =====
-- That `get_file` answers where it finishes.
use http_router.Base.{
  ◌≡◌, refl, sym, ap, subst, ◌∙◌, Bool, true, false, Option, none, some, List, [], ◌∷◌, ◌++◌, Bytes,
  codes, if◌then◌else◌, bind_some, add64,
}
use http_router.Beast.{Beast, location, range, content_range}
use http_router.Range.{Range, RangeField, present, absent, invalid, request_ranges}
use http_router.Range.Total.{IsUsable, request_ranges-IsUsable}
use http_router.Response.{Response, empty_body, file_body, is_set, result, moved, moved_text, set}
use http_router.Filters.{Filtering, carry_on, finished}
use http_router.PathCompiler.Matcher.{Engine}
use http_router.Router.Answers.{
  Takes, Sends, IsAnswered, answers, send-answers, stock_response-answers,
}
use http_router.StaticFiles.Described.{IsDescribable, described-total}
use http_router.StaticFiles.{
  FileSystem, described, deliver, answer_range, open_file, get_file, done, content_length,
  unsatisfied, satisfied, range_size,
}

module _ (b : Beast) (engine : Engine) (fs : FileSystem b) (Out : Type 0) where
  -- Another header changes nothing of what is sent.
  onto :
      (header : b.Header) (resp : Response b Out) (after : Option (Response b Out))
      → IsAnswered b engine Out 1 (record resp { header = header }) after
      → IsAnswered b engine Out 1 resp after
  onto header resp after (resp', e, s) =
      (resp', e, record { same_sender = s.same_sender; same_req = s.same_req; calls = s.calls })

  either :
      (c d : Bool) (resp : Response b Out) (x y z : Option (Response b Out))
      → IsAnswered b engine Out 1 resp x
      → IsAnswered b engine Out 1 resp y
      → IsAnswered b engine Out 1 resp z
      → IsAnswered b engine Out 1 resp (if c then x else if d then y else z)
  either true d resp x y z h k l = h
  either false true resp x y z h k l = k
  either false false resp x y z h k l = l

  deliver-answers :
      (body : b.File) (status : RangeField) (path : Bytes) (resp : Response b Out)
      → Takes b engine Out resp
      → IsAnswered b engine Out 1 resp (deliver b fs Out body status path resp)
  unfolding deliver
  deliver-answers body status path resp takes =
      either _ _ resp _ _ _ (send-answers b engine Out empty_body is_set resp takes)
        (onto (b.result 304 resp.header) resp _
          (send-answers b engine Out empty_body is_set (result b Out 304 resp) takes))
        (send-answers b engine Out (file_body body) is_set resp takes)

  answer_range-answers :
      (body : b.File) (path : Bytes) (answer : RangeField × List Range) (resp : Response b Out)
      → IsUsable answer
      → Takes b engine Out resp
      → IsAnswered b engine Out 1 resp (answer_range b fs Out body path answer resp)
  unfolding answer_range
  answer_range-answers body path (absent, ranges) resp h takes =
      onto _ resp _
        (deliver-answers body absent path (content_length b fs Out (b.size body) resp) takes)
  answer_range-answers body path (invalid, ranges) resp h takes = onto _ resp _ (
      send-answers b engine Out empty_body is_set
        (set b Out content_range (unsatisfied b fs (b.size body)) (result b Out 416 resp)) takes)
  answer_range-answers body path (present, []) resp h takes = absurd h
  answer_range-answers body path (present, r ∷ ranges) resp h takes = onto _ resp _ (
      deliver-answers (b.fragment r.start (add64 r.end 1) body) present path
        (content_length b fs Out (range_size b fs r)
          (set b Out content_range (satisfied b fs r (b.size body)) (result b Out 206 resp)))
        takes)

  abbrev pub IsFinished : Response b Out → Option (Filtering × Response b Out) → Type 0
  IsFinished resp after =
      (did : Filtering) × (resp' : Response b Out) × (after ≡ some (did, resp'))
      × Sends b engine Out (answers b engine Out did) resp resp'

  finishes :
      (resp : Response b Out) (after : Option (Response b Out))
      → IsAnswered b engine Out 1 resp after
      → IsFinished resp (done b fs Out after)
  finishes resp after (resp', e, s) = (finished, resp', ap (done b fs Out) e, s)

  pub open_file_lem :
      (path : Bytes) (body : b.File) (resp : Response b Out) (answer : RangeField × List Range)
      (header : b.Header)
      → request_ranges (b.size body) (resp.req.req.find range) ≡ some answer
      → described b fs path resp.header ≡ some header
      → open_file b fs Out path (some body) resp
        ≡ done b fs Out (answer_range b fs Out body path answer (record resp { header = header }))
  unfolding open_file
  open_file_lem path body resp answer header e f = bind_some _ _ answer e ∙ bind_some _ _ header f

  open_file-finishes :
      (path : Bytes) (file : Option b.File) (resp : Response b Out)
      → ((body : b.File) → file ≡ some body → IsDescribable b fs path)
      → Takes b engine Out resp
      → IsFinished resp (open_file b fs Out path file resp)
  open_file-finishes path none resp h takes = (
    carry_on,
    resp,
    (unfold open_file in refl),
    record { same_sender = refl; same_req = refl; calls = refl },
  )
  open_file-finishes path (some body) resp h takes =
      let (answer, e, is) = request_ranges-IsUsable (b.size body) (resp.req.req.find range) in
      let (header, f) = described-total b fs path resp.header (h body refl) in
      subst (IsFinished resp) (sym (open_file_lem path body resp answer header e f)) (
        finishes resp _ (
          onto _ resp _
            (answer_range-answers body path answer (record resp { header = header }) is takes)))

  either_finishes :
      (c d : Bool) (resp : Response b Out) (x y z : Option (Filtering × Response b Out))
      → IsFinished resp x
      → IsFinished resp y
      → IsFinished resp z
      → IsFinished resp (if c then x else if d then y else z)
  either_finishes true d resp x y z h k l = h
  either_finishes false true resp x y z h k l = k
  either_finishes false false resp x y z h k l = l

  -- `get_file` ends without a fault for every path, method, range and date, for empty files too, and
  -- it sends one response exactly where it finishes, and none where it lets the request carry on. This
  -- is what the router relies on. Where the path can be opened, the fields of the file can be set: the
  -- four bytes that are read of its extension, if it has one, are in memory, as of three letters or more
  -- they always are; and the present time and that of the file are in the years from 1900 to 9999. The
  -- sender takes the messages of the request.
  pub get_file-answers :
      (path : Bytes) (resp : Response b Out)
      → ((body : b.File) → fs.open_scan path ≡ some body → IsDescribable b fs path)
      → Takes b engine Out resp
      → IsFinished resp (get_file b fs Out path resp)
  unfolding get_file moved
  get_file-answers path resp h takes =
      either_finishes _ _ resp _ _ _
        (finishes resp _ (
          onto _ resp _ (
            stock_response-answers b engine Out 301 (moved_text (resp.req.path ++ (b'/' ∷ [])))
              (set b Out location (resp.req.path ++ (b'/' ∷ [])) resp) takes)))
        (finishes resp _
          (stock_response-answers b engine Out 400 (codes "Unknown HTTP-method") resp takes))
        (open_file-finishes path (fs.open_scan path) resp h takes)

-- ===== src/Filters/Printed.antt =====
-- libs/headers/src/headers.cc and libs/logger/src/logger.cc: what the filters print.
use http_router.Base.{ℕ, ◌/◌, ◌%◌, List, [], ◌∷◌, ◌++◌, Bytes, codes, length, ◌==◌, if◌then◌else◌}
use http_router.Beast.{Beast}
use http_router.Request.{BeastRequest, Request}
use http_router.Response.{decimal, digits}

module _ (b : Beast) where
  -- What these filters read of Beast beside what the others do
  pub record Readable : Type 0 where
    pub request_fields : BeastRequest → List (Bytes × Bytes)
    pub response_fields : b.Header → List (Bytes × Bytes)
    pub version : b.Header → ℕ
    pub reason : b.Header → Bytes

  abbrev pub http_version : ℕ → Bytes
  http_version version = decimal (version / 10) ++ (b'.' ∷ decimal (version % 10))

  -- The loop over the fields of a message, and the empty line behind them, if there are any
  abbrev pub field_lines : Bytes → List (Bytes × Bytes) → Bytes
  field_lines mark [] = []
  field_lines mark ((name, value) ∷ fields) =
      mark ++ (name ++ (codes ": " ++ (value ++ (10 ∷ field_lines mark fields))))

  abbrev pub fields_text : Bytes → List (Bytes × Bytes) → Bytes
  fields_text mark fields = field_lines mark fields ++ (if length fields == 0 then [] else 10 ∷ [])

  module _ (r : Readable) where
    -- `headers::sending`
    unfoldable pub sending_text : Request → b.Header → Bytes
    unfolding digits
    sending_text req resp =
        codes "< "
        ++ (req.req.method
            ++ (b' '
                ∷ (req.req.target
                    ++ (codes " HTTP/"
                        ++ (http_version req.req.version
                            ++ (10
                                ∷ (fields_text (codes "< ") (r.request_fields req.req)
                                    ++ (codes "> HTTP/"
                                        ++ (http_version (r.version resp)
                                            ++ (b' '
                                                ∷ (decimal (b.result_int resp)
                                                    ++ (b' '
                                                        ∷ (r.reason resp
                                                            ++ (10
                                                            ∷ fields_text (codes "> ")
                                                            (r.response_fields resp)))))))))))))))

    -- `logger::postproc`
    unfoldable pub postproc_text : Request → b.Header → ℕ → Bytes
    unfolding digits
    postproc_text req resp transmitted =
        req.remote
        ++ (b' '
            ∷ (req.req.method
                ++ (codes " \""
                    ++ (req.req.target
                        ++ (codes "\" "
                            ++ (decimal (b.result_int resp)
                                ++ (codes " - " ++ (decimal transmitted ++ (10 ∷ [])))))))))

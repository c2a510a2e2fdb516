-- ===== src/Request.antt =====
-- libs/http-router/include/http-router/request.hh
pub mod Rooted
use http_router.Base.{ℕ, Bool, Option, some, Bytes, ◌>>=◌, ◌++◌, length, drop}
use http_router.Beast.{Field, Verb}
use http_router.Uri.Target.{split}
use http_router.Uri.Escape.{decoded_path}

-- What a request is made of: `http::request`, as far as the code reads it.
pub record BeastRequest : Type 0 where
  pub target : Bytes
  pub method : Verb
  pub version : ℕ
  pub keep_alive : Bool
  pub find : Field → Option Bytes

-- The path and the query are views into the target of the underlying request.
pub record Request : Type 0 where
  pub req : BeastRequest
  pub path : Bytes
  pub decoded_path : Bytes
  pub query : Bytes
  pub remote : Bytes

abbrev with_path : BeastRequest → Bytes → Bytes × Bytes → Bytes → Request
with_path req remote (path, query) decoded = record {
  req = req;
  path = path;
  decoded_path = decoded;
  query = query;
  remote = remote;
}

-- The constructor; `after` is what stands in memory behind the target. `none` is a read past the end
-- of the buffer.
unfoldable pub make_request : BeastRequest → Bytes → Bytes → Option Request
unfolding split
make_request req remote after =
    let path = (split req.target).0 in
    do
      decoded ← decoded_path path (drop (length path) req.target ++ after)
      some (with_path req remote (split req.target) decoded)

-- ===== src/Filters.antt =====
-- libs/http-router/include/http-router/filters/base.hh, and the filters that only look at a header
-- or set a field of it: libs/cors, libs/headers and libs/logger. What the last two print is given
-- by functions of its own.
pub mod Printed
use http_router.Base.{ℕ, Bool, true, false, Option, some, Bytes, codes}
use http_router.Beast.{Beast, access_control_allow_origin}
use http_router.Request.{Request}
use http_router.Response.{Response, set}

pub data Filtering : Type 0 where
  carry_on finished : Filtering

-- The bits of `supports`; `other` is the number in the rest of them.
pub record Supports : Type 0 where
  pub pre : Bool
  pub send : Bool
  pub post : Bool
  pub other : ℕ

abbrev pub supports_none : Supports
supports_none = record { pre = false; send = false; post = false; other = 0 }

module _ (b : Beast) (Out : Type 0) where
  -- `base` with its three virtual functions; `none` is undefined behaviour or an exception.
  pub record Filter : Type 0 where
    pub name : Bytes
    pub type : Supports
    pub preproc : Response b Out → (prefix : Bytes) → Option (Filtering × Response b Out)
    pub sending : Request → b.Header → (prefix : Bytes) → Option b.Header
    pub postproc : Request → b.Header → (transmitted : ℕ) → (prefix : Bytes) → Option b.Header

  -- The constructor of `base`, with the virtual functions that are not overridden
  abbrev pub base : Bytes → Supports → Filter
  base name type = record {
    name = name;
    type = type;
    preproc = λ resp prefix. some (carry_on, resp);
    sending = λ req resp prefix. some resp;
    postproc = λ req resp transmitted prefix. some resp;
  }

  abbrev pub supports_pre : Filter → Bool
  supports_pre f = f.type.pre

  abbrev pub supports_send : Filter → Bool
  supports_send f = f.type.send

  abbrev pub supports_post : Filter → Bool
  supports_post f = f.type.post

  -- `cors`
  abbrev pub cors : Filter
  cors = record (base (codes "cors") (record supports_none { pre = true })) {
    preproc =
        λ resp prefix. some (carry_on, set b Out access_control_allow_origin (codes "*") resp);
  }

  -- `headers` and `logger`: beside what they print, they leave the response as it is.
  abbrev pub headers : Filter
  headers = record (base (codes "headers") (record supports_none { send = true })) {
    sending = λ req resp prefix. some resp;
  }

  abbrev pub logger : Filter
  logger = record (base (codes "logger") (record supports_none { post = true })) {
    postproc = λ req resp transmitted prefix. some resp;
  }

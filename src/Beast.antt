-- ===== src/Beast.antt =====
-- What the code uses of Boost.Beast, as an interface: the header of a message, the field names and
-- status codes that occur in the code, and the file body. Nothing of Beast is modelled behind it.
use http_router.Base.{ℕ, ◌≡◌, ◌≢◌, Bool, Option, some, Bytes}

-- `http::field`, as far as the code names it
pub data Field : Type 0 where
  content_type location connection server accept_ranges date last_modified content_range : Field
  access_control_allow_origin range if_modified_since : Field

-- `http::status`
abbrev pub Status : Type 0
Status = ℕ

-- `http::verb` is known by its name.
abbrev pub Verb : Type 0
Verb = Bytes

-- `header<false, fields>` with the members of `message` that work on it, and
-- `file_body::value_type`. `moved` is what a header holds after a move from it.
pub record Beast : Type 1 where
  pub Header : Type 0
  pub File : Type 0
  pub fresh : (status : Status) (version : ℕ) → Header
  pub set : Field → Bytes → Header → Header
  pub get : Field → Header → Option Bytes
  pub result : Status → Header → Header
  pub result_int : Header → Status
  pub keep_alive : Header → Bool
  pub set_keep_alive : Bool → Header → Header
  pub content_length : ℕ → Header → Header
  pub get_content_length : Header → Option ℕ
  pub prepare_payload : (payload : ℕ) → Header → Header
  pub need_eof : Header → Bool
  pub moved : Header → Header
  pub obsolete_reason : Status → Bytes
  pub size : File → ℕ
  pub fragment : ℕ → ℕ → File → File

-- What is documented of the accessors: each reads what was set last, and no other setter of the
-- code changes it.
pub record IsBeast (b : Beast) : Type 0 where
  pub get-set : (f : Field) (v : Bytes) (h : b.Header) → b.get f (b.set f v h) ≡ some v
  pub get-set_other :
      (f g : Field) (v : Bytes) (h : b.Header) → f ≢ g → b.get f (b.set g v h) ≡ b.get f h
  pub get-result : (f : Field) (s : Status) (h : b.Header) → b.get f (b.result s h) ≡ b.get f h
  pub get-content_length :
      (f : Field) (n : ℕ) (h : b.Header) → b.get f (b.content_length n h) ≡ b.get f h
  pub result_int-result : (s : Status) (h : b.Header) → b.result_int (b.result s h) ≡ s
  pub result_int-set :
      (f : Field) (v : Bytes) (h : b.Header) → b.result_int (b.set f v h) ≡ b.result_int h
  pub result_int-content_length :
      (n : ℕ) (h : b.Header) → b.result_int (b.content_length n h) ≡ b.result_int h
  pub get_content_length-content_length :
      (n : ℕ) (h : b.Header) → b.get_content_length (b.content_length n h) ≡ some n
  pub get_content_length-set :
      (f : Field) (v : Bytes) (h : b.Header)
      → b.get_content_length (b.set f v h) ≡ b.get_content_length h
  pub get_content_length-result :
      (s : Status) (h : b.Header) → b.get_content_length (b.result s h) ≡ b.get_content_length h
  pub get-prepare_payload :
      (f : Field) (n : ℕ) (h : b.Header) → b.get f (b.prepare_payload n h) ≡ b.get f h
  pub result_int-prepare_payload :
      (n : ℕ) (h : b.Header) → b.result_int (b.prepare_payload n h) ≡ b.result_int h

-- ===== src/Examples/Http.antt =====
-- Requests and responses, over a small header in place of Beast's.
use http_router.Base.{
  ℕ, ◌≡◌, ◌≢◌, refl, sym, ap, ◌∙◌, Bool, true, false, Option, none, some, List, [], ◌∷◌, ◌++◌,
  arith, Bytes, codes, length, take, drop, if◌then◌else◌, ◌==◌, Bool-cases, inl, inr, ==_iff,
}
use http_router.Beast.{
  Beast, IsBeast, Field, content_type, location, connection, server, accept_ranges, date,
  last_modified, content_range, access_control_allow_origin, range, if_modified_since,
}
use http_router.Request.{BeastRequest, Request, make_request}
use http_router.Uri.Escape.Decoded.{decoded}
use http_router.Request.Rooted.{make_request_rooted}
use http_router.Response.{Response, Message, make_response}

-- The names by number
abbrev pub number : Field → ℕ
number content_type = 0
number location = 1
number connection = 2
number server = 3
number accept_ranges = 4
number date = 5
number last_modified = 6
number content_range = 7
number access_control_allow_origin = 8
number range = 9
number if_modified_since = 10

abbrev field_of : ℕ → Field
field_of n =
    if n == 0
    then content_type
    else if n == 1
    then location
    else if n == 2
    then connection
    else if n == 3
    then server
    else if n == 4
    then accept_ranges
    else if n == 5
    then date
    else if n == 6
    then last_modified
    else if n == 7
    then content_range
    else if n == 8
    then access_control_allow_origin
    else if n == 9
    then range
    else if_modified_since

field_of-number : (f : Field) → field_of (number f) ≡ f
field_of-number content_type = refl
field_of-number location = refl
field_of-number connection = refl
field_of-number server = refl
field_of-number accept_ranges = refl
field_of-number date = refl
field_of-number last_modified = refl
field_of-number content_range = refl
field_of-number access_control_allow_origin = refl
field_of-number range = refl
field_of-number if_modified_since = refl

other_number : (f g : Field) → f ≢ g → (number f == number g) ≡ false
other_number f g ne = elim (Bool-cases (number f == number g)) [
  | inr e ↦ e
  | inl e ↦ absurd (
      ne (
        sym (field_of-number f)
        ∙ ap field_of ((==_iff (number f) (number g)).0 e)
        ∙ field_of-number g))
]

pub record Fields : Type 0 where
  pub status : ℕ
  pub length_field : Option ℕ
  pub persistent : Bool
  pub value : Field → Option Bytes

abbrev pub beast : Beast
beast = record {
  Header = Fields;
  File = Bytes;
  fresh = λ status version. record {
    status = status;
    length_field = none;
    persistent = false;
    value = λ f. none;
  };
  set = λ f v h. record h { value = λ g. if number g == number f then some v else h.value g };
  get = λ f h. h.value f;
  result = λ s h. record h { status = s };
  result_int = λ h. h.status;
  keep_alive = λ h. h.persistent;
  set_keep_alive = λ k h. record h { persistent = k };
  content_length = λ n h. record h { length_field = some n };
  get_content_length = λ h. h.length_field;
  prepare_payload = λ n h. record h { length_field = some n };
  need_eof = λ h. false;
  moved = λ h. h;
  obsolete_reason = λ s. codes "Moved";
  size = length;
  fragment = λ start end file. drop start (take end file);
}

pub beast-IsBeast : IsBeast beast
beast-IsBeast = record {
  get-set = λ f v h.
      ap (λ same. if same then some v else h.value f) ((==_iff (number f) (number f)).1 refl);
  get-set_other =
      λ f g v h ne. ap (λ same. if same then some v else h.value f) (other_number f g ne);
  get-result = λ f s h. refl;
  get-content_length = λ f n h. refl;
  result_int-result = λ s h. refl;
  result_int-set = λ f v h. refl;
  result_int-content_length = λ n h. refl;
  get_content_length-content_length = λ n h. refl;
  get_content_length-set = λ f v h. refl;
  get_content_length-result = λ s h. refl;
  get-prepare_payload = λ f n h. refl;
  result_int-prepare_payload = λ n h. refl;
}

abbrev pub get_u : BeastRequest
get_u = record {
  target = codes "/u%2F7?x";
  method = codes "GET";
  version = 11;
  keep_alive = true;
  find = λ f. none;
}

make_request_rooted_example :
    (request : Request) × (make_request get_u (codes "::1") [] ≡ some request)
    × (request.decoded_path ≡ decoded (λ c. c) request.path)
    × ((s : Bytes) × (request.decoded_path ≡ b'/' ∷ s))
make_request_rooted_example =
    make_request_rooted get_u (codes "::1") [] (codes "u%2F7?x") refl (omega arith)

abbrev pub u_request : Request
u_request = record {
  req = get_u;
  path = codes "/u";
  decoded_path = codes "/u";
  query = [];
  remote = [];
}

-- A sender that keeps the messages
abbrev pub keeping : Request → Message beast → List (Message beast) → Option (List (Message beast))
keeping req msg out = some (out ++ (msg ∷ []))

abbrev pub fresh_response : Response beast (List (Message beast))
fresh_response = make_response beast (List (Message beast)) 11 u_request keeping []

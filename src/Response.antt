-- ===== src/Response.antt =====
-- libs/http-router/src/response.cc and include/http-router/response.hh. What a call does is a
-- change of the response's header and of what its sender holds; `none` is undefined behaviour in
-- one of them.
pub mod Stock
use http_router.Base.{
  ℕ, zero, suc, ◌+◌, ◌/◌, ◌%◌, Bool, true, false, Option, none, some, [], ◌∷◌, ◌++◌, Bytes, codes,
  ltb, length, if◌then◌else◌, ◌>>=◌,
}
use http_router.Beast.{Beast, Field, content_type, location, connection, Status}
use http_router.Request.{Request}

-- The digits of a number, as `fmt` prints it.
unfoldable pub digits : ℕ → ℕ → Bytes → Bytes
digits zero n tail = tail
digits (suc fuel) n tail =
    let more = digits fuel (n / 10) ((48 + n % 10) ∷ tail) in
    if ltb n 10 then (48 + n) ∷ tail else more

abbrev pub decimal : ℕ → Bytes
decimal n = digits (suc n) n []

-- The page of `stock_response`, in the parts between its three holes.
abbrev pub page_head : Bytes
page_head = codes "<html>\n  <head>\n    <title>"

abbrev pub page_style : Bytes
page_style =
    codes
      "</title>\n    <link rel=\"stylesheet\" href=\"https://fonts.googleapis.com/css?family=Montserrat:400,400i,700\">\n    <style>\n      body, h1 { font-family: Montserrat, sans-serif; }\n      body { font-weight: 400 }\n      h1 { font-weight: 700 }\n      code {\n        font-family: monospace, monospace;\n        padding: .1em;\n        color: #800;\n        background: #fee;\n        border-radius: 4px;\n      }\n    </style>\n  </head>\n  <body>\n    <h1>"

abbrev pub page_text : Bytes
page_text = codes "</h1>\n    <p>"

abbrev pub page_end : Bytes
page_end = codes "</p>\n  </body>\n</html>"

abbrev pub stock_page : Status → Bytes → Bytes → Bytes
stock_page st reason msg =
    let title = decimal st ++ (b' ' ∷ reason) in
    page_head ++ (title ++ (page_style ++ (title ++ (page_text ++ (msg ++ page_end)))))

-- The texts of `not_found` and `moved`
abbrev pub not_found_text : Bytes → Bytes
not_found_text resource =
    codes "The resource <code>'" ++ (resource ++ codes "'</code> was not found.")

abbrev pub moved_text : Bytes → Bytes
moved_text target = codes "Moved <a href=\"" ++ (target ++ codes "\">here</a>.")

-- `content_length` of response.hh
pub data ContentLength : Type 0 where
  unset is_set : ContentLength

module _ (b : Beast) where
  -- The bodies that the code sends
  pub data Body : Type 0 where
    empty_body : Body
    string_body : Bytes → Body
    file_body : b.File → Body

  abbrev pub payload : Body → ℕ
  payload empty_body = 0
  payload (string_body s) = length s
  payload (file_body file) = b.size file

  pub record Message : Type 0 where
    pub header : b.Header
    pub body : Body

  -- The first lines of `send`
  abbrev pub connected : b.Header → b.Header
  connected header =
      if b.keep_alive header then b.set connection (codes "keep-alive") header else header

  abbrev pub prepared : ContentLength → Message → Message
  prepared unset msg = record msg { header = b.prepare_payload (payload msg.body) msg.header }
  prepared is_set msg = msg

  abbrev pub message_of : Body → ContentLength → b.Header → Message
  message_of body prepare_payload header =
      prepared prepare_payload (record { header = connected header; body = body })

  module _ (Out : Type 0) where
    -- `sender`, over the state behind it. The four overloads of `send_response` differ in the body
    -- alone.
    abbrev pub Sender : Type 0
    Sender = Request → Message → Out → Option Out

    pub record Response : Type 0 where
      pub header : b.Header
      pub sender : Sender
      pub req : Request
      pub out : Out

    -- The constructor
    abbrev pub make_response : ℕ → Request → Sender → Out → Response
    make_response version req sender out = record {
      header = b.fresh 200 version;
      sender = sender;
      req = req;
      out = out;
    }

    -- The members of the header, on the response
    abbrev pub set : Field → Bytes → Response → Response
    set f v resp = record resp { header = b.set f v resp.header }

    abbrev pub result : Status → Response → Response
    result st resp = record resp { header = b.result st resp.header }

    -- `send`: the header is moved into the message.
    unfoldable pub send : Body → ContentLength → Response → Option Response
    send body prepare_payload resp = do
      out ← resp.sender resp.req (message_of body prepare_payload resp.header) resp.out
      some (record resp { header = b.moved (connected resp.header); out = out })

    unfoldable pub stock_response : Status → Bytes → Response → Option Response
    unfolding send digits
    stock_response st msg resp =
        send (string_body (stock_page st (b.obsolete_reason st) msg)) unset
          (set content_type (codes "text/html; charset=UTF-8") (result st resp))

    abbrev pub internal_error : Bytes → Response → Option Response
    internal_error msg = stock_response 500 msg

    abbrev pub bad_request : Bytes → Response → Option Response
    bad_request msg = stock_response 400 msg

    unfoldable pub not_found : Bytes → Response → Option Response
    unfolding stock_response
    not_found resource = stock_response 404 (not_found_text resource)

    unfoldable pub moved : Status → Bytes → Response → Option Response
    unfolding stock_response
    moved st target resp = stock_response st (moved_text target) (set location target resp)

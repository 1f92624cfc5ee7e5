-- ===== src/Http.antt =====
-- Requests and answers of net/http as far as the program reads and writes them. What a request body
-- decodes to is left to encoding/json; an answer is a status with a value that is encoded as JSON.
use oms_go.Prelude.{ℕ, String, Option, some}
use oms_go.Auth.{Identity}
use oms_go.Orders.Json.{Body}
use oms_go.Orders.Decoding.{RequestError}

abbrev pub status_ok : ℕ
status_ok = 200

abbrev pub status_created : ℕ
status_created = 201

abbrev pub status_bad_request : ℕ
status_bad_request = 400

abbrev pub status_unauthorized : ℕ
status_unauthorized = 401

abbrev pub status_forbidden : ℕ
status_forbidden = 403

abbrev pub status_not_found : ℕ
status_not_found = 404

abbrev pub status_conflict : ℕ
status_conflict = 409

abbrev pub status_internal_server_error : ℕ
status_internal_server_error = 500

-- `identity` is the value that the middleware puts into the context; `order_id` is the route's
-- parameter of that name, `query` the first value of a query parameter or "".
pub record HttpRequest : Type 0 where
  pub headers : String → String
  pub identity : Option Identity
  pub order_id : String
  pub query : String → String
  pub body : Body
  pub remote_addr : String

abbrev pub with_identity : Identity → HttpRequest → HttpRequest
with_identity identity r = record {
  headers = r.headers;
  identity = some identity;
  order_id = r.order_id;
  query = r.query;
  body = r.body;
  remote_addr = r.remote_addr;
}

-- `error_text e` is `err.Error()`, which shows the values that e has.
pub data Message : Type 0 where
  text : String → Message
  error_text : RequestError → Message

-- `writeJSON` with a payload, and `writeJSONError` with a code and a message.
pub data Answer (P : Type 0) : Type 0 where
  write_json : ℕ → P → Answer P
  write_json_error : ℕ → String → Message → Answer P

abbrev pub unauthorized : {P : Type 0} → Answer P
unauthorized = write_json_error status_unauthorized "unauthorized" (text "Unauthorized")

abbrev pub forbidden : {P : Type 0} → Answer P
forbidden = write_json_error status_forbidden "forbidden" (text "Forbidden")

-- A handler, with the state that it changes.
abbrev pub Handler : Type 0 → Type 0 → Type 0
Handler S P = HttpRequest → S → Answer P × S

abbrev pub Middleware : Type 0 → Type 0 → Type 0
Middleware S P = Handler S P → Handler S P

-- `url.URL` of net/url.
pub record Url : Type 0 where
  pub scheme : String
  pub host : String

-- ===== src/Api/Client.antt =====
-- resources/js/api/client.ts: one request and its answer.
--
-- Of the browser, three functions are arguments: `pathname` reads the path of an address (`none`
-- where `new URL` throws), `uuid` is the value of `crypto.randomUUID()`, and `fetch` answers the
-- request. `Headers` spells names in lower case, and so do the caller's headers here. A method
-- stands for its spellings in either case.
use Prim.Native.Char.{code}
use Prim.Native.String
use fleximo_oss.Base.{
  ℕ, zero, suc, ◌/◌, ◌%◌, Bool, true, false, not, Option, none, some, String, List, [], ◌∷◌,
  includes, ltb, leb, or_else, is_some, nat_beq, if◌then◌else◌, string_eq, ◌&&◌, ◌==◌, nat_eq,
}
use fleximo_oss.JsMap.{JsMap, has, put}
use fleximo_oss.Api.{Json, null, str, obj, Fields, end, field, ApiResponse}
use fleximo_oss.Errors.{Thrown, to_error, default_fallback, normalize_error_message}
use text.Mathlib.Text.{find?}

pub data Method : Type 0 where
  get_ post_ patch_ put_ delete_ : Method

pub record ApiRequestOptions : Type 0 where
  pub method : Option Method
  pub headers : JsMap String String
  pub body : Option Json

pub record Sent : Type 0 where
  pub url : String
  pub method : Method
  pub headers : JsMap String String
  pub body : Option Json

-- `content_type` is the header in lower case; `json` is `none` where the body is no JSON.
pub record Response : Type 0 where
  pub status : ℕ
  pub content_type : Option String
  pub json : Option Json

pub data FetchResult : Type 0 where
  responded : Response → FetchResult
  failed : Thrown → FetchResult

abbrev pub idempotent_post_paths : List String
idempotent_post_paths =
    "/api/customer/checkout" ∷ "/api/customer/payments/finalize"
    ∷ "/api/customer/payments/3ds-callback" ∷ []

-- `url.split("?")[0]`
unfoldable pub before_question : String → String
before_question String.[] = ""
before_question (String.◌∷◌ c s) =
    let rest = before_question s in if nat_beq (code c) b'?' then "" else String.◌∷◌ c rest

abbrev pub is_post : Method → Bool
is_post post_ = true
is_post _ = false

module _ (pathname : String → Option String) where
  unfoldable pub resolve_request_path : String → String
  unfolding before_question
  resolve_request_path url = or_else (pathname url) (before_question url)

  unfoldable pub should_attach_idempotency_key : String → Method → Bool
  unfolding resolve_request_path
  should_attach_idempotency_key url method =
      is_post method && includes idempotent_post_paths (resolve_request_path url)

  unfoldable pub has_idempotency_key_header : JsMap String String → Bool
  unfolding has
  has_idempotency_key_header headers = has headers "idempotency-key"

  unfoldable pub request_headers :
      String → Method → JsMap String String → String → JsMap String String
  unfolding should_attach_idempotency_key has_idempotency_key_header put
  request_headers url method headers uuid =
      if should_attach_idempotency_key url method && not (has_idempotency_key_header headers)
      then put headers "idempotency-key" uuid
      else headers

-- `{ ...base, ...extra }`
unfoldable pub spread : JsMap String String → JsMap String String → JsMap String String
unfolding put
spread base [] = base
spread base ((k, v) ∷ extra) = spread (put base k v) extra

abbrev pub base_headers : String → JsMap String String
base_headers xsrf =
    ("Content-Type", "application/json")
    ∷ ("Accept", "application/json")
    ∷ ("X-XSRF-TOKEN", xsrf)
    ∷ []

unfoldable pub is_json : Option String → Bool
is_json content_type = is_some (find? (or_else content_type "") "json")

unfoldable pub safe_parse_json : Response → Json
unfolding is_json
safe_parse_json response =
    if response.status == 204
    then null
    else if is_json response.content_type
    then or_else response.json null
    else null

unfoldable pub lookup_field : String → Fields → Option Json
lookup_field name end = none
lookup_field name (field key value rest) = elim (lookup_field name rest) [
  | some later ↦ some later
  | none ↦ if key == name then some value else none
]

-- The property of an object; a value of another kind has none of these.
unfoldable pub property : String → Json → Option Json
unfolding lookup_field
property name (obj fields) = lookup_field name fields
property name _ = none

abbrev pub as_text : Option Json → Option String
as_text (some (str s)) = some s
as_text _ = none

unfoldable pub extract_error_message : Json → Option String
unfolding property
extract_error_message payload = elim (as_text (property "message" payload)) [
  | some message ↦ some message
  | none ↦ elim (property "error" payload) [
    | none ↦ none
    | some inner ↦ as_text (property "message" inner)
  ]
]

-- `payload ?? null`
abbrev pub non_null : Json → Option Json
non_null null = none
non_null payload = some payload

digit : ℕ → String
digit d =
    if d == 0
    then "0"
    else if d == 1
    then "1"
    else if d == 2
    then "2"
    else if d == 3
    then "3"
    else if d == 4
    then "4"
    else if d == 5
    then "5"
    else if d == 6
    then "6"
    else if d == 7
    then "7"
    else if d == 8
    then "8"
    else "9"

digits_of : ℕ → ℕ → String → String
digits_of zero n rest = rest
digits_of (suc fuel) n rest =
    let more = digits_of fuel (n / 10) (String.◌++◌ (digit (n % 10)) rest) in
    if ltb n 10 then String.◌++◌ (digit n) rest else more

-- A status in a template literal; a number has fewer digits than its successor counts.
unfoldable pub show : ℕ → String
unfolding digits_of digit
show n = digits_of (suc n) n ""

unfoldable pub is_ok : ℕ → Bool
is_ok status = leb 200 status && leb status 299

unfoldable pub status_fallback : ℕ → String
unfolding show
status_fallback status = String.◌++◌ "エラーが発生しました (" (String.◌++◌ (show status) ")")

unfoldable pub answer_of : Response → ApiResponse
unfolding safe_parse_json extract_error_message normalize_error_message status_fallback is_ok
answer_of response =
    let payload = safe_parse_json response in
    if is_ok response.status
    then record {
      payload = non_null payload;
      error_data = none;
      error = none;
      status = response.status;
    }
    else record {
      payload = none;
      error_data = non_null payload;
      error = some (
          normalize_error_message (extract_error_message payload)
            (status_fallback response.status));
      status = response.status;
    }

abbrev pub failure_text : String → String
failure_text name =
    if name == "TimeoutError"
    then "リクエストがタイムアウトしました"
    else if name == "AbortError"
    then "リクエストが中断されました"
    else "通信エラーが発生しました"

unfoldable pub answer_failure : Thrown → ApiResponse
unfolding to_error
answer_failure e = record {
  payload = none;
  error_data = none;
  error = some (failure_text (to_error e default_fallback).0);
  status = 0;
}

abbrev pub answer_result : FetchResult → ApiResponse
answer_result (responded response) = answer_of response
answer_result (failed e) = answer_failure e

-- The request that goes out, and what the caller gets.
unfoldable pub api_request :
    (pathname : String → Option String) (uuid xsrf : String) (fetch : Sent → FetchResult)
    → String
    → ApiRequestOptions
    → Sent × ApiResponse
unfolding request_headers spread answer_of answer_failure
api_request pathname uuid xsrf fetch url options =
    let method = or_else options.method get_ in
    let sent : Sent = record {
      url = url;
      method = method;
      headers =
          spread (base_headers xsrf) (request_headers pathname url method options.headers uuid);
      body = options.body;
    } in
    (sent, answer_result (fetch sent))

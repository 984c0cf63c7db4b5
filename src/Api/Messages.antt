-- ===== src/Api/Messages.antt =====
-- The answers and the headers of `apiRequest` (resources/js/api/client.ts).
use Prim.Native.String
use fleximo_oss.Base.{
  ℕ, true, not, Option, none, some, String, [], ◌∷◌, or_else, or_option, is_some, includes, truthy,
  if◌then◌else◌, string_eq, ◌&&◌, ◌≡◌, refl, ◌∙◌, Bool-cases, inl, inr, Option-cases,
}
use fleximo_oss.JsMap.{JsMap, IsMap, get, has, put}
use fleximo_oss.JsMap.Laws.{get-put, get_of_Absent, IsMap-put}
use fleximo_oss.Api.{ApiResponse}
use fleximo_oss.Errors.{to_error, default_fallback, normalize_error_message, has_japanese}
use fleximo_oss.Errors.Japanese.{
  has_japanese-append, truthy_of_has_japanese, normalize_error_message-Japanese,
}
use fleximo_oss.Api.Client.{
  Method, get_, ApiRequestOptions, Sent, FetchResult, responded, failed, is_post,
  idempotent_post_paths, resolve_request_path, should_attach_idempotency_key,
  has_idempotency_key_header, request_headers, spread, base_headers, safe_parse_json,
  extract_error_message, show, is_ok, status_fallback, answer_of, answer_failure, answer_result,
  failure_text, api_request,
}

status_fallback-Japanese : (status : ℕ) → has_japanese (status_fallback status) ≡ true
unfolding status_fallback
status_fallback-Japanese status =
    has_japanese-append "エラーが発生しました (" (String.◌++◌ (show status) ")") ∙ rw (literal_Japanese)
  where
    literal_Japanese : has_japanese "エラーが発生しました (" ≡ true
    literal_Japanese = unfold has_japanese in refl

failure_text-Japanese : (name : String) → has_japanese (failure_text name) ≡ true
unfolding has_japanese
failure_text-Japanese name = elim (Bool-cases (string_eq.beq name "TimeoutError")) [
  | inl timeout ↦ rw timeout
  | inr other ↦ elim (Bool-cases (string_eq.beq name "AbortError")) [
    | inl abort ↦ rw (other, abort)
    | inr rest ↦ rw (other, rest)
  ]
]

-- What an answer says of its error.
pub record IsTold (ok : Type 0) (r : ApiResponse) : Type 0 where
  pub success : ok → r.error ≡ none
  pub failure : ¬ ok → (message : String) × (r.error ≡ some message) × (has_japanese message ≡ true)
  pub no_data : ¬ ok → r.payload ≡ none
  pub truth : truthy r.error ≡ is_some r.error

-- The server answered with a status from 200 to 299.
pub IsAnswered : FetchResult → Type 0
IsAnswered (responded response) = is_ok response.status ≡ true
IsAnswered (failed e) = ⊥

error_truth :
    (r : ApiResponse) (message : String)
    → r.error ≡ some message
    → has_japanese message ≡ true
    → truthy r.error ≡ is_some r.error
error_truth r message e h = rw e (truthy_of_has_japanese message h)

answer_result-IsTold : (result : FetchResult) → IsTold (IsAnswered result) (answer_result result)
unfolding answer_of answer_failure IsAnswered
answer_result-IsTold (failed e) =
    let name = (to_error e default_fallback).0 in
    record {
      success = λ h. absurd h;
      failure = λ h. (failure_text name, refl, failure_text-Japanese name);
      no_data = λ h. refl;
      truth = truthy_of_has_japanese (failure_text name) (failure_text-Japanese name);
    }
answer_result-IsTold (responded response) = elim (Bool-cases (is_ok response.status)) [
  | inl good ↦ rw good (record {
    success = λ h. refl;
    failure = λ h. absurd (h refl);
    no_data = λ h. absurd (h refl);
    truth = refl;
  })
  | inr bad ↦
      let payload = safe_parse_json response in
      let fallback = status_fallback response.status in
      let message = normalize_error_message (extract_error_message payload) fallback in
      let told =
        normalize_error_message-Japanese (extract_error_message payload) fallback
          (status_fallback-Japanese response.status) in
      rw bad (record {
        success = λ h. cc;
        failure = λ h. (message, refl, told);
        no_data = λ h. refl;
        truth = truthy_of_has_japanese message told;
      })
]

-- `apiRequest` reports no error exactly when the server answered with a status from 200 to 299.
-- Otherwise it returns no data and an error text with Japanese characters in it. So the callers'
-- tests `if (error)` are right: an error text is never empty.
pub api_request-IsTold :
    (pathname : String → Option String) (uuid xsrf : String) (fetch : Sent → FetchResult)
    (url : String) (options : ApiRequestOptions)
    → let (sent, response) = api_request pathname uuid xsrf fetch url options in
      IsTold (IsAnswered (fetch sent)) response
unfolding api_request
api_request-IsTold pathname uuid xsrf fetch url options = answer_result-IsTold (fetch _)

get-spread :
    (base extra : JsMap String String) (k : String)
    → IsMap extra
    → get (spread base extra) k ≡ or_option (get extra k) (get base k)
unfolding spread get
get-spread base [] k m = refl
get-spread base ((j, v) ∷ extra) k m =
    get-spread (put base j v) extra k m.1 ∙ elim (Bool-cases (string_eq.beq j k)) [
      | inl same ↦
          let gone = get_of_Absent extra k (rw ((string_eq.beq_iff j k).0 same) at m.0) in
          rw gone (rw (get-put base j k v) (rw same))
      | inr other ↦ rw (get-put base j k v) (rw other)
    ]

base_has_no_key : (xsrf : String) → get (base_headers xsrf) "idempotency-key" ≡ none
unfolding get
base_has_no_key xsrf = refl

module _ (pathname : String → Option String) (url : String) (method : Method)
    (headers : JsMap String String) (uuid : String) where
  request_headers-IsMap : IsMap headers → IsMap (request_headers pathname url method headers uuid)
  unfolding request_headers
  request_headers-IsMap m =
      elim (Bool-cases (
        should_attach_idempotency_key pathname url method
        && not (has_idempotency_key_header pathname headers))) [
          | inl add ↦ rw add (IsMap-put headers "idempotency-key" uuid m)
          | inr keep ↦ rw keep m
        ]

  request_headers-key : get (request_headers pathname url method headers uuid) "idempotency-key" ≡ (
      if should_attach_idempotency_key pathname url method
      then some (or_else (get headers "idempotency-key") uuid)
      else get headers "idempotency-key")
  unfolding request_headers has_idempotency_key_header has
  request_headers-key = elim (Bool-cases (should_attach_idempotency_key pathname url method)) [
    | inr no_key ↦ rw no_key
    | inl wanted ↦ elim (Option-cases (get headers "idempotency-key")) [
      | inl missing ↦
          rw (wanted, missing) (get-put headers "idempotency-key" "idempotency-key" uuid)
      | inr (own, given) ↦ rw (wanted, given) given
    ]
  ]

-- A POST whose path is one of the three paths of checkout and payment always carries an idempotency
-- key: the caller's, or else a fresh one. Every other request carries one only if the caller gave
-- it. The caller's headers have no name twice.
pub api_request-idempotency :
    (pathname : String → Option String) (uuid xsrf : String) (fetch : Sent → FetchResult)
    (url : String) (options : ApiRequestOptions)
    → IsMap options.headers
    → let method = or_else options.method get_ in
      let own = get options.headers "idempotency-key" in
      get (api_request pathname uuid xsrf fetch url options).0.headers "idempotency-key" ≡ (
        if is_post method && includes idempotent_post_paths (resolve_request_path pathname url)
        then some (or_else own uuid)
        else own)
unfolding api_request should_attach_idempotency_key
api_request-idempotency pathname uuid xsrf fetch url options m =
    let method = or_else options.method get_ in
    let extra = request_headers pathname url method options.headers uuid in
    get-spread (base_headers xsrf) extra "idempotency-key"
      (request_headers-IsMap pathname url method options.headers uuid m)
    ∙ rw (base_has_no_key xsrf) (
        or_option_none (get extra "idempotency-key")
        ∙ request_headers-key pathname url method options.headers uuid)
  where
    or_option_none : (o : Option String) → or_option o none ≡ o
    or_option_none none = refl
    or_option_none (some s) = refl

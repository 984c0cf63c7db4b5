-- ===== src/Api/Scenarios.antt =====
-- Examples of requests, retries and the response cache.
use fleximo_oss.Base.{
  ℕ, false, Option, none, some, String, List, [], ◌∷◌, ◌++◌, or_else, includes, if◌then◌else◌,
  string_eq, ◌&&◌, ◌≡◌, refl, arith, ltb,
}
use fleximo_oss.JsMap.{get, put, delete}
use fleximo_oss.Api.{str, obj, end, field, ApiResponse}
use fleximo_oss.Api.Cache.{
  ApiCache, prune_expired, get_entry, set_entry, new_entry, touch_entry, delete_inflight,
  enforce_capacity, is_fresh, get_inflight, set_inflight,
}
use fleximo_oss.Api.Capacity.{most_recent, unexpired, set_entry-most_recent}
use fleximo_oss.Api.CachedGet.{
  CachedGetOptions, cached, cached_get, on_fetched, join_or_start, answer_cached, store_success,
  fetch_with_retry,
}
use fleximo_oss.Api.Retry.{IsFetch, fetch_with_retry-IsFetch}
use fleximo_oss.Api.Coherence.{
  HttpEvent, call, fetched, no_cache, http_step, http_run, cached_get-success,
}
use fleximo_oss.Api.Sharing.{IsShared, cached_get-on_fetched, cached_get-started_once}
use fleximo_oss.Api.Client.{
  post_, ApiRequestOptions, Sent, FetchResult, responded, is_post, idempotent_post_paths,
  resolve_request_path, api_request,
}
use fleximo_oss.Api.Messages.{IsTold, IsAnswered, api_request-IsTold, api_request-idempotency}

abbrev menu : ApiResponse
menu = record { payload = some (str "menu"); error_data = none; error = none; status = 200 }

abbrev busy : ApiResponse
busy = record { payload = none; error_data = none; error = some "混雑しています"; status = 503 }

abbrev plain : CachedGetOptions
plain = record { ttl = none; swr = none; max_retries = none; retry_base_delay = none }

abbrev patient : CachedGetOptions
patient = record plain { swr = some false }

-- busy twice, then the menu
abbrev answers : ℕ → ApiResponse
answers n = if ltb n 2 then busy else menu

fetch_with_retry-IsFetch_example :
    IsFetch answers (λ n. 100) 1000 0 2 (fetch_with_retry answers (λ n. 100) 2 1000)
fetch_with_retry-IsFetch_example = fetch_with_retry-IsFetch answers (λ n. 100) 1000 2

third_time :
    fetch_with_retry answers (λ n. 100) 2 1000
    ≡ record { response = menu; requests = 3; waits = 100000 ∷ 200000 ∷ [] }
unfolding fetch_with_retry
third_time = refl

abbrev one_entry : ApiCache ApiResponse
one_entry = record { store = ("/a", new_entry menu 10 0) ∷ []; inflight = [] }

set_entry-most_recent_example :
    (set_entry one_entry "/b" busy 10 5).store
    ≡ most_recent (
        delete (unexpired 5 one_entry.store) "/b"
        ++ ("/b", record { content = busy; timestamp = 5; expires_at = 15 }) ∷ [])
set_entry-most_recent_example = set_entry-most_recent one_entry "/b" busy 10 5

abbrev history : List HttpEvent
history = call "/menu" plain 0 ∷ fetched "/menu" menu 60 5 ∷ []

cached_get-success_example : menu.error ≡ none
unfolding http_run http_step cached_get on_fetched join_or_start answer_cached store_success
    get_entry set_entry touch_entry get_inflight set_inflight delete_inflight prune_expired
    enforce_capacity is_fresh get put delete
cached_get-success_example = cached_get-success history "/menu" plain 10 menu refl

cached_get-on_fetched_example :
    let after = on_fetched no_cache "/menu" menu 60 5 in
    let (called, answer) = cached_get after "/menu" patient 64 in
    (answer ≡ cached menu)
    × (called.revalidating ≡ [])
    × (called.next_promise ≡ 0)
    × (called.cache.inflight ≡ after.cache.inflight)
cached_get-on_fetched_example =
    cached_get-on_fetched no_cache "/menu" menu 60 5 64 patient refl (omega arith)

-- another address is called and answered in between
abbrev between_calls : List HttpEvent
between_calls = call "/shops" plain 1 ∷ fetched "/shops" menu 60 2 ∷ []

cached_get-started_once_example :
    IsShared "/menu" 0
      (cached_get
        (http_run (cached_get no_cache "/menu" plain 0).0 between_calls)
        "/menu"
        patient
        3).1
unfolding cached_get join_or_start get_entry get_inflight get
cached_get-started_once_example =
    cached_get-started_once "/menu" no_cache plain patient 0 3 0 between_calls refl
      (refl, (refl, tt))

-- the path is what stands before the query, and the server refuses everything
abbrev checkout : ApiRequestOptions
checkout = record { method = some post_; headers = []; body = none }

abbrev paths : String → Option String
paths url = none

abbrev refusing : Sent → FetchResult
refusing sent = responded (record {
  status = 422;
  content_type = some "application/json";
  json = some (obj (field "message" (str "invalid") end));
})

api_request-IsTold_example :
    let (sent, response) = api_request paths "u" "x" refusing "/api/customer/checkout" checkout in
    IsTold (IsAnswered (refusing sent)) response
api_request-IsTold_example =
    api_request-IsTold paths "u" "x" refusing "/api/customer/checkout" checkout

refused_text :
    (api_request paths "u" "x" refusing "/api/customer/cart" checkout).1.error
    ≡ some "エラーが発生しました (422)"
unfolding api_request
refused_text = refl

api_request-idempotency_example :
    get
      (api_request paths "u" "x" refusing "/api/customer/checkout?a" checkout).0.headers
      "idempotency-key"
    ≡ (if is_post post_
          && includes idempotent_post_paths (resolve_request_path paths "/api/customer/checkout?a")
        then some (or_else (get checkout.headers "idempotency-key") "u")
        else get checkout.headers "idempotency-key")
api_request-idempotency_example =
    api_request-idempotency paths "u" "x" refusing "/api/customer/checkout?a" checkout tt

key_attached :
    get
      (api_request paths "u" "x" refusing "/api/customer/checkout?a" checkout).0.headers
      "idempotency-key"
    ≡ some "u"
unfolding api_request get
key_attached = refl

-- ===== src/Api/CachedGet.antt =====
-- resources/js/api/cachedGet.ts: reading through the cache, with revalidation in the background,
-- shared requests and retries.
--
-- The answers of `apiRequest` are an argument, one for each attempt. `cachedGet` runs up to its
-- first wait; a fetch or a revalidation that it starts ends with an event of its own.
use fleximo_oss.Base.{
  ℕ, zero, suc, ◌*◌, ◌^◌, Bool, not, Option, none, some, String, List, [], ◌∷◌, ◌++◌, leb, or_else,
  if◌then◌else◌, ◌==◌, nat_eq, string_eq, ◌&&◌, ◌||◌, is_some,
}
use fleximo_oss.Api.{ApiResponse}
use fleximo_oss.Api.Cache.{
  CacheEntry, ApiCache, default_cache_config, get_entry, set_entry, is_fresh, get_inflight,
  set_inflight, delete_inflight,
}

pub record CachedGetOptions : Type 0 where
  pub ttl : Option ℕ
  pub swr : Option Bool
  pub max_retries : Option ℕ
  pub retry_base_delay : Option ℕ

unfoldable pub is_retryable : ℕ → Bool
is_retryable status = status == 0 || (leb 500 status && leb status 599)

-- The response is returned at once: it succeeded, or trying again would not help.
unfoldable pub is_final : ApiResponse → Bool
unfolding is_retryable
is_final response = not (is_some response.error) || not (is_retryable response.status)

-- What the loop did: the response, the number of requests, and the waits in hundredths of a
-- millisecond (`jitter` is the random factor, in hundredths).
pub record Fetched : Type 0 where
  pub response : ApiResponse
  pub requests : ℕ
  pub waits : List ℕ

-- The loop of `fetchWithRetry` from attempt `attempt` on, with `left` more attempts after it.
unfoldable pub retry_from : (ℕ → ApiResponse) → (ℕ → ℕ) → ℕ → ℕ → ℕ → Fetched
retry_from answers jitter base attempt zero = record {
  response = answers attempt;
  requests = 1;
  waits = [];
}
retry_from answers jitter base attempt (suc left) =
    let rest = retry_from answers jitter base (suc attempt) left in
    if is_final (answers attempt)
    then record { response = answers attempt; requests = 1; waits = [] }
    else record {
      response = rest.response;
      requests = suc rest.requests;
      waits = base * 2 ^ attempt * jitter attempt ∷ rest.waits;
    }

unfoldable pub fetch_with_retry : (ℕ → ApiResponse) → (ℕ → ℕ) → ℕ → ℕ → Fetched
unfolding retry_from is_final
fetch_with_retry answers jitter max_retries base = retry_from answers jitter base 0 max_retries

-- What `cachedGet` returns: a response that it has, or the promise of one, which an earlier call
-- made or which it makes itself.
pub data Answer : Type 0 where
  cached : ApiResponse → Answer
  joined started : ℕ → Answer

-- The cache, the number of the next promise, and the revalidations that run, by their address.
pub record Http : Type 0 where
  pub cache : ApiCache ApiResponse
  pub next_promise : ℕ
  pub revalidating : List String

-- the part of `cachedGet` behind the lookup in the cache
unfoldable pub join_or_start : Http → String → Http × Answer
join_or_start http url = elim (get_inflight http.cache url) [
  | some promise ↦ (http, joined promise)
  | none ↦ (
    record http {
      cache = set_inflight http.cache url http.next_promise;
      next_promise = suc http.next_promise;
    },
    started http.next_promise,
  )
]

-- An entry was found.
unfoldable pub answer_cached : Http → String → Bool → ℕ → CacheEntry ApiResponse → Http × Answer
answer_cached http url swr now entry =
    if is_fresh entry now
    then (http, cached entry.content)
    else if swr
    then (record http { revalidating = http.revalidating ++ url ∷ [] }, cached entry.content)
    else join_or_start http url

unfoldable pub cached_get : Http → String → CachedGetOptions → ℕ → Http × Answer
cached_get http url options now =
    let (cache, found) = get_entry http.cache url in
    let touched = record http { cache = cache } in
    elim found [
      | none ↦ join_or_start touched url
      | some entry ↦
          answer_cached touched url (or_else options.swr default_cache_config.swr) now entry
    ]

-- `if (response.error === null) apiCache.set(url, response, ttl)`
unfoldable pub store_success :
    ApiCache ApiResponse → String → ApiResponse → ℕ → ℕ → ApiCache ApiResponse
store_success cache url response ttl now =
    if is_some response.error then cache else set_entry cache url response ttl now

-- the callback of `then` on a fetch
unfoldable pub on_fetched : Http → String → ApiResponse → ℕ → ℕ → Http
on_fetched http url response ttl now = record http {
  cache = store_success (delete_inflight http.cache url) url response ttl now;
}

-- the rest of `revalidate` after its fetch
unfoldable pub on_revalidated : Http → String → ApiResponse → ℕ → ℕ → Http
on_revalidated http url response ttl now = record http {
  cache = store_success http.cache url response ttl now;
}

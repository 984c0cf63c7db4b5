-- ===== src/Api/Coherence.antt =====
-- Histories of calls, answers and invalidations of resources/js/api/cachedGet.ts.
use fleximo_oss.Base.{
  ℕ, suc, Bool, true, not, none, some, String, List, [], ◌∷◌, is_some, or_else, ◌≡◌, ◌≢◌, ◌∙◌,
  arith, Bool-cases, inl, inr, string_eq, Option-cases, All, All-filter_by, ltb, leb, length,
}
use fleximo_oss.JsMap.{get, put, delete}
use mathlib.Core.Path.{subst}
use text.Mathlib.Text.{starts_with}
use fleximo_oss.Api.{ApiResponse}
use fleximo_oss.Api.Cache.{
  CacheEntry, ApiCache, Store, max_cache_entries, prune_expired, enforce_capacity, get_entry,
  new_entry, set_entry, is_fresh, invalidate, invalidate_by_prefix, clear, get_inflight,
  set_inflight, delete_inflight, default_cache_config,
}
use fleximo_oss.Api.CachedGet.{
  CachedGetOptions, cached, Http, join_or_start, answer_cached, cached_get, store_success,
  on_fetched, on_revalidated,
}

-- What happens to the cache: a call, the end of a fetch or of a revalidation with its answer, and
-- the invalidations.
pub data HttpEvent : Type 0 where
  call : String → CachedGetOptions → ℕ → HttpEvent
  fetched revalidated : String → ApiResponse → (ttl now : ℕ) → HttpEvent
  drop_url drop_prefix : String → HttpEvent
  drop_all : HttpEvent

abbrev pub no_cache : Http
no_cache = record {
  cache = record { store = []; inflight = [] };
  next_promise = 0;
  revalidating = [];
}

unfoldable pub http_step : Http → HttpEvent → Http
http_step http (call url options now) = (cached_get http url options now).0
http_step http (fetched url response ttl now) = on_fetched http url response ttl now
http_step http (revalidated url response ttl now) = on_revalidated http url response ttl now
http_step http (drop_url url) = record http { cache = invalidate http.cache url }
http_step http (drop_prefix prefix) = record http { cache = invalidate_by_prefix http.cache prefix }
http_step http drop_all = record http { cache = clear http.cache }

unfoldable pub http_run : Http → List HttpEvent → Http
http_run http [] = http
http_run http (e ∷ es) = http_run (http_step http e) es

abbrev pub IsSuccess : String × CacheEntry ApiResponse → Type 0
IsSuccess e = e.1.content.error ≡ none

abbrev pub OnlySuccess : Http → Type 0
OnlySuccess http = All IsSuccess http.cache.store

module _ {A : Type 0} (P : String × CacheEntry A → Type 0) where
  All-delete : (m : Store A) (k : String) → All P m → All P (delete m k)
  unfolding delete
  All-delete [] k h = tt
  All-delete ((j, w) ∷ m) k h = elim (Bool-cases (string_eq.beq j k)) [
    | inl same ↦ rw same (All-delete m k h.1)
    | inr other ↦ rw other (h.0, All-delete m k h.1)
  ]

  All-put :
      (m : Store A) (k : String) (v : CacheEntry A)
      → ((j : String) → P (j, v))
      → All P m
      → All P (put m k v)
  unfolding put
  All-put [] k v p h = (p k, tt)
  All-put ((j, w) ∷ m) k v p h = elim (Bool-cases (string_eq.beq j k)) [
    | inl same ↦ rw same (p j, h.1)
    | inr other ↦ rw other (h.0, All-put m k v p h.1)
  ]

  All-enforce_capacity : (m : Store A) → All P m → All P (enforce_capacity m)
  unfolding enforce_capacity
  All-enforce_capacity [] h = tt
  All-enforce_capacity (e ∷ m) h = elim (Bool-cases (ltb max_cache_entries (suc (length m)))) [
    | inl over ↦ rw over (All-enforce_capacity m h.1)
    | inr fits ↦ rw fits h
  ]

  All-get :
      (m : Store A) (k : String) (v : CacheEntry A)
      → All P m
      → get m k ≡ some v
      → (j : String) × P (j, v)
  unfolding get
  All-get [] k v h e = cc
  All-get ((j, w) ∷ m) k v h e = elim (Bool-cases (string_eq.beq j k)) [
    | inl same ↦ let here : w ≡ v = ground arith in (j, subst (λ x. P (j, x)) here h.0)
    | inr other ↦ All-get m k v h.1 (rw other at e)
  ]

store_success-OnlySuccess :
    (cache : ApiCache ApiResponse) (url : String) (response : ApiResponse) (ttl now : ℕ)
    → All IsSuccess cache.store
    → All IsSuccess (store_success cache url response ttl now).store
unfolding store_success set_entry prune_expired
store_success-OnlySuccess cache url response ttl now h =
    elim (Bool-cases (is_some response.error)) [
      | inl bad ↦ rw bad h
      | inr ok ↦
          let good : response.error ≡ none = ground arith in
          let fresh = prune_expired now cache.store in
          rw ok (
            All-enforce_capacity IsSuccess (put (delete fresh url) url (new_entry response ttl now))
              (All-put IsSuccess (delete fresh url) url (new_entry response ttl now) (λ j. good)
                (All-delete IsSuccess fresh url
                  (All-filter_by IsSuccess (λ e. not (leb e.1.expires_at now)) cache.store h))))
    ]

get_entry-OnlySuccess :
    (cache : ApiCache ApiResponse) (url : String)
    → All IsSuccess cache.store
    → All IsSuccess (get_entry cache url).0.store
unfolding get_entry
get_entry-OnlySuccess cache url h = elim (Option-cases (get cache.store url)) [
  | inl missing ↦ rw (missing, get_entry) h
  | inr (entry, found) ↦
      rw (found, get_entry)
        (All-put IsSuccess _ url entry (λ j. (All-get IsSuccess cache.store url entry h found).1)
          (All-delete IsSuccess cache.store url h))
]

start-OnlySuccess :
    (http : Http) (url : String) → OnlySuccess http → OnlySuccess (join_or_start http url).0
unfolding join_or_start set_inflight
start-OnlySuccess http url h = elim (Option-cases (get_inflight http.cache url)) [
  | inl free ↦ rw (free, join_or_start) h
  | inr (promise, running) ↦ rw (running, join_or_start) h
]

answer-OnlySuccess :
    (http : Http) (url : String) (swr : Bool) (now : ℕ) (entry : CacheEntry ApiResponse)
    → OnlySuccess http
    → OnlySuccess (answer_cached http url swr now entry).0
unfolding answer_cached
answer-OnlySuccess http url swr now entry h = elim (Bool-cases (is_fresh entry now)) [
  | inl fresh ↦ rw fresh h
  | inr stale ↦ elim (Bool-cases swr) [
    | inl background ↦ rw (stale, background) h
    | inr wait ↦ rw (stale, wait) (start-OnlySuccess http url h)
  ]
]

call-OnlySuccess :
    (http : Http) (url : String) (options : CachedGetOptions) (now : ℕ)
    → OnlySuccess http
    → OnlySuccess (cached_get http url options now).0
unfolding cached_get
call-OnlySuccess http url options now h =
    let read = get_entry http.cache url in
    let touched = record http { cache = read.0 } in
    let kept = get_entry-OnlySuccess http.cache url h in
    elim (Option-cases read.1) [
      | inl missing ↦ rw (missing, cached_get) (start-OnlySuccess touched url kept)
      | inr (entry, found) ↦
          rw (found, cached_get)
            (answer-OnlySuccess touched url (or_else options.swr default_cache_config.swr) now entry
              kept)
    ]

step-OnlySuccess : (http : Http) (e : HttpEvent) → OnlySuccess http → OnlySuccess (http_step http e)
unfolding http_step on_fetched on_revalidated delete_inflight invalidate invalidate_by_prefix clear
step-OnlySuccess http (call url options now) h = call-OnlySuccess http url options now h
step-OnlySuccess http (fetched url response ttl now) h =
    store_success-OnlySuccess (delete_inflight http.cache url) url response ttl now h
step-OnlySuccess http (revalidated url response ttl now) h =
    store_success-OnlySuccess http.cache url response ttl now h
step-OnlySuccess http (drop_url url) h = All-delete IsSuccess http.cache.store url h
step-OnlySuccess http (drop_prefix prefix) h =
    All-filter_by IsSuccess (λ e. not (starts_with e.0 prefix)) http.cache.store h
step-OnlySuccess http drop_all h = tt

run-OnlySuccess :
    (http : Http) (es : List HttpEvent) → OnlySuccess http → OnlySuccess (http_run http es)
unfolding http_run
run-OnlySuccess http [] h = h
run-OnlySuccess http (e ∷ es) h = run-OnlySuccess (http_step http e) es (step-OnlySuccess http e h)

entry_found :
    (cache : ApiCache ApiResponse) (url : String) (entry : CacheEntry ApiResponse)
    → (get_entry cache url).1 ≡ some entry
    → get cache.store url ≡ some entry
unfolding get_entry
entry_found cache url entry h = elim (Option-cases (get cache.store url)) [
  | inl missing ↦ cc (rw (missing, get_entry) at h)
  | inr (other, found) ↦ found ∙ (rw (found, get_entry) at h)
]

answer_cached-cached :
    (http : Http) (url : String) (swr : Bool) (now : ℕ) (entry : CacheEntry ApiResponse)
    (r : ApiResponse)
    → (answer_cached http url swr now entry).1 ≡ cached r
    → r ≡ entry.content
unfolding answer_cached join_or_start
answer_cached-cached http url swr now entry r h = ground arith

join_or_start-cached :
    (http : Http) (url : String) (r : ApiResponse) → (join_or_start http url).1 ≢ cached r
unfolding join_or_start
join_or_start-cached http url r h = ground arith

-- However calls, answers and invalidations follow each other from the empty cache, a response that
-- `cachedGet` returns from the cache is a success: an error is never served from it.
pub cached_get-success :
    (es : List HttpEvent) (url : String) (options : CachedGetOptions) (now : ℕ) (r : ApiResponse)
    → (cached_get (http_run no_cache es) url options now).1 ≡ cached r
    → r.error ≡ none
unfolding cached_get
cached_get-success es url options now r h =
    let http = http_run no_cache es in
    let touched = record http { cache = (get_entry http.cache url).0 } in
    elim (Option-cases (get_entry http.cache url).1) [
      | inl missing ↦ absurd (join_or_start-cached touched url r (rw (missing, cached_get) at h))
      | inr (entry, found) ↦
          let same =
            answer_cached-cached touched url (or_else options.swr true) now entry r
              (rw (found, cached_get) at h) in
          let good =
            All-get IsSuccess http.cache.store url entry (run-OnlySuccess no_cache es tt)
              (entry_found http.cache url entry found) in
          rw same good.1
    ]

-- ===== src/Api/Sharing.antt =====
-- Calls of `cachedGet` (resources/js/api/cachedGet.ts) that find an answer or a running request.
use fleximo_oss.Base.{
  ℕ, ◌+◌, ◌<◌, Bool, true, false, not, none, some, String, List, [], ◌∷◌, All, if_elim, is_some,
  or_else, ◌≡◌, refl, sym, ap, subst, ◌∙◌, arith, Bool-cases, inl, inr, string_eq, Option-cases,
  beq_refl, ltb,
}
use fleximo_oss.JsMap.{get}
use fleximo_oss.JsMap.Laws.{get-put, get-delete}
use fleximo_oss.Api.{ApiResponse}
use fleximo_oss.Api.Cache.{
  CacheEntry, ApiCache, set_entry, invalidate, invalidate_by_prefix, clear, get_entry, is_fresh,
  get_inflight, set_inflight, delete_inflight,
}
use fleximo_oss.Api.Capacity.{get_entry-set_entry}
use fleximo_oss.Api.CachedGet.{
  CachedGetOptions, Answer, cached, joined, started, Http, join_or_start, answer_cached, cached_get,
  store_success, on_fetched, on_revalidated,
}
use fleximo_oss.Api.Coherence.{
  HttpEvent, call, fetched, revalidated, drop_url, drop_prefix, drop_all, http_step, http_run,
}

get_entry-inflight :
    (cache : ApiCache ApiResponse) (url : String)
    → (get_entry cache url).0.inflight ≡ cache.inflight
unfolding get_entry
get_entry-inflight cache url = elim (Option-cases (get cache.store url)) [
  | inl missing ↦ rw (missing, get_entry)
  | inr (entry, found) ↦ rw (found, get_entry)
]

-- A call that comes right after a successful fetch of its address, within the time to live, returns
-- the response of that fetch from the cache, whatever its options. It starts no request, neither one
-- to be waited for nor one in the background.
pub cached_get-on_fetched :
    (http : Http) (url : String) (response : ApiResponse) (ttl now later : ℕ)
    (options : CachedGetOptions)
    → response.error ≡ none
    → later < now + ttl
    → let after = on_fetched http url response ttl now in
      let (called, answer) = cached_get after url options later in
      (answer ≡ cached response)
      × (called.revalidating ≡ http.revalidating)
      × (called.next_promise ≡ http.next_promise)
      × (called.cache.inflight ≡ after.cache.inflight)
unfolding cached_get on_fetched store_success answer_cached is_fresh
cached_get-on_fetched http url response ttl now later options ok h =
    let clean = delete_inflight http.cache url in
    let no_error : is_some response.error ≡ false = ground arith in
    let fresh : ltb later (now + ttl) ≡ true = ground arith in
    let kept = get_entry-inflight (set_entry clean url response ttl now) url in
    rw no_error (
      rw (get_entry-set_entry clean url response ttl now, cached_get)
        (rw fresh (refl, refl, refl, kept)))

module _ (url : String) where
  unchanged_inflight :
      (http : Http) (u : String)
      → get_inflight (get_entry http.cache u).0 url ≡ get_inflight http.cache url
  unfolding get_inflight
  unchanged_inflight http u = ap (λ m. get m url) (get_entry-inflight http.cache u)

  start_registers :
      (http : Http) (p : ℕ)
      → (join_or_start http url).1 ≡ started p
      → get_inflight (join_or_start http url).0.cache url ≡ some p
  unfolding join_or_start set_inflight get_inflight
  start_registers http p h = elim (Option-cases (get http.cache.inflight url)) [
    | inr (q, running) ↦ cc (rw (running, join_or_start) at h)
    | inl free ↦
        rw (free, join_or_start)
          (rw (get-put http.cache.inflight url url http.next_promise)
            (rw (beq_refl ⦃e = string_eq⦄ url) (ground (arith, rw (free, join_or_start) at h))))
  ]

  answer_registers :
      (http : Http) (swr : Bool) (now : ℕ) (entry : CacheEntry ApiResponse) (p : ℕ)
      → (answer_cached http url swr now entry).1 ≡ started p
      → get_inflight (answer_cached http url swr now entry).0.cache url ≡ some p
  unfolding answer_cached
  answer_registers http swr now entry p h = elim (Bool-cases (is_fresh entry now)) [
    | inl fresh ↦ cc (rw fresh at h)
    | inr stale ↦ elim (Bool-cases swr) [
      | inl background ↦ cc (rw (stale, background) at h)
      | inr wait ↦ rw (stale, wait) (start_registers http p (rw (stale, wait) at h))
    ]
  ]

  call_registers :
      (http : Http) (options : CachedGetOptions) (now p : ℕ)
      → (cached_get http url options now).1 ≡ started p
      → get_inflight (cached_get http url options now).0.cache url ≡ some p
  unfolding cached_get
  call_registers http options now p h =
      let touched = record http { cache = (get_entry http.cache url).0 } in
      elim (Option-cases (get_entry http.cache url).1) [
        | inl missing ↦
            rw (missing, cached_get) (start_registers touched p (rw (missing, cached_get) at h))
        | inr (entry, found) ↦
            rw (found, cached_get)
              (answer_registers touched (or_else options.swr true) now entry p
                (rw (found, cached_get) at h))
      ]

  -- A request for the address is under way, with this promise.
  abbrev Runs : ℕ → Http → Type 0
  Runs p http = get_inflight http.cache url ≡ some p

  -- The event is not the end of the request for the address.
  abbrev pub leaves_running : HttpEvent → Bool
  leaves_running (fetched u response ttl now) = not (string_eq.beq u url)
  leaves_running _ = true

  -- The call shares the promise, or it found a response in the cache.
  abbrev pub IsShared : ℕ → Answer → Type 0
  IsShared p (cached response) = Unit
  IsShared p (joined q) = q ≡ p
  IsShared p (started q) = ⊥

  touched-Runs :
      (http : Http) (u : String) (p : ℕ)
      → Runs p http
      → Runs p (record http { cache = (get_entry http.cache u).0 })
  touched-Runs http u p h = unchanged_inflight http u ∙ h

  join-Runs : (http : Http) (u : String) (p : ℕ) → Runs p http → Runs p (join_or_start http u).0
  unfolding join_or_start set_inflight get_inflight
  join-Runs http u p h = elim (Option-cases (get http.cache.inflight u)) [
    | inr (q, running) ↦ rw (running, join_or_start) h
    | inl free ↦ elim (Bool-cases (string_eq.beq u url)) [
      | inl same ↦
          let missing : get http.cache.inflight url ≡ none =
            subst (λ v. get http.cache.inflight v ≡ none) ((string_eq.beq_iff u url).0 same) free in
          absurd (none_is_not (sym missing ∙ h))
      | inr other ↦
          rw (free, join_or_start)
            (rw (get-put http.cache.inflight u url http.next_promise, other) h)
    ]
  ]
    where
      none_is_not : {q : ℕ} → none ≡ some q → ⊥
      none_is_not e = ground (arith, e)

  answer-Runs :
      (http : Http) (u : String) (swr : Bool) (now : ℕ) (entry : CacheEntry ApiResponse) (p : ℕ)
      → Runs p http
      → Runs p (answer_cached http u swr now entry).0
  unfolding answer_cached
  answer-Runs http u swr now entry p h = elim (Bool-cases (is_fresh entry now)) [
    | inl fresh ↦ rw fresh h
    | inr stale ↦ elim (Bool-cases swr) [
      | inl background ↦ rw (stale, background) h
      | inr wait ↦ rw (stale, wait) (join-Runs http u p h)
    ]
  ]

  call-Runs :
      (http : Http) (u : String) (options : CachedGetOptions) (now p : ℕ)
      → Runs p http
      → Runs p (cached_get http u options now).0
  unfolding cached_get
  call-Runs http u options now p h =
      let touched = record http { cache = (get_entry http.cache u).0 } in
      let kept = touched-Runs http u p h in
      elim (Option-cases (get_entry http.cache u).1) [
        | inl missing ↦ rw (missing, cached_get) (join-Runs touched u p kept)
        | inr (entry, found) ↦
            rw (found, cached_get)
              (answer-Runs touched u (or_else options.swr true) now entry p kept)
      ]

  store-inflight :
      (cache : ApiCache ApiResponse) (u : String) (response : ApiResponse) (ttl now : ℕ)
      → get_inflight (store_success cache u response ttl now) url ≡ get_inflight cache url
  unfolding store_success set_entry get_inflight
  store-inflight cache u response ttl now =
      if_elim (λ (c : ApiCache ApiResponse). get c.inflight url ≡ get cache.inflight url)
        (is_some response.error) cache (set_entry cache u response ttl now) refl refl

  step-Runs :
      (http : Http) (e : HttpEvent) (p : ℕ)
      → leaves_running e ≡ true
      → Runs p http
      → Runs p (http_step http e)
  unfolding http_step on_fetched on_revalidated delete_inflight get_inflight invalidate
      invalidate_by_prefix clear
  step-Runs http (call u options now) p w h = call-Runs http u options now p h
  step-Runs http (fetched u response ttl now) p w h =
      let other : string_eq.beq u url ≡ false = ground (arith, w) in
      store-inflight (delete_inflight http.cache u) u response ttl now
      ∙ (rw (get-delete http.cache.inflight u url, other) h)
  step-Runs http (revalidated u response ttl now) p w h =
      store-inflight http.cache u response ttl now ∙ h
  step-Runs http (drop_url u) p w h = h
  step-Runs http (drop_prefix prefix) p w h = h
  step-Runs http drop_all p w h = h

  run-Runs :
      (es : List HttpEvent) (http : Http) (p : ℕ)
      → All (λ e. leaves_running e ≡ true) es
      → Runs p http
      → Runs p (http_run http es)
  unfolding http_run
  run-Runs [] http p w h = h
  run-Runs (e ∷ es) http p w h = run-Runs es (http_step http e) p w.1 (step-Runs http e p w.0 h)

  join-IsShared : (http : Http) (p : ℕ) → Runs p http → IsShared p (join_or_start http url).1
  unfolding join_or_start
  join-IsShared http p h = rw (h, join_or_start) refl

  answer-IsShared :
      (http : Http) (swr : Bool) (now : ℕ) (entry : CacheEntry ApiResponse) (p : ℕ)
      → Runs p http
      → IsShared p (answer_cached http url swr now entry).1
  unfolding answer_cached
  answer-IsShared http swr now entry p h = elim (Bool-cases (is_fresh entry now)) [
    | inl fresh ↦ rw fresh tt
    | inr stale ↦ elim (Bool-cases swr) [
      | inl background ↦ rw (stale, background) tt
      | inr wait ↦ rw (stale, wait) (join-IsShared http p h)
    ]
  ]

  -- From a call that starts a request with a promise on, as long as that request has not ended, every
  -- call for the same address returns a response of the cache or this same promise, whatever other
  -- calls, answers, revalidations and invalidations come in between. Requests that revalidate an
  -- entry in the background are not counted.
  pub cached_get-started_once :
      (http : Http) (options again : CachedGetOptions) (now later p : ℕ) (es : List HttpEvent)
      → (cached_get http url options now).1 ≡ started p
      → All (λ e. leaves_running e ≡ true) es
      → IsShared p (cached_get (http_run (cached_get http url options now).0 es) url again later).1
  unfolding cached_get
  cached_get-started_once http options again now later p es h w =
      let http' = http_run (cached_get http url options now).0 es in
      let touched = record http' { cache = (get_entry http'.cache url).0 } in
      let running = touched-Runs http' url p (
        run-Runs es (cached_get http url options now).0 p w
          (call_registers http options now p h)) in
      elim (Option-cases (get_entry http'.cache url).1) [
        | inl missing ↦ rw (missing, cached_get) (join-IsShared touched p running)
        | inr (entry, found) ↦
            rw (found, cached_get)
              (answer-IsShared touched (or_else again.swr true) later entry p running)
      ]

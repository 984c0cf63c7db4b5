-- ===== src/Api/Cache.antt =====
-- resources/js/api/cache.ts: the response cache, least recently used first, and the table of
-- requests under way. `Date.now()` is an argument; a promise is a number.
use fleximo_oss.Base.{
  ℕ, ◌+◌, Bool, true, not, Option, none, some, String, [], ◌∷◌, length, ltb, leb, filter_by,
  if◌then◌else◌, string_eq,
}
use fleximo_oss.JsMap.{JsMap, get, put, delete}
use text.Mathlib.Text.{starts_with}

pub record CacheEntry (A : Type 0) : Type 0 where
  pub content : A
  pub timestamp : ℕ
  pub expires_at : ℕ

pub record CacheConfig : Type 0 where
  pub ttl : ℕ
  pub swr : Bool
  pub max_retries : ℕ
  pub retry_base_delay : ℕ

abbrev pub default_cache_config : CacheConfig
default_cache_config = record { ttl = 60000; swr = true; max_retries = 2; retry_base_delay = 1000 }

abbrev pub max_cache_entries : ℕ
max_cache_entries = 300

pub record ApiCache (A : Type 0) : Type 0 where
  pub store : JsMap String (CacheEntry A)
  pub inflight : JsMap String ℕ

abbrev pub Store : Type 0 → Type 0
Store A = JsMap String (CacheEntry A)

module _ {A : Type 0} where
  unfoldable pub touch_entry : Store A → String → CacheEntry A → Store A
  unfolding delete put
  touch_entry store key entry = put (delete store key) key entry

  unfoldable pub prune_expired : ℕ → Store A → Store A
  prune_expired now store = filter_by (λ e. not (leb e.1.expires_at now)) store

  -- Keys are unique, so deleting the first key drops the first entry.
  unfoldable pub enforce_capacity : Store A → Store A
  enforce_capacity [] = []
  enforce_capacity (e ∷ store) =
      let rest = enforce_capacity store in
      if ltb max_cache_entries (length (e ∷ store)) then rest else e ∷ store

  unfoldable pub get_entry : ApiCache A → String → ApiCache A × Option (CacheEntry A)
  unfolding get touch_entry
  get_entry cache key = elim (get cache.store key) [
    | none ↦ (cache, none)
    | some entry ↦ (record cache { store = touch_entry cache.store key entry }, some entry)
  ]

  abbrev pub new_entry : A → ℕ → ℕ → CacheEntry A
  new_entry content ttl now = record { content = content; timestamp = now; expires_at = now + ttl }

  unfoldable pub set_entry : ApiCache A → String → A → ℕ → ℕ → ApiCache A
  unfolding touch_entry prune_expired enforce_capacity
  set_entry cache key content ttl now = record cache {
    store =
        enforce_capacity
          (touch_entry (prune_expired now cache.store) key (new_entry content ttl now));
  }

  unfoldable pub is_fresh : CacheEntry A → ℕ → Bool
  is_fresh entry now = ltb now entry.expires_at

  unfoldable pub invalidate : ApiCache A → String → ApiCache A
  unfolding delete
  invalidate cache url = record cache { store = delete cache.store url }

  unfoldable pub invalidate_by_prefix : ApiCache A → String → ApiCache A
  invalidate_by_prefix cache prefix = record cache {
    store = filter_by (λ e. not (starts_with e.0 prefix)) cache.store;
  }

  unfoldable pub clear : ApiCache A → ApiCache A
  clear cache = record cache { store = [] }

  unfoldable pub size : ApiCache A → ℕ
  size cache = length cache.store

  unfoldable pub get_inflight : ApiCache A → String → Option ℕ
  unfolding get
  get_inflight cache key = get cache.inflight key

  unfoldable pub set_inflight : ApiCache A → String → ℕ → ApiCache A
  unfolding put
  set_inflight cache key promise = record cache { inflight = put cache.inflight key promise }

  unfoldable pub delete_inflight : ApiCache A → String → ApiCache A
  unfolding delete
  delete_inflight cache key = record cache { inflight = delete cache.inflight key }

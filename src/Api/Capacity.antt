-- ===== src/Api/Capacity.antt =====
-- The store of resources/js/api/cache.ts as a list of its entries, the one used last at the end.
use fleximo_oss.Base.{
  ℕ, zero, suc, ◌+◌, if◌then◌else◌, ◌-◌, ◌≤◌, some, String, [], ◌∷◌, ◌++◌, length, length-append,
  drop, ltb, ◌≡◌, refl, ap, sym, ◌∙◌, arith, Bool-cases, inl, inr, string_eq, Option-cases,
  beq_refl,
}
use fleximo_oss.JsMap.{Absent, IsMap, get, put, delete}
use fleximo_oss.JsMap.Laws.{get-put, get-delete, Absent-delete_self, IsMap-delete, IsMap-put}
use fleximo_oss.Api.Cache.{
  CacheEntry, ApiCache, Store, max_cache_entries, touch_entry, prune_expired, enforce_capacity,
  get_entry, new_entry, set_entry, size,
}

module _ {A : Type 0} where
  -- The last 300 entries.
  abbrev pub most_recent : Store A → Store A
  most_recent store = drop (length store - 300) store

  drop_step :
      (n : ℕ) (e : String × CacheEntry A) (store : Store A)
      → n ≡ suc (length store - max_cache_entries)
      → drop n (e ∷ store) ≡ most_recent store
  drop_step zero e store h = absurd (omega arith)
  drop_step (suc n) e store h =
      let same : n ≡ length store - max_cache_entries = omega arith in rw same

  enforce_capacity-most_recent : (store : Store A) → enforce_capacity store ≡ most_recent store
  unfolding enforce_capacity
  enforce_capacity-most_recent [] = refl
  enforce_capacity-most_recent (e ∷ store) =
      elim (Bool-cases (ltb max_cache_entries (suc (length store)))) [
        | inl over ↦ rw over (
            enforce_capacity-most_recent store
            ∙ sym (drop_step (suc (length store) - 300) e store (ground arith)))
        | inr fits ↦
            let none_dropped : suc (length store) - 300 ≡ 0 = ground arith in
            rw fits (rw none_dropped)
      ]

  put_of_Absent :
      (m : Store A) (k : String) (v : CacheEntry A) → Absent k m → put m k v ≡ m ++ (k, v) ∷ []
  unfolding put
  put_of_Absent [] k v h = refl
  put_of_Absent ((j, w) ∷ m) k v h = elim (Bool-cases (string_eq.beq j k)) [
    | inl same ↦ absurd (h.0 ((string_eq.beq_iff j k).0 same))
    | inr other ↦ rw other (ap (◌∷◌ (j, w)) (put_of_Absent m k v h.1))
  ]

  -- The entries whose time of expiry is later than the given time.
  abbrev pub unexpired : ℕ → Store A → Store A
  unexpired now [] = []
  unexpired now (e ∷ store) =
      let rest = unexpired now store in if ltb now e.1.expires_at then e ∷ rest else rest

  prune_expired-unexpired :
      (now : ℕ) (store : Store A) → prune_expired now store ≡ unexpired now store
  unfolding prune_expired
  prune_expired-unexpired now [] = refl
  prune_expired-unexpired now (e ∷ store) = ground (arith, prune_expired-unexpired now store)

  -- Setting an entry drops the entries that have expired at the time of the call and the key's old
  -- entry, adds the new one, which expires when its time to live is over, as the most recently
  -- used, and keeps the 300 entries used last.
  pub set_entry-most_recent :
      (cache : ApiCache A) (key : String) (content : A) (ttl now : ℕ)
      → (set_entry cache key content ttl now).store
        ≡ most_recent (
            delete (unexpired now cache.store) key
            ++ (key, record { content = content; timestamp = now; expires_at = now + ttl }) ∷ [])
  unfolding set_entry touch_entry
  set_entry-most_recent cache key content ttl now =
      let fresh = prune_expired now cache.store in
      let new = new_entry content ttl now in
      enforce_capacity-most_recent (put (delete fresh key) key new)
      ∙ ap most_recent (put_of_Absent (delete fresh key) key new (Absent-delete_self fresh key))
      ∙ ap (λ m. most_recent (delete m key ++ (key, new) ∷ []))
          (prune_expired-unexpired now cache.store)

  length-drop : (n : ℕ) (m : Store A) → length (drop n m) ≡ length m - n
  length-drop zero m = omega arith
  length-drop (suc n) [] = omega arith
  length-drop (suc n) (e ∷ m) = omega (arith, length-drop n m)

  -- The cache never holds more than 300 entries after an entry was set.
  pub size-set_entry :
      (cache : ApiCache A) (key : String) (content : A) (ttl now : ℕ)
      → size (set_entry cache key content ttl now) ≤ max_cache_entries
  unfolding size
  size-set_entry cache key content ttl now =
      let all = delete (unexpired now cache.store) key ++ (key, new_entry content ttl now) ∷ [] in
      rw (set_entry-most_recent cache key content ttl now)
        (omega (arith, length-drop (length all - 300) all))

  get-append_last :
      (m : Store A) (k : String) (v : CacheEntry A) (n : ℕ)
      → Absent k m
      → n ≤ length m
      → get (drop n (m ++ (k, v) ∷ [])) k ≡ some v
  unfolding get
  get-append_last [] k v zero h le = rw (beq_refl ⦃e = string_eq⦄ k)
  get-append_last [] k v (suc n) h le = absurd (omega arith)
  get-append_last ((j, w) ∷ m) k v zero h le = elim (Bool-cases (string_eq.beq j k)) [
    | inl same ↦ absurd (h.0 ((string_eq.beq_iff j k).0 same))
    | inr other ↦ rw other (get-append_last m k v 0 h.1 (omega arith))
  ]
  get-append_last (e ∷ m) k v (suc n) h le = get-append_last m k v n h.1 (omega arith)

  -- Whatever the cache held, the entry just set is found by its key.
  pub get_entry-set_entry :
      (cache : ApiCache A) (key : String) (content : A) (ttl now : ℕ)
      → (get_entry (set_entry cache key content ttl now) key).1 ≡ some (new_entry content ttl now)
  unfolding get_entry
  get_entry-set_entry cache key content ttl now =
      let others = delete (unexpired now cache.store) key in
      let new = new_entry content ttl now in
      let found : get (set_entry cache key content ttl now).store key ≡ some new =
        rw (set_entry-most_recent cache key content ttl now) (
          get-append_last others key new _ (Absent-delete_self (unexpired now cache.store) key)
            (omega (arith, length-append {0} others ((key, new) ∷ [])))) in
      rw (found, get_entry)

  -- Reading an entry changes no lookup, whatever the key; it only makes the entry the last one,
  -- and the keys stay unique.
  pub get_entry-lookup :
      (cache : ApiCache A) (key other : String)
      → IsMap cache.store
      → let (read, found) = get_entry cache key in
        (found ≡ get cache.store key)
        × (get read.store other ≡ get cache.store other)
        × IsMap read.store
  unfolding get_entry touch_entry
  get_entry-lookup cache key other m = elim (Option-cases (get cache.store key)) [
    | inl missing ↦ (rw (missing, get_entry), rw (missing, get_entry), rw (missing, get_entry) m)
    | inr (entry, found) ↦ (
      rw (found, get_entry),
      rw (found, get_entry) (kept entry found),
      rw (found, get_entry)
          (IsMap-put (delete cache.store key) key entry (IsMap-delete cache.store key m)),
    )
  ]
    where
      kept :
          (entry : CacheEntry A)
          → get cache.store key ≡ some entry
          → get (put (delete cache.store key) key entry) other ≡ get cache.store other
      kept entry found = ground (
        arith,
        get-put (delete cache.store key) key other entry,
        get-delete cache.store key other,
        string_eq.beq_iff key other,
      )

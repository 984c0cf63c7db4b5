-- ===== src/Kds/Merge.antt =====
-- Merging an incremental answer: `mergeOrders` of resources/js/Hooks/kdsOrderHelpers.ts.
use fleximo_oss.Base.{
  ℕ, true, false, not, Option, none, some, List, [], ◌∷◌, ◌++◌, map, includes, if◌then◌else◌, ◌==◌,
  nat_eq, nat_beq_iff, nat_beq, subst, ◌&&◌, ◌≡◌, ◌≢◌, refl, sym, ap, ◌∙◌, arith, Bool-cases, inl,
  inr, All, All-append,
}
use fleximo_oss.JsMap.{JsMap, Absent, IsMap, get, put, delete, values}
use fleximo_oss.JsMap.Laws.{get-put, get-delete, IsMap-put, IsMap-delete}
use fleximo_oss.Kds.{KdsOrder, is_active_kds_order, index_orders, merge_loop, merge_orders}

-- The last order with the id, or `cur` if there is none.
unfoldable pub latest : ℕ → Option KdsOrder → List KdsOrder → Option KdsOrder
latest k cur [] = cur
latest k cur (o ∷ orders) = latest k (if o.id == k then some o else cur) orders

-- What incoming orders make of the order with the id: an active one replaces it, one that is not
-- active takes it off.
unfoldable pub settle : ℕ → Option KdsOrder → List KdsOrder → Option KdsOrder
settle k cur [] = cur
settle k cur (o ∷ incoming) =
    settle k (if o.id == k then (if is_active_kds_order o then some o else none) else cur) incoming

-- No two orders have one id.
unfoldable pub Unique : List KdsOrder → Type 0
Unique [] = Unit
Unique (o ∷ orders) = All (λ x. o.id ≢ x.id) orders × Unique orders

-- Each entry stands under the id of its order.
abbrev Keyed : JsMap ℕ KdsOrder → Type 0
Keyed = All (λ e. e.0 ≡ e.1.id)

Keyed-put : (m : JsMap ℕ KdsOrder) (o : KdsOrder) → Keyed m → Keyed (put m o.id o)
unfolding put
Keyed-put [] o h = (refl, tt)
Keyed-put ((j, w) ∷ m) o h = ground (arith, Keyed-put m o h.1)

Keyed-delete : (m : JsMap ℕ KdsOrder) (k : ℕ) → Keyed m → Keyed (delete m k)
unfolding delete
Keyed-delete [] k h = tt
Keyed-delete ((j, w) ∷ m) k h = ground (arith, Keyed-delete m k h.1)

index_orders-Keyed :
    (m : JsMap ℕ KdsOrder) (orders : List KdsOrder)
    → Keyed m
    → IsMap m
    → Keyed (index_orders m orders) × IsMap (index_orders m orders)
unfolding index_orders
index_orders-Keyed m [] h k = (h, k)
index_orders-Keyed m (o ∷ orders) h k =
    index_orders-Keyed (put m o.id o) orders (Keyed-put m o h) (IsMap-put m o.id o k)

get-index_orders :
    (k : ℕ) (m : JsMap ℕ KdsOrder) (orders : List KdsOrder)
    → get (index_orders m orders) k ≡ latest k (get m k) orders
unfolding index_orders latest
get-index_orders k m [] = refl
get-index_orders k m (o ∷ orders) =
    get-index_orders k (put m o.id o) orders ∙ ap (λ c. latest k c orders) (get-put m o.id k o)

-- one round of the loop
abbrev merged : KdsOrder → JsMap ℕ KdsOrder → JsMap ℕ KdsOrder
merged o m = if is_active_kds_order o then put m o.id o else delete m o.id

merged-Keyed :
    (o : KdsOrder) (m : JsMap ℕ KdsOrder)
    → Keyed m
    → IsMap m
    → Keyed (merged o m) × IsMap (merged o m)
merged-Keyed o m h k = elim (Bool-cases (is_active_kds_order o)) [
  | inl active ↦ rw active (Keyed-put m o h, IsMap-put m o.id o k)
  | inr gone ↦ rw gone (Keyed-delete m o.id h, IsMap-delete m o.id k)
]

get-merged :
    (k : ℕ) (o : KdsOrder) (m : JsMap ℕ KdsOrder)
    → get (merged o m) k
      ≡ (if o.id == k then (if is_active_kds_order o then some o else none) else get m k)
get-merged k o m = elim (Bool-cases (is_active_kds_order o)) [
  | inl active ↦ rw active (get-put m o.id k o)
  | inr gone ↦ rw gone (get-delete m o.id k)
]

module _ (ids : List ℕ) where
  merge_loop-Keyed :
      (m : JsMap ℕ KdsOrder) (new incoming : List KdsOrder)
      → Keyed m
      → IsMap m
      → Keyed (merge_loop ids m new incoming).0 × IsMap (merge_loop ids m new incoming).0
  unfolding merge_loop
  merge_loop-Keyed m new [] h k = (h, k)
  merge_loop-Keyed m new (o ∷ incoming) h k =
      let (h', k') = merged-Keyed o m h k in merge_loop-Keyed (merged o m) _ incoming h' k'

  get-merge_loop :
      (k : ℕ) (m : JsMap ℕ KdsOrder) (new incoming : List KdsOrder)
      → get (merge_loop ids m new incoming).0 k ≡ settle k (get m k) incoming
  unfolding merge_loop settle
  get-merge_loop k m new [] = refl
  get-merge_loop k m new (o ∷ incoming) =
      get-merge_loop k (merged o m) _ incoming ∙ ap (λ c. settle k c incoming) (get-merged k o m)

  -- An order that is announced is active and was not on the board.
  abbrev pub IsNews : KdsOrder → Type 0
  IsNews o = (is_active_kds_order o ≡ true) × (includes ids o.id ≡ false)

  -- the announced orders after one round
  abbrev next_new : KdsOrder → List KdsOrder → List KdsOrder
  next_new o new = if is_active_kds_order o && not (includes ids o.id) then new ++ o ∷ [] else new

  IsNews-next_new :
      (o : KdsOrder) (new : List KdsOrder) → All IsNews new → All IsNews (next_new o new)
  IsNews-next_new o new h = elim (Bool-cases (is_active_kds_order o)) [
    | inl active ↦ elim (Bool-cases (includes ids o.id)) [
      | inl known ↦ rw (active, known) h
      | inr unknown ↦
          rw (active, unknown) (All-append IsNews new (o ∷ []) h ((active, unknown), tt))
    ]
    | inr gone ↦ rw gone h
  ]

  IsNews-merge_loop :
      (m : JsMap ℕ KdsOrder) (new incoming : List KdsOrder)
      → All IsNews new
      → All IsNews (merge_loop ids m new incoming).1
  unfolding merge_loop
  IsNews-merge_loop m new [] h = h
  IsNews-merge_loop m new (o ∷ incoming) h =
      IsNews-merge_loop (merged o m) (next_new o new) incoming (IsNews-next_new o new h)

Absent→ne : (m : JsMap ℕ KdsOrder) (k : ℕ) → Keyed m → Absent k m → All (λ x. k ≢ x.id) (values m)
Absent→ne [] k h a = tt
Absent→ne ((j, w) ∷ m) k h a = ((λ e. a.0 (h.0 ∙ sym e)), Absent→ne m k h.1 a.1)

Unique-values : (m : JsMap ℕ KdsOrder) → Keyed m → IsMap m → Unique (values m)
unfolding Unique
Unique-values [] h k = tt
Unique-values ((j, w) ∷ m) h k = (Absent→ne m w.id h.1 (rw (← h.0) k.0), Unique-values m h.1 k.1)

latest_of_ne :
    (k : ℕ) (cur : Option KdsOrder) (orders : List KdsOrder)
    → All (λ x. k ≢ x.id) orders
    → latest k cur orders ≡ cur
unfolding latest
latest_of_ne k cur [] h = refl
latest_of_ne k cur (o ∷ orders) h = elim (Bool-cases (o.id == k)) [
  | inl same ↦ absurd (h.0 (sym ((nat_beq_iff o.id k).0 same)))
  | inr other ↦ rw other (latest_of_ne k cur orders h.1)
]

latest-values :
    (k : ℕ) (m : JsMap ℕ KdsOrder) → Keyed m → IsMap m → latest k none (values m) ≡ get m k
unfolding latest get
latest-values k [] h u = refl
latest-values k ((j, w) ∷ m) h u = elim (Bool-cases (w.id == k)) [
  | inl same ↦
      rw (latest, get, same, ap (λ i. nat_beq i k) h.0 ∙ same)
        (latest_of_ne k (some w) (values m)
          (Absent→ne m k h.1 (subst (λ i. Absent i m) (h.0 ∙ (nat_beq_iff w.id k).0 same) u.0)))
  | inr other ↦
      rw (latest, get, other, ap (λ i. nat_beq i k) h.0 ∙ other) (latest-values k m h.1 u.1)
]

-- After an incremental answer the board has, for every id, what the incoming orders in turn make
-- of the order it had: an active one replaces it, one that is not active takes it off, and no
-- incoming one leaves it. No id is there twice, and an announced order is active and was not on
-- the board.
pub merge_orders-settle :
    (existing incoming : List KdsOrder)
    → ((k : ℕ)
        → latest k none (merge_orders existing incoming).0
          ≡ settle k (latest k none existing) incoming)
      × Unique (merge_orders existing incoming).0
      × All (IsNews (map (λ o. o.id) existing)) (merge_orders existing incoming).1
unfolding merge_orders get
merge_orders-settle existing incoming =
    let ids = map (λ (o : KdsOrder). o.id) existing in
    let (keyed, is_map) = index_orders-Keyed [] existing tt tt in
    let (keyed', is_map') =
      merge_loop-Keyed ids (index_orders [] existing) [] incoming keyed is_map in
    (
      (λ k.
          latest-values k _ keyed' is_map'
          ∙ get-merge_loop ids k (index_orders [] existing) [] incoming
          ∙ ap (λ c. settle k c incoming) (get-index_orders k [] existing)),
      Unique-values _ keyed' is_map',
      IsNews-merge_loop ids (index_orders [] existing) [] incoming tt,
    )

-- ===== src/Kds/ActiveMerge.antt =====
-- The helpers of resources/js/Hooks/kdsOrderHelpers.ts, and the change of a status on the screen,
-- leave only active orders on a board of active orders.
use fleximo_oss.Base.{
  ℕ, Bool, true, false, not, List, [], ◌∷◌, map, is_empty, includes, filter_by, truthy,
  if◌then◌else◌, ◌==◌, nat_eq, ◌||◌, ◌≡◌, refl, Bool-cases, inl, inr, if_elim, All, All-append,
  All-filter_by, arith,
}
use fleximo_oss.JsMap.{JsMap, put, delete, values}
use fleximo_oss.Kds.{
  KdsOrder, Target, to_paid, to_accepted, to_in_progress, to_ready, to_completed, to_cancelled,
  target_status, is_active_kds_order, index_orders, merge_loop, merge_orders, replace_order,
  upsert_active_order,
}
use fleximo_oss.Kds.Board.{Kds, apply_incoming, set_order_status, show_status, leaves_board}

abbrev IsActiveOrder : KdsOrder → Type 0
IsActiveOrder o = is_active_kds_order o ≡ true

abbrev pub AreActive : List KdsOrder → Type 0
AreActive = All IsActiveOrder

filter_by-AreActive : (orders : List KdsOrder) → AreActive (filter_by is_active_kds_order orders)
filter_by-AreActive [] = tt
filter_by-AreActive (o ∷ orders) = elim (Bool-cases (is_active_kds_order o)) [
  | inl active ↦ rw active (active, filter_by-AreActive orders)
  | inr gone ↦ rw gone (filter_by-AreActive orders)
]

abbrev HasActive : JsMap ℕ KdsOrder → Type 0
HasActive = All (λ e. IsActiveOrder e.1)

put-HasActive :
    (m : JsMap ℕ KdsOrder) (k : ℕ) (o : KdsOrder)
    → IsActiveOrder o
    → HasActive m
    → HasActive (put m k o)
unfolding put
put-HasActive [] k o a h = (a, tt)
put-HasActive ((j, w) ∷ m) k o a h =
    if_elim HasActive (j == k) ((j, o) ∷ m) ((j, w) ∷ put m k o) (a, h.1)
      (h.0, put-HasActive m k o a h.1)

delete-HasActive : (m : JsMap ℕ KdsOrder) (k : ℕ) → HasActive m → HasActive (delete m k)
unfolding delete
delete-HasActive [] k h = tt
delete-HasActive ((j, w) ∷ m) k h =
    if_elim HasActive (j == k) (delete m k) ((j, w) ∷ delete m k) (delete-HasActive m k h.1)
      (h.0, delete-HasActive m k h.1)

index_orders-HasActive :
    (m : JsMap ℕ KdsOrder) (orders : List KdsOrder)
    → HasActive m
    → AreActive orders
    → HasActive (index_orders m orders)
unfolding index_orders
index_orders-HasActive m [] h k = h
index_orders-HasActive m (o ∷ orders) h k =
    index_orders-HasActive (put m o.id o) orders (put-HasActive m o.id o k.0 h) k.1

merged-HasActive :
    (o : KdsOrder) (m : JsMap ℕ KdsOrder)
    → HasActive m
    → HasActive (if is_active_kds_order o then put m o.id o else delete m o.id)
merged-HasActive o m h = elim (Bool-cases (is_active_kds_order o)) [
  | inl active ↦ rw active (put-HasActive m o.id o active h)
  | inr gone ↦ rw gone (delete-HasActive m o.id h)
]

merge_loop-HasActive :
    (ids : List ℕ) (m : JsMap ℕ KdsOrder) (new incoming : List KdsOrder)
    → HasActive m
    → HasActive (merge_loop ids m new incoming).0
unfolding merge_loop
merge_loop-HasActive ids m new [] h = h
merge_loop-HasActive ids m new (o ∷ incoming) h =
    merge_loop-HasActive ids (if is_active_kds_order o then put m o.id o else delete m o.id) _
      incoming (merged-HasActive o m h)

values-AreActive : (m : JsMap ℕ KdsOrder) → HasActive m → AreActive (values m)
values-AreActive [] h = tt
values-AreActive (e ∷ m) h = (h.0, values-AreActive m h.1)

merge_orders-AreActive :
    (existing incoming : List KdsOrder)
    → AreActive existing
    → AreActive (merge_orders existing incoming).0
unfolding merge_orders
merge_orders-AreActive existing incoming h =
    values-AreActive _
      (merge_loop-HasActive _ _ [] incoming (index_orders-HasActive [] existing tt h))

pub apply_incoming-AreActive :
    (full : Bool) (s : Kds) (guarded : List KdsOrder)
    → AreActive s.orders
    → AreActive (apply_incoming full s guarded).0
unfolding apply_incoming
apply_incoming-AreActive full s guarded h =
    if_elim (λ (r : List KdsOrder × List KdsOrder). AreActive r.0)
      (full || s.is_first_fetch || not (truthy s.last_server_time)) _ _
      (filter_by-AreActive guarded)
      (if_elim (λ (r : List KdsOrder × List KdsOrder). AreActive r.0) (is_empty guarded) _ _ h
        (merge_orders-AreActive s.orders guarded h))

replace_order-AreActive :
    (o : KdsOrder) (orders : List KdsOrder)
    → IsActiveOrder o
    → AreActive orders
    → AreActive (replace_order o orders)
unfolding replace_order
replace_order-AreActive o [] a h = tt
replace_order-AreActive o (x ∷ orders) a h =
    (if_elim IsActiveOrder (x.id == o.id) o x a h.0, replace_order-AreActive o orders a h.1)

pub upsert_active_order-AreActive :
    (orders : List KdsOrder) (o : KdsOrder)
    → AreActive orders
    → AreActive (upsert_active_order orders o)
unfolding upsert_active_order
upsert_active_order-AreActive orders o h = elim (Bool-cases (is_active_kds_order o)) [
  | inl active ↦
      let replaced = replace_order-AreActive o orders active h in
      rw active (
        if_elim AreActive (includes (map (λ x. x.id) orders) o.id) _ _ replaced
          (All-append IsActiveOrder _ (o ∷ []) replaced (active, tt)))
  | inr gone ↦ rw gone (All-filter_by IsActiveOrder _ orders h)
]

target_status-active :
    (t : Target) (o : KdsOrder)
    → leaves_board t ≡ false
    → is_active_kds_order (record o { status = target_status t }) ≡ true
target_status-active to_paid o h = refl
target_status-active to_accepted o h = refl
target_status-active to_in_progress o h = refl
target_status-active to_ready o h = refl
target_status-active to_completed o h = ground arith
target_status-active to_cancelled o h = ground arith

set_order_status-AreActive :
    (k : ℕ) (t : Target) (orders : List KdsOrder)
    → leaves_board t ≡ false
    → AreActive orders
    → AreActive (set_order_status k t orders)
unfolding set_order_status
set_order_status-AreActive k t [] stays h = tt
set_order_status-AreActive k t (o ∷ orders) stays h = (
  if_elim IsActiveOrder (o.id == k) _ o (target_status-active t o stays) h.0,
  set_order_status-AreActive k t orders stays h.1,
)

pub show_status-AreActive :
    (k : ℕ) (t : Target) (orders : List KdsOrder)
    → AreActive orders
    → AreActive (show_status k t orders)
unfolding show_status
show_status-AreActive k t orders h = elim (Bool-cases (leaves_board t)) [
  | inl leaves ↦ rw leaves (All-filter_by IsActiveOrder _ orders h)
  | inr stays ↦ rw stays (set_order_status-AreActive k t orders stays h)
]

-- Two states with the same orders and the same requests under way.

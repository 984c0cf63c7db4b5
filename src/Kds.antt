-- ===== src/Kds.antt =====
-- The kitchen display: its orders (resources/js/types/kds.ts), and the pure helpers of
-- resources/js/Hooks/kdsOrderHelpers.ts and resources/js/Utils/kdsHelpers.ts.
pub mod AutoComplete
pub mod Feed
pub mod Merge
pub mod Board
pub mod ActiveMerge
pub mod Active
pub mod Serial
pub mod Refresh
pub mod Rendered
pub mod Upsert
pub mod Columns
pub mod Snapshot
mod Scenarios
use fleximo_oss.Base.{
  ℕ, Bool, true, false, not, Option, none, some, String, List, [], ◌∷◌, ◌++◌, map, includes,
  is_empty, filter_by, is_some, find_entry, ◌&&◌, if◌then◌else◌, ◌==◌, nat_eq, ◌||◌, ◌≡◌,
}
use fleximo_oss.JsMap.{JsMap, get, put, delete, values}
use fleximo_oss.Order.{
  OrderStatus, pending_payment, paid, accepted, in_progress, ready, completed, cancelled,
  payment_failed, refunded, order_status_label, status_eq,
}

pub record KdsOrderItemOption : Type 0 where
  pub name : String
  pub price : ℕ

pub record KdsOrderItem : Type 0 where
  pub id : ℕ
  pub name : String
  pub quantity : ℕ
  pub options : List KdsOrderItemOption

-- `KdsApiOrder`. A `KdsOrder` is one whose status is active.
pub record KdsOrder : Type 0 where
  pub id : ℕ
  pub order_code : String
  pub status : OrderStatus
  pub status_label : String
  pub items : List KdsOrderItem
  pub item_count : ℕ
  pub elapsed_seconds : ℕ
  pub elapsed_display : String
  pub is_warning : Bool
  pub paid_at : Option String
  pub accepted_at : Option String
  pub in_progress_at : Option String
  pub ready_at : Option String
  pub created_at : String

-- `KdsStatusUpdateTarget`
pub data Target : Type 0 where
  to_paid to_accepted to_in_progress to_ready to_completed to_cancelled : Target

abbrev pub target_status : Target → OrderStatus
target_status to_paid = paid
target_status to_accepted = accepted
target_status to_in_progress = in_progress
target_status to_ready = ready
target_status to_completed = completed
target_status to_cancelled = cancelled

pub record PendingStatusUpdate : Type 0 where
  pub expected_status : OrderStatus
  pub expires_at : ℕ

abbrev pub active_kds_order_statuses : List OrderStatus
active_kds_order_statuses = paid ∷ accepted ∷ in_progress ∷ ready ∷ []

abbrev pub is_active_kds_order_status : OrderStatus → Bool
is_active_kds_order_status status = includes active_kds_order_statuses status

abbrev pub is_active_kds_order : KdsOrder → Bool
is_active_kds_order order = is_active_kds_order_status order.status

abbrev pub status_sync_guard_ttl_ms : ℕ
status_sync_guard_ttl_ms = 5000

-- `new Map(existing.map((o) => [o.id, o]))`
unfoldable pub index_orders : JsMap ℕ KdsOrder → List KdsOrder → JsMap ℕ KdsOrder
unfolding put
index_orders m [] = m
index_orders m (o ∷ orders) = index_orders (put m o.id o) orders

-- The loop of `mergeOrders` over the incoming orders.
unfoldable pub merge_loop :
    List ℕ → JsMap ℕ KdsOrder → List KdsOrder → List KdsOrder → JsMap ℕ KdsOrder × List KdsOrder
unfolding put delete
merge_loop existing_ids m new_orders [] = (m, new_orders)
merge_loop existing_ids m new_orders (order ∷ incoming) =
    merge_loop existing_ids
      (if is_active_kds_order order then put m order.id order else delete m order.id)
      (if is_active_kds_order order && not (includes existing_ids order.id)
        then new_orders ++ order ∷ []
        else new_orders)
      incoming

-- The merged orders, and those that are new.
unfoldable pub merge_orders : List KdsOrder → List KdsOrder → List KdsOrder × List KdsOrder
unfolding index_orders merge_loop
merge_orders existing incoming =
    let (m, new_orders) =
      merge_loop (map (λ o. o.id) existing) (index_orders [] existing) [] incoming in
    (values m, new_orders)

-- `existing.map((o) => o.id === incoming.id ? incoming : o)`
unfoldable pub replace_order : KdsOrder → List KdsOrder → List KdsOrder
replace_order incoming [] = []
replace_order incoming (o ∷ orders) =
    (if o.id == incoming.id then incoming else o) ∷ replace_order incoming orders

unfoldable pub upsert_active_order : List KdsOrder → KdsOrder → List KdsOrder
unfolding replace_order
upsert_active_order existing incoming =
    if is_active_kds_order incoming
    then (if includes (map (λ o. o.id) existing) incoming.id
        then replace_order incoming existing
        else replace_order incoming existing ++ incoming ∷ [])
    else filter_by (λ o. not (o.id == incoming.id)) existing

-- Both branches of the source compare alike.
unfoldable pub should_ignore_incoming_order : KdsOrder → OrderStatus → Bool
should_ignore_incoming_order order expected =
    if expected == completed || expected == cancelled
    then not (order.status == expected)
    else not (order.status == expected)

abbrev pub kds_statuses : List OrderStatus
kds_statuses = paid ∷ accepted ∷ in_progress ∷ ready ∷ []

abbrev pub kds_status_priority : OrderStatus → Option ℕ
kds_status_priority paid = some 0
kds_status_priority accepted = some 1
kds_status_priority in_progress = some 2
kds_status_priority ready = some 3
kds_status_priority _ = none

unfoldable pub get_next_status : OrderStatus → Option OrderStatus
get_next_status accepted = some in_progress
get_next_status in_progress = some ready
get_next_status _ = none

unfoldable pub get_status_button_text : Option OrderStatus → String
get_status_button_text (some in_progress) = "調理開始"
get_status_button_text (some ready) = "準備完了"
get_status_button_text _ = ""

pub record Buckets : Type 0 where
  pub paid_orders : List KdsOrder
  pub accepted_orders : List KdsOrder
  pub in_progress_orders : List KdsOrder
  pub ready_orders : List KdsOrder

-- the `switch` of `useKdsOrders`
unfoldable pub add_to_bucket : OrderStatus → KdsOrder → Buckets → Buckets
add_to_bucket paid o b = record b { paid_orders = b.paid_orders ++ o ∷ [] }
add_to_bucket accepted o b = record b { accepted_orders = b.accepted_orders ++ o ∷ [] }
add_to_bucket in_progress o b = record b { in_progress_orders = b.in_progress_orders ++ o ∷ [] }
add_to_bucket ready o b = record b { ready_orders = b.ready_orders ++ o ∷ [] }
add_to_bucket _ o b = b

unfoldable pub sort_orders : Buckets → List KdsOrder → Buckets
unfolding add_to_bucket
sort_orders b [] = b
sort_orders b (o ∷ orders) = sort_orders (add_to_bucket o.status o b) orders

abbrev pub no_buckets : Buckets
no_buckets = record {
  paid_orders = [];
  accepted_orders = [];
  in_progress_orders = [];
  ready_orders = [];
}

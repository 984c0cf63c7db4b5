-- ===== src/Kds/Board.antt =====
-- The board of the kitchen display: resources/js/Hooks/useKdsPolling.ts, useKdsOrderActions.ts and
-- useKdsOrders.ts. A fetch and a status change run up to their `await` and wait, in `fetches` and
-- in `updates`, for the event of their answer. `Date.now()` is an argument of the answers. The
-- callbacks of the screen are lists of what they were called with. `orders_ref` is `ordersRef`, which
-- the effect after a render, the event `rendered`, brings up to date.
use fleximo_oss.Base.{
  ℕ, suc, ◌+◌, Bool, true, false, not, Option, none, some, String, List, [], ◌∷◌, ◌++◌, map,
  includes, is_empty, filter_by, remove_at, get_elem?, truthy, leb, if◌then◌else◌, ◌==◌, nat_eq,
  ◌&&◌, ◌||◌,
}
use fleximo_oss.JsMap.{JsMap, get, put, delete}
use fleximo_oss.Errors.{normalize_error_message}
use fleximo_oss.Order.{order_status_label}
use fleximo_oss.Kds.{
  KdsOrder, Target, to_completed, to_cancelled, target_status, PendingStatusUpdate,
  is_active_kds_order, status_sync_guard_ttl_ms, merge_orders, upsert_active_order,
  should_ignore_incoming_order,
}

pub data PollingState : Type 0 where
  idle polling error : PollingState

-- A status change whose request waits: the order, the new status, and the orders of the last render
-- before it.
pub record StatusCall : Type 0 where
  pub order_id : ℕ
  pub new_status : Target
  pub previous_orders : List KdsOrder

pub record Kds : Type 0 where
  pub orders : List KdsOrder
  pub orders_ref : List KdsOrder
  pub pending_status_updates : JsMap ℕ PendingStatusUpdate
  pub is_active : Bool
  pub polling_state : PollingState
  pub last_server_time : Option String
  pub is_first_fetch : Bool
  pub poll_count : ℕ
  pub has_notified_polling_error : Bool
  pub updating_order_ids : List ℕ
  pub fetches : List Bool
  pub updates : List StatusCall
  pub fetch_params : List (Option String)
  pub new_order_calls : List (List KdsOrder)
  pub polling_errors : List String
  pub update_errors : List (ℕ × String)

-- The answer to a fetch: `error`, and the orders with `meta.server_time` if there is a body.
pub record FetchReply : Type 0 where
  pub error : Option String
  pub body : Option (List KdsOrder × Option String)

-- The answer to a status change: `error`, and the order of the body if there is one.
pub record UpdateReply : Type 0 where
  pub error : Option String
  pub order : Option KdsOrder

pub data Event : Type 0 where
  fetch_orders unmount mount rendered : Event
  fetch_reply : (fetch : ℕ) → FetchReply → (now : ℕ) → Event
  update_order_status : (order_id : ℕ) → Target → Event
  update_reply : (update : ℕ) → UpdateReply → (now : ℕ) → Event

abbrev pub full_refresh_interval : ℕ
full_refresh_interval = 30

abbrev pub fetch_fallback : String
fetch_fallback = "注文の取得に失敗しました"

abbrev pub update_fallback : String
update_fallback = "ステータス更新に失敗しました"

unfoldable pub init_kds : List KdsOrder → Option String → Kds
init_kds orders server_time = record {
  orders = orders;
  orders_ref = orders;
  pending_status_updates = [];
  is_active = true;
  polling_state = idle;
  last_server_time = server_time;
  is_first_fetch = not (truthy server_time);
  poll_count = 0;
  has_notified_polling_error = false;
  updating_order_ids = [];
  fetches = [];
  updates = [];
  fetch_params = [];
  new_order_calls = [];
  polling_errors = [];
  update_errors = [];
}

unfoldable pub prune_expired_pending_status_updates :
    ℕ → JsMap ℕ PendingStatusUpdate → JsMap ℕ PendingStatusUpdate
prune_expired_pending_status_updates now pending =
    filter_by (λ e. not (leb e.1.expires_at now)) pending

pub record Guarded : Type 0 where
  pub pending : JsMap ℕ PendingStatusUpdate
  pub guarded_incoming : List KdsOrder
  pub ignored_stale_incoming : Bool

-- One incoming order: kept, or ignored because a newer status is expected.
unfoldable pub guard_order : KdsOrder → Guarded → Guarded
unfolding get delete should_ignore_incoming_order
guard_order order g = elim (get g.pending order.id) [
  | none ↦ record g { guarded_incoming = g.guarded_incoming ++ order ∷ [] }
  | some expected ↦
      if should_ignore_incoming_order order expected.expected_status
      then record g { ignored_stale_incoming = true }
      else record g {
        pending = delete g.pending order.id;
        guarded_incoming = g.guarded_incoming ++ order ∷ [];
      }
]

unfoldable pub guard_loop : List KdsOrder → Guarded → Guarded
unfolding guard_order
guard_loop [] g = g
guard_loop (order ∷ incoming) g = guard_loop incoming (guard_order order g)

unfoldable pub guard_incoming : ℕ → List KdsOrder → JsMap ℕ PendingStatusUpdate → Guarded
unfolding guard_loop prune_expired_pending_status_updates
guard_incoming now incoming pending = guard_loop incoming (record {
  pending = prune_expired_pending_status_updates now pending;
  guarded_incoming = [];
  ignored_stale_incoming = false;
})

-- `fetchOrders` up to its request
unfoldable pub begin_fetch : Kds → Kds
begin_fetch s =
    if s.is_active
    then (let full = leb full_refresh_interval (suc s.poll_count) in
        record s {
          poll_count = if full then 0 else suc s.poll_count;
          fetches = s.fetches ++ full ∷ [];
          fetch_params =
              s.fetch_params
              ++ (if not full && truthy s.last_server_time then s.last_server_time else none) ∷ [];
        })
    else s

-- the new list of orders, and the new orders that are announced
unfoldable pub apply_incoming : Bool → Kds → List KdsOrder → List KdsOrder × List KdsOrder
unfolding merge_orders
apply_incoming full s guarded =
    if full || s.is_first_fetch || not (truthy s.last_server_time)
    then (filter_by is_active_kds_order guarded, [])
    else if is_empty guarded
    then (s.orders, [])
    else merge_orders s.orders guarded

-- a fetch that brought orders
unfoldable pub fetch_succeeded : Bool → List KdsOrder → Option String → ℕ → Kds → Kds
unfolding guard_incoming apply_incoming
fetch_succeeded full incoming server_time now s =
    let g = guard_incoming now incoming s.pending_status_updates in
    let (orders, new_orders) = apply_incoming full s g.guarded_incoming in
    record s {
      pending_status_updates = g.pending;
      orders = orders;
      is_first_fetch =
          s.is_first_fetch && not (full || s.is_first_fetch || not (truthy s.last_server_time));
      new_order_calls =
          if is_empty new_orders then s.new_order_calls else s.new_order_calls ++ new_orders ∷ [];
      last_server_time =
          if truthy server_time && not g.ignored_stale_incoming
          then server_time
          else s.last_server_time;
      polling_state = idle;
      has_notified_polling_error = false;
    }

-- the `catch` block, for the message of the exception
unfoldable pub fetch_failed : String → Kds → Kds
unfolding normalize_error_message
fetch_failed message s = record s {
  polling_errors =
      if s.has_notified_polling_error
      then s.polling_errors
      else s.polling_errors ++ normalize_error_message (some message) fetch_fallback ∷ [];
  has_notified_polling_error = true;
  polling_state = error;
}

unfoldable pub end_fetch : Bool → FetchReply → ℕ → Kds → Kds
unfolding fetch_succeeded fetch_failed
end_fetch full reply now s =
    if s.is_active
    then (if truthy reply.error
        then fetch_failed (normalize_error_message reply.error fetch_fallback) s
        else elim reply.body [
          | none ↦ fetch_failed (normalize_error_message reply.error fetch_fallback) s
          | some (incoming, server_time) ↦ fetch_succeeded full incoming server_time now s
        ])
    else s

unfoldable pub on_fetch_reply : ℕ → FetchReply → ℕ → Kds → Kds
unfolding end_fetch
on_fetch_reply i reply now s = elim (get_elem? s.fetches i) [
  | none ↦ s
  | some full ↦ end_fetch full reply now (record s { fetches = remove_at s.fetches i })
]

abbrev pub leaves_board : Target → Bool
leaves_board to_completed = true
leaves_board to_cancelled = true
leaves_board _ = false

unfoldable pub set_order_status : ℕ → Target → List KdsOrder → List KdsOrder
set_order_status order_id new_status orders =
    map
      (λ o.
        if o.id == order_id
        then record o {
          status = target_status new_status;
          status_label = order_status_label (target_status new_status);
        }
        else o)
      orders

-- the change that is shown before the server has answered
unfoldable pub show_status : ℕ → Target → List KdsOrder → List KdsOrder
unfolding set_order_status
show_status order_id new_status orders =
    if leaves_board new_status
    then filter_by (λ o. not (o.id == order_id)) orders
    else set_order_status order_id new_status orders

-- `updateOrderStatus` up to its request
unfoldable pub begin_update : ℕ → Target → Kds → Kds
unfolding show_status
begin_update order_id new_status s =
    if s.is_active && not (includes s.updating_order_ids order_id)
    then record s {
      updating_order_ids = s.updating_order_ids ++ order_id ∷ [];
      orders = show_status order_id new_status s.orders;
      updates =
          s.updates
          ++ record { order_id = order_id; new_status = new_status; previous_orders = s.orders_ref }
            ∷ [];
    }
    else s

unfoldable pub update_accepted : StatusCall → Option KdsOrder → ℕ → Kds → Kds
unfolding put upsert_active_order
update_accepted c order now s = record s {
  pending_status_updates = put s.pending_status_updates c.order_id (record {
    expected_status = elim order [ none ↦ target_status c.new_status | some o ↦ o.status ];
    expires_at = now + status_sync_guard_ttl_ms;
  });
  orders = elim order [ none ↦ s.orders | some o ↦ upsert_active_order s.orders o ];
}

unfoldable pub update_refused : StatusCall → Option String → Kds → Kds
unfolding delete normalize_error_message
update_refused c message s = record s {
  orders = c.previous_orders;
  pending_status_updates = delete s.pending_status_updates c.order_id;
  update_errors =
      s.update_errors ++ (c.order_id, normalize_error_message message update_fallback) ∷ [];
}

-- the `finally` block: the order is no longer being updated
unfoldable pub release : ℕ → Kds → Kds
release order_id s = record s {
  updating_order_ids = filter_by (λ k. not (k == order_id)) s.updating_order_ids;
}

-- the rest of `updateOrderStatus`
unfoldable pub end_update : StatusCall → UpdateReply → ℕ → Kds → Kds
end_update c reply now s =
    if s.is_active
    then (if truthy reply.error
        then update_refused c reply.error (release c.order_id s)
        else begin_fetch (update_accepted c reply.order now (release c.order_id s)))
    else release c.order_id s

unfoldable pub on_update_reply : ℕ → UpdateReply → ℕ → Kds → Kds
unfolding end_update
on_update_reply i reply now s = elim (get_elem? s.updates i) [
  | none ↦ s
  | some c ↦ end_update c reply now (record s { updates = remove_at s.updates i })
]

unfoldable pub step : Kds → Event → Kds
unfolding begin_fetch on_fetch_reply begin_update on_update_reply
step s fetch_orders = begin_fetch s
step s unmount = record s { is_active = false }
step s mount = record s { is_active = true }
step s rendered = record s { orders_ref = s.orders }
step s (fetch_reply i reply now) = on_fetch_reply i reply now s
step s (update_order_status order_id new_status) = begin_update order_id new_status s
step s (update_reply i reply now) = on_update_reply i reply now s

unfoldable pub run : Kds → List Event → Kds
unfolding step begin_fetch on_fetch_reply begin_update on_update_reply end_fetch end_update release
    update_accepted update_refused fetch_succeeded fetch_failed guard_incoming apply_incoming
    show_status
run s [] = s
run s (e ∷ es) = run (step s e) es

-- ===== src/Kds/Scenarios.antt =====
-- Runs of the kitchen display at concrete orders (resources/js/Hooks/useKdsPolling.ts and
-- useKdsOrderActions.ts).
use fleximo_oss.Base.{
  ℕ, Option, String, false, none, some, List, [], ◌∷◌, map, ◌≡◌, refl, All, nat_eq,
}
use fleximo_oss.JsMap.{put}
use fleximo_oss.Order.{OrderStatus, paid, accepted, in_progress, ready, completed}
use fleximo_oss.Kds.{
  KdsOrder, to_accepted, to_in_progress, merge_orders, upsert_active_order, sort_orders, no_buckets,
}
use fleximo_oss.Kds.AutoComplete.{
  render, fired, init_auto, clear_gone, run as run_auto, step as step_auto, Event as AutoEvent,
}
use fleximo_oss.Kds.AutoComplete.Due.{IsRendered}
use fleximo_oss.Kds.AutoComplete.Timers.{IsScheduled, run-IsScheduled}
use fleximo_oss.Kds.Feed.{Shows, merge_all, history_of, merge_all-Shows}
use fleximo_oss.Kds.Merge.{latest, settle, Unique, IsNews, merge_orders-settle}
use fleximo_oss.Kds.Board.{
  Kds, Event, rendered, fetch_orders, fetch_reply, update_order_status, update_reply, init_kds, run,
  begin_update, on_update_reply, UpdateReply,
}
use fleximo_oss.Kds.Active.{IsBoard, run-IsBoard}
use fleximo_oss.Kds.Serial.{IsSerial, outstanding, run-IsSerial}
use fleximo_oss.Kds.Refresh.{IsRefreshed, FullEvery, since_full, run-IsRefreshed}
use fleximo_oss.Kds.Upsert.{upsert_active_order-merge_orders}
use fleximo_oss.Kds.Columns.{column, sort_orders-columns}
use fleximo_oss.Kds.Snapshot.{refused_update-orders}

abbrev order : ℕ → OrderStatus → KdsOrder
order id status = record {
  id = id;
  order_code = "A1";
  status = status;
  status_label = "";
  items = [];
  item_count = 0;
  elapsed_seconds = 0;
  elapsed_display = "";
  is_warning = false;
  paid_at = none;
  accepted_at = none;
  in_progress_at = none;
  ready_at = none;
  created_at = "";
}

abbrev board : Kds
board = init_kds (order 1 paid ∷ order 2 accepted ∷ []) (some "10:00")

-- A status change, a poll that brings a third order, and the refusal of the change.
abbrev refused_after_poll : List Event
refused_after_poll =
    fetch_orders
    ∷ update_order_status 1 to_accepted
    ∷ fetch_reply 0 (record { error = none; body = some (order 3 paid ∷ [], some "10:05") }) 100
    ∷ update_reply 0 (record { error = some "400"; order = none }) 200
    ∷ []

-- The refusal takes the polled order off the board, although the next poll asks for later ones only.
order_is_lost :
    (map (λ o. o.id) (run board refused_after_poll).orders ≡ 1 ∷ 2 ∷ [])
    × ((run board refused_after_poll).last_server_time ≡ some "10:05")
    × (map (map (λ o. o.id)) (run board refused_after_poll).new_order_calls ≡ (3 ∷ []) ∷ [])
unfolding run init_kds
order_is_lost = (refl, refl, refl)

merge_orders-settle_example :
    ((k : ℕ)
      → latest k none (merge_orders (order 1 paid ∷ []) (order 2 paid ∷ [])).0
        ≡ settle k (latest k none (order 1 paid ∷ [])) (order 2 paid ∷ []))
    × Unique (merge_orders (order 1 paid ∷ []) (order 2 paid ∷ [])).0
    × All (IsNews (1 ∷ [])) (merge_orders (order 1 paid ∷ []) (order 2 paid ∷ [])).1
merge_orders-settle_example = merge_orders-settle (order 1 paid ∷ []) (order 2 paid ∷ [])

board-IsBoard : IsBoard board
unfolding init_kds
board-IsBoard = ((refl, (refl, tt)), tt, (refl, (refl, tt)))

run-IsBoard_example : IsBoard (run board refused_after_poll)
run-IsBoard_example = run-IsBoard refused_after_poll board board-IsBoard

board-IsSerial : IsSerial board
unfolding init_kds outstanding
board-IsSerial k = refl

run-IsSerial_example : IsSerial (run board refused_after_poll)
run-IsSerial_example = run-IsSerial refused_after_poll board board-IsSerial

board-IsRefreshed : IsRefreshed board
unfolding init_kds FullEvery since_full
board-IsRefreshed = (tt, refl)

run-IsRefreshed_example : IsRefreshed (run board refused_after_poll)
run-IsRefreshed_example = run-IsRefreshed refused_after_poll board board-IsRefreshed

upsert_active_order-merge_orders_example :
    latest 2 none (upsert_active_order (order 1 paid ∷ order 2 accepted ∷ []) (order 2 completed))
    ≡ latest 2 none (merge_orders (order 1 paid ∷ order 2 accepted ∷ []) (order 2 completed ∷ [])).0
upsert_active_order-merge_orders_example =
    upsert_active_order-merge_orders (order 1 paid ∷ order 2 accepted ∷ []) (order 2 completed) 2

sort_orders-columns_example :
    (sort_orders no_buckets board.orders).paid_orders ≡ column paid board.orders
    × (sort_orders no_buckets board.orders).accepted_orders ≡ column accepted board.orders
    × (sort_orders no_buckets board.orders).in_progress_orders ≡ column in_progress board.orders
    × (sort_orders no_buckets board.orders).ready_orders ≡ column ready board.orders
sort_orders-columns_example = sort_orders-columns board.orders

-- A poll begins and ends while the change waits.
abbrev polled : List Event
polled =
    fetch_orders
    ∷ fetch_reply 0 (record { error = none; body = some (order 3 paid ∷ [], some "10:05") }) 100
    ∷ []

abbrev refusal : UpdateReply
refusal = record { error = some "400"; order = none }

-- another change is begun after the same render
abbrev begun_together : List Event
begun_together = rendered ∷ update_order_status 2 to_in_progress ∷ []

refused_update-orders_example :
    let s = run board begun_together in
    let waiting = run (begin_update 1 to_accepted s) polled in
    let refused = on_update_reply 1 refusal 200 waiting in
    (refused.orders ≡ board.orders) × (refused.last_server_time ≡ waiting.last_server_time)
unfolding run init_kds
refused_update-orders_example =
    refused_update-orders board begun_together 1 to_accepted polled refusal 200 refl refl
      (refl, (refl, tt)) refl refl

merge_all-Shows_example :
    Shows
      (merge_all [] ((order 1 paid ∷ order 2 paid ∷ []) ∷ (order 1 completed ∷ []) ∷ []))
      (history_of [] ((order 1 paid ∷ order 2 paid ∷ []) ∷ (order 1 completed ∷ []) ∷ []))
unfolding latest
merge_all-Shows_example =
    merge_all-Shows [] [] ((order 1 paid ∷ order 2 paid ∷ []) ∷ (order 1 completed ∷ []) ∷ [])
      (λ k. refl)

abbrev ready_order : ℕ → KdsOrder
ready_order id = record (order id ready) { ready_at = some "10:00" }

-- every date is at 1000 milliseconds
abbrev at_one_second : String → Option ℕ
at_one_second text = some 1000

abbrev ready_orders_shown : List AutoEvent
ready_orders_shown =
    render 2000 60 (ready_order 1 ∷ ready_order 2 ∷ [])
    ∷ render 3000 10 (ready_order 2 ∷ [])
    ∷ fired 2
    ∷ []

run-IsScheduled_example :
    IsScheduled (run_auto at_one_second init_auto ready_orders_shown)
    × IsRendered at_one_second 4000 60
        (ready_order 3 ∷ [])
        (run_auto at_one_second init_auto ready_orders_shown)
        (step_auto at_one_second
          (run_auto at_one_second init_auto ready_orders_shown)
          (render 4000 60 (ready_order 3 ∷ [])))
run-IsScheduled_example =
    run-IsScheduled at_one_second ready_orders_shown 4000 60 (ready_order 3 ∷ [])

-- A change of the seconds leaves a timer that is set as it was.
old_delay :
    (run_auto at_one_second init_auto
      (render 2000 60 (ready_order 1 ∷ []) ∷ render 3000 10 (ready_order 1 ∷ []) ∷ [])).timers
    ≡ (1, 61000) ∷ []
unfolding run_auto init_auto clear_gone put
old_delay = refl

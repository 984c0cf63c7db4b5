-- ===== src/Kds/AutoComplete.antt =====
-- Orders that complete by themselves, resources/js/Hooks/useReadyAutoComplete.ts. `get_time` reads
-- a date in milliseconds, `none` for no date, with which a timer goes off at once. A timer is kept
-- under its order with the time it is due at.
pub mod Rounds
pub mod Due
pub mod Timers
use fleximo_oss.Base.{
  ℕ, ◌+◌, ◌*◌, Bool, true, false, not, Option, none, some, or_else, String, List, [], ◌∷◌, ◌++◌,
  map, truthy, leb, is_some, if◌then◌else◌, nat_eq, includes, filter_by,
}
use fleximo_oss.JsMap.{JsMap, get, put, delete}
use fleximo_oss.Kds.{KdsOrder}

pub record AutoComplete : Type 0 where
  -- the orders of the last render
  pub ready_orders : List KdsOrder
  pub timers : JsMap ℕ ℕ
  -- what `onAutoComplete` was called with
  pub completed : List ℕ
  pub is_mounted : Bool

pub data Event : Type 0 where
  render : (now seconds : ℕ) → List KdsOrder → Event
  fired : (order_id : ℕ) → Event
  unmount : Event

unfoldable pub init_auto : AutoComplete
init_auto = record { ready_orders = []; timers = []; completed = []; is_mounted = true }

abbrev pub order_ids : List KdsOrder → List ℕ
order_ids orders = map (λ o. o.id) orders

-- the first loop: the timers of orders that are gone are cleared
unfoldable pub clear_gone : List KdsOrder → JsMap ℕ ℕ → JsMap ℕ ℕ
clear_gone orders timers = filter_by (λ e. includes (order_ids orders) e.0) timers

module _ (get_time : String → Option ℕ) where
  -- A time of `none` is NaN: it is not past, and its timer goes off at once.
  unfoldable pub start_timer : ℕ → ℕ → KdsOrder → AutoComplete → AutoComplete
  start_timer now seconds order s = elim (get_time (or_else order.ready_at "")) [
    | none ↦ record s { timers = put s.timers order.id now }
    | some ready_at ↦
        if leb (ready_at + seconds * 1000) now
        then record s { completed = s.completed ++ order.id ∷ [] }
        else record s { timers = put s.timers order.id (ready_at + seconds * 1000) }
  ]

  -- one round of the second loop
  unfoldable pub add_order : ℕ → ℕ → KdsOrder → AutoComplete → AutoComplete
  unfolding get start_timer
  add_order now seconds order s =
      if is_some (get s.timers order.id)
      then s
      else if not (truthy order.ready_at)
      then s
      else start_timer now seconds order s

  unfoldable pub add_orders : ℕ → ℕ → List KdsOrder → AutoComplete → AutoComplete
  unfolding add_order
  add_orders now seconds [] s = s
  add_orders now seconds (order ∷ orders) s =
      add_orders now seconds orders (add_order now seconds order s)

  unfoldable pub step : AutoComplete → Event → AutoComplete
  unfolding add_orders get delete
  step s (render now seconds orders) =
      add_orders now seconds orders
        (record s { ready_orders = orders; timers = clear_gone orders s.timers })
  step s (fired id) =
      if is_some (get s.timers id)
      then record s { timers = delete s.timers id; completed = s.completed ++ id ∷ [] }
      else s
  step s unmount = record s { timers = []; is_mounted = false }

  unfoldable pub run : AutoComplete → List Event → AutoComplete
  unfolding step
  run s [] = s
  run s (e ∷ es) = run (step s e) es

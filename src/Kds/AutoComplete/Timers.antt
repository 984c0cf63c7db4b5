-- ===== src/Kds/AutoComplete/Timers.antt =====
-- Every ready order has its timer, and no other order has one, of resources/js/Hooks/
-- useReadyAutoComplete.ts.
use fleximo_oss.Base.{
  ℕ, true, false, Option, String, List, [], ◌∷◌, ◌++◌, truthy, is_some, ◌==◌, nat_eq, includes, ◌≡◌,
  refl, ◌∙◌, arith, if_elim, All, All-imp, Bool-cases, inl, inr,
}
use fleximo_oss.JsMap.{JsMap, get, delete}
use fleximo_oss.JsMap.Laws.{get-delete}
use fleximo_oss.Kds.{KdsOrder}
use fleximo_oss.Kds.AutoComplete.{
  AutoComplete, Event, render, fired, unmount, init_auto, order_ids, clear_gone, add_order,
  add_orders, step, run,
}
use fleximo_oss.Kds.AutoComplete.Due.{IsRendered, render-IsRendered}
use fleximo_oss.Kds.AutoComplete.Rounds.{
  served, get-clear_gone, Known, Known-self, includes-append, add_order-cases, or_keeps, or_last,
  round_keeps, round_serves, round_frame, round_wanted,
}

-- A ready order with a time is served while the display is there, and a timer belongs to a ready
-- order.
pub record IsScheduled (s : AutoComplete) : Type 0 where
  pub due :
      s.is_mounted ≡ true
      → All (λ o. truthy o.ready_at ≡ true → served s o.id ≡ true) s.ready_orders
  pub wanted :
      (id : ℕ) → is_some (get s.timers id) ≡ true → includes (order_ids s.ready_orders) id ≡ true

module _ (get_time : String → Option ℕ) (now seconds : ℕ) where
  abbrev all : List KdsOrder → AutoComplete → AutoComplete
  all = add_orders get_time now seconds

  abbrev one : KdsOrder → AutoComplete → AutoComplete
  one = add_order get_time now seconds

  all-served :
      (orders : List KdsOrder) (s : AutoComplete) (id : ℕ)
      → served s id ≡ true
      → served (all orders s) id ≡ true
  unfolding add_orders
  all-served [] s id h = h
  all-served (o ∷ orders) s id h = all-served orders (one o s) id (
      round_keeps get_time now seconds o s (one o s) id (add_order-cases get_time now seconds o s)
        h)

  all_orders_served :
      (orders : List KdsOrder) (s : AutoComplete)
      → All (λ o. truthy o.ready_at ≡ true → served (all orders s) o.id ≡ true) orders
  unfolding add_orders
  all_orders_served [] s = tt
  all_orders_served (o ∷ orders) s = (
    (λ t. all-served orders (one o s) o.id (
        round_serves get_time now seconds o s (one o s) (add_order-cases get_time now seconds o s)
          t)),
    all_orders_served orders (one o s),
  )

  all_wanted :
      (ids : List ℕ) (orders : List KdsOrder) (s : AutoComplete)
      → Known ids orders
      → ((id : ℕ) → is_some (get s.timers id) ≡ true → includes ids id ≡ true)
      → (id : ℕ) → is_some (get (all orders s).timers id) ≡ true
      → includes ids id ≡ true
  unfolding add_orders
  all_wanted ids [] s k h id t = h id t
  all_wanted ids (o ∷ orders) s k h id t =
      all_wanted ids orders (one o s) k.1
        (round_wanted get_time now seconds o s (one o s) ids
          (add_order-cases get_time now seconds o s) k.0 h)
        id t

  all_frame :
      (orders : List KdsOrder) (s : AutoComplete) → (all orders s).ready_orders ≡ s.ready_orders
  unfolding add_orders
  all_frame [] s = refl
  all_frame (o ∷ orders) s =
      all_frame orders (one o s)
      ∙ (round_frame get_time now seconds o s (one o s)
          (add_order-cases get_time now seconds o s)).0

-- A completed order has left its timer and is among the completed ones.
fired-served :
    (s : AutoComplete) (k id : ℕ)
    → served s id ≡ true
    → served (record s { timers = delete s.timers k; completed = s.completed ++ k ∷ [] }) id ≡ true
fired-served s k id h = elim (Bool-cases (k == id)) [
  | inl same ↦
      rw (get-delete s.timers k id, includes-append s.completed (k ∷ []) id, same)
        (or_last false (includes s.completed id))
  | inr other ↦
      rw (get-delete s.timers k id, includes-append s.completed (k ∷ []) id, other)
        (or_keeps (is_some (get s.timers id)) (includes s.completed id) false h)
]

module _ (get_time : String → Option ℕ) where
  fired-IsScheduled :
      (s : AutoComplete) (k : ℕ) → IsScheduled s → IsScheduled (step get_time s (fired k))
  unfolding step
  fired-IsScheduled s k h =
      if_elim IsScheduled (is_some (get s.timers k)) _ s
        (record {
          due = λ m. All-imp _ _ (λ o d t. fired-served s k o.id (d t)) s.ready_orders (h.due m);
          wanted = λ id t. h.wanted id (without s.timers k id t);
        })
        h
    where
      without :
          (timers : JsMap ℕ ℕ) (k id : ℕ)
          → is_some (get (delete timers k) id) ≡ true
          → is_some (get timers id) ≡ true
      without timers k id t = elim (Bool-cases (k == id)) [
        | inl same ↦ ground (arith, (rw (get-delete timers k id, same) at t))
        | inr other ↦ rw (get-delete timers k id, other) at t
      ]

  step-IsScheduled :
      (s : AutoComplete) (e : Event) → IsScheduled s → IsScheduled (step get_time s e)
  unfolding step get
  step-IsScheduled s (render now seconds orders) h =
      let shown : AutoComplete = record s {
        ready_orders = orders;
        timers = clear_gone orders s.timers;
      } in
      let frame = all_frame get_time now seconds orders shown in
      record {
        due = λ m. rw frame (all_orders_served get_time now seconds orders shown);
        wanted = λ id t. rw frame (
            all_wanted get_time now seconds (order_ids orders) orders shown (Known-self orders)
              (get-clear_gone orders s.timers) id t);
      }
  step-IsScheduled s (fired k) h = fired-IsScheduled s k h
  step-IsScheduled s unmount h = record {
    due = λ m. ground (arith, m);
    wanted = λ id t. ground (arith, t);
  }

  run_from : (es : List Event) (s : AutoComplete) → IsScheduled s → IsScheduled (run get_time s es)
  unfolding run
  run_from [] s h = h
  run_from (e ∷ es) s h = run_from es (step get_time s e) (step-IsScheduled s e h)

  -- Whatever lists of ready orders are shown at whatever times, while the display is there every
  -- ready order with a time has a timer that will complete it or was completed already, and a timer
  -- is only set for an order that is ready on the display. A render then sets a timer only for an
  -- order that it shows, due when the seconds have passed since the order was ready, which is later
  -- than now, or due at once if its time is no date; and it completes only orders that it shows
  -- for which the seconds have passed.
  pub run-IsScheduled :
      (es : List Event) (now seconds : ℕ) (orders : List KdsOrder)
      → IsScheduled (run get_time init_auto es)
        × IsRendered get_time now seconds orders
            (run get_time init_auto es)
            (step get_time (run get_time init_auto es) (render now seconds orders))
  unfolding init_auto get
  run-IsScheduled es now seconds orders = (
    run_from es init_auto (record { due = λ m. tt; wanted = λ id t. ground (arith, t) }),
    render-IsRendered get_time now seconds orders (run get_time init_auto es),
  )

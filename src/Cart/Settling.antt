-- ===== src/Cart/Settling.antt =====
-- The promises of the actions of resources/js/stores/cartStore.ts over runs of the store.
use fleximo_oss.Base.{
  ℕ, ◌+◌, true, false, not, Option, none, some, String, List, [], ◌∷◌, ◌++◌, map, set, get_elem?,
  remove_at, includes, is_empty, if◌then◌else◌, ◌≡◌, refl, arith, Bool-cases, inl, inr, ◌==◌, ltb,
  nat_eq, Option-cases, truthy, ◌∙◌, ◌⊎◌, ◌||◌,
}
use fleximo_oss.JsMap.{values, put}
use fleximo_oss.Cart.{Amount}
use fleximo_oss.Cart.Optimistic.{
  apply_optimistic_item_removal, apply_optimistic_clear_cart, QuantityRollbackContext,
  apply_optimistic_quantity_update,
}
use fleximo_oss.Cart.State.{
  PendingQuantityUpdate, CartStore, Event, fetch_carts, reset, add_to_cart, update_quantity,
  remove_item, clear_cart, set_debounce, timer_fires, patch_reply, call_reply, initial_state, Call,
  fetch_call, add_call, quantity_call, remove_call, clear_call, success, Reply,
}
use fleximo_oss.Cart.Flushing.{
  resolve_all, clear_timer, arm_timer, flush_quantity_updates, schedule_quantity_updates_flush,
  finish_flush, next_round, on_timer, fired, reset_module_state, reset_store, all_resolvers,
}
use fleximo_oss.Cart.Store.{
  enqueue, latest_operation, send_or_queue, on_update_quantity, finish_update, on_patch_reply,
  continue, on_call_reply, step, run, on_fetch_carts, on_add_to_cart, on_remove_item, on_clear_cart,
}
use fleximo_oss.Cart.Promises.{
  count, in_firsts, in_updates, in_loops, owed, in_firsts-append, in_firsts-remove_at,
  in_firsts-success, count-all_resolvers, in_updates-remove_at, in_loops-append, in_loops-set,
  in_loops-remove_at, in_updates-queue_update,
}

module _ {N : Type 0} where
  -- Whether a step makes a promise.
  abbrev pub starts : Event N → ℕ
  starts (update_quantity _ _) = 1
  starts (remove_item _) = 1
  starts (clear_cart _) = 1
  starts (add_to_cart _ _ _ _) = 1
  starts fetch_carts = 1
  starts _ = 0

module _ {N : Type 0} where
  starts_cases : (e : Event N) → (starts e ≡ 0) ⊎ (starts e ≡ 1)
  starts_cases fetch_carts = inr refl
  starts_cases e = ground arith

module _ {N : Type 0} (p : ℕ) where
  owed-flush : (s : CartStore N) → owed p (flush_quantity_updates s) ≡ owed p s
  unfolding owed flush_quantity_updates clear_timer in_updates
  owed-flush s = elim (Bool-cases s.is_flushing) [
    | inl busy ↦ rw busy
    | inr free ↦ elim (Bool-cases (is_empty s.pending_quantity_updates)) [
      | inl nothing ↦ rw (free, nothing)
      | inr queued ↦
          rw (free, queued)
            (omega (arith, in_loops-append p s.loops (values s.pending_quantity_updates)))
    ]
  ]

  owed-schedule : (s : CartStore N) → owed p (schedule_quantity_updates_flush s) ≡ owed p s
  unfolding schedule_quantity_updates_flush
  owed-schedule s = elim (Bool-cases (s.debounce_ms == 0)) [
    | inl now ↦ rw now (owed-flush (clear_timer s) ∙ unfold owed clear_timer in refl)
    | inr later ↦ rw later (unfold owed clear_timer arm_timer in refl)
  ]

  owed-finish : (s : CartStore N) → owed p (finish_flush s) ≡ owed p s
  unfolding finish_flush
  owed-finish s = elim (Bool-cases (s.should_flush || not (is_empty s.pending_quantity_updates))) [
    | inl again ↦ elim (Bool-cases (s.debounce_ms == 0)) [
      | inl now ↦ rw (again, now) (owed-flush _ ∙ unfold owed in refl)
      | inr later ↦ rw (again, later) (unfold owed arm_timer in refl)
    ]
    | inr done ↦ rw done (unfold owed in refl)
  ]

  owed-next_round :
      (i : ℕ) (s : CartStore N) (l : List (PendingQuantityUpdate N))
      → get_elem? s.loops i ≡ some l
      → owed p (next_round i s) + in_updates p l ≡ owed p s
  unfolding next_round owed in_updates
  owed-next_round i s l at = elim (Bool-cases (is_empty s.pending_quantity_updates)) [
    | inl done ↦ rw done (
        omega (
          arith,
          owed-finish (record s { loops = remove_at s.loops i }),
          in_loops-remove_at p s.loops i l at,
        ))
    | inr more ↦
        rw more (omega (arith, in_loops-set p s.loops i l (values s.pending_quantity_updates) at))
  ]

  owed-finish_update :
      ⦃num : Amount N⦄ (u : PendingQuantityUpdate N) (error : Option String) (s : CartStore N)
      → owed p (finish_update u error s) ≡ owed p s + count p u.resolvers
  unfolding owed finish_update resolve_all
  owed-finish_update u error s = omega (
    arith,
    in_firsts-append {0} p s.settled (map (λ x. (x, success (not (truthy error)))) u.resolvers),
    in_firsts-success N p u.resolvers (not (truthy error)),
  )

  owed-set_loop :
      (i : ℕ) (s : CartStore N) (l l' : List (PendingQuantityUpdate N))
      → get_elem? s.loops i ≡ some l
      → owed p (record s { loops = set s.loops i l' }) + in_updates p l ≡ owed p s + in_updates p l'
  unfolding owed
  owed-set_loop i s l l' at = omega (arith, in_loops-set p s.loops i l l' at)

  in_updates_of_is_empty :
      (l : List (PendingQuantityUpdate N)) → is_empty l ≡ true → in_updates p l ≡ 0
  unfolding in_updates
  in_updates_of_is_empty [] h = refl
  in_updates_of_is_empty (u ∷ l) h = cc

module _ {N : Type 0} (p : ℕ) ⦃num : Amount N⦄ where
  owed-patch_reply :
      (i j : ℕ) (error : Option String) (s : CartStore N)
      → owed p (on_patch_reply i j error s) ≡ owed p s
  unfolding on_patch_reply finish_update resolve_all
  owed-patch_reply i j error s = elim (Option-cases (get_elem? s.loops i)) [
    | inl missing ↦ rw (missing, on_patch_reply)
    | inr (l, at) ↦ elim (Option-cases (get_elem? l j)) [
      | inl missing ↦ rw (at, on_patch_reply) (rw missing)
      | inr (u, found) ↦ elim (Bool-cases (is_empty (remove_at l j))) [
        | inl last ↦
            rw (at, on_patch_reply)
              (rw found (
                rw last (
                  omega (
                    arith,
                    owed-next_round p i (finish_update u error s) l at,
                    owed-finish_update p u error s,
                    in_updates-remove_at p l j u found,
                    in_updates_of_is_empty p (remove_at l j) last,
                  ))))
        | inr more ↦
            rw (at, on_patch_reply)
              (rw found (
                rw more (
                  omega (
                    arith,
                    owed-set_loop p i (finish_update u error s) l (remove_at l j) at,
                    owed-finish_update p u error s,
                    in_updates-remove_at p l j u found,
                  ))))
      ]
    ]
  ]

  owed-continue :
      (call : Call N) (reply : Reply N) (s : CartStore N)
      → owed p (continue call reply s).0 ≡ owed p s
  unfolding owed continue
  owed-continue fetch_call reply s = ground arith
  owed-continue _ reply s = ground arith

  owed-call_reply :
      (j : ℕ) (reply : Reply N) (s : CartStore N) → owed p (on_call_reply j reply s) ≡ owed p s
  unfolding on_call_reply owed in_firsts
  owed-call_reply j reply s = elim (Option-cases (get_elem? s.calls j)) [
    | inl missing ↦ rw (missing, on_call_reply)
    | inr ((promise, call), at) ↦
        rw (at, on_call_reply)
          (let s1 = record s { calls = remove_at s.calls j } in
            let (s2, outcome) = continue call reply s1 in
            omega (
              arith,
              owed-continue call reply s1,
              in_firsts-append {0} p s2.settled ((promise, outcome) ∷ []),
              in_firsts-remove_at {0} p s.calls j promise call at,
            ))
  ]

  owed-send :
      (k q op : ℕ) (ctx : Option (QuantityRollbackContext N)) (s : CartStore N)
      → owed p (send_or_queue k q op ctx s) ≡ owed p s + (if s.next_promise == p then 1 else 0)
  unfolding send_or_queue owed in_firsts
  owed-send k q op ctx s = elim (Bool-cases (s.debounce_ms == 0)) [
    | inl direct ↦
        rw direct (
          omega
            (arith, in_firsts-append {0} p s.calls ((s.next_promise, quantity_call k ctx) ∷ [])))
    | inr queued ↦ rw queued (
        omega (
          arith,
          owed-schedule p (enqueue k q op ctx s),
          in_updates-queue_update p k q op ctx s.next_promise s.pending_quantity_updates,
        ))
  ]

  owed-start :
      (s : CartStore N) (call : Call N)
      → in_firsts p (s.calls ++ (s.next_promise, call) ∷ [])
        ≡ in_firsts p s.calls + (if s.next_promise == p then 1 else 0)
  unfolding in_firsts
  owed-start s call = omega (arith, in_firsts-append {0} p s.calls ((s.next_promise, call) ∷ []))

  owed-reset : (s : CartStore N) → owed p (reset_store s) ≡ owed p s
  unfolding owed reset_store reset_module_state resolve_all clear_timer in_updates
  owed-reset s =
      let ids = all_resolvers (values s.pending_quantity_updates) in
      omega (
        arith,
        in_firsts-append {0} p s.settled (map (λ x. (x, success false)) ids),
        in_firsts-success N p ids false,
        count-all_resolvers p (values s.pending_quantity_updates),
      )

  owed-step :
      (s : CartStore N) (e : Event N)
      → owed p (step s e) ≡ owed p s + (if s.next_promise == p then starts e else 0)
  unfolding owed step on_fetch_carts on_add_to_cart on_update_quantity on_remove_item on_clear_cart
      on_timer
  owed-step s fetch_carts = omega (arith, owed-start s fetch_call)
  owed-step s reset = ground (arith, owed-reset s)
  owed-step s (add_to_cart _ _ _ _) = omega (arith, owed-start s add_call)
  owed-step s (update_quantity k q) =
      let op = latest_operation s k + 1 in
      let (carts, ctx) = apply_optimistic_quantity_update s.carts k q op in
      owed-send k q op ctx (record s {
        error = none;
        quantity_operation_seq = put s.quantity_operation_seq k op;
        carts = carts;
      })
  owed-step s (remove_item k) =
      omega (arith, owed-start s (remove_call (apply_optimistic_item_removal s.carts k).1))
  owed-step s (clear_cart k) =
      omega (arith, owed-start s (clear_call (apply_optimistic_clear_cart s.carts k).1))
  owed-step s (set_debounce ms) = ground arith
  owed-step s (timer_fires t) = elim (Bool-cases (includes s.live_timers t)) [
    | inl fires ↦ rw fires (ground (arith, owed-flush p (fired t s)))
    | inr dead ↦ rw dead (ground arith)
  ]
  owed-step s (patch_reply i j error) = ground (arith, owed-patch_reply i j error s)
  owed-step s (call_reply j reply) = ground (arith, owed-call_reply j reply s)

  next-continue :
      (call : Call N) (reply : Reply N) (s : CartStore N)
      → (continue call reply s).0.next_promise ≡ s.next_promise
  unfolding continue
  next-continue fetch_call reply s = ground arith
  next-continue _ reply s = ground arith

  next-step : (s : CartStore N) (e : Event N) → (step s e).next_promise ≡ s.next_promise + starts e
  unfolding step on_fetch_carts on_add_to_cart on_update_quantity on_remove_item on_clear_cart
      on_timer send_or_queue flush_quantity_updates schedule_quantity_updates_flush clear_timer
      arm_timer reset_store reset_module_state resolve_all on_patch_reply finish_update next_round
      finish_flush on_call_reply continue
  next-step s fetch_carts = omega arith
  next-step s reset = omega arith
  next-step s (add_to_cart _ _ _ _) = omega arith
  next-step s (update_quantity k q) = ground arith
  next-step s (remove_item k) = omega arith
  next-step s (clear_cart k) = omega arith
  next-step s (set_debounce ms) = omega arith
  next-step s (timer_fires t) = ground arith
  next-step s (patch_reply i j error) = ground arith
  next-step s (call_reply j reply) = elim (Option-cases (get_elem? s.calls j)) [
    | inl missing ↦ rw (missing, on_call_reply) (omega arith)
    | inr ((promise, call), at) ↦
        rw (at, on_call_reply)
          (omega (arith, next-continue call reply (record s { calls = remove_at s.calls j })))
  ]

  accounted-step :
      (s : CartStore N) (e : Event N)
      → owed p s ≡ (if ltb p s.next_promise then 1 else 0)
      → owed p (step s e) ≡ (if ltb p (step s e).next_promise then 1 else 0)
  accounted-step s e h = ground (arith, owed-step s e, next-step s e, starts_cases e)

  run-Accounted :
      (s : CartStore N) (es : List (Event N))
      → owed p s ≡ (if ltb p s.next_promise then 1 else 0)
      → owed p (run s es) ≡ (if ltb p (run s es).next_promise then 1 else 0)
  unfolding run
  run-Accounted s [] h = h
  run-Accounted s (e ∷ es) h = run-Accounted (step s e) es (accounted-step s e h)

  -- After any sequence of events each promise that an action made so far stands in exactly one
  -- place: in the queue, in a flush loop, with a call that waits for its answer, or among the
  -- promises resolved. A number that no action has used stands nowhere. So no promise is lost or
  -- resolved twice, whatever answers, timers, debounce changes and resets come in between.
  pub owed-run :
      (es : List (Event N))
      → owed p (run initial_state es) ≡ (if ltb p (run initial_state es).next_promise then 1 else 0)
  owed-run es =
      run-Accounted initial_state es
        (unfold owed initial_state in_updates in_loops in_firsts in ground arith)

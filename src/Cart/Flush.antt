-- ===== src/Cart/Flush.antt =====
-- The queue, the timer and the flush loops of resources/js/stores/cartStore.ts over runs.
use fleximo_oss.Base.{
  ℕ, zero, suc, ◌+◌, true, false, Option, none, some, String, List, [], ◌∷◌, ◌++◌, set, get_elem?,
  remove_at, includes, is_empty, ◌≡◌, refl, arith, Bool-cases, inl, inr, ◌⊎◌, ◌==◌, nat_eq, ◌∙◌,
  Option-cases, All, All-append,
}
use fleximo_oss.JsMap.{values, put}
use fleximo_oss.Cart.{Amount}
use fleximo_oss.Cart.Optimistic.{apply_optimistic_quantity_update, QuantityRollbackContext}
use fleximo_oss.Cart.State.{
  PendingQuantityUpdate, CartStore, Event, fetch_carts, reset, add_to_cart, update_quantity,
  remove_item, clear_cart, set_debounce, timer_fires, patch_reply, call_reply, initial_state, Reply,
  Call, fetch_call, add_call,
}
use fleximo_oss.Cart.Flushing.{
  resolve_all, clear_timer, arm_timer, flush_quantity_updates, schedule_quantity_updates_flush,
  finish_flush, next_round, on_timer, fired, reset_module_state, reset_store,
}
use fleximo_oss.Cart.Store.{
  enqueue, latest_operation, send_or_queue, on_update_quantity, on_patch_reply, finish_update,
  on_call_reply, continue, step, run, on_fetch_carts, on_add_to_cart, on_remove_item, on_clear_cart,
}

is_empty-values : {V : Type 0} (m : List (ℕ × V)) → is_empty (values m) ≡ is_empty m
is_empty-values [] = refl
is_empty-values (e ∷ m) = refl

is_empty-append_last : {A : Type 0} (xs : List A) (x : A) → is_empty (xs ++ x ∷ []) ≡ false
is_empty-append_last [] x = refl
is_empty-append_last (y ∷ xs) x = refl

is_empty-set : {A : Type 0} (xs : List A) (i : ℕ) (x : A) → is_empty (set xs i x) ≡ is_empty xs
is_empty-set [] i x = refl
is_empty-set (y ∷ xs) zero x = refl
is_empty-set (y ∷ xs) (suc i) x = refl

module _ {N : Type 0} where
  abbrev pub NonEmpty : List (PendingQuantityUpdate N) → Type 0
  NonEmpty xs = is_empty xs ≡ false

  -- Every loop waits for an answer; while the flag is up a loop runs; and a queue that is not
  -- empty has a live timer or a running loop.
  pub record IsDriven (s : CartStore N) : Type 0 where
    pub waiting : All NonEmpty s.loops
    pub flag : s.is_flushing ≡ true → is_empty s.loops ≡ false
    pub driven :
        is_empty s.pending_quantity_updates ≡ false
        → (is_empty s.live_timers ≡ false) ⊎ (is_empty s.loops ≡ false)

  All-set :
      (ls : List (List (PendingQuantityUpdate N))) (i : ℕ) (l : List (PendingQuantityUpdate N))
      → All NonEmpty ls
      → NonEmpty l
      → All NonEmpty (set ls i l)
  All-set [] i l h k = tt
  All-set (x ∷ ls) zero l h k = (k, h.1)
  All-set (x ∷ ls) (suc i) l h k = (h.0, All-set ls i l h.1 k)

  All-remove_at :
      (ls : List (List (PendingQuantityUpdate N))) (i : ℕ)
      → All NonEmpty ls
      → All NonEmpty (remove_at ls i)
  All-remove_at [] i h = tt
  All-remove_at (x ∷ ls) zero h = h.1
  All-remove_at (x ∷ ls) (suc i) h = (h.0, All-remove_at ls i h.1)

  nonempty_of_get :
      (ls : List (List (PendingQuantityUpdate N))) (i : ℕ) (l : List (PendingQuantityUpdate N))
      → get_elem? ls i ≡ some l
      → is_empty ls ≡ false
  nonempty_of_get [] i l h = cc
  nonempty_of_get (x ∷ ls) i l h = refl

  flush-IsDriven :
      (s : CartStore N)
      → All NonEmpty s.loops
      → (s.is_flushing ≡ true → is_empty s.loops ≡ false)
      → IsDriven (flush_quantity_updates s)
  unfolding flush_quantity_updates clear_timer
  flush-IsDriven s w f = ground (
    arith,
    All-append NonEmpty s.loops (values s.pending_quantity_updates ∷ []) w,
    is_empty-values s.pending_quantity_updates,
    is_empty-append_last s.loops (values s.pending_quantity_updates),
  )

  schedule-IsDriven :
      (s : CartStore N)
      → All NonEmpty s.loops
      → (s.is_flushing ≡ true → is_empty s.loops ≡ false)
      → IsDriven (schedule_quantity_updates_flush s)
  unfolding schedule_quantity_updates_flush clear_timer arm_timer
  schedule-IsDriven s w f = elim (Bool-cases (s.debounce_ms == 0)) [
    | inl now ↦ rw now (flush-IsDriven (clear_timer s) w f)
    | inr later ↦ rw later (record { waiting = w; flag = f; driven = λ _. inl refl })
  ]

  finish-IsDriven :
      (s : CartStore N)
      → All NonEmpty s.loops
      → is_empty s.pending_quantity_updates ≡ true
      → IsDriven (finish_flush s)
  unfolding finish_flush flush_quantity_updates clear_timer arm_timer
  finish-IsDriven s w e = ground arith

  next_round-IsDriven :
      (i : ℕ) (s : CartStore N)
      → All NonEmpty s.loops
      → is_empty s.loops ≡ false
      → IsDriven (next_round i s)
  unfolding next_round
  next_round-IsDriven i s w f = elim (Bool-cases (is_empty s.pending_quantity_updates)) [
    | inl done ↦ rw done (
        finish-IsDriven (record s { loops = remove_at s.loops i }) (All-remove_at s.loops i w) done)
    | inr more ↦ rw more (record {
      waiting =
          All-set s.loops i (values s.pending_quantity_updates) w
            (is_empty-values s.pending_quantity_updates ∙ more);
      flag = λ _. is_empty-set s.loops i _ ∙ f;
      driven = λ h. cc;
    })
  ]

  module _ ⦃num : Amount N⦄ where
    patch_reply-IsDriven :
        (i j : ℕ) (error : Option String) (s : CartStore N)
        → IsDriven s
        → IsDriven (on_patch_reply i j error s)
    unfolding on_patch_reply finish_update resolve_all
    patch_reply-IsDriven i j error s d = elim (Option-cases (get_elem? s.loops i)) [
      | inl missing ↦ rw (missing, on_patch_reply) d
      | inr (l, at) ↦ elim (Option-cases (get_elem? l j)) [
        | inl missing ↦ rw (at, on_patch_reply) (rw missing d)
        | inr (u, found) ↦ elim (Bool-cases (is_empty (remove_at l j))) [
          | inl last ↦
              rw (at, on_patch_reply)
                (rw found (
                  rw last (
                    next_round-IsDriven i (finish_update u error s) d.waiting
                      (nonempty_of_get s.loops i l at))))
          | inr more ↦
              rw (at, on_patch_reply)
                (rw found (
                  rw more (record {
                    waiting = All-set s.loops i (remove_at l j) d.waiting more;
                    flag = λ f. is_empty-set s.loops i _ ∙ d.flag f;
                    driven = λ _. inr (is_empty-set s.loops i _ ∙ nonempty_of_get s.loops i l at);
                  })))
        ]
      ]
    ]

    continue-IsDriven :
        (call : Call N) (reply : Reply N) (s : CartStore N)
        → IsDriven s
        → IsDriven (continue call reply s).0
    unfolding continue
    continue-IsDriven fetch_call reply s d = ground arith
    continue-IsDriven add_call reply s d = ground arith
    continue-IsDriven _ reply s d = ground arith

    call_reply-IsDriven :
        (j : ℕ) (reply : Reply N) (s : CartStore N)
        → IsDriven s
        → IsDriven (on_call_reply j reply s)
    unfolding on_call_reply
    call_reply-IsDriven j reply s d = elim (Option-cases (get_elem? s.calls j)) [
      | inl missing ↦ rw (missing, on_call_reply) d
      | inr ((promise, call), at) ↦
          let after =
            continue-IsDriven call reply (record s { calls = remove_at s.calls j })
              (record { waiting = d.waiting; flag = d.flag; driven = d.driven }) in
          rw (at, on_call_reply)
            (record { waiting = after.waiting; flag = after.flag; driven = after.driven })
    ]

    update-IsDriven :
        (k q op : ℕ) (ctx : Option (QuantityRollbackContext N)) (s : CartStore N)
        → IsDriven s
        → IsDriven (send_or_queue k q op ctx s)
    unfolding send_or_queue
    update-IsDriven k q op ctx s d = elim (Bool-cases (s.debounce_ms == 0)) [
      | inl direct ↦ rw direct (record { waiting = d.waiting; flag = d.flag; driven = d.driven })
      | inr queued ↦ rw queued (schedule-IsDriven (enqueue k q op ctx s) d.waiting d.flag)
    ]

    on_timer-IsDriven : (t : ℕ) (s : CartStore N) → IsDriven s → IsDriven (on_timer t s)
    unfolding on_timer
    on_timer-IsDriven t s d = elim (Bool-cases (includes s.live_timers t)) [
      | inl fires ↦ rw fires (flush-IsDriven (fired t s) d.waiting d.flag)
      | inr dead ↦ rw dead d
    ]

    pub step-IsDriven : (s : CartStore N) (e : Event N) → IsDriven s → IsDriven (step s e)
    unfolding step on_fetch_carts on_add_to_cart on_update_quantity on_remove_item on_clear_cart
        reset_store reset_module_state resolve_all clear_timer
    step-IsDriven s fetch_carts d = record { waiting = d.waiting; flag = d.flag; driven = d.driven }
    step-IsDriven s reset d = record { waiting = d.waiting; flag = λ h. cc; driven = λ h. cc }
    step-IsDriven s (add_to_cart _ _ _ _) d = record {
      waiting = d.waiting;
      flag = d.flag;
      driven = d.driven;
    }
    step-IsDriven s (update_quantity k q) d =
        let op = latest_operation s k + 1 in
        let (carts, ctx) = apply_optimistic_quantity_update s.carts k q op in
        update-IsDriven k q op ctx
          (record s {
            error = none;
            quantity_operation_seq = put s.quantity_operation_seq k op;
            carts = carts;
          })
          (record { waiting = d.waiting; flag = d.flag; driven = d.driven })
    step-IsDriven s (remove_item k) d = record {
      waiting = d.waiting;
      flag = d.flag;
      driven = d.driven;
    }
    step-IsDriven s (clear_cart k) d = record {
      waiting = d.waiting;
      flag = d.flag;
      driven = d.driven;
    }
    step-IsDriven s (set_debounce ms) d = record {
      waiting = d.waiting;
      flag = d.flag;
      driven = d.driven;
    }
    step-IsDriven s (timer_fires t) d = on_timer-IsDriven t s d
    step-IsDriven s (patch_reply i j error) d = patch_reply-IsDriven i j error s d
    step-IsDriven s (call_reply j reply) d = call_reply-IsDriven j reply s d

    run_from-IsDriven : (s : CartStore N) (es : List (Event N)) → IsDriven s → IsDriven (run s es)
    unfolding run
    run_from-IsDriven s [] d = d
    run_from-IsDriven s (e ∷ es) d = run_from-IsDriven (step s e) es (step-IsDriven s e d)

    -- After any sequence of actions, timers, answers, resets and changes of the debounce interval,
    -- a quantity change that waits in the queue has a live timer or a running flush loop; every
    -- loop waits for at least one answer; and the flag that blocks a second flush is up only while
    -- a loop runs.
    pub run-IsDriven : (es : List (Event N)) → IsDriven (run initial_state es)
    unfolding initial_state
    run-IsDriven es =
        run_from-IsDriven initial_state es
          (record { waiting = tt; flag = λ h. cc; driven = λ h. cc })

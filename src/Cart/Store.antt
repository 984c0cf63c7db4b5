-- ===== src/Cart/Store.antt =====
-- The actions of the store of resources/js/stores/cartStore.ts, what follows each `await`, and the
-- step function over the events.
use fleximo_oss.Base.{
  ℕ, suc, ◌+◌, true, false, not, Option, none, some, String, List, [], ◌∷◌, ◌++◌, set, get_elem?,
  remove_at, find_entry, is_empty, or_else, or_option, truthy, if◌then◌else◌, ◌==◌, nat_eq, ◌||◌,
}
use fleximo_oss.JsMap.{JsMap, get, put}
use fleximo_oss.Cart.{Amount, Cart}
use fleximo_oss.Cart.Optimistic.{
  QuantityRollbackContext, if_context, apply_optimistic_quantity_update,
  rollback_optimistic_quantity_update, apply_optimistic_item_removal,
  rollback_optimistic_item_removal, apply_optimistic_clear_cart, rollback_optimistic_clear_cart,
}
use fleximo_oss.Cart.State.{
  PendingQuantityUpdate, Call, fetch_call, add_call, quantity_call, remove_call, clear_call,
  Request, get_cart, post_item, patch_item, delete_item, delete_cart, Outcome, finished, success,
  added, Reply, CartStore, Event, fetch_carts, reset, add_to_cart, update_quantity, remove_item,
  clear_cart, set_debounce, timer_fires, patch_reply, call_reply,
}
use fleximo_oss.Cart.Optimistic.{
  map_with_context, modify_found, update_cart_quantity, with_quantity, unit_price, recalculate_cart,
  sum_quantity, sum_subtotal, restore_cart_quantity, restore_item, remove_cart_item,
  restore_cart_item,
}
use fleximo_oss.Cart.Flushing.{
  reset_module_state, finish_flush, flush_quantity_updates, clear_timer, arm_timer, resolve_all,
  schedule_quantity_updates_flush, next_round, on_timer, reset_store,
}

module _ {N : Type 0} where
  -- a request of an action's own, with the promise that the action returns
  abbrev pub start_call : Request → Call N → CartStore N → CartStore N
  start_call request call s = record s {
    sent = s.sent ++ request ∷ [];
    calls = s.calls ++ (s.next_promise, call) ∷ [];
    next_promise = suc s.next_promise;
  }

  unfoldable pub on_fetch_carts : CartStore N → CartStore N
  on_fetch_carts s = start_call get_cart fetch_call (record s { is_loading = true; error = none })

  unfoldable pub on_add_to_cart : ℕ → ℕ → ℕ → List ℕ → CartStore N → CartStore N
  on_add_to_cart tenant_id menu_item_id quantity option_ids s =
      start_call (post_item tenant_id menu_item_id quantity option_ids) add_call
        (record s { error = none })

  -- `{ ...c, ...resolvedCart, tenant: resolvedCart.tenant ?? c.tenant }`
  abbrev pub merge_cart : Cart N → Cart N → Cart N
  merge_cart c resolved = record resolved { tenant = or_option resolved.tenant c.tenant }

  unfoldable pub put_cart : Cart N → List (Cart N) → List (Cart N)
  put_cart resolved carts =
      elim (find_entry (λ c. c.id == resolved.id || c.tenant_id == resolved.tenant_id) carts) [
        | none ↦ carts ++ resolved ∷ []
        | some (i, c) ↦ set carts i (merge_cart c resolved)
      ]

  -- an entry of the queue, when the same item is changed again before it was sent
  unfoldable pub merge_pending :
      PendingQuantityUpdate N
      → ℕ
      → ℕ
      → Option (QuantityRollbackContext N)
      → ℕ
      → PendingQuantityUpdate N
  merge_pending u quantity operation_id ctx promise = record u {
    quantity = quantity;
    operation_id = operation_id;
    resolvers = u.resolvers ++ promise ∷ [];
    rollback_context = elim u.rollback_context [
      | none ↦ ctx
      | some old ↦ some (record old { requested_quantity = quantity; operation_id = operation_id })
    ];
  }

  unfoldable pub queue_update :
      ℕ
      → ℕ
      → ℕ
      → Option (QuantityRollbackContext N)
      → ℕ
      → JsMap ℕ (PendingQuantityUpdate N)
      → JsMap ℕ (PendingQuantityUpdate N)
  queue_update cart_item_id quantity operation_id ctx promise queue =
      elim (get queue cart_item_id) [
        | none ↦ put queue cart_item_id (record {
          cart_item_id = cart_item_id;
          quantity = quantity;
          operation_id = operation_id;
          rollback_context = ctx;
          resolvers = promise ∷ [];
        })
        | some u ↦ put queue cart_item_id (merge_pending u quantity operation_id ctx promise)
      ]

  unfoldable pub latest_operation : CartStore N → ℕ → ℕ
  latest_operation s cart_item_id = or_else (get s.quantity_operation_seq cart_item_id) 0

  unfoldable pub get_total_item_count : ℕ → List (Cart N) → ℕ
  get_total_item_count sum [] = sum
  get_total_item_count sum (cart ∷ carts) = get_total_item_count (sum + cart.item_count) carts

module _ {N : Type 0} ⦃num : Amount N⦄ where
  unfoldable pub get_grand_total : N → List (Cart N) → N
  get_grand_total sum [] = sum
  get_grand_total sum (cart ∷ carts) = get_grand_total (num.add sum cart.total) carts

  abbrev pub enqueue : ℕ → ℕ → ℕ → Option (QuantityRollbackContext N) → CartStore N → CartStore N
  enqueue cart_item_id quantity operation_id ctx s = record s {
    pending_quantity_updates =
        queue_update cart_item_id quantity operation_id ctx s.next_promise
          s.pending_quantity_updates;
    next_promise = suc s.next_promise;
  }

  -- `updateQuantity` after the optimistic change, with a debounce and without
  unfoldable pub send_or_queue :
      ℕ → ℕ → ℕ → Option (QuantityRollbackContext N) → CartStore N → CartStore N
  send_or_queue cart_item_id quantity operation_id ctx s =
      if s.debounce_ms == 0
      then start_call (patch_item cart_item_id quantity) (quantity_call cart_item_id ctx) s
      else schedule_quantity_updates_flush (record s {
        pending_quantity_updates =
            queue_update cart_item_id quantity operation_id ctx s.next_promise
              s.pending_quantity_updates;
        next_promise = suc s.next_promise;
      })

  unfoldable pub on_update_quantity : ℕ → ℕ → CartStore N → CartStore N
  on_update_quantity cart_item_id quantity s =
      let operation_id = latest_operation s cart_item_id + 1 in
      let (carts, ctx) =
        apply_optimistic_quantity_update s.carts cart_item_id quantity operation_id in
      send_or_queue cart_item_id quantity operation_id ctx (record s {
        error = none;
        quantity_operation_seq = put s.quantity_operation_seq cart_item_id operation_id;
        carts = carts;
      })

  unfoldable pub on_remove_item : ℕ → CartStore N → CartStore N
  on_remove_item cart_item_id s =
      let (carts, ctx) = apply_optimistic_item_removal s.carts cart_item_id in
      start_call (delete_item cart_item_id) (remove_call ctx)
        (record s { error = none; carts = carts })

  unfoldable pub on_clear_cart : ℕ → CartStore N → CartStore N
  on_clear_cart cart_id s =
      let (carts, ctx) = apply_optimistic_clear_cart s.carts cart_id in
      start_call (delete_cart cart_id) (clear_call ctx) (record s { error = none; carts = carts })

  -- the rollback of a quantity that the server refused
  unfoldable pub take_back_quantity :
      ℕ → Option (QuantityRollbackContext N) → CartStore N → List (Cart N)
  take_back_quantity cart_item_id ctx s =
      if_context ctx s.carts
        (λ c. rollback_optimistic_quantity_update s.carts c (latest_operation s cart_item_id))

  -- the rest of a request in the flush loop, after its answer
  unfoldable pub finish_update : PendingQuantityUpdate N → Option String → CartStore N → CartStore N
  finish_update u error s = resolve_all u.resolvers (not (truthy error)) (record s {
    carts =
        if truthy error then take_back_quantity u.cart_item_id u.rollback_context s else s.carts;
    error = if truthy error then error else s.error;
  })

  unfoldable pub on_patch_reply : ℕ → ℕ → Option String → CartStore N → CartStore N
  on_patch_reply i j error s = elim (get_elem? s.loops i) [
    | none ↦ s
    | some waiting ↦ elim (get_elem? waiting j) [
      | none ↦ s
      | some u ↦
          if is_empty (remove_at waiting j)
          then next_round i (finish_update u error s)
          else record (finish_update u error s) { loops = set s.loops i (remove_at waiting j) }
    ]
  ]

  -- what an action does after its `await`: the new state, and what its promise is resolved with
  unfoldable pub continue : Call N → Reply N → CartStore N → CartStore N × Outcome N
  continue fetch_call reply s =
      if truthy reply.error
      then (record s { error = reply.error; is_loading = false }, finished)
      else (record s { carts = or_else reply.carts []; is_loading = false }, finished)
  continue add_call reply s =
      if truthy reply.error
      then (record s { error = reply.error }, added none reply.error)
      else elim reply.cart [
        | none ↦ (s, added none none)
        | some cart ↦ (record s { carts = put_cart cart s.carts }, added (some cart) none)
      ]
  continue (quantity_call cart_item_id ctx) reply s =
      if truthy reply.error
      then (
        record s { carts = take_back_quantity cart_item_id ctx s; error = reply.error },
        success false,
      )
      else (s, success true)
  continue (remove_call ctx) reply s =
      if truthy reply.error
      then (
        record s {
          carts = elim ctx [ none ↦ s.carts | some c ↦ rollback_optimistic_item_removal s.carts c ];
          error = reply.error;
        },
        success false,
      )
      else (s, success true)
  continue (clear_call ctx) reply s =
      if truthy reply.error
      then (
        record s {
          carts = elim ctx [ none ↦ s.carts | some c ↦ rollback_optimistic_clear_cart s.carts c ];
          error = reply.error;
        },
        success false,
      )
      else (s, success true)

  unfoldable pub on_call_reply : ℕ → Reply N → CartStore N → CartStore N
  on_call_reply j reply s = elim (get_elem? s.calls j) [
    | none ↦ s
    | some (promise, call) ↦
        let (s', outcome) = continue call reply (record s { calls = remove_at s.calls j }) in
        record s' { settled = s'.settled ++ (promise, outcome) ∷ [] }
  ]

  unfoldable pub step : CartStore N → Event N → CartStore N
  step s fetch_carts = on_fetch_carts s
  step s reset = reset_store s
  step s (add_to_cart tenant_id menu_item_id quantity option_ids) =
      on_add_to_cart tenant_id menu_item_id quantity option_ids s
  step s (update_quantity cart_item_id quantity) = on_update_quantity cart_item_id quantity s
  step s (remove_item cart_item_id) = on_remove_item cart_item_id s
  step s (clear_cart cart_id) = on_clear_cart cart_id s
  step s (set_debounce ms) = record s { debounce_ms = ms }
  step s (timer_fires t) = on_timer t s
  step s (patch_reply i j error) = on_patch_reply i j error s
  step s (call_reply j reply) = on_call_reply j reply s

  unfoldable pub run : CartStore N → List (Event N) → CartStore N
  unfolding step on_fetch_carts on_add_to_cart on_update_quantity on_remove_item on_clear_cart
      on_timer reset_store reset_module_state on_patch_reply on_call_reply continue finish_update
      take_back_quantity next_round finish_flush flush_quantity_updates
      schedule_quantity_updates_flush clear_timer arm_timer resolve_all send_or_queue queue_update
      merge_pending latest_operation put_cart get put apply_optimistic_quantity_update
      rollback_optimistic_quantity_update apply_optimistic_item_removal
      rollback_optimistic_item_removal apply_optimistic_clear_cart rollback_optimistic_clear_cart
      map_with_context modify_found update_cart_quantity with_quantity unit_price recalculate_cart
      sum_quantity sum_subtotal restore_cart_quantity restore_item remove_cart_item
      restore_cart_item
  run s [] = s
  run s (e ∷ es) = run (step s e) es

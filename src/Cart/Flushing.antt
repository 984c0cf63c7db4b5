-- ===== src/Cart/Flushing.antt =====
-- The timers and the flush loop of resources/js/stores/cartStore.ts: `flushQuantityUpdates`,
-- `scheduleQuantityUpdatesFlush`, `resetModuleState` and `reset`.
use fleximo_oss.Base.{
  Option, ℕ, suc, Bool, true, false, not, none, some, List, [], ◌∷◌, ◌++◌, map, set, remove_at,
  includes, filter_by, is_empty, if◌then◌else◌, ◌==◌, nat_eq, ◌||◌,
}
use fleximo_oss.JsMap.{values}
use fleximo_oss.Cart.State.{
  PendingQuantityUpdate, Request, patch_item, success, CartStore, default_debounce_ms,
}

-- the timers that stay when the one in the variable, if any, is cleared
abbrev pub cleared : Option ℕ → List ℕ → List ℕ
cleared none timers = timers
cleared (some t) timers = filter_by (λ u. not (u == t)) timers

module _ {N : Type 0} where
  -- `resolvers.forEach((resolve) => resolve(value))`
  unfoldable pub resolve_all : List ℕ → Bool → CartStore N → CartStore N
  resolve_all ids value s = record s { settled = s.settled ++ map (λ p. (p, success value)) ids }

  unfoldable pub clear_timer : CartStore N → CartStore N
  clear_timer s = record s {
    quantity_flush_timer = none;
    live_timers = cleared s.quantity_flush_timer s.live_timers;
  }

  unfoldable pub arm_timer : CartStore N → CartStore N
  arm_timer s = record s {
    quantity_flush_timer = some s.next_timer;
    live_timers = s.next_timer ∷ s.live_timers;
    next_timer = suc s.next_timer;
  }

  abbrev pub patch_of : PendingQuantityUpdate N → Request
  patch_of u = patch_item u.cart_item_id u.quantity

  -- one round of the `while` loop: the queue is taken whole and its requests are sent
  abbrev pub take_queue : CartStore N → CartStore N
  take_queue s = record s {
    pending_quantity_updates = [];
    sent = s.sent ++ map patch_of (values s.pending_quantity_updates);
  }

  unfoldable pub flush_quantity_updates : CartStore N → CartStore N
  flush_quantity_updates s =
      if s.is_flushing
      then record s { should_flush = true }
      else if is_empty s.pending_quantity_updates
      then clear_timer s
      else record (take_queue (clear_timer s)) {
        is_flushing = true;
        loops = s.loops ++ values s.pending_quantity_updates ∷ [];
      }

  unfoldable pub schedule_quantity_updates_flush : CartStore N → CartStore N
  schedule_quantity_updates_flush s =
      if s.debounce_ms == 0
      then flush_quantity_updates (clear_timer s)
      else arm_timer (clear_timer s)

  -- the `finally` block
  unfoldable pub finish_flush : CartStore N → CartStore N
  finish_flush s =
      if s.should_flush || not (is_empty s.pending_quantity_updates)
      then (if s.debounce_ms == 0
          then flush_quantity_updates (record s { is_flushing = false; should_flush = false })
          else arm_timer (record s { is_flushing = false; should_flush = false }))
      else record s { is_flushing = false }

  -- after the answer that the `i`-th loop waited for last: another round, or the end of the loop
  unfoldable pub next_round : ℕ → CartStore N → CartStore N
  next_round i s =
      if is_empty s.pending_quantity_updates
      then finish_flush (record s { loops = remove_at s.loops i })
      else record (take_queue s) { loops = set s.loops i (values s.pending_quantity_updates) }

  abbrev pub fired : ℕ → CartStore N → CartStore N
  fired t s = record s {
    quantity_flush_timer = none;
    live_timers = filter_by (λ u. not (u == t)) s.live_timers;
  }

  -- the callback of a timer
  unfoldable pub on_timer : ℕ → CartStore N → CartStore N
  on_timer t s = if includes s.live_timers t then flush_quantity_updates (fired t s) else s

  abbrev pub all_resolvers : List (PendingQuantityUpdate N) → List ℕ
  all_resolvers [] = []
  all_resolvers (u ∷ us) = u.resolvers ++ all_resolvers us

  unfoldable pub reset_module_state : CartStore N → CartStore N
  reset_module_state s =
      record (resolve_all (all_resolvers (values s.pending_quantity_updates)) false
        (clear_timer s)) {
          pending_quantity_updates = [];
          quantity_operation_seq = [];
          is_flushing = false;
          should_flush = false;
          debounce_ms = default_debounce_ms;
        }

  unfoldable pub reset_store : CartStore N → CartStore N
  reset_store s = record (reset_module_state s) { carts = []; is_loading = false; error = none }

-- ===== src/Cart/State.antt =====
-- The state of the store of resources/js/stores/cartStore.ts with the variables of its module, and
-- the events that change it. An action runs up to its `await`; what follows is a call that waits
-- in `calls` (or in a loop of `flushQuantityUpdates`, in `loops`) until the event of its answer
-- comes, in any order. A promise is a number; `settled` lists what the promises were resolved
-- with, and `sent` the requests. Timers that were set and neither fired nor were cleared are in
-- `live_timers`. The debounce interval is a natural number, so `<= 0` is `== 0`.
use fleximo_oss.Base.{ℕ, Bool, false, Option, none, String, List, [], nat_eq}
use fleximo_oss.JsMap.{JsMap}
use fleximo_oss.Cart.{Cart}
use fleximo_oss.Cart.Optimistic.{
  QuantityRollbackContext, RemoveItemRollbackContext, ClearCartRollbackContext,
}

pub record PendingQuantityUpdate (N : Type 0) : Type 0 where
  pub cart_item_id : ℕ
  pub quantity : ℕ
  pub operation_id : ℕ
  pub rollback_context : Option (QuantityRollbackContext N)
  pub resolvers : List ℕ

-- What waits for the answer to a request of its own.
pub data Call (N : Type 0) : Type 0 where
  fetch_call add_call : Call N
  quantity_call : ℕ → Option (QuantityRollbackContext N) → Call N
  remove_call : Option (RemoveItemRollbackContext N) → Call N
  clear_call : Option (ClearCartRollbackContext N) → Call N

pub data Request : Type 0 where
  get_cart : Request
  post_item : (tenant_id menu_item_id quantity : ℕ) → (option_ids : List ℕ) → Request
  patch_item : (cart_item_id quantity : ℕ) → Request
  delete_item delete_cart : ℕ → Request

pub data Outcome (N : Type 0) : Type 0 where
  finished : Outcome N
  success : Bool → Outcome N
  added : Option (Cart N) → Option String → Outcome N

-- The answer to a call: `error`, and `data` as far as the call reads it.
pub record Reply (N : Type 0) : Type 0 where
  pub error : Option String
  pub carts : Option (List (Cart N))
  pub cart : Option (Cart N)

pub record CartStore (N : Type 0) : Type 0 where
  pub carts : List (Cart N)
  pub is_loading : Bool
  pub error : Option String
  pub quantity_operation_seq : JsMap ℕ ℕ
  pub pending_quantity_updates : JsMap ℕ (PendingQuantityUpdate N)
  pub quantity_flush_timer : Option ℕ
  pub is_flushing : Bool
  pub should_flush : Bool
  pub debounce_ms : ℕ
  pub live_timers : List ℕ
  pub next_timer : ℕ
  pub loops : List (List (PendingQuantityUpdate N))
  pub calls : List (ℕ × Call N)
  pub next_promise : ℕ
  pub settled : List (ℕ × Outcome N)
  pub sent : List Request

pub data Event (N : Type 0) : Type 0 where
  fetch_carts reset : Event N
  add_to_cart : (tenant_id menu_item_id quantity : ℕ) → (option_ids : List ℕ) → Event N
  update_quantity : (cart_item_id quantity : ℕ) → Event N
  remove_item clear_cart set_debounce timer_fires : ℕ → Event N
  patch_reply : (loop request : ℕ) → (error : Option String) → Event N
  call_reply : (call : ℕ) → Reply N → Event N

abbrev pub default_debounce_ms : ℕ
default_debounce_ms = 250

module _ {N : Type 0} where
  unfoldable pub initial_state : CartStore N
  initial_state = record {
    carts = [];
    is_loading = false;
    error = none;
    quantity_operation_seq = [];
    pending_quantity_updates = [];
    quantity_flush_timer = none;
    is_flushing = false;
    should_flush = false;
    debounce_ms = default_debounce_ms;
    live_timers = [];
    next_timer = 0;
    loops = [];
    calls = [];
    next_promise = 0;
    settled = [];
    sent = [];
  }

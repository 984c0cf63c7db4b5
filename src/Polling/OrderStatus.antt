-- ===== src/Polling/OrderStatus.antt =====
-- The customer's view of an order's status, resources/js/Hooks/useOrderStatusPolling.ts: its
-- fetcher, run once for each answer. The callbacks are lists of what they were called with.
use fleximo_oss.Base.{
  ℕ, suc, Bool, true, false, not, Option, none, some, String, List, [], ◌∷◌, ◌++◌, truthy,
  if◌then◌else◌, ◌==◌, ◌&&◌, ◌||◌, ◌≡◌, refl, sym, arith, Bool-cases, Option-cases, inl, inr,
  if_elim, subst,
}
use fleximo_oss.Order.{OrderStatus, ready, cancelled, status_eq}
use fleximo_oss.Polling.{Polled, result}

pub record OrderStatusResponse : Type 0 where
  pub id : ℕ
  pub status : OrderStatus
  pub status_label : String
  pub is_terminal : Bool
  pub ready_at : Option String
  pub updated_at : String

pub record OrderPollingState : Type 0 where
  pub status : OrderStatus
  pub status_label : String
  pub is_terminal : Bool
  pub ready_at : Option String

-- the hook's state, and the calls of its two callbacks
pub record Watch : Type 0 where
  pub order_state : OrderPollingState
  pub has_notified_ready : Bool
  pub status_changes : List (OrderStatus × OrderStatus)
  pub ready_calls : ℕ

-- what `api.get` answers
pub record StatusReply : Type 0 where
  pub error : Option String
  pub response : Option OrderStatusResponse

unfoldable pub should_stop_polling : OrderStatus → Bool → Bool
should_stop_polling status is_terminal = is_terminal || status == cancelled

unfoldable pub init_watch : OrderStatus → String → Watch
init_watch status label = record {
  order_state = record {
    status = status;
    status_label = label;
    is_terminal = false;
    ready_at = none;
  };
  has_notified_ready = false;
  status_changes = [];
  ready_calls = 0;
}

-- a new state of the order, with the callbacks that it calls for
unfoldable pub update_order_state : OrderStatusResponse → Watch → Watch
update_order_state new s = record s {
  order_state = record {
    status = new.status;
    status_label = new.status_label;
    is_terminal = new.is_terminal;
    ready_at = new.ready_at;
  };
  status_changes =
      if not (new.status == s.order_state.status)
      then s.status_changes ++ (new.status, s.order_state.status) ∷ []
      else s.status_changes;
  has_notified_ready = s.has_notified_ready || new.status == ready;
  ready_calls =
      if new.status == ready && not s.has_notified_ready then suc s.ready_calls else s.ready_calls;
}

-- the fetcher: the watch after it, and what it returns to the timer
unfoldable pub fetcher : StatusReply → Watch → Watch × Polled
unfolding should_stop_polling
fetcher reply s = if truthy reply.error then (s, result true true) else elim reply.response [
  | none ↦ (s, result true true)
  | some new ↦ (
    update_order_state new s,
    result (not (should_stop_polling new.status new.is_terminal)) false,
  )
]

unfoldable pub watch : Watch → List StatusReply → Watch
watch s [] = s
watch s (reply ∷ replies) = watch (fetcher reply s).0 replies

-- The changes lead from the first status to the last, each from the one before it to another.
unfoldable pub Leads : OrderStatus → List (OrderStatus × OrderStatus) → OrderStatus → Type 0
Leads from [] to = from ≡ to
Leads from ((new, prev) ∷ changes) to =
    (prev ≡ from) × ((new == prev) ≡ false) × Leads new changes to

-- What holds of a watch that began with the status.
abbrev pub IsTold : OrderStatus → Watch → Type 0
IsTold first s =
    Leads first s.status_changes s.order_state.status
    × (s.ready_calls ≡ (if s.has_notified_ready then 1 else 0))
    × ((s.order_state.status == ready ≡ true) → (s.has_notified_ready || first == ready) ≡ true)

Leads-append :
    (first : OrderStatus) (changes : List (OrderStatus × OrderStatus)) (prev new : OrderStatus)
    → Leads first changes prev
    → (new == prev) ≡ false
    → Leads first (changes ++ (new, prev) ∷ []) new
unfolding Leads
Leads-append first [] prev new h e = (sym h, e, refl)
Leads-append first ((n, p) ∷ changes) prev new h e =
    (h.0, h.1, Leads-append n changes prev new h.2 e)

changes-Leads :
    (first : OrderStatus) (changes : List (OrderStatus × OrderStatus)) (prev new : OrderStatus)
    → Leads first changes prev
    → Leads first (if not (new == prev) then changes ++ (new, prev) ∷ [] else changes) new
changes-Leads first changes prev new h = elim (Bool-cases (new == prev)) [
  | inl same ↦
      rw same (subst (λ x. Leads first changes x) (sym ((status_eq.beq_iff new prev).0 same)) h)
  | inr other ↦ rw other (Leads-append first changes prev new h other)
]

ready_once :
    (is_ready told : Bool) (calls : ℕ)
    → calls ≡ (if told then 1 else 0)
    → (if is_ready && not told then suc calls else calls) ≡ (if told || is_ready then 1 else 0)
ready_once is_ready told calls h = ground arith

told_of : (is_ready told first : Bool) → is_ready ≡ true → ((told || is_ready) || first) ≡ true
told_of is_ready told first e = ground arith

update_order_state-IsTold :
    (first : OrderStatus) (new : OrderStatusResponse) (s : Watch)
    → IsTold first s
    → IsTold first (update_order_state new s)
unfolding update_order_state
update_order_state-IsTold first new s (leads, calls, told) = (
  changes-Leads first s.status_changes s.order_state.status new.status leads,
  ready_once (new.status == ready) s.has_notified_ready s.ready_calls calls,
  (λ e. told_of (new.status == ready) s.has_notified_ready (first == ready) e),
)

fetcher-IsTold :
    (first : OrderStatus) (reply : StatusReply) (s : Watch)
    → IsTold first s
    → IsTold first (fetcher reply s).0
unfolding fetcher
fetcher-IsTold first reply s h = elim (Option-cases reply.response) [
  | inl empty ↦
      rw (fetcher, empty)
        (if_elim (λ (r : Watch × Polled). IsTold first r.0) (truthy reply.error) _ _ h h)
  | inr (new, full) ↦
      rw (fetcher, full)
        (if_elim (λ (r : Watch × Polled). IsTold first r.0) (truthy reply.error) _ _ h
          (update_order_state-IsTold first new s h))
]

-- Whatever the answers: the calls of `onStatusChange` lead from the first status to the one shown,
-- each from the status before to another one; `onReady` is called at most once, and it has been
-- called if the order is shown as ready and did not begin so.
pub watch-IsTold :
    (replies : List StatusReply) (first : OrderStatus) (s : Watch)
    → IsTold first s
    → IsTold first (watch s replies)
unfolding watch
watch-IsTold [] first s h = h
watch-IsTold (reply ∷ replies) first s h =
    watch-IsTold replies first (fetcher reply s).0 (fetcher-IsTold first reply s h)

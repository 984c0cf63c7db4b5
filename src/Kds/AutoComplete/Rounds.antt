-- ===== src/Kds/AutoComplete/Rounds.antt =====
-- One round of the loops over timers and ready orders, of resources/js/Hooks/
-- useReadyAutoComplete.ts.
use fleximo_oss.Base.{
  ℕ, ◌+◌, ◌*◌, Bool, true, not, Option, none, some, or_else, String, List, [], ◌∷◌, ◌++◌, truthy,
  leb, is_some, if◌then◌else◌, ◌==◌, ◌||◌, nat_eq, nat_beq_iff, beq_refl, includes, ◌≡◌, refl,
  subst, sym, ◌<◌, ◌≤◌, arith, ◌⊎◌, if_split, if_elim, All, Bool-cases, inl, inr,
}
use fleximo_oss.JsMap.{JsMap, get, put}
use fleximo_oss.JsMap.Laws.{get-put}
use fleximo_oss.Kds.{KdsOrder}
use fleximo_oss.Kds.AutoComplete.{AutoComplete, order_ids, clear_gone, start_timer, add_order}

-- The order has a timer, or it was completed.
abbrev pub served : AutoComplete → ℕ → Bool
served s id = is_some (get s.timers id) || includes s.completed id

pub get-clear_gone :
    (orders : List KdsOrder) (timers : JsMap ℕ ℕ) (id : ℕ)
    → is_some (get (clear_gone orders timers) id) ≡ true
    → includes (order_ids orders) id ≡ true
unfolding clear_gone get
get-clear_gone orders [] id h = ground (arith, h)
get-clear_gone orders ((k, t) ∷ timers) id h = elim (Bool-cases (includes (order_ids orders) k)) [
  | inl kept ↦ elim (Bool-cases (k == id)) [
    | inl same ↦ subst (λ j. includes (order_ids orders) j ≡ true) ((nat_beq_iff k id).0 same) kept
    | inr other ↦ get-clear_gone orders timers id (rw (clear_gone, kept, get, other) at h)
  ]
  | inr dropped ↦ get-clear_gone orders timers id (rw (clear_gone, dropped) at h)
]

-- The orders have ids of the list.
abbrev pub Known : List ℕ → List KdsOrder → Type 0
Known ids = All (λ o. includes ids o.id ≡ true)

Known-cons :
    (id : ℕ) (ids : List ℕ) (orders : List KdsOrder) → Known ids orders → Known (id ∷ ids) orders
Known-cons id ids [] h = tt
Known-cons id ids (o ∷ orders) h = (rw h.0 (or_true (id == o.id)), Known-cons id ids orders h.1)
  where
    or_true : (b : Bool) → (b || true) ≡ true
    or_true b = ground arith

pub Known-self : (orders : List KdsOrder) → Known (order_ids orders) orders
Known-self [] = tt
Known-self (o ∷ orders) =
    (rw (beq_refl o.id) refl, Known-cons o.id (order_ids orders) orders (Known-self orders))

-- when an order with this time of being ready is due, for a timer that is set now
abbrev pub DueAt : (now seconds : ℕ) → Option ℕ → ℕ → Type 0
DueAt now seconds none due = due ≡ now
DueAt now seconds (some t) due = (due ≡ t + seconds * 1000) × (now < due)

abbrev pub Overdue : (now seconds : ℕ) → Option ℕ → Type 0
Overdue now seconds none = ⊥
Overdue now seconds (some t) = t + seconds * 1000 ≤ now

module _ (get_time : String → Option ℕ) (now seconds : ℕ) where
  -- The timer is due when the seconds have passed since the order was ready, which is later than
  -- now; without a date it is due at once.
  abbrev pub IsTimed : ℕ → KdsOrder → Type 0
  IsTimed due o =
      (truthy o.ready_at ≡ true) × DueAt now seconds (get_time (or_else o.ready_at "")) due

  -- The seconds have passed since the order was ready.
  abbrev pub IsOverdue : KdsOrder → Type 0
  IsOverdue o = (truthy o.ready_at ≡ true) × Overdue now seconds (get_time (or_else o.ready_at ""))

  -- What one order may change: nothing, where it has a timer or no time; its timer; or its
  -- completion.
  abbrev pub Added : KdsOrder → AutoComplete → AutoComplete → Type 0
  Added o s r =
      ((r ≡ s) × (truthy o.ready_at ≡ true → is_some (get s.timers o.id) ≡ true))
      ⊎ (((due : ℕ) × IsTimed due o × (r ≡ record s { timers = put s.timers o.id due }))
          ⊎ (IsOverdue o × (r ≡ record s { completed = s.completed ++ o.id ∷ [] })))

pub includes-append :
    (xs ys : List ℕ) (x : ℕ) → includes (xs ++ ys) x ≡ (includes xs x || includes ys x)
includes-append [] ys x = refl
includes-append (y ∷ xs) ys x = ground (arith, includes-append xs ys x)

module _ (get_time : String → Option ℕ) (now seconds : ℕ) where
  pub add_order-cases :
      (o : KdsOrder) (s : AutoComplete)
      → Added get_time now seconds o s (add_order get_time now seconds o s)
  unfolding add_order start_timer
  add_order-cases o s =
      if_split (Added get_time now seconds o s) (is_some (get s.timers o.id)) s _
        (λ there. inl (refl, (λ e. there)))
        (λ none_yet.
          if_split (Added get_time now seconds o s) (not (truthy o.ready_at)) s _
            (λ no_time. inl (refl, (λ e. ground (arith, no_time, e))))
            (λ given. with_time (ground arith) (get_time (or_else o.ready_at "")) refl))
    where
      with_time :
          truthy o.ready_at ≡ true
          → (t : Option ℕ) → get_time (or_else o.ready_at "") ≡ t
          → Added get_time now seconds o s (elim t [
            | none ↦ record s { timers = put s.timers o.id now }
            | some ready_at ↦
                if leb (ready_at + seconds * 1000) now
                then record s { completed = s.completed ++ o.id ∷ [] }
                else record s { timers = put s.timers o.id (ready_at + seconds * 1000) }
          ])
      with_time given none e =
          inr (inl (now, (given, subst (λ t. DueAt now seconds t now) (sym e) refl), refl))
      with_time given (some t) e =
          if_split (Added get_time now seconds o s) (leb (t + seconds * 1000) now) _ _
            (λ over.
              inr (inr ((given, subst (λ r. Overdue now seconds r) (sym e) (ground arith)), refl)))
            (λ early. inr (
              inl (
                t + seconds * 1000,
                (
                  given,
                  subst (λ r. DueAt now seconds r (t + seconds * 1000)) (sym e)
                      (refl, ground arith),
                ),
                refl,
              )))

pub or_keeps : (a b c : Bool) → (a || b) ≡ true → (a || (b || c)) ≡ true
or_keeps a b c h = ground arith

pub or_last : (a b : Bool) → (a || (b || true)) ≡ true
or_last a b = ground arith

put_keeps :
    (b c : Bool) (due : ℕ) (o : Option ℕ)
    → (is_some o || c) ≡ true
    → (is_some (if b then some due else o) || c) ≡ true
put_keeps b c due o h = if_elim (λ p. (is_some p || c) ≡ true) b (some due) o refl h

-- What was served is still, and so is the order itself, if it has a time.
module _ (get_time : String → Option ℕ) (now seconds : ℕ) (o : KdsOrder) (s r : AutoComplete) where
  pub round_keeps :
      (id : ℕ) → Added get_time now seconds o s r → served s id ≡ true → served r id ≡ true
  round_keeps id (inl (same, there)) h = rw same h
  round_keeps id (inr (inl (due, timed, e))) h =
      rw (e, get-put s.timers o.id id due)
        (put_keeps (o.id == id) (includes s.completed id) due (get s.timers id) h)
  round_keeps id (inr (inr (over, e))) h =
      rw (e, includes-append s.completed (o.id ∷ []) id)
        (or_keeps (is_some (get s.timers id)) (includes s.completed id) _ h)

  pub round_serves :
      Added get_time now seconds o s r → truthy o.ready_at ≡ true → served r o.id ≡ true
  round_serves (inl (same, there)) t = rw (same, there t) refl
  round_serves (inr (inl (due, timed, e))) t =
      rw (e, get-put s.timers o.id o.id due, beq_refl o.id) refl
  round_serves (inr (inr (over, e))) t =
      rw (e, includes-append s.completed (o.id ∷ []) o.id, beq_refl o.id)
        (or_last (is_some (get s.timers o.id)) (includes s.completed o.id))

  -- The ready orders and the mount stay, and a new timer is that of the order.
  pub round_frame :
      Added get_time now seconds o s r
      → (r.ready_orders ≡ s.ready_orders) × (r.is_mounted ≡ s.is_mounted)
  round_frame (inl (same, there)) = rw same (refl, refl)
  round_frame (inr (inl (due, timed, e))) = rw e (refl, refl)
  round_frame (inr (inr (over, e))) = rw e (refl, refl)

  pub round_wanted :
      (ids : List ℕ)
      → Added get_time now seconds o s r
      → includes ids o.id ≡ true
      → ((id : ℕ) → is_some (get s.timers id) ≡ true → includes ids id ≡ true)
      → (id : ℕ) → is_some (get r.timers id) ≡ true
      → includes ids id ≡ true
  round_wanted ids (inl (same, there)) k h id t = h id (rw same at t)
  round_wanted ids (inr (inl (due, timed, e))) k h id t = elim (Bool-cases (o.id == id)) [
    | inl same ↦ subst (λ j. includes ids j ≡ true) ((nat_beq_iff o.id id).0 same) k
    | inr other ↦ h id (rw (e, get-put s.timers o.id id due, other) at t)
  ]
  round_wanted ids (inr (inr (over, e))) k h id t = h id (rw e at t)

-- ===== src/Kds/AutoComplete/Due.antt =====
-- The timers that a render sets and the orders that it completes, of resources/js/Hooks/
-- useReadyAutoComplete.ts.
use fleximo_oss.Base.{
  ℕ, Bool, true, false, Option, some, String, List, [], ◌∷◌, ◌++◌, is_some, ◌==◌, nat_eq,
  nat_beq_iff, includes, ◌≡◌, refl, ap, sym, ◌∙◌, subst, arith, ◌⊎◌, All, All-append, All-imp,
  append_assoc, append_nil, Bool-cases, inl, inr,
}
use mathlib.Core.Option.{some-injective}
use fleximo_oss.JsMap.{JsMap, get}
use fleximo_oss.JsMap.Laws.{get-put}
use fleximo_oss.Kds.{KdsOrder}
use fleximo_oss.Kds.AutoComplete.{
  AutoComplete, render, order_ids, clear_gone, add_order, add_orders, step,
}
use fleximo_oss.Kds.AutoComplete.Rounds.{get-clear_gone, IsTimed, IsOverdue, Added, add_order-cases}

-- One of the orders has the id and the property.
abbrev pub Some : (KdsOrder → Type 0) → ℕ → List KdsOrder → Type 0
Some P id [] = ⊥
Some P id (o ∷ orders) = ((o.id ≡ id) × P o) ⊎ Some P id orders

module _ (get_time : String → Option ℕ) (now seconds : ℕ) where
  -- A timer is one from before, or one for an order of the list that is not due yet; and only orders
  -- of the list that are overdue are completed.
  abbrev pub IsRendered : List KdsOrder → AutoComplete → AutoComplete → Type 0
  IsRendered orders s r =
      ((id due : ℕ)
        → get r.timers id ≡ some due
        → (get s.timers id ≡ some due) ⊎ Some (IsTimed get_time now seconds due) id orders)
      × ((ids : List ℕ) × (r.completed ≡ s.completed ++ ids)
          × All (λ id. Some (IsOverdue get_time now seconds) id orders) ids)

  one_timer :
      (o : KdsOrder) (s r : AutoComplete)
      → Added get_time now seconds o s r
      → (id due : ℕ) → get r.timers id ≡ some due
      → (get s.timers id ≡ some due) ⊎ ((o.id ≡ id) × IsTimed get_time now seconds due o)
  one_timer o s r (inl (same, there)) id due h = inl (rw same at h)
  one_timer o s r (inr (inl (d, timed, e))) id due h = elim (Bool-cases (o.id == id)) [
    | inl here ↦
        let set_to : some d ≡ some due = rw (e, get-put s.timers o.id id d, here) at h in
        inr (
          (nat_beq_iff o.id id).0 here,
          subst (λ t. IsTimed get_time now seconds t o) (some-injective _ _ set_to) timed,
        )
    | inr other ↦ inl (rw (e, get-put s.timers o.id id d, other) at h)
  ]
  one_timer o s r (inr (inr (over, e))) id due h = inl (rw e at h)

  one_completed :
      (o : KdsOrder) (s r : AutoComplete)
      → Added get_time now seconds o s r
      → (ids : List ℕ) × (r.completed ≡ s.completed ++ ids)
        × All (λ id. (o.id ≡ id) × IsOverdue get_time now seconds o) ids
  one_completed o s r (inl (same, there)) = ([], rw same (sym (append_nil s.completed)), tt)
  one_completed o s r (inr (inl (d, timed, e))) = ([], rw e (sym (append_nil s.completed)), tt)
  one_completed o s r (inr (inr (over, e))) =
      (o.id ∷ [], ap (λ x. x.completed) e, ((refl, over), tt))

  add_orders-IsRendered :
      (orders : List KdsOrder) (s : AutoComplete)
      → IsRendered orders s (add_orders get_time now seconds orders s)
  unfolding add_orders
  add_orders-IsRendered [] s = (λ id due h. inl h, ([], sym (append_nil s.completed), tt))
  add_orders-IsRendered (o ∷ orders) s =
      let r = add_order get_time now seconds o s in
      let added = add_order-cases get_time now seconds o s in
      let (timers, (later, all_of, overdue)) = add_orders-IsRendered orders r in
      let (first, first_of, over) = one_completed o s r added in
      (
        λ id due h. elim (timers id due h) [
          | inl before ↦ elim (one_timer o s r added id due before) [
            | inl kept ↦ inl kept
            | inr set_now ↦ inr (inl set_now)
          ]
          | inr set_later ↦ inr (inr set_later)
        ],
        (
          first ++ later,
          all_of ∙ ap (λ l. l ++ later) first_of ∙ append_assoc s.completed first later,
          All-append _ first later (All-imp _ _ (λ id here. inl here) first over)
              (All-imp _ _ (λ id there. inr there) later overdue),
        ),
      )

  -- The timers that are not cleared are those from before.
  kept_timer :
      (orders : List KdsOrder) (timers : JsMap ℕ ℕ) (id due : ℕ)
      → get (clear_gone orders timers) id ≡ some due
      → get timers id ≡ some due
  unfolding clear_gone get
  kept_timer orders [] id due h = h
  kept_timer orders ((k, t) ∷ timers) id due h = elim (Bool-cases (includes (order_ids orders) k)) [
    | inl kept ↦ elim (Bool-cases (k == id)) [
      | inl same ↦ rw same (rw (clear_gone, kept, get, same) at h)
      | inr other ↦
          rw other (kept_timer orders timers id due (rw (clear_gone, kept, get, other) at h))
    ]
    | inr dropped ↦
        let rest : get (clear_gone orders timers) id ≡ some due = rw (clear_gone, dropped) at h in
        let there : includes (order_ids orders) id ≡ true =
          get-clear_gone orders timers id (ap is_some rest) in
        elim (Bool-cases (k == id)) [
          | inl same ↦ absurd (
              not_both (includes (order_ids orders) id) there (
                subst (λ j. includes (order_ids orders) j ≡ false) ((nat_beq_iff k id).0 same)
                  dropped))
          | inr other ↦ rw other (kept_timer orders timers id due rest)
        ]
  ]
    where
      not_both : (b : Bool) → b ≡ true → b ≡ false → ⊥
      not_both b h k = ground (arith, h, k)

  pub render-IsRendered :
      (orders : List KdsOrder) (s : AutoComplete)
      → IsRendered orders s (step get_time s (render now seconds orders))
  unfolding step
  render-IsRendered orders s =
      let shown : AutoComplete = record s {
        ready_orders = orders;
        timers = clear_gone orders s.timers;
      } in
      let (timers, completed) = add_orders-IsRendered orders shown in
      (
        λ id due h. elim (timers id due h) [
          | inl before ↦ inl (kept_timer orders s.timers id due before)
          | inr set_now ↦ inr set_now
        ],
        completed,
      )

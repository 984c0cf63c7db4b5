-- ===== src/Kds/Upsert.antt =====
-- The board after a status change was accepted: `upsertActiveOrder` of
-- resources/js/Hooks/kdsOrderHelpers.ts.
use fleximo_oss.Base.{
  ℕ, Bool, true, false, not, Option, none, some, List, [], ◌∷◌, ◌++◌, map, includes, filter_by,
  if◌then◌else◌, ◌==◌, nat_eq, ◌≡◌, refl, sym, ap, ◌∙◌, arith, Bool-cases, inl, inr, if_elim,
}
use fleximo_oss.Order.{status_eq}
use fleximo_oss.Kds.{
  KdsOrder, is_active_kds_order, replace_order, upsert_active_order, merge_orders,
}
use fleximo_oss.Kds.Merge.{latest, settle, merge_orders-settle}

latest-append :
    (k : ℕ) (cur : Option KdsOrder) (xs ys : List KdsOrder)
    → latest k cur (xs ++ ys) ≡ latest k (latest k cur xs) ys
unfolding latest
latest-append k cur [] ys = refl
latest-append k cur (x ∷ xs) ys = latest-append k (if x.id == k then some x else cur) xs ys

-- Replacing by an order with another id changes nothing for this one.
latest-replace_other :
    (k : ℕ) (o : KdsOrder) (cur : Option KdsOrder) (xs : List KdsOrder)
    → (o.id == k) ≡ false
    → latest k cur (replace_order o xs) ≡ latest k cur xs
unfolding latest replace_order
latest-replace_other k o cur [] h = refl
latest-replace_other k o cur (x ∷ xs) h = elim (Bool-cases (x.id == o.id)) [
  | inl same ↦
      let other : (x.id == k) ≡ false = ground arith in
      rw (same, h, other) (latest-replace_other k o cur xs h)
  | inr different ↦ rw different (latest-replace_other k o (if x.id == k then some x else cur) xs h)
]

latest-replace_same :
    (k : ℕ) (o : KdsOrder) (cur : Option KdsOrder) (xs : List KdsOrder)
    → (o.id == k) ≡ true
    → latest k cur (replace_order o xs)
      ≡ (if includes (map (λ x. x.id) xs) o.id then some o else cur)
unfolding latest replace_order
latest-replace_same k o cur [] h = refl
latest-replace_same k o cur (x ∷ xs) h = elim (Bool-cases (x.id == o.id)) [
  | inl same ↦
      rw (same, h)
        (latest-replace_same k o (some o) xs h
          ∙ if_elim (λ c. c ≡ some o) (includes (map (λ y. y.id) xs) o.id) (some o) (some o) refl
              refl)
  | inr different ↦
      let other : (x.id == k) ≡ false = ground arith in
      rw (different, other) (latest-replace_same k o cur xs h)
]

latest-filter :
    (k j : ℕ) (cur : Option KdsOrder) (xs : List KdsOrder)
    → latest k cur (filter_by (λ x. not (x.id == j)) xs) ≡ (if j == k then cur else latest k cur xs)
unfolding latest
latest-filter k j cur [] = if_elim (λ c. cur ≡ c) (j == k) cur cur refl refl
latest-filter k j cur (x ∷ xs) = elim (Bool-cases (x.id == j)) [
  | inl same ↦ elim (Bool-cases (j == k)) [
    | inl gone ↦ rw (same, gone) (latest-filter k j cur xs ∙ rw gone refl)
    | inr stays ↦
        let other : (x.id == k) ≡ false = ground arith in
        rw (same, stays, other) (latest-filter k j cur xs ∙ rw stays refl)
  ]
  | inr different ↦ elim (Bool-cases (j == k)) [
    | inl gone ↦
        let other : (x.id == k) ≡ false = ground arith in
        rw (different, gone, other) (latest-filter k j cur xs ∙ rw gone refl)
    | inr stays ↦
        rw (different, stays)
          (latest-filter k j (if x.id == k then some x else cur) xs ∙ rw stays refl)
  ]
]

latest_absent :
    (k : ℕ) (cur : Option KdsOrder) (xs : List KdsOrder)
    → includes (map (λ x. x.id) xs) k ≡ false
    → latest k cur xs ≡ cur
unfolding latest
latest_absent k cur [] h = refl
latest_absent k cur (x ∷ xs) h =
    let other : (x.id == k) ≡ false = ground arith in
    let absent : includes (map (λ y. y.id) xs) k ≡ false = ground arith in
    rw other (latest_absent k cur xs absent)

upserted :
    (k : ℕ) (existing : List KdsOrder) (o : KdsOrder)
    → is_active_kds_order o ≡ true
    → latest k none (upsert_active_order existing o)
      ≡ (if o.id == k then some o else latest k none existing)
unfolding upsert_active_order latest
upserted k existing o active = elim (Bool-cases (o.id == k)) [
  | inl same ↦ elim (Bool-cases (includes (map (λ x. x.id) existing) o.id)) [
    | inl there ↦
        rw (upsert_active_order, active, there, same)
          (latest-replace_same k o none existing same ∙ rw there refl)
    | inr new ↦
        rw (upsert_active_order, active, new, same)
          (latest-append k none (replace_order o existing) (o ∷ []) ∙ rw (latest, same) refl)
  ]
  | inr other ↦ elim (Bool-cases (includes (map (λ x. x.id) existing) o.id)) [
    | inl there ↦
        rw (upsert_active_order, active, there, other)
          (latest-replace_other k o none existing other)
    | inr new ↦
        rw (upsert_active_order, active, new, other)
          (latest-append k none (replace_order o existing) (o ∷ [])
            ∙ rw (latest, other) (latest-replace_other k o none existing other))
  ]
]

removed :
    (k : ℕ) (existing : List KdsOrder) (o : KdsOrder)
    → is_active_kds_order o ≡ false
    → latest k none (upsert_active_order existing o)
      ≡ (if o.id == k then none else latest k none existing)
unfolding upsert_active_order
removed k existing o gone = rw (upsert_active_order, gone) (latest-filter k o.id none existing)

-- The order that the answer to a status change brings is shown as if it had been polled: for every
-- id, the board has the same order as after merging that one order.
pub upsert_active_order-merge_orders :
    (existing : List KdsOrder) (o : KdsOrder) (k : ℕ)
    → latest k none (upsert_active_order existing o)
      ≡ latest k none (merge_orders existing (o ∷ [])).0
unfolding settle
upsert_active_order-merge_orders existing o k =
    let shown =
      λ (c : Bool). if o.id == k then (if c then some o else none) else latest k none existing in
    elim (Bool-cases (is_active_kds_order o)) [
      | inl active ↦ upserted k existing o active ∙ ap shown (sym active)
      | inr gone ↦ removed k existing o gone ∙ ap shown (sym gone)
    ]
    ∙ sym ((merge_orders-settle existing (o ∷ [])).0 k)

-- ===== src/Cart/Totals.antt =====
-- The counts and totals of carts, and the price of an item, in resources/js/stores/cartStore.ts.
use native.Mathlib.Nat.{add_assoc}
use fleximo_oss.Base.{
  ◌==◌, nat_eq, ℕ, ◌+◌, ◌<◌, Bool, true, false, is_empty, Option, none, List, [], ◌∷◌, find_entry,
  ◌≡◌, refl, ap, ◌∙◌, arith, Bool-cases, inl, inr, ltb, Option-cases, or_option, All, or_else,
  some_of,
}
use fleximo_oss.Cart.{Amount, CartItem, Cart}
use fleximo_oss.Cart.Entries.{modify_found-cons}
use fleximo_oss.Cart.Rollback.{IsConsistent}
use fleximo_oss.Cart.Optimistic.{
  QuantityRollbackContext, RemoveItemRollbackContext, map_with_context, modify_found, has_item_id,
  has_cart_id, recalculate_cart, sum_quantity, sum_subtotal, unit_price, with_quantity,
  update_cart_quantity, apply_optimistic_quantity_update, restore_item, restore_cart_quantity,
  rollback_optimistic_quantity_update, remove_cart_item, apply_optimistic_item_removal,
  restore_cart_item, rollback_optimistic_item_removal,
}
use fleximo_oss.Cart.Store.{get_total_item_count}

module _ {ℓ κ} {A : Type ℓ} (P : A → Type κ) where
  All-map_with_context {μ} :
      {C : Type μ} (g : A → A × Option C)
      → ((x : A) → P x → P (g x).0)
      → (ctx : Option C) (xs : List A) → All P xs
      → All P (map_with_context g ctx xs).0
  unfolding map_with_context
  All-map_with_context g keep ctx [] h = tt
  All-map_with_context g keep ctx (x ∷ xs) h =
      (keep x h.0, All-map_with_context g keep (or_option (g x).1 ctx) xs h.1)

  All-modify_found :
      (p : A → Bool) (f : A → Option A)
      → ((x : A) → P x → P (or_else (f x) x))
      → (xs : List A) → All P xs
      → All P (modify_found p f xs)
  unfolding modify_found
  All-modify_found p f keep [] h = tt
  All-modify_found p f keep (x ∷ xs) h = rw (modify_found-cons p f x xs) (elim (Bool-cases (p x)) [
    | inl here ↦ rw here (keep x h.0, h.1)
    | inr later ↦ rw later (h.0, All-modify_found p f keep xs h.1)
  ])

module _ {N : Type 0} ⦃num : Amount N⦄ where
  -- The pieces of all items.
  abbrev pub pieces : List (CartItem N) → ℕ
  pieces [] = 0
  pieces (item ∷ items) = item.quantity + pieces items

  -- An amount, and after it the subtotals of all items, added one by one.
  abbrev pub plus_subtotals : N → List (CartItem N) → N
  plus_subtotals n [] = n
  plus_subtotals n (item ∷ items) = plus_subtotals (num.add n item.subtotal) items

  abbrev pub has_none : List (CartItem N) → Bool
  has_none [] = true
  has_none (item ∷ items) = false

  -- The cart's count is the pieces of its items, its total is nothing and their subtotals added one
  -- by one, and its flag says whether it has none.
  abbrev pub IsTallied : Cart N → Type 0
  IsTallied c =
      (c.item_count ≡ pieces c.items)
      × (c.total ≡ plus_subtotals (num.of_nat 0) c.items)
      × (c.is_empty ≡ has_none c.items)

  sum_from :
      (n m : ℕ) (items : List (CartItem N)) → sum_quantity (n + m) items ≡ n + sum_quantity m items
  unfolding sum_quantity
  sum_from n m [] = refl
  sum_from n m (item ∷ items) =
      ap (λ x. sum_quantity x items) (add_assoc n m item.quantity)
      ∙ sum_from n (m + item.quantity) items

  sum_quantity-pieces :
      (n : ℕ) (items : List (CartItem N)) → sum_quantity n items ≡ n + pieces items
  unfolding sum_quantity
  sum_quantity-pieces n [] = omega arith
  sum_quantity-pieces n (item ∷ items) =
      sum_quantity-pieces (n + item.quantity) items ∙ (omega arith)

  sum_subtotal-plus_subtotals :
      (n : N) (items : List (CartItem N)) → sum_subtotal n items ≡ plus_subtotals n items
  unfolding sum_subtotal
  sum_subtotal-plus_subtotals n [] = refl
  sum_subtotal-plus_subtotals n (item ∷ items) =
      sum_subtotal-plus_subtotals (num.add n item.subtotal) items

  is_empty-has_none : (items : List (CartItem N)) → is_empty items ≡ has_none items
  is_empty-has_none [] = refl
  is_empty-has_none (item ∷ items) = refl

  recalculate-IsTallied : (c : Cart N) → IsTallied (recalculate_cart c)
  unfolding recalculate_cart
  recalculate-IsTallied c = (
    sum_quantity-pieces 0 c.items ∙ (omega arith),
    sum_subtotal-plus_subtotals (num.of_nat 0) c.items,
    is_empty-has_none c.items,
  )

  update-IsTallied :
      (k q op : ℕ) (c : Cart N) → IsTallied c → IsTallied (update_cart_quantity k q op c).0
  unfolding update_cart_quantity
  update-IsTallied k q op c h = elim (Option-cases (find_entry (has_item_id k) c.items)) [
    | inl missing ↦ rw (missing, update_cart_quantity) h
    | inr ((i, item), found) ↦ rw (found, update_cart_quantity) (recalculate-IsTallied _)
  ]

  remove-IsTallied : (k : ℕ) (c : Cart N) → IsTallied c → IsTallied (remove_cart_item k c).0
  unfolding remove_cart_item
  remove-IsTallied k c h = elim (Option-cases (find_entry (has_item_id k) c.items)) [
    | inl missing ↦ rw (missing, remove_cart_item) h
    | inr ((i, item), found) ↦ rw (found, remove_cart_item) (recalculate-IsTallied _)
  ]

  restore_quantity-IsTallied :
      (ctx : QuantityRollbackContext N) (c : Cart N)
      → IsTallied c
      → IsTallied (or_else (restore_cart_quantity ctx c) c)
  unfolding restore_cart_quantity
  restore_quantity-IsTallied ctx c h =
      elim (Option-cases (find_entry (has_item_id ctx.cart_item_id) c.items)) [
        | inl missing ↦ rw (missing, restore_cart_quantity) h
        | inr ((i, item), found) ↦ elim (Option-cases (restore_item ctx item)) [
          | inl changed ↦ rw (found, restore_cart_quantity) (rw changed h)
          | inr (old, same) ↦ rw (found, restore_cart_quantity) (rw same (recalculate-IsTallied _))
        ]
      ]

  restore_item-IsTallied :
      (ctx : RemoveItemRollbackContext N) (c : Cart N)
      → IsTallied c
      → IsTallied (or_else (restore_cart_item ctx c) c)
  unfolding restore_cart_item
  restore_item-IsTallied ctx c h =
      elim (Bool-cases (some_of (has_item_id ctx.cart_item_id) c.items)) [
        | inl present ↦ rw present h
        | inr gone ↦ rw gone (recalculate-IsTallied _)
      ]

  -- A quantity update, its rollback, the removal of an item and its rollback keep every cart
  -- tallied, for any contexts and ids: the count is the pieces of its items, the total is their
  -- subtotals added one by one, and the flag says whether it has none.
  pub optimistic-IsTallied :
      (carts : List (Cart N)) (k q op latest : ℕ) (ctx : QuantityRollbackContext N)
      (removal : RemoveItemRollbackContext N)
      → All IsTallied carts
      → All IsTallied (apply_optimistic_quantity_update carts k q op).0
        × All IsTallied (rollback_optimistic_quantity_update carts ctx latest)
        × All IsTallied (apply_optimistic_item_removal carts k).0
        × All IsTallied (rollback_optimistic_item_removal carts removal)
  unfolding apply_optimistic_quantity_update apply_optimistic_item_removal
      rollback_optimistic_quantity_update rollback_optimistic_item_removal
  optimistic-IsTallied carts k q op latest ctx removal h = (
    All-map_with_context IsTallied _ (update-IsTallied k q op) none carts h,
    elim (Bool-cases (latest == ctx.operation_id)) [
      | inl current ↦ rw current (
          All-modify_found IsTallied (has_cart_id ctx.cart_id) (restore_cart_quantity ctx)
            (restore_quantity-IsTallied ctx) carts h)
      | inr stale ↦ rw stale h
    ],
    All-map_with_context IsTallied _ (remove-IsTallied k) none carts h,
    All-modify_found IsTallied (has_cart_id removal.cart_id) (restore_cart_item removal)
        (restore_item-IsTallied removal) carts h,
  )

  -- the quantities of all items of all carts
  pub all_quantities : List (Cart N) → ℕ
  all_quantities [] = 0
  all_quantities (c ∷ carts) = sum_quantity 0 c.items + all_quantities carts

  total_from :
      (n : ℕ) (carts : List (Cart N))
      → All IsConsistent carts
      → get_total_item_count n carts ≡ n + all_quantities carts
  unfolding get_total_item_count all_quantities recalculate_cart
  total_from n [] h = omega arith
  total_from n (c ∷ carts) h =
      omega (arith, total_from (n + c.item_count) carts h.1, ap (λ x. x.item_count) h.0)

  -- The number on the cart's badge is the sum of the quantities of all items of all carts, if
  -- every cart's totals are those of its items.
  pub get_total_item_count-sum :
      (carts : List (Cart N))
      → All IsConsistent carts
      → get_total_item_count 0 carts ≡ all_quantities carts
  get_total_item_count-sum carts h = total_from 0 carts h ∙ (omega arith)

  unit_price_lem :
      (price : N) (item : CartItem N)
      → ((n : ℕ) → 0 < n → num.div (num.mul price (num.of_nat n)) (num.of_nat n) ≡ price)
      → 0 < item.quantity
      → item.subtotal ≡ num.mul price (num.of_nat item.quantity)
      → unit_price item ≡ price
  unfolding unit_price
  unit_price_lem price item exact pos sub = elim (Bool-cases (ltb 0 item.quantity)) [
    | inl positive ↦ rw positive (rw sub (exact item.quantity pos))
    | inr none_left ↦ absurd (ground arith)
  ]

  -- a series of quantity updates of one item
  pub with_quantities : CartItem N → List ℕ → CartItem N
  with_quantities item [] = item
  with_quantities item (q ∷ qs) = with_quantities (with_quantity item q) qs

  -- An item's price survives any series of updates to positive quantities: the subtotal is the
  -- price times the present quantity, if it was so at first and dividing a multiple of the price
  -- by a positive whole number gives the price back.
  pub with_quantities-price :
      (price : N) (item : CartItem N) (qs : List ℕ)
      → ((n : ℕ) → 0 < n → num.div (num.mul price (num.of_nat n)) (num.of_nat n) ≡ price)
      → 0 < item.quantity
      → item.subtotal ≡ num.mul price (num.of_nat item.quantity)
      → All (λ q. 0 < q) qs
      → (with_quantities item qs).subtotal
        ≡ num.mul price (num.of_nat (with_quantities item qs).quantity)
  unfolding with_quantities with_quantity unit_price
  with_quantities-price price item [] exact pos sub h = sub
  with_quantities-price price item (q ∷ qs) exact pos sub h =
      with_quantities-price price (with_quantity item q) qs exact h.0
        (ap (λ x. num.mul x (num.of_nat q)) (unit_price_lem price item exact pos sub)) h.1

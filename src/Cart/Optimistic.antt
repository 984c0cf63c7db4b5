-- ===== src/Cart/Optimistic.antt =====
-- The pure helpers of resources/js/stores/cartStore.ts: an optimistic change of the carts, the
-- context to take it back, and the rollback.
use fleximo_oss.Base.{
  ℕ, ◌+◌, ltb, min, max, Bool, not, Option, none, some, List, [], ◌∷◌, length, set, is_empty,
  find_entry, insert_at, some_of, filter_by, or_option, if◌then◌else◌, ◌==◌, nat_eq,
}
use fleximo_oss.Cart.{Amount, CartItem, Cart}

pub record QuantityRollbackContext (N : Type 0) : Type 0 where
  pub cart_id : ℕ
  pub cart_item_id : ℕ
  pub requested_quantity : ℕ
  pub previous_quantity : ℕ
  pub previous_subtotal : N
  pub operation_id : ℕ

pub record RemoveItemRollbackContext (N : Type 0) : Type 0 where
  pub cart_id : ℕ
  pub cart_item_id : ℕ
  pub removed_item : CartItem N
  pub removed_item_index : ℕ

pub record ClearCartRollbackContext (N : Type 0) : Type 0 where
  pub cart : Cart N
  pub removed_cart_index : ℕ

-- An index from `findIndex` is not negative here; the maximum with 0 is written as in the source.
abbrev pub clamp_index : ℕ → ℕ → ℕ
clamp_index index len = min (max index 0) len

-- `carts.map(…)` whose callback overwrites a variable: the last context written is returned.
unfoldable pub map_with_context {ℓ κ} :
    {A : Type ℓ} {C : Type κ} → (A → A × Option C) → Option C → List A → List A × Option C
map_with_context f ctx [] = ([], ctx)
map_with_context f ctx (x ∷ xs) =
    let (x', found) = f x in
    let (xs', last) = map_with_context f (or_option found ctx) xs in (x' ∷ xs', last)

-- `if (context) set(…)`, with what it leaves of the carts
abbrev pub if_context {ℓ κ} : {A : Type ℓ} {C : Type κ} → Option C → A → (C → A) → A
if_context none a f = a
if_context (some c) a f = f c

-- `findIndex(p)`, `arr` itself where nothing is found or the change is declined, and otherwise
-- `arr.map((x, i) => i === index ? y : x)`.
unfoldable pub modify_found {ℓ} : {A : Type ℓ} → (A → Bool) → (A → Option A) → List A → List A
modify_found p f xs = elim (find_entry p xs) [
  | none ↦ xs
  | some (i, x) ↦ elim (f x) [ none ↦ xs | some y ↦ set xs i y ]
]

module _ {N : Type 0} where
  abbrev pub has_item_id : ℕ → CartItem N → Bool
  has_item_id k item = item.id == k

  abbrev pub has_cart_id : ℕ → Cart N → Bool
  has_cart_id k cart = cart.id == k

module _ {N : Type 0} ⦃num : Amount N⦄ where
  unfoldable pub sum_quantity : ℕ → List (CartItem N) → ℕ
  sum_quantity sum [] = sum
  sum_quantity sum (item ∷ items) = sum_quantity (sum + item.quantity) items

  unfoldable pub sum_subtotal : N → List (CartItem N) → N
  sum_subtotal sum [] = sum
  sum_subtotal sum (item ∷ items) = sum_subtotal (num.add sum item.subtotal) items

  unfoldable pub recalculate_cart : Cart N → Cart N
  recalculate_cart cart = record cart {
    item_count = sum_quantity 0 cart.items;
    total = sum_subtotal (num.of_nat 0) cart.items;
    is_empty = is_empty cart.items;
  }

  -- the price of one piece, from the item's subtotal
  unfoldable pub unit_price : CartItem N → N
  unit_price item =
      if ltb 0 item.quantity
      then num.div item.subtotal (num.of_nat item.quantity)
      else item.subtotal

  unfoldable pub with_quantity : CartItem N → ℕ → CartItem N
  unfolding unit_price
  with_quantity item quantity = record item {
    quantity = quantity;
    subtotal = num.mul (unit_price item) (num.of_nat quantity);
  }

  abbrev pub replace_item : Cart N → ℕ → CartItem N → Cart N
  replace_item cart i item = recalculate_cart (record cart { items = set cart.items i item })

  abbrev pub quantity_context : ℕ → ℕ → ℕ → Cart N → CartItem N → QuantityRollbackContext N
  quantity_context cart_item_id quantity operation_id cart current = record {
    cart_id = cart.id;
    cart_item_id = cart_item_id;
    requested_quantity = quantity;
    previous_quantity = current.quantity;
    previous_subtotal = current.subtotal;
    operation_id = operation_id;
  }

  -- the callback of the `map` in `applyOptimisticQuantityUpdate`
  unfoldable pub update_cart_quantity :
      ℕ → ℕ → ℕ → Cart N → Cart N × Option (QuantityRollbackContext N)
  update_cart_quantity cart_item_id quantity operation_id cart =
      elim (find_entry (has_item_id cart_item_id) cart.items) [
        | none ↦ (cart, none)
        | some (i, current) ↦ (
          replace_item cart i (with_quantity current quantity),
          some (quantity_context cart_item_id quantity operation_id cart current),
        )
      ]

  unfoldable pub apply_optimistic_quantity_update :
      List (Cart N) → ℕ → ℕ → ℕ → List (Cart N) × Option (QuantityRollbackContext N)
  unfolding map_with_context update_cart_quantity
  apply_optimistic_quantity_update carts cart_item_id quantity operation_id =
      map_with_context (update_cart_quantity cart_item_id quantity operation_id) none carts

  -- the item with its old quantity and subtotal, unless it was changed since
  unfoldable pub restore_item : QuantityRollbackContext N → CartItem N → Option (CartItem N)
  restore_item ctx current =
      if current.quantity == ctx.requested_quantity
      then some
          (record current { quantity = ctx.previous_quantity; subtotal = ctx.previous_subtotal })
      else none

  unfoldable pub restore_cart_quantity : QuantityRollbackContext N → Cart N → Option (Cart N)
  unfolding restore_item
  restore_cart_quantity ctx cart = elim (find_entry (has_item_id ctx.cart_item_id) cart.items) [
    | none ↦ none
    | some (i, current) ↦ elim (restore_item ctx current) [
      | none ↦ none
      | some item ↦ some (replace_item cart i item)
    ]
  ]

  unfoldable pub rollback_optimistic_quantity_update :
      List (Cart N) → QuantityRollbackContext N → ℕ → List (Cart N)
  unfolding modify_found restore_cart_quantity
  rollback_optimistic_quantity_update carts ctx latest_operation_id =
      if latest_operation_id == ctx.operation_id
      then modify_found (has_cart_id ctx.cart_id) (restore_cart_quantity ctx) carts
      else carts

  abbrev pub without_item : ℕ → Cart N → Cart N
  without_item cart_item_id cart =
      recalculate_cart
        (record cart { items = filter_by (λ item. not (has_item_id cart_item_id item)) cart.items })

  abbrev pub removal_context : ℕ → Cart N → ℕ → CartItem N → RemoveItemRollbackContext N
  removal_context cart_item_id cart i removed = record {
    cart_id = cart.id;
    cart_item_id = cart_item_id;
    removed_item = removed;
    removed_item_index = i;
  }

  -- the callback of the `map` in `applyOptimisticItemRemoval`
  unfoldable pub remove_cart_item : ℕ → Cart N → Cart N × Option (RemoveItemRollbackContext N)
  remove_cart_item cart_item_id cart = elim (find_entry (has_item_id cart_item_id) cart.items) [
    | none ↦ (cart, none)
    | some (i, removed) ↦
        (without_item cart_item_id cart, some (removal_context cart_item_id cart i removed))
  ]

  unfoldable pub apply_optimistic_item_removal :
      List (Cart N) → ℕ → List (Cart N) × Option (RemoveItemRollbackContext N)
  unfolding map_with_context remove_cart_item
  apply_optimistic_item_removal carts cart_item_id =
      map_with_context (remove_cart_item cart_item_id) none carts

  unfoldable pub restore_cart_item : RemoveItemRollbackContext N → Cart N → Option (Cart N)
  restore_cart_item ctx cart =
      if some_of (has_item_id ctx.cart_item_id) cart.items
      then none
      else some (
          recalculate_cart (record cart {
            items =
                insert_at cart.items (clamp_index ctx.removed_item_index (length cart.items))
                  ctx.removed_item;
          }))

  unfoldable pub rollback_optimistic_item_removal :
      List (Cart N) → RemoveItemRollbackContext N → List (Cart N)
  unfolding modify_found restore_cart_item
  rollback_optimistic_item_removal carts ctx =
      modify_found (has_cart_id ctx.cart_id) (restore_cart_item ctx) carts

module _ {N : Type 0} where
  unfoldable pub apply_optimistic_clear_cart :
      List (Cart N) → ℕ → List (Cart N) × Option (ClearCartRollbackContext N)
  apply_optimistic_clear_cart carts cart_id = elim (find_entry (has_cart_id cart_id) carts) [
    | none ↦ (carts, none)
    | some (i, cart) ↦ (
      filter_by (λ c. not (has_cart_id cart_id c)) carts,
      some (record { cart = cart; removed_cart_index = i }),
    )
  ]

  unfoldable pub rollback_optimistic_clear_cart :
      List (Cart N) → ClearCartRollbackContext N → List (Cart N)
  rollback_optimistic_clear_cart carts ctx =
      if some_of (has_cart_id ctx.cart.id) carts
      then carts
      else insert_at carts (clamp_index ctx.removed_cart_index (length carts)) ctx.cart

-- ===== src/Cart/Scenarios.antt =====
-- Examples of the carts and the store, in whole yen.
use fleximo_oss.Base.{
  ℕ, false, none, some, List, [], ◌∷◌, if◌then◌else◌, ◌≡◌, refl, arith, All, ltb,
}
use fleximo_oss.Cart.{CartItem, CartMenuItemInfo, Cart, yen}
use fleximo_oss.Cart.Optimistic.{
  if_context, recalculate_cart, sum_quantity, sum_subtotal, quantity_context, removal_context,
  apply_optimistic_quantity_update, rollback_optimistic_quantity_update,
  apply_optimistic_item_removal, rollback_optimistic_item_removal, apply_optimistic_clear_cart,
  rollback_optimistic_clear_cart, map_with_context, update_cart_quantity, with_quantity, unit_price,
}
use fleximo_oss.Cart.Rollback.{
  IsValid, IsConsistent, rollback-apply_quantity, rollback-apply_removal, rollback-apply_clear,
}
use fleximo_oss.Cart.Totals.{IsTallied, optimistic-IsTallied}
use fleximo_oss.Cart.State.{
  CartStore, Event, update_quantity, timer_fires, patch_reply, reset, initial_state, success,
}
use fleximo_oss.Cart.Store.{run}
use fleximo_oss.Cart.Flush.{IsDriven, run-IsDriven}
use fleximo_oss.Cart.Promises.{owed}
use fleximo_oss.Cart.Settling.{owed-run}
use fleximo_oss.Cart.Stale.{both_refused}

abbrev dish : ℕ → CartMenuItemInfo ℕ
dish price = record { id = 7; name = "カレー"; description = none; price = price; is_sold_out = false }

abbrev curry : CartItem ℕ
curry = record { id = 1; menu_item = dish 300; quantity = 2; options = []; subtotal = 600 }

abbrev noodles : CartItem ℕ
noodles = record { id = 2; menu_item = dish 450; quantity = 1; options = []; subtotal = 450 }

abbrev lunch : Cart ℕ
lunch = record {
  id = 10;
  user_id = 5;
  tenant_id = 3;
  tenant = none;
  items = curry ∷ noodles ∷ [];
  total = 1050;
  item_count = 3;
  is_empty = false;
}

abbrev carts : List (Cart ℕ)
carts = lunch ∷ []

lunch-IsConsistent : IsConsistent lunch
unfolding recalculate_cart sum_quantity sum_subtotal
lunch-IsConsistent = refl

carts-IsValid : IsValid carts
carts-IsValid = record {
  cart_ids = λ k. (λ h. tt, tt);
  item_owner = λ k. (λ h. tt, tt);
  item_ids = λ k. ((λ h. (ground arith, tt), (λ h. tt, tt)), tt);
  consistent = (lunch-IsConsistent, tt);
}

rollback-apply_quantity_example :
    let (changed, ctx) = apply_optimistic_quantity_update carts 1 4 1 in
    if_context ctx changed (λ c. rollback_optimistic_quantity_update changed c 1) ≡ carts
rollback-apply_quantity_example = rollback-apply_quantity carts 1 4 1 carts-IsValid

rollback-apply_removal_example :
    let (changed, ctx) = apply_optimistic_item_removal carts 2 in
    if_context ctx changed (rollback_optimistic_item_removal changed) ≡ carts
rollback-apply_removal_example = rollback-apply_removal carts 2 carts-IsValid

rollback-apply_clear_example :
    let (changed, ctx) = apply_optimistic_clear_cart carts 10 in
    if_context ctx changed (rollback_optimistic_clear_cart changed) ≡ carts
rollback-apply_clear_example = rollback-apply_clear carts 10 (λ h. tt, tt)

optimistic-IsTallied_example :
    All IsTallied (apply_optimistic_quantity_update carts 1 5 2).0
    × All IsTallied
        (rollback_optimistic_quantity_update carts (quantity_context 1 5 2 lunch curry) 2)
    × All IsTallied (apply_optimistic_item_removal carts 1).0
    × All IsTallied (rollback_optimistic_item_removal carts (removal_context 1 lunch 0 curry))
optimistic-IsTallied_example =
    optimistic-IsTallied carts 1 5 2 2 (quantity_context 1 5 2 lunch curry)
      (removal_context 1 lunch 0 curry) ((refl, refl, refl), tt)

abbrev bumped : Cart ℕ
bumped = record lunch {
  items = record curry { quantity = 4; subtotal = 1200 } ∷ noodles ∷ [];
  total = 1650;
  item_count = 5;
}

bumped-IsValid : IsValid (apply_optimistic_quantity_update carts 1 4 1).0
unfolding apply_optimistic_quantity_update map_with_context update_cart_quantity with_quantity
    unit_price recalculate_cart sum_quantity sum_subtotal
bumped-IsValid = record {
  cart_ids = λ k. (λ h. tt, tt);
  item_owner = λ k. (λ h. tt, tt);
  item_ids = λ k. ((λ h. (ground arith, tt), (λ h. tt, tt)), tt);
  consistent = (refl, tt);
}

both_refused_example :
    let first = quantity_context 1 4 1 lunch curry in
    let once = (apply_optimistic_quantity_update carts 1 4 1).0 in
    let (twice, second) = apply_optimistic_quantity_update once 1 6 2 in
    let after_first = rollback_optimistic_quantity_update twice first 2 in
    (after_first ≡ twice)
    × (if_context second after_first (λ c. rollback_optimistic_quantity_update after_first c 2)
        ≡ once)
both_refused_example =
    both_refused carts 1 4 6 1 (quantity_context 1 4 1 lunch curry) refl bumped-IsValid

abbrev start : CartStore ℕ
start = record initial_state { carts = carts }

-- Two changes of one item in two flushes, both refused: the store ends with the first change.
abbrev refusals : List (Event ℕ)
refusals =
    update_quantity 1 4
    ∷ timer_fires 0
    ∷ update_quantity 1 6
    ∷ patch_reply 0 0 (some "在庫不足")
    ∷ patch_reply 0 0 (some "在庫不足")
    ∷ []

refusals_keep_first :
    ((run start refusals).carts ≡ bumped ∷ [])
    × ((run start refusals).settled ≡ (0, success false) ∷ (1, success false) ∷ [])
unfolding run initial_state
refusals_keep_first = (refl, refl)

-- A reset while a request is under way, and a change after it: two loops run at once.
abbrev overlapping : List (Event ℕ)
overlapping =
    update_quantity 1 4
    ∷ timer_fires 0
    ∷ reset
    ∷ update_quantity 1 5
    ∷ timer_fires 1
    ∷ patch_reply 0 0 none
    ∷ update_quantity 1 6
    ∷ []

run-IsDriven_example : IsDriven (run {N = ℕ} initial_state overlapping)
run-IsDriven_example = run-IsDriven overlapping

owed-run_example :
    owed 2 (run {N = ℕ} initial_state overlapping)
    ≡ (if ltb 2 (run {N = ℕ} initial_state overlapping).next_promise then 1 else 0)
owed-run_example = owed-run 2 overlapping

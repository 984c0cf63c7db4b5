-- ===== src/Cart/Stale.antt =====
-- Two changes of one item under way at once, in resources/js/stores/cartStore.ts.
use fleximo_oss.Base.{
  ℕ, ◌+◌, List, ◌≡◌, ◌≢◌, arith, Bool-cases, inl, inr, ◌==◌, nat_eq, nat_beq_iff,
}
use fleximo_oss.Cart.{Amount, Cart}
use fleximo_oss.Cart.Rollback.{IsValid, rollback-apply_quantity}
use fleximo_oss.Cart.Optimistic.{
  QuantityRollbackContext, if_context, apply_optimistic_quantity_update,
  rollback_optimistic_quantity_update,
}

module _ {N : Type 0} ⦃num : Amount N⦄ where
  -- A rollback for an operation that is not the item's latest changes nothing.
  stale_rollback :
      (carts : List (Cart N)) (ctx : QuantityRollbackContext N) (latest : ℕ)
      → latest ≢ ctx.operation_id
      → rollback_optimistic_quantity_update carts ctx latest ≡ carts
  unfolding rollback_optimistic_quantity_update
  stale_rollback carts ctx latest h = elim (Bool-cases (latest == ctx.operation_id)) [
    | inl same ↦ absurd (h ((nat_beq_iff latest ctx.operation_id).0 same))
    | inr other ↦ rw other
  ]

  -- The first change of an item is under way when a second is made, and the server refuses both,
  -- the first one first. The first refusal takes nothing back, and the second goes back to the
  -- carts of the first change: they keep a quantity that the server refused. Here `op` is the
  -- operation of the first change, `first` the context that it left, and the carts after it have
  -- unique ids and agreeing totals.
  pub both_refused :
      (carts : List (Cart N)) (k q1 q2 op : ℕ) (first : QuantityRollbackContext N)
      → first.operation_id ≡ op
      → IsValid (apply_optimistic_quantity_update carts k q1 op).0
      → let once = (apply_optimistic_quantity_update carts k q1 op).0 in
        let (twice, second) = apply_optimistic_quantity_update once k q2 (op + 1) in
        let after_first = rollback_optimistic_quantity_update twice first (op + 1) in
        (after_first ≡ twice)
        × (if_context second after_first
              (λ c. rollback_optimistic_quantity_update after_first c (op + 1))
            ≡ once)
  both_refused carts k q1 q2 op first e v =
      let once = (apply_optimistic_quantity_update carts k q1 op).0 in
      let (twice, second) = apply_optimistic_quantity_update once k q2 (op + 1) in
      let kept = stale_rollback twice first (op + 1) (omega arith) in
      (kept, rw kept (rollback-apply_quantity once k q2 (op + 1) v))

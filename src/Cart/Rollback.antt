-- ===== src/Cart/Rollback.antt =====
-- The optimistic changes of resources/js/stores/cartStore.ts together with their rollbacks.
use fleximo_oss.Base.{
  ℕ, suc, Bool, true, false, not, none, some, List, [], ◌∷◌, ◌++◌, find_entry, some_of, filter_by,
  ◌≡◌, refl, ap, ◌∙◌, arith, Bool-cases, inl, inr, nat_eq, beq_refl, Option-cases, All, nat_beq_iff,
}
use fleximo_oss.Cart.{Amount, CartItem, Cart}
use fleximo_oss.Cart.Entries.{
  None, AtMostOne, Split-of_AtMostOne, None-before, modify_found-split, find_entry_sound,
  find_entry-set, set-set_found, some_of-filter_by, insert_at-filter_by, map_with_context_of_None,
  map_with_context-split,
}
use fleximo_oss.Cart.Optimistic.{
  has_item_id, has_cart_id, recalculate_cart, replace_item, quantity_context, without_item,
  removal_context, if_context, with_quantity, update_cart_quantity,
  apply_optimistic_quantity_update, restore_cart_quantity, rollback_optimistic_quantity_update,
  remove_cart_item, apply_optimistic_item_removal, restore_cart_item,
  rollback_optimistic_item_removal, apply_optimistic_clear_cart, rollback_optimistic_clear_cart,
}

module _ {N : Type 0} where
  abbrev pub holds_item : ℕ → Cart N → Bool
  holds_item k cart = some_of (has_item_id k) cart.items

  find_entry_of_holds :
      (k : ℕ) (items : List (CartItem N))
      → some_of (has_item_id k) items ≡ false
      → find_entry (has_item_id k) items ≡ none
  find_entry_of_holds k [] h = refl
  find_entry_of_holds k (x ∷ items) h = ground (arith, find_entry_of_holds k items)

module _ {N : Type 0} ⦃num : Amount N⦄ where
  -- The cart's totals are those of its items.
  abbrev pub IsConsistent : Cart N → Type 0
  IsConsistent cart = recalculate_cart cart ≡ cart

  -- What the server guarantees of the carts: primary keys are unique, and totals agree with items.
  pub record IsValid (carts : List (Cart N)) : Type 0 where
    pub cart_ids : (k : ℕ) → AtMostOne (has_cart_id k) carts
    pub item_owner : (k : ℕ) → AtMostOne (holds_item k) carts
    pub item_ids : (k : ℕ) → All (λ c. AtMostOne (has_item_id k) c.items) carts
    pub consistent : All IsConsistent carts

  module _ {ℓ} (P : Cart N → Type ℓ) where
    pub All-at :
        (pre : List (Cart N)) (x : Cart N) (post : List (Cart N)) → All P (pre ++ x ∷ post) → P x
    All-at [] x post h = h.0
    All-at (z ∷ pre) x post h = All-at pre x post h.1

  restore-update :
      (k q op : ℕ) (c : Cart N) (i : ℕ) (item : CartItem N)
      → IsConsistent c
      → find_entry (has_item_id k) c.items ≡ some (i, item)
      → restore_cart_quantity
          (quantity_context k q op c item)
          (replace_item c i (with_quantity item q))
        ≡ some c
  unfolding restore_cart_quantity with_quantity recalculate_cart
  restore-update k q op c i item ok found =
      let passes = find_entry_sound (has_item_id k) c.items i item found in
      let item' = with_quantity item q in
      let again = find_entry-set (has_item_id k) c.items i item item' found passes in
      let back = set-set_found (has_item_id k) c.items i item item' found in
      rw (again, restore_cart_quantity) (rw (beq_refl q) (rw back (ap some ok)))

  restore-remove :
      (k : ℕ) (c : Cart N) (i : ℕ) (item : CartItem N)
      → IsConsistent c
      → AtMostOne (has_item_id k) c.items
      → find_entry (has_item_id k) c.items ≡ some (i, item)
      → restore_cart_item (removal_context k c i item) (without_item k c) ≡ some c
  unfolding restore_cart_item recalculate_cart
  restore-remove k c i item ok u found =
      rw (some_of-filter_by (has_item_id k) c.items, restore_cart_item)
        (rw (insert_at-filter_by (has_item_id k) c.items i item u found) (ap some ok))

  find_entry_of_some_of :
      (k : ℕ) (items : List (CartItem N))
      → some_of (has_item_id k) items ≡ true
      → (i : ℕ) × (item : CartItem N) × (find_entry (has_item_id k) items ≡ some (i, item))
  find_entry_of_some_of k [] h = cc
  find_entry_of_some_of k (x ∷ items) h = elim (Bool-cases (has_item_id k x)) [
    | inl here ↦ (0, x, rw here)
    | inr later ↦
        let (i, item, found) = find_entry_of_some_of k items (ground arith) in
        (suc i, item, rw later (rw found))
  ]

  update-keeps :
      (k q op : ℕ) (c : Cart N) → holds_item k c ≡ false → update_cart_quantity k q op c ≡ (c, none)
  unfolding update_cart_quantity
  update-keeps k q op c h = rw (find_entry_of_holds k c.items h, update_cart_quantity)

  update-at :
      (k q op : ℕ) (c : Cart N) (i : ℕ) (item : CartItem N)
      → find_entry (has_item_id k) c.items ≡ some (i, item)
      → update_cart_quantity k q op c
        ≡ (replace_item c i (with_quantity item q), some (quantity_context k q op c item))
  unfolding update_cart_quantity
  update-at k q op c i item found = rw (found, update_cart_quantity)

  remove-keeps : (k : ℕ) (c : Cart N) → holds_item k c ≡ false → remove_cart_item k c ≡ (c, none)
  unfolding remove_cart_item
  remove-keeps k c h = rw (find_entry_of_holds k c.items h, remove_cart_item)

  remove-at :
      (k : ℕ) (c : Cart N) (i : ℕ) (item : CartItem N)
      → find_entry (has_item_id k) c.items ≡ some (i, item)
      → remove_cart_item k c ≡ (without_item k c, some (removal_context k c i item))
  unfolding remove_cart_item
  remove-at k c i item found = rw (found, remove_cart_item)

  update-restores :
      (k q op : ℕ) (pre : List (Cart N)) (c : Cart N) (post : List (Cart N))
      → holds_item k c ≡ true
      → None (holds_item k) pre
      → None (holds_item k) post
      → IsValid (pre ++ c ∷ post)
      → let (changed, ctx) = apply_optimistic_quantity_update (pre ++ c ∷ post) k q op in
        if_context ctx changed (λ x. rollback_optimistic_quantity_update changed x op)
        ≡ pre ++ c ∷ post
  unfolding apply_optimistic_quantity_update rollback_optimistic_quantity_update recalculate_cart
  update-restores k q op pre c post h before after v =
      let (i, item, found) = find_entry_of_some_of k c.items h in
      let same_id = None-before (has_cart_id c.id) pre c post (beq_refl c.id) (v.cart_ids c.id) in
      let back =
        restore-update k q op c i item (All-at IsConsistent pre c post v.consistent) found in
      rw
        (map_with_context-split (holds_item k) (update_cart_quantity k q op) (update-keeps k q op)
          none (quantity_context k q op c item) pre c (replace_item c i (with_quantity item q)) post
          before after (update-at k q op c i item found))
        (rw (beq_refl op) (
          modify_found-split (has_cart_id c.id)
            (restore_cart_quantity (quantity_context k q op c item)) pre
            (replace_item c i (with_quantity item q)) post same_id (beq_refl c.id)
          ∙ rw back))

  remove-restores :
      (k : ℕ) (pre : List (Cart N)) (c : Cart N) (post : List (Cart N))
      → holds_item k c ≡ true
      → None (holds_item k) pre
      → None (holds_item k) post
      → IsValid (pre ++ c ∷ post)
      → let (changed, ctx) = apply_optimistic_item_removal (pre ++ c ∷ post) k in
        if_context ctx changed (rollback_optimistic_item_removal changed) ≡ pre ++ c ∷ post
  unfolding apply_optimistic_item_removal rollback_optimistic_item_removal recalculate_cart
  remove-restores k pre c post h before after v =
      let (i, item, found) = find_entry_of_some_of k c.items h in
      let same_id = None-before (has_cart_id c.id) pre c post (beq_refl c.id) (v.cart_ids c.id) in
      let unique = All-at (λ x. AtMostOne (has_item_id k) x.items) pre c post (v.item_ids k) in
      let back =
        restore-remove k c i item (All-at IsConsistent pre c post v.consistent) unique found in
      rw
        (map_with_context-split (holds_item k) (remove_cart_item k) (remove-keeps k) none
          (removal_context k c i item) pre c (without_item k c) post before after
          (remove-at k c i item found))
        (modify_found-split (has_cart_id c.id) (restore_cart_item (removal_context k c i item)) pre
            (without_item k c) post same_id (beq_refl c.id)
          ∙ rw back)

  -- Rolling a quantity update back gives the carts that it was applied to, in every field, if no
  -- newer operation on the item was started and nothing changed the carts in between. Where no
  -- cart holds the item there is nothing to roll back.
  pub rollback-apply_quantity :
      (carts : List (Cart N)) (k q op : ℕ)
      → IsValid carts
      → let (changed, ctx) = apply_optimistic_quantity_update carts k q op in
        if_context ctx changed (λ c. rollback_optimistic_quantity_update changed c op) ≡ carts
  unfolding apply_optimistic_quantity_update
  rollback-apply_quantity carts k q op v =
      elim (Split-of_AtMostOne (holds_item k) carts (v.item_owner k)) [
        | inl missing ↦ rw (
            map_with_context_of_None (holds_item k) (update_cart_quantity k q op)
              (update-keeps k q op) none carts missing)
        | inr s ↦ rw s.whole (
            update-restores k q op s.pre s.at s.post s.passes s.none_before s.none_after
              (rw s.whole at v))
      ]

  -- Rolling the removal of an item back gives the carts that it was applied to, the item at its
  -- place, if nothing changed them in between. Where no cart holds the item nothing changes.
  pub rollback-apply_removal :
      (carts : List (Cart N)) (k : ℕ)
      → IsValid carts
      → let (changed, ctx) = apply_optimistic_item_removal carts k in
        if_context ctx changed (rollback_optimistic_item_removal changed) ≡ carts
  unfolding apply_optimistic_item_removal
  rollback-apply_removal carts k v =
      elim (Split-of_AtMostOne (holds_item k) carts (v.item_owner k)) [
        | inl missing ↦ rw (
            map_with_context_of_None (holds_item k) (remove_cart_item k) (remove-keeps k) none carts
              missing)
        | inr s ↦ rw s.whole (
            remove-restores k s.pre s.at s.post s.passes s.none_before s.none_after
              (rw s.whole at v))
      ]

module _ {N : Type 0} where
  clear-at :
      (carts : List (Cart N)) (k i : ℕ) (c : Cart N)
      → find_entry (has_cart_id k) carts ≡ some (i, c)
      → apply_optimistic_clear_cart carts k ≡ (
        filter_by (λ x. not (has_cart_id k x)) carts,
        some (record { cart = c; removed_cart_index = i }),
      )
  unfolding apply_optimistic_clear_cart
  clear-at carts k i c found = rw (found, apply_optimistic_clear_cart)

  clear-keeps :
      (carts : List (Cart N)) (k : ℕ)
      → find_entry (has_cart_id k) carts ≡ none
      → apply_optimistic_clear_cart carts k ≡ (carts, none)
  unfolding apply_optimistic_clear_cart
  clear-keeps carts k missing = rw (missing, apply_optimistic_clear_cart)

  -- Rolling the removal of a cart back gives the list of carts as it was.
  pub rollback-apply_clear :
      (carts : List (Cart N)) (k : ℕ)
      → AtMostOne (has_cart_id k) carts
      → let (changed, ctx) = apply_optimistic_clear_cart carts k in
        if_context ctx changed (rollback_optimistic_clear_cart changed) ≡ carts
  unfolding rollback_optimistic_clear_cart
  rollback-apply_clear carts k u = elim (Option-cases (find_entry (has_cart_id k) carts)) [
    | inl missing ↦ rw (clear-keeps carts k missing)
    | inr ((i, c), found) ↦
        let same = (nat_beq_iff c.id k).0 (find_entry_sound (has_cart_id k) carts i c found) in
        let others = filter_by (λ x. not (has_cart_id k x)) carts in
        let gone : some_of (has_cart_id c.id) others ≡ false =
          rw same (some_of-filter_by (has_cart_id k) carts) in
        rw (clear-at carts k i c found)
          (rw gone (insert_at-filter_by (has_cart_id k) carts i c u found))
  ]

-- ===== src/ItemDetail/Requirements.antt =====
-- What is put in the cart meets the requirements of the item, of resources/js/Hooks/
-- useItemDetailForm.ts.
use fleximo_oss.Base.{
  ℕ, ◌≤◌, Bool, true, false, Option, none, some, or_else, List, [], ◌∷◌, ◌++◌, length,
  if◌then◌else◌, ◌==◌, ◌&&◌, nat_eq, nat_beq_iff, leb, includes, ◌≡◌, refl, ap, ◌∙◌, subst, arith,
  if_elim, Bool-cases, inl, inr, All,
}
use mathlib.Core.Option.{some-injective}
use mathlib.Core.Path.{fun_ext}
use fleximo_oss.JsMap.{get}
use fleximo_oss.ItemDetail.{
  OptionGroup, MenuItem, CartItemData, Selections, ItemForm, Event, show, hide, option_change,
  set_quantity, init_form, set_key, initial_options, selected_of, selected_option_ids,
  is_group_valid, are_valid, handle_add_to_cart, step, run,
}

-- The selection of a group that is set is read again, and the others stay.
get-set_key :
    (m : Selections) (k j : ℕ) (v : List ℕ)
    → get (set_key m k v) j ≡ (if k == j then some v else get m j)
unfolding set_key get
get-set_key [] k j v = refl
get-set_key ((i, w) ∷ m) k j v =
    ground (
      arith,
      get-set_key m k j v,
      nat_beq_iff i k,
      nat_beq_iff k i,
      nat_beq_iff i j,
      nat_beq_iff k j,
    )

includes_left : (xs ys : List ℕ) (x : ℕ) → includes xs x ≡ true → includes (xs ++ ys) x ≡ true
includes_left [] ys x h = ground (arith, h)
includes_left (y ∷ xs) ys x h = ground (arith, includes_left xs ys x, h)

includes_right : (xs ys : List ℕ) (x : ℕ) → includes ys x ≡ true → includes (xs ++ ys) x ≡ true
includes_right [] ys x h = h
includes_right (y ∷ xs) ys x h = ground (arith, includes_right xs ys x h)

-- Every selected option is among the ids.
selected_of-sent :
    (m : Selections) (k id : ℕ)
    → includes (selected_of m k) id ≡ true
    → includes (selected_option_ids m) id ≡ true
unfolding selected_of selected_option_ids get
selected_of-sent [] k id h = ground (arith, h)
selected_of-sent ((j, ids) ∷ m) k id h = elim (Bool-cases (j == k)) [
  | inl same ↦ includes_left ids (selected_option_ids m) id (rw (selected_of, get, same) at h)
  | inr other ↦
      includes_right ids (selected_option_ids m) id
        (selected_of-sent m k id (rw (selected_of, get, other) at h))
]

-- The ids are as many as the group needs.
abbrev pub IsMet : OptionGroup → List ℕ → Type 0
IsMet group ids = (group.min_select ≤ length ids) × (group.required ≡ true → 1 ≤ length ids)

group-IsMet :
    (group : OptionGroup) (ids : List ℕ) → is_group_valid group ids ≡ true → IsMet group ids
unfolding is_group_valid
group-IsMet group ids h = counted group.required group.min_select (length ids) h
  where
    counted :
        (required : Bool) (least n : ℕ)
        → (if required && n == 0 then false else leb least n) ≡ true
        → (least ≤ n) × (required ≡ true → 1 ≤ n)
    counted required least n h = (ground (arith, h), (λ e. ground (arith, h, e)))

are_valid-IsMet :
    (groups : List OptionGroup) (m : Selections)
    → are_valid groups m ≡ true
    → All (λ g. IsMet g (selected_of m g.id)) groups
unfolding are_valid
are_valid-IsMet [] m h = tt
are_valid-IsMet (group ∷ groups) m h =
    let (one, rest) = both (is_group_valid group (selected_of m group.id)) (are_valid groups m) h in
    (group-IsMet group (selected_of m group.id) one, are_valid-IsMet groups m rest)
  where
    both : (b c : Bool) → (b && c) ≡ true → (b ≡ true) × (c ≡ true)
    both b c h = (ground (arith, h), ground (arith, h))

-- What was last selected for a group, since an item was last shown.
abbrev pub last_choice : ℕ → List ℕ → List Event → List ℕ
last_choice k now [] = now
last_choice k now (show item ∷ es) = last_choice k [] es
last_choice k now (hide item ∷ es) = last_choice k now es
last_choice k now (option_change group ids ∷ es) =
    last_choice k (if group == k then ids else now) es
last_choice k now (set_quantity n ∷ es) = last_choice k now es

or_else_if :
    (b : Bool) (v : List ℕ) (o : Option (List ℕ))
    → or_else (if b then some v else o) [] ≡ (if b then v else or_else o [])
or_else_if true v o = refl
or_else_if false v o = refl

selected_of-set_key :
    (m : Selections) (k j : ℕ) (v : List ℕ)
    → selected_of (set_key m k v) j ≡ (if k == j then v else selected_of m j)
unfolding selected_of
selected_of-set_key m k j v =
    ap (λ o. or_else o []) (get-set_key m k j v) ∙ or_else_if (k == j) v (get m j)

-- An item starts with nothing selected.
selected_of-initial_options :
    (groups : List OptionGroup) (m : Selections) (k : ℕ)
    → selected_of m k ≡ []
    → selected_of (initial_options groups m) k ≡ []
unfolding initial_options
selected_of-initial_options [] m k h = h
selected_of-initial_options (g ∷ groups) m k h =
    selected_of-initial_options groups (set_key m g.id []) k (
      selected_of-set_key m g.id k []
      ∙ if_elim (λ l. l ≡ []) (g.id == k) [] (selected_of m k) refl h)

selected_of-run :
    (es : List Event) (s : ItemForm) (k : ℕ)
    → selected_of (run s es).selected k ≡ last_choice k (selected_of s.selected k) es
unfolding run step selected_of get
selected_of-run [] s k = refl
selected_of-run (show item ∷ es) s k =
    selected_of-run es (step s (show item)) k
    ∙ ap (λ now. last_choice k now es) (selected_of-initial_options item.option_groups [] k refl)
selected_of-run (hide item ∷ es) s k = selected_of-run es (step s (hide item)) k
selected_of-run (option_change group ids ∷ es) s k =
    selected_of-run es (step s (option_change group ids)) k
    ∙ ap (λ now. last_choice k now es) (selected_of-set_key s.selected group k ids)
selected_of-run (set_quantity n ∷ es) s k = selected_of-run es (step s (set_quantity n)) k

-- The data are for the item, with enough options in each of its groups and all that were chosen.
abbrev pub IsOrdered : (ℕ → List ℕ) → Option MenuItem → CartItemData → Type 0
IsOrdered chosen none sent = ⊥
IsOrdered chosen (some item) sent =
    (sent.menu_item_id ≡ item.id)
    × All (λ g. IsMet g (chosen g.id)) item.option_groups
    × ((k id : ℕ) → includes (chosen k) id ≡ true → includes sent.selected_options id ≡ true)

none_is_not : {C : Type 0} {sent : CartItemData} → none ≡ some sent → C
none_is_not h = ground (arith, h)

add-IsOrdered :
    (s : ItemForm) (sent : CartItemData)
    → handle_add_to_cart s ≡ some sent
    → IsOrdered (selected_of s.selected) s.item sent
unfolding handle_add_to_cart
add-IsOrdered s sent h = with_item s.item h
  where
    with_item :
        (o : Option MenuItem)
        → (elim o [
          | none ↦ none
          | some item ↦
              if are_valid item.option_groups s.selected
              then some (record {
                menu_item_id = item.id;
                quantity = s.quantity;
                selected_options = selected_option_ids s.selected;
              })
              else none
        ])
          ≡ some sent
        → IsOrdered (selected_of s.selected) o sent
    with_item none k = ground (arith, k)
    with_item (some item) k = elim (Bool-cases (are_valid item.option_groups s.selected)) [
      | inl valid ↦
          subst (IsOrdered (selected_of s.selected) (some item))
            (some-injective _ _ (rw valid at k))
            (
              refl,
              are_valid-IsMet item.option_groups s.selected valid,
              (λ j id. selected_of-sent s.selected j id),
            )
      | inr other ↦ none_is_not (rw other at k)
    ]

-- What is put in the cart is the item shown, with at least the least number of options in each of
-- its groups and at least one in each that is required, counted by what was last chosen since an
-- item was last shown; and every option chosen is put in.
pub handle_add_to_cart-IsOrdered :
    (es : List Event) (sent : CartItemData)
    → handle_add_to_cart (run init_form es) ≡ some sent
    → IsOrdered (λ k. last_choice k [] es) (run init_form es).item sent
unfolding init_form get selected_of
handle_add_to_cart-IsOrdered es sent h =
    subst (λ chosen. IsOrdered chosen (run init_form es).item sent)
      (fun_ext (λ k. selected_of-run es init_form k)) (add-IsOrdered (run init_form es) sent h)

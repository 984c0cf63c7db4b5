-- ===== src/ItemDetail/Scenarios.antt =====
-- An item with two groups of options (resources/js/Hooks/useItemDetailForm.ts).
use fleximo_oss.Base.{true, false, none, List, [], ◌∷◌, ◌≡◌, refl}
use fleximo_oss.ItemDetail.{
  MenuItem, CartItemData, Event, show, option_change, set_quantity, init_form, handle_add_to_cart,
  run,
}
use fleximo_oss.ItemDetail.Requirements.{last_choice, IsOrdered, handle_add_to_cart-IsOrdered}

abbrev curry : MenuItem
curry = record {
  id = 7;
  option_groups =
      record { id = 2; required = true; min_select = 0; options = [] }
      ∷ record { id = 1; required = false; min_select = 2; options = [] }
      ∷ [];
}

abbrev choices : List Event
choices =
    show curry ∷ option_change 2 (21 ∷ []) ∷ option_change 1 (11 ∷ 12 ∷ []) ∷ set_quantity 3 ∷ []

-- The ids come in the order of the groups' numbers.
abbrev ordered : CartItemData
ordered = record { menu_item_id = 7; quantity = 3; selected_options = 11 ∷ 12 ∷ 21 ∷ [] }

handle_add_to_cart-IsOrdered_example :
    IsOrdered (λ k. last_choice k [] choices) (run init_form choices).item ordered
unfolding handle_add_to_cart run init_form
handle_add_to_cart-IsOrdered_example = handle_add_to_cart-IsOrdered choices ordered refl

-- A required group without a choice is not enough, though its least number is 0.
unchosen :
    handle_add_to_cart (run init_form (show curry ∷ option_change 1 (11 ∷ 12 ∷ []) ∷ [])) ≡ none
unfolding handle_add_to_cart run init_form
unchosen = refl

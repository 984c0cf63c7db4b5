-- ===== src/ItemDetail.antt =====
-- The choice of options for an item of the menu, resources/js/Hooks/useItemDetailForm.ts. The
-- selections by group are an object with numbers as keys, which JavaScript keeps in the order of
-- the numbers.
pub mod Requirements
mod Scenarios
use fleximo_oss.Base.{
  ℕ, Bool, true, false, not, Option, none, some, or_else, String, List, [], ◌∷◌, ◌++◌, length,
  is_empty, find_entry, if◌then◌else◌, ◌==◌, ◌&&◌, nat_eq, ltb, leb,
}
use fleximo_oss.JsMap.{JsMap, get}

-- `CustomerMenuOption` and, of `CustomerMenuOptionGroup` and `CustomerMenuItem`, what the hook reads
pub record MenuOption : Type 0 where
  pub id : ℕ
  pub name : String
  pub price : ℕ

pub record OptionGroup : Type 0 where
  pub id : ℕ
  pub required : Bool
  pub min_select : ℕ
  pub options : List MenuOption

pub record MenuItem : Type 0 where
  pub id : ℕ
  pub option_groups : List OptionGroup

pub record CartItemData : Type 0 where
  pub menu_item_id : ℕ
  pub quantity : ℕ
  pub selected_options : List ℕ

abbrev pub Selections : Type 0
Selections = JsMap ℕ (List ℕ)

pub record ItemForm : Type 0 where
  -- the item of the last render
  pub item : Option MenuItem
  pub quantity : ℕ
  pub selected : Selections

pub data Event : Type 0 where
  -- the page opens the form for an item, or closes it and may keep the item
  show : MenuItem → Event
  hide : Option MenuItem → Event
  option_change : (group : ℕ) → (option_ids : List ℕ) → Event
  set_quantity : (quantity : ℕ) → Event

unfoldable pub init_form : ItemForm
init_form = record { item = none; quantity = 1; selected = [] }

-- `{ ...prev, [groupId]: optionIds }`
unfoldable pub set_key : Selections → ℕ → List ℕ → Selections
set_key [] k v = (k, v) ∷ []
set_key ((j, w) ∷ m) k v =
    let rest = set_key m k v in
    if k == j then (j, v) ∷ m else if ltb k j then (k, v) ∷ (j, w) ∷ m else (j, w) ∷ rest

-- the effect for an item that is shown: an empty selection for each of its groups
unfoldable pub initial_options : List OptionGroup → Selections → Selections
unfolding set_key
initial_options [] m = m
initial_options (group ∷ groups) m = initial_options groups (set_key m group.id [])

-- `selectedOptionsByGroup[group.id] || []`
unfoldable pub selected_of : Selections → ℕ → List ℕ
unfolding get
selected_of m id = or_else (get m id) []

-- `Object.values(selectedOptionsByGroup).flat()`
unfoldable pub selected_option_ids : Selections → List ℕ
selected_option_ids [] = []
selected_option_ids ((k, ids) ∷ m) = ids ++ selected_option_ids m

-- the options of a group with the ids, those that the group has
unfoldable pub options_of : OptionGroup → List ℕ → List MenuOption
options_of group [] = []
options_of group (id ∷ ids) =
    let rest = options_of group ids in
    elim (find_entry (λ o. o.id == id) group.options) [ none ↦ rest | some (i, o) ↦ o ∷ rest ]

unfoldable pub selected_options : List OptionGroup → Selections → List MenuOption
unfolding options_of selected_of
selected_options [] m = []
selected_options (group ∷ groups) m =
    options_of group (selected_of m group.id) ++ selected_options groups m

unfoldable pub is_group_valid : OptionGroup → List ℕ → Bool
is_group_valid group ids =
    if group.required && length ids == 0 then false else leb group.min_select (length ids)

unfoldable pub are_valid : List OptionGroup → Selections → Bool
unfolding is_group_valid selected_of
are_valid [] m = true
are_valid (group ∷ groups) m = is_group_valid group (selected_of m group.id) && are_valid groups m

-- What is handed to `onAddToCart`, after which the form is closed; nothing for a form that is not
-- valid.
unfoldable pub handle_add_to_cart : ItemForm → Option CartItemData
unfolding are_valid selected_option_ids
handle_add_to_cart s = elim s.item [
  | none ↦ none
  | some item ↦
      if are_valid item.option_groups s.selected
      then some (record {
        menu_item_id = item.id;
        quantity = s.quantity;
        selected_options = selected_option_ids s.selected;
      })
      else none
]

unfoldable pub step : ItemForm → Event → ItemForm
unfolding initial_options
step s (show item) = record {
  item = some item;
  quantity = 1;
  selected = initial_options item.option_groups [];
}
step s (hide item) = record s { item = item }
step s (option_change group ids) = record s { selected = set_key s.selected group ids }
step s (set_quantity n) = record s { quantity = n }

unfoldable pub run : ItemForm → List Event → ItemForm
unfolding step
run s [] = s
run s (e ∷ es) = run (step s e) es

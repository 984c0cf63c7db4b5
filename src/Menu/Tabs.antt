-- ===== src/Menu/Tabs.antt =====
-- The tabs of the menu, resources/js/Hooks/useMenuCategorySync.ts, over the rows of
-- useVirtualizedMenu.ts. The categories are those of the current render.
use fleximo_oss.Base.{
  ℕ, zero, suc, ◌+◌, true, false, Option, none, some, List, [], ◌∷◌, if◌then◌else◌, nat_eq,
  includes, ◌≡◌, ◌⊎◌,
}
use fleximo_oss.Menu.{
  MenuCategory, VirtualRow, category_header, item_row, virtualized_menu, get_row_category_id,
  scroll_target,
}
use fleximo_oss.Menu.Index.{category_ids, IsHeaderAt}

pub record MenuTabs : Type 0 where
  pub requested_active_category_id : Option ℕ
  pub scroll_to_category_id : Option ℕ

pub data Event : Type 0 where
  tab_change active_change : (category_id : ℕ) → Event
  scroll_complete : Event

module _ {A : Type 0} where
  unfoldable pub initial_category_id : List (MenuCategory A) → Option ℕ
  initial_category_id [] = none
  initial_category_id (c ∷ rest) = some c.id

  unfoldable pub init_tabs : List (MenuCategory A) → MenuTabs
  init_tabs categories = record {
    requested_active_category_id = initial_category_id categories;
    scroll_to_category_id = none;
  }

  -- An id that a category has, or else the other value.
  abbrev pub if_category : List (MenuCategory A) → Option ℕ → Option ℕ → Option ℕ
  if_category categories none other = other
  if_category categories (some id) other =
      if includes (category_ids categories) id then some id else other

  unfoldable pub active_category_id : List (MenuCategory A) → MenuTabs → Option ℕ
  unfolding initial_category_id
  active_category_id categories s =
      if_category categories s.requested_active_category_id (initial_category_id categories)

  unfoldable pub next_scroll_target_id : List (MenuCategory A) → MenuTabs → Option ℕ
  next_scroll_target_id categories s = if_category categories s.scroll_to_category_id none

unfoldable pub step : MenuTabs → Event → MenuTabs
step s (tab_change id) = record {
  requested_active_category_id = some id;
  scroll_to_category_id = some id;
}
step s (active_change id) = record s { requested_active_category_id = some id }
step s scroll_complete = record s { scroll_to_category_id = none }

unfoldable pub run : MenuTabs → List Event → MenuTabs
unfolding step
run s [] = s
run s (e ∷ es) = run (step s e) es

-- the category of the last event that asks for one, if there is such an event, or else the first one
abbrev pub asked_last : Option ℕ → List Event → Option ℕ
asked_last first [] = first
asked_last first (tab_change id ∷ es) = asked_last (some id) es
asked_last first (active_change id ∷ es) = asked_last (some id) es
asked_last first (scroll_complete ∷ es) = asked_last first es

-- the category of the last tab after which no scroll was completed
abbrev pub tab_pending : Option ℕ → List Event → Option ℕ
tab_pending first [] = first
tab_pending first (tab_change id ∷ es) = tab_pending (some id) es
tab_pending first (active_change id ∷ es) = tab_pending first es
tab_pending first (scroll_complete ∷ es) = tab_pending none es

module _ {A : Type 0} where
  -- The id is that of a category.
  abbrev pub InMenu : List (MenuCategory A) → Option ℕ → Type 0
  InMenu categories none = categories ≡ []
  InMenu categories (some id) = includes (category_ids categories) id ≡ true

  -- how high a row stands: a header 48, the row of a category without items 60, and a row of items
  -- 132
  abbrev pub height_of : VirtualRow A → ℕ
  height_of (category_header id name count) = 48
  height_of (item_row id []) = 60
  height_of (item_row id (x ∷ xs)) = 132

  -- the heights of the first rows together
  abbrev pub height_above : List (VirtualRow A) → ℕ → ℕ
  height_above rows zero = 0
  height_above [] (suc i) = 0
  height_above (row ∷ rows) (suc i) = height_of row + height_above rows i

  -- A scroll goes to the top of the header of the category, as far down as the rows above it are
  -- high.
  abbrev pub ScrollsTo : List (MenuCategory A) → ℕ → Option ℕ → Type 0
  ScrollsTo categories columns none = Unit
  ScrollsTo categories columns (some id) =
      let built = virtualized_menu categories columns in
      (i : ℕ) × IsHeaderAt id built.0 i
      × (get_row_category_id built.0 i ≡ some id)
      × (scroll_target built id ≡ some (height_above built.0 i))

  -- Nothing is asked for, or a category that the menu has not.
  abbrev pub NotInMenu : List (MenuCategory A) → Option ℕ → Type 0
  NotInMenu categories none = Unit
  NotInMenu categories (some id) = includes (category_ids categories) id ≡ false

  -- The category asked for, if the menu has it, or else the other one.
  abbrev pub IsAsked : List (MenuCategory A) → Option ℕ → Option ℕ → Option ℕ → Type 0
  IsAsked categories asked other o =
      ((k : ℕ) × (asked ≡ some k) × (includes (category_ids categories) k ≡ true) × (o ≡ some k))
      ⊎ (NotInMenu categories asked × (o ≡ other))

  abbrev pub first_of : List (MenuCategory A) → Option ℕ
  first_of [] = none
  first_of (c ∷ rest) = some c.id

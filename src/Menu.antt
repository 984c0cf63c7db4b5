-- ===== src/Menu.antt =====
-- The rows of the menu list: resources/js/Hooks/useVirtualizedMenu.ts, with the heights of
-- useVirtualizedMenuController.ts and the tabs of useMenuCategorySync.ts. Of the items these read
-- nothing, so their type is a parameter. `slice(i, j)` is `take (j - i) (drop i ..)`.
pub mod Rows
pub mod Index
pub mod Tabs
mod Scenarios
use fleximo_oss.Base.{
  ℕ, zero, suc, ◌+◌, ◌-◌, Bool, true, false, not, Option, none, some, String, List, [], ◌∷◌, ◌++◌,
  map, is_some, if◌then◌else◌, ◌==◌, nat_eq, length, get_elem?, take, drop, ltb,
}
use fleximo_oss.JsMap.{JsMap, put, get}

pub record MenuCategory (A : Type 0) : Type 0 where
  pub id : ℕ
  pub name : String
  pub sort_order : ℕ
  pub items : List A

pub data VirtualRow (A : Type 0) : Type 0 where
  category_header : (category_id : ℕ) → (name : String) → (item_count : ℕ) → VirtualRow A
  item_row : (category_id : ℕ) → (items : List A) → VirtualRow A

module _ {A : Type 0} where
  -- The loop over `i`, which makes at most as many rounds as there are items, for at least one
  -- column; the first argument bounds the rounds.
  unfoldable pub item_rows : ℕ → ℕ → ℕ → List A → ℕ → List (VirtualRow A)
  item_rows zero id columns items i = []
  item_rows (suc rounds) id columns items i =
      let rest = item_rows rounds id columns items (i + columns) in
      if ltb i (length items)
      then item_row id (take (i + columns - i) (drop i items)) ∷ rest
      else []

  -- an empty category has one row without items
  unfoldable pub body_rows : ℕ → MenuCategory A → List (VirtualRow A)
  unfolding item_rows
  body_rows columns category =
      let items = category.items in
      item_rows (length items) category.id columns items 0
      ++ (if length items == 0 then item_row category.id [] ∷ [] else [])

  abbrev pub header_of : MenuCategory A → VirtualRow A
  header_of category = category_header category.id category.name (length category.items)

  -- the body of `categories.forEach`: the rows and the index so far
  unfoldable pub add_category :
      ℕ → List (VirtualRow A) × JsMap ℕ ℕ → MenuCategory A → List (VirtualRow A) × JsMap ℕ ℕ
  unfolding body_rows
  add_category columns (rows, index) category =
      (rows ++ header_of category ∷ body_rows columns category, put index category.id (length rows))

  unfoldable pub build :
      ℕ → List (VirtualRow A) × JsMap ℕ ℕ → List (MenuCategory A) → List (VirtualRow A) × JsMap ℕ ℕ
  unfolding add_category
  build columns built [] = built
  build columns built (category ∷ rest) = build columns (add_category columns built category) rest

  unfoldable pub virtualized_menu : List (MenuCategory A) → ℕ → List (VirtualRow A) × JsMap ℕ ℕ
  unfolding build
  virtualized_menu categories columns = build columns ([], []) categories

  abbrev pub row_category : VirtualRow A → ℕ
  row_category (category_header id name count) = id
  row_category (item_row id items) = id

  -- `null` outside of the rows; an index below 0 is no value of the model
  unfoldable pub get_row_category_id : List (VirtualRow A) → ℕ → Option ℕ
  get_row_category_id rows i = elim (get_elem? rows i) [
    | none ↦ none
    | some row ↦ some (row_category row)
  ]

  -- CATEGORY_HEADER_HEIGHT, EMPTY_ROW_HEIGHT and ITEM_ROW_HEIGHT
  unfoldable pub resolve_row_height : Option (VirtualRow A) → ℕ
  resolve_row_height none = 132
  resolve_row_height (some (category_header id name count)) = 48
  resolve_row_height (some (item_row id [])) = 60
  resolve_row_height (some (item_row id (x ∷ xs))) = 132

  -- the loop that adds the heights of the rows before an index
  unfoldable pub scroll_position : List (VirtualRow A) → ℕ → ℕ
  unfolding resolve_row_height
  scroll_position rows zero = 0
  scroll_position rows (suc i) = scroll_position rows i + resolve_row_height (get_elem? rows i)

  -- What a scroll to a category goes to: the position, or nothing for a category without a row.
  unfoldable pub scroll_target : List (VirtualRow A) × JsMap ℕ ℕ → ℕ → Option ℕ
  unfolding scroll_position get
  scroll_target (rows, index) id = elim (get index id) [
    | none ↦ none
    | some i ↦ some (scroll_position rows i)
  ]

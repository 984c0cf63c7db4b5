-- ===== src/Menu/Scenarios.antt =====
-- The menu list at concrete categories (resources/js/Hooks/useVirtualizedMenu.ts,
-- useMenuCategorySync.ts).
use fleximo_oss.Base.{ℕ, some, List, [], ◌∷◌, map, All, ◌≡◌, refl, arith}
use fleximo_oss.JsMap.{put}
use fleximo_oss.Menu.{MenuCategory, category_header, item_row, virtualized_menu, scroll_target}
use fleximo_oss.Menu.Rows.{sections_of, section_of, Fits, virtualized_menu-sections}

abbrev category : ℕ → List ℕ → MenuCategory ℕ
category id items = record { id = id; name = ""; sort_order = 0; items = items }

abbrev menu : List (MenuCategory ℕ)
menu = category 1 (10 ∷ 11 ∷ 12 ∷ []) ∷ category 2 [] ∷ category 3 (13 ∷ []) ∷ []

two_columns :
    (virtualized_menu menu 2).0
    ≡ category_header 1 "" 3
      ∷ item_row 1 (10 ∷ 11 ∷ [])
      ∷ item_row 1 (12 ∷ [])
      ∷ category_header 2 "" 0
      ∷ item_row 2 []
      ∷ category_header 3 "" 1
      ∷ item_row 3 (13 ∷ [])
      ∷ []
unfolding virtualized_menu put
two_columns = refl

last_target : scroll_target (virtualized_menu menu 2) 3 ≡ some 420
unfolding scroll_target virtualized_menu put
last_target = refl

virtualized_menu-sections_example :
    (sections_of (virtualized_menu menu 2).0 ≡ ([], map section_of menu))
    × All (Fits 2) (virtualized_menu menu 2).0
virtualized_menu-sections_example = virtualized_menu-sections menu 2 (omega arith)

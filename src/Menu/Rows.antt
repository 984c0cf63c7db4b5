-- ===== src/Menu/Rows.antt =====
-- The rows of the menu list hold the categories with all their items in order, of resources/js/
-- Hooks/useVirtualizedMenu.ts.
use fleximo_oss.Base.{
  ℕ, zero, suc, ◌+◌, ◌-◌, ◌≤◌, String, List, [], ◌∷◌, ◌++◌, map, if◌then◌else◌, ◌==◌, nat_eq,
  length, take, drop, ltb, ◌≡◌, refl, sym, ap, ◌∙◌, subst, arith, if_elim, All, All-append,
  append_assoc, append_nil, Bool-cases, inl, inr,
}
use fleximo_oss.JsMap.{JsMap, put}
use fleximo_oss.Menu.{
  MenuCategory, VirtualRow, category_header, item_row, item_rows, body_rows, header_of,
  add_category, build, virtualized_menu,
}

-- a header with the items of the rows below it, up to the next header
pub record Section (A : Type 0) : Type 0 where
  pub id : ℕ
  pub name : String
  pub item_count : ℕ
  pub items : List A

abbrev Read : Type 0 → Type 0
Read A = List A × List (Section A)

module _ {A : Type 0} where
  abbrev read_row : VirtualRow A → Read A → Read A
  read_row (category_header id name count) (above, sections) =
      ([], record { id = id; name = name; item_count = count; items = above } ∷ sections)
  read_row (item_row id items) (above, sections) = (items ++ above, sections)

  -- The rows read from the top: the items above the first header, and the sections.
  abbrev pub sections_of : List (VirtualRow A) → Read A
  sections_of [] = ([], [])
  sections_of (row ∷ rows) = read_row row (sections_of rows)

  abbrev pub section_of : MenuCategory A → Section A
  section_of category = record {
    id = category.id;
    name = category.name;
    item_count = length category.items;
    items = category.items;
  }

  -- a row has at most as many items as there are columns
  abbrev pub Fits : ℕ → VirtualRow A → Type 0
  Fits columns (category_header id name count) = Unit
  Fits columns (item_row id items) = length items ≤ columns

  drop_of_le : (xs : List A) (i : ℕ) → length xs ≤ i → drop i xs ≡ []
  drop_of_le [] zero h = refl
  drop_of_le [] (suc i) h = refl
  drop_of_le (x ∷ xs) zero h = ground (arith, h)
  drop_of_le (x ∷ xs) (suc i) h = drop_of_le xs i (omega (arith, h))

  drop_nil : (i : ℕ) → drop {A = A} i [] ≡ []
  drop_nil zero = refl
  drop_nil (suc i) = refl

  take_nil : (n : ℕ) → take {A = A} n [] ≡ []
  take_nil zero = refl
  take_nil (suc n) = refl

  take_append_drop : (n : ℕ) (xs : List A) → take n xs ++ drop n xs ≡ xs
  take_append_drop zero xs = refl
  take_append_drop (suc n) [] = refl
  take_append_drop (suc n) (x ∷ xs) = ap (λ l. x ∷ l) (take_append_drop n xs)

  take-drop : (xs : List A) (n i : ℕ) → take n (drop i xs) ++ drop (i + n) xs ≡ drop i xs
  take-drop [] n i = rw (drop_nil i, drop_nil (i + n), take_nil n) refl
  take-drop xs n zero =
      subst (λ k. take n xs ++ drop k xs ≡ xs) (omega arith) (take_append_drop n xs)
  take-drop (x ∷ xs) n (suc i) =
      let next : suc (i + n) ≡ suc i + n = omega arith in
      subst (λ k. take n (drop i xs) ++ drop k (x ∷ xs) ≡ drop i xs) next (take-drop xs n i)

  length-take : (n : ℕ) (xs : List A) → length (take n xs) ≤ n
  length-take zero xs = omega arith
  length-take (suc n) [] = omega arith
  length-take (suc n) (x ∷ xs) = omega (arith, length-take n xs)

  -- Rows in front of others add their items to what is read of those.
  sections_of-item_rows :
      (rounds id columns : ℕ) (items : List A) (i : ℕ) (below : List (VirtualRow A))
      → 1 ≤ columns
      → length items ≤ i + rounds
      → sections_of (item_rows rounds id columns items i ++ below)
        ≡ (drop i items ++ (sections_of below).0, (sections_of below).1)
  unfolding item_rows
  sections_of-item_rows zero id columns items i below c h =
      rw (drop_of_le items i (omega (arith, h))) refl
  sections_of-item_rows (suc rounds) id columns items i below c h =
      elim (Bool-cases (ltb i (length items))) [
        | inl within ↦
            let rest =
              sections_of-item_rows rounds id columns items (i + columns) below c
                (omega (arith, h, c)) in
            let all = take-drop items columns i in
            let width : i + columns - i ≡ columns = omega arith in
            rw (within, width, rest)
              (ap (λ l. (l, (sections_of below).1))
                (sym (append_assoc (take columns (drop i items)) (drop (i + columns) items) _)
                  ∙ ap (λ l. l ++ (sections_of below).0) all))
        | inr past ↦
            let over : length items ≤ i = ground (arith, past) in
            rw (past, drop_of_le items i over) refl
      ]

  sections_of-empty_row :
      (category : MenuCategory A) (below : List (VirtualRow A))
      → sections_of
          ((if length category.items == 0 then item_row category.id [] ∷ [] else []) ++ below)
        ≡ sections_of below
  sections_of-empty_row category below = elim (Bool-cases (length category.items == 0)) [
    | inl empty ↦ rw empty refl
    | inr full ↦ rw full refl
  ]

  sections_of-body_rows :
      (columns : ℕ) (category : MenuCategory A) (below : List (VirtualRow A))
      → 1 ≤ columns
      → sections_of (body_rows columns category ++ below)
        ≡ (category.items ++ (sections_of below).0, (sections_of below).1)
  unfolding body_rows
  sections_of-body_rows columns category below c =
      let rows = item_rows (length category.items) category.id columns category.items 0 in
      let empty = if length category.items == 0 then item_row category.id [] ∷ [] else [] in
      let split =
        sections_of-item_rows (length category.items) category.id columns category.items 0
          (empty ++ below) c (omega arith) in
      rw (append_assoc rows empty below, split, sections_of-empty_row category below) refl

  sections_of-category :
      (columns : ℕ) (category : MenuCategory A) (below : List (VirtualRow A))
      → 1 ≤ columns
      → (sections_of below).0 ≡ []
      → sections_of ((header_of category ∷ body_rows columns category) ++ below)
        ≡ ([], section_of category ∷ (sections_of below).1)
  sections_of-category columns category below c h =
      rw (sections_of-body_rows columns category below c, h, append_nil category.items) refl

  -- the rows of the categories, one after the other
  abbrev rows_of : ℕ → List (MenuCategory A) → List (VirtualRow A)
  rows_of columns [] = []
  rows_of columns (category ∷ rest) =
      (header_of category ∷ body_rows columns category) ++ rows_of columns rest

  sections_of-rows_of :
      (columns : ℕ) (categories : List (MenuCategory A))
      → 1 ≤ columns
      → sections_of (rows_of columns categories) ≡ ([], map section_of categories)
  sections_of-rows_of columns [] c = refl
  sections_of-rows_of columns (category ∷ rest) c =
      let below = sections_of-rows_of columns rest c in
      rw
        (
          sections_of-category columns category (rows_of columns rest) c (ap (λ r. r.0) below),
          below,
        )
        refl

  build-rows_of :
      (columns : ℕ) (categories : List (MenuCategory A)) (rows : List (VirtualRow A))
      (index : JsMap ℕ ℕ)
      → (build columns (rows, index) categories).0 ≡ rows ++ rows_of columns categories
  unfolding build add_category
  build-rows_of columns [] rows index = sym (append_nil rows)
  build-rows_of columns (category ∷ rest) rows index =
      let some_rows = header_of category ∷ body_rows columns category in
      build-rows_of columns rest (rows ++ some_rows) (put index category.id (length rows))
      ∙ append_assoc rows some_rows (rows_of columns rest)

  item_rows-Fits :
      (rounds id columns : ℕ) (items : List A) (i : ℕ)
      → All (Fits columns) (item_rows rounds id columns items i)
  unfolding item_rows
  item_rows-Fits zero id columns items i = tt
  item_rows-Fits (suc rounds) id columns items i =
      let width : length (take (i + columns - i) (drop i items)) ≤ columns =
        omega (arith, length-take (i + columns - i) (drop i items)) in
      if_elim (All (Fits columns)) (ltb i (length items)) _ []
        (width, item_rows-Fits rounds id columns items (i + columns)) tt

  body_rows-Fits :
      (columns : ℕ) (category : MenuCategory A) → All (Fits columns) (body_rows columns category)
  unfolding body_rows
  body_rows-Fits columns category =
      All-append (Fits columns) _ _
        (item_rows-Fits (length category.items) category.id columns category.items 0)
        (if_elim (All (Fits columns)) (length category.items == 0) (item_row category.id [] ∷ []) []
          (omega arith, tt) tt)

  rows_of-Fits :
      (columns : ℕ) (categories : List (MenuCategory A))
      → All (Fits columns) (rows_of columns categories)
  rows_of-Fits columns [] = tt
  rows_of-Fits columns (category ∷ rest) =
      All-append (Fits columns) (header_of category ∷ body_rows columns category) _
        (tt, body_rows-Fits columns category) (rows_of-Fits columns rest)

  -- With at least one column, the rows of the menu, read from the top, give back every category in
  -- order, each with all its items in order and the number of them in its header. No row has more
  -- items than there are columns.
  pub virtualized_menu-sections :
      (categories : List (MenuCategory A)) (columns : ℕ)
      → 1 ≤ columns
      → (sections_of (virtualized_menu categories columns).0 ≡ ([], map section_of categories))
        × All (Fits columns) (virtualized_menu categories columns).0
  unfolding virtualized_menu
  virtualized_menu-sections categories columns c =
      let rows : (virtualized_menu categories columns).0 ≡ rows_of columns categories =
        build-rows_of columns categories [] [] in
      rw rows (sections_of-rows_of columns categories c, rows_of-Fits columns categories)

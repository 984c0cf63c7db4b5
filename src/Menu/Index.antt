-- ===== src/Menu/Index.antt =====
-- The index from categories to rows points at their headers, of resources/js/Hooks/
-- useVirtualizedMenu.ts.
use fleximo_oss.Base.{
  ℕ, zero, suc, Bool, true, false, Option, none, some, String, List, [], ◌∷◌, ◌++◌, map, ◌==◌, ◌||◌,
  nat_eq, nat_beq_iff, length, get_elem?, includes, ◌≡◌, refl, subst, arith, if_split,
}
use fleximo_oss.JsMap.{JsMap, get}
use fleximo_oss.JsMap.Laws.{get-put}
use fleximo_oss.Menu.{
  MenuCategory, VirtualRow, category_header, body_rows, header_of, add_category, build,
  virtualized_menu,
}

abbrev pub category_ids : {A : Type 0} → List (MenuCategory A) → List ℕ
category_ids categories = map (λ c. c.id) categories

get_end : {B : Type 0} (xs ys : List B) (y : B) → get_elem? (xs ++ y ∷ ys) (length xs) ≡ some y
get_end [] ys y = refl
get_end (x ∷ xs) ys y = get_end xs ys y

get_append :
    {B : Type 0} (xs ys : List B) (i : ℕ) (x : B)
    → get_elem? xs i ≡ some x
    → get_elem? (xs ++ ys) i ≡ some x
get_append [] ys i x h = ground (arith, h)
get_append (y ∷ xs) ys zero x h = h
get_append (y ∷ xs) ys (suc i) x h = get_append xs ys i x h

or_shift : (a b c : Bool) → (a || (b || c)) ≡ ((b || a) || c)
or_shift a b c = ground arith

or_false : (b : Bool) → (b || false) ≡ b
or_false b = ground arith

module _ {A : Type 0} where
  -- The row at the index is the header of a category with the id.
  abbrev pub IsHeaderAt : ℕ → List (VirtualRow A) → ℕ → Type 0
  IsHeaderAt id rows i =
      (name : String) × (count : ℕ) × (get_elem? rows i ≡ some (category_header id name count))

  -- The entry of an id, if there should be one, is the index of a header.
  abbrev Points : List (VirtualRow A) → ℕ → Option ℕ → Bool → Type 0
  Points rows id none wanted = wanted ≡ false
  Points rows id (some i) wanted = IsHeaderAt id rows i

  abbrev IsIndex : List (VirtualRow A) × JsMap ℕ ℕ → (ℕ → Bool) → Type 0
  IsIndex (rows, index) wanted = (id : ℕ) → Points rows id (get index id) (wanted id)

  still :
      (rows more : List (VirtualRow A)) (id : ℕ) (o : Option ℕ) (wanted : Bool)
      → Points rows id o wanted
      → Points (rows ++ more) id o wanted
  still rows more id none wanted h = h
  still rows more id (some i) wanted (name, count, h) = (name, count, get_append rows more i _ h)

  -- More is wanted of an entry that is there, or of one that is not asked for.
  wanted_or :
      (rows : List (VirtualRow A)) (id : ℕ) (o : Option ℕ) (b c : Bool)
      → b ≡ false
      → Points rows id o c
      → Points rows id o (b || c)
  wanted_or rows id none b c e h = rw (e, h) refl
  wanted_or rows id (some i) b c e h = h

  add_category-IsIndex :
      (columns : ℕ) (rows : List (VirtualRow A)) (index : JsMap ℕ ℕ) (category : MenuCategory A)
      (wanted : ℕ → Bool)
      → IsIndex (rows, index) wanted
      → IsIndex (add_category columns (rows, index) category) (λ id. category.id == id || wanted id)
  unfolding add_category
  add_category-IsIndex columns rows index category wanted h id =
      let more = header_of category ∷ body_rows columns category in
      rw (get-put index category.id id (length rows)) (
        if_split (λ o. Points (rows ++ more) id o (category.id == id || wanted id))
          (category.id == id) (some (length rows)) (get index id)
          (λ same. (
            category.name,
            length category.items,
            subst
                (λ k.
                  get_elem? (rows ++ more) (length rows)
                  ≡ some (category_header k category.name (length category.items)))
                ((nat_beq_iff category.id id).0 same)
                (get_end rows (body_rows columns category) (header_of category)),
          ))
          (λ other.
            wanted_or (rows ++ more) id (get index id) (category.id == id) (wanted id) other
              (still rows more id (get index id) (wanted id) (h id))))

  build-IsIndex :
      (columns : ℕ) (categories : List (MenuCategory A)) (built : List (VirtualRow A) × JsMap ℕ ℕ)
      (wanted : ℕ → Bool)
      → IsIndex built wanted
      → IsIndex
          (build columns built categories)
          (λ id. includes (category_ids categories) id || wanted id)
  unfolding build
  build-IsIndex columns [] built wanted h id = h id
  build-IsIndex columns (category ∷ rest) (rows, index) wanted h id =
      let built = add_category columns (rows, index) category in
      subst (Points (build columns built rest).0 id (get (build columns built rest).1 id))
        (or_shift (includes (category_ids rest) id) (category.id == id) (wanted id))
        (build-IsIndex columns rest built (λ k. category.id == k || wanted k)
          (add_category-IsIndex columns rows index category wanted h) id)

  menu_index_lem :
      (categories : List (MenuCategory A)) (columns id : ℕ)
      → Points
          (virtualized_menu categories columns).0
          id
          (get (virtualized_menu categories columns).1 id)
          (includes (category_ids categories) id)
  unfolding virtualized_menu get
  menu_index_lem categories columns id =
      let built = virtualized_menu categories columns in
      subst (Points built.0 id (get built.1 id)) (or_false (includes (category_ids categories) id))
        (build-IsIndex columns categories ([], []) (λ k. false) (λ k. refl) id)

  -- The index leads a category of the menu to the row of its header.
  pub menu_index-IsHeaderAt :
      (categories : List (MenuCategory A)) (columns id : ℕ)
      → includes (category_ids categories) id ≡ true
      → (i : ℕ) × (get (virtualized_menu categories columns).1 id ≡ some i)
        × IsHeaderAt id (virtualized_menu categories columns).0 i
  menu_index-IsHeaderAt categories columns id h =
      let built = virtualized_menu categories columns in
      found built.0 (get built.1 id) (menu_index_lem categories columns id)
    where
      found :
          (rows : List (VirtualRow A)) (o : Option ℕ)
          → Points rows id o (includes (category_ids categories) id)
          → (i : ℕ) × (o ≡ some i) × IsHeaderAt id rows i
      found rows none k = ground (arith, h, k)
      found rows (some i) k = (i, refl, k)

-- ===== src/Cart/Entries.antt =====
-- Lemmas on `findIndex`, on writing at the index found, and on taking an element out and putting
-- it back, for the rollbacks of the cart store.
use fleximo_oss.Base.{
  ℕ, suc, Bool, true, false, not, Option, none, some, List, [], ◌∷◌, length, set, find_entry,
  insert_at, some_of, filter_by, or_else, ◌++◌, ◌∙◌, Option-cases, ◌⊎◌, if◌then◌else◌, ◌≡◌, refl,
  ap, arith, Bool-cases, inl, inr,
}
use fleximo_oss.Cart.Optimistic.{modify_found, clamp_index, map_with_context}

clamp_index-suc : (j n : ℕ) → clamp_index (suc j) (suc n) ≡ suc (clamp_index j n)
clamp_index-suc j n = omega arith

module _ {ℓ} {A : Type ℓ} (p : A → Bool) where
  -- No element passes the test.
  abbrev pub None : List A → Type 0
  None [] = Unit
  None (x ∷ xs) = (p x ≡ false) × None xs

  -- At most one element passes the test.
  abbrev pub AtMostOne : List A → Type 0
  AtMostOne [] = Unit
  AtMostOne (x ∷ xs) = (p x ≡ true → None xs) × AtMostOne xs

  pub find_entry_of_None : (xs : List A) → None xs → find_entry p xs ≡ none
  find_entry_of_None [] h = refl
  find_entry_of_None (x ∷ xs) h = ground (arith, find_entry_of_None xs h.1)

  -- Where the entry found stands: at the head, or in the tail one place earlier.
  pub find_entry-cons :
      (z : A) (xs : List A) (i : ℕ) (x : A)
      → find_entry p (z ∷ xs) ≡ some (i, x)
      → ((p z ≡ true) × (i ≡ 0) × (x ≡ z))
        ⊎ ((p z ≡ false) × ((k : ℕ) × (find_entry p xs ≡ some (k, x)) × (i ≡ suc k)))
  find_entry-cons z xs i x h = elim (Bool-cases (p z)) [
    | inl here ↦ inl (here, ground arith, ground arith)
    | inr later ↦ elim (Option-cases (find_entry p xs)) [
      | inl missing ↦ ground arith
      | inr ((k, y), found) ↦ inr (later, (k, ground arith, ground arith))
    ]
  ]

  pub find_entry_sound : (xs : List A) (i : ℕ) (x : A) → find_entry p xs ≡ some (i, x) → p x ≡ true
  find_entry_sound [] i x h = cc
  find_entry_sound (z ∷ xs) i x h = elim (find_entry-cons z xs i x h) [
    | inl (here, _, e) ↦ rw e here
    | inr (_, (k, found, _)) ↦ find_entry_sound xs k x found
  ]

  pub find_entry-set :
      (xs : List A) (i : ℕ) (x y : A)
      → find_entry p xs ≡ some (i, x)
      → p y ≡ true
      → find_entry p (set xs i y) ≡ some (i, y)
  find_entry-set [] i x y h k = cc
  find_entry-set (z ∷ xs) i x y h k = elim (find_entry-cons z xs i x h) [
    | inl (here, e, _) ↦ rw e (rw k)
    | inr (later, (j, found, e)) ↦ rw e (rw later (rw (find_entry-set xs j x y found k)))
  ]

  pub set-set_found :
      (xs : List A) (i : ℕ) (x y : A) → find_entry p xs ≡ some (i, x) → set (set xs i y) i x ≡ xs
  set-set_found [] i x y h = cc
  set-set_found (z ∷ xs) i x y h = elim (find_entry-cons z xs i x h) [
    | inl (_, e, s) ↦ rw e (rw s)
    | inr (_, (j, found, e)) ↦ rw e (rw (set-set_found xs j x y found))
  ]

  pub filter_by_of_None : (xs : List A) → None xs → filter_by (λ x. not (p x)) xs ≡ xs
  filter_by_of_None [] h = refl
  filter_by_of_None (x ∷ xs) h = ground (arith, filter_by_of_None xs h.1)

  pub some_of-filter_by : (xs : List A) → some_of p (filter_by (λ x. not (p x)) xs) ≡ false
  some_of-filter_by [] = refl
  some_of-filter_by (x ∷ xs) = ground (arith, some_of-filter_by xs)

  -- Taking the one element that passes the test out and putting it back where it stood.
  pub insert_at-filter_by :
      (xs : List A) (i : ℕ) (x : A)
      → AtMostOne xs
      → find_entry p xs ≡ some (i, x)
      → let rest = filter_by (λ y. not (p y)) xs in
        insert_at rest (clamp_index i (length rest)) x ≡ xs
  insert_at-filter_by [] i x u h = cc
  insert_at-filter_by (z ∷ xs) i x u h = elim (find_entry-cons z xs i x h) [
    | inl (here, e, s) ↦ rw here (rw e (rw (filter_by_of_None xs (u.0 here)) (ground arith)))
    | inr (later, (j, found, e)) ↦
        let ih = insert_at-filter_by xs j x u.1 found in
        rw later
          (rw e (rw (clamp_index-suc j (length (filter_by (λ y. not (p y)) xs))) (ap (◌∷◌ z) ih)))
  ]

  -- `modify_found`, element by element.
  pub modify_found-cons :
      (f : A → Option A) (z : A) (xs : List A)
      → modify_found p f (z ∷ xs) ≡ (if p z then or_else (f z) z ∷ xs else z ∷ modify_found p f xs)
  unfolding modify_found
  modify_found-cons f z xs = elim (Bool-cases (p z)) [
    | inl here ↦ rw here (ground arith)
    | inr later ↦ elim (Option-cases (find_entry p xs)) [
      | inl missing ↦ ground arith
      | inr ((k, y), found) ↦ elim (Option-cases (f y)) [
        | inl declined ↦ ground arith
        | inr (y', changed) ↦ ground arith
      ]
    ]
  ]

  pub modify_found_of_None : (f : A → Option A) (xs : List A) → None xs → modify_found p f xs ≡ xs
  unfolding modify_found
  modify_found_of_None f xs h = ground (arith, find_entry_of_None xs h)

  -- Where the one element that passes stands.
  pub record Split (xs : List A) : Type ℓ where
    pub pre : List A
    pub at : A
    pub post : List A
    pub whole : xs ≡ pre ++ at ∷ post
    pub passes : p at ≡ true
    pub none_before : None pre
    pub none_after : None post

  pub Split-of_AtMostOne : (xs : List A) → AtMostOne xs → None xs ⊎ Split xs
  Split-of_AtMostOne [] h = inl tt
  Split-of_AtMostOne (x ∷ xs) h = elim (Bool-cases (p x)) [
    | inl here ↦ inr (record {
      pre = [];
      at = x;
      post = xs;
      whole = refl;
      passes = here;
      none_before = tt;
      none_after = h.0 here;
    })
    | inr later ↦ elim (Split-of_AtMostOne xs h.1) [
      | inl missing ↦ inl (later, missing)
      | inr s ↦ inr (record {
        pre = x ∷ s.pre;
        at = s.at;
        post = s.post;
        whole = ap (◌∷◌ x) s.whole;
        passes = s.passes;
        none_before = (later, s.none_before);
        none_after = s.none_after;
      })
    ]
  ]

  pub None-before :
      (pre : List A) (x : A) (post : List A) → p x ≡ true → AtMostOne (pre ++ x ∷ post) → None pre
  None-before [] x post h u = tt
  None-before (z ∷ pre) x post h u = elim (Bool-cases (p z)) [
    | inl here ↦ absurd (not_None pre x post h (u.0 here))
    | inr later ↦ (later, None-before pre x post h u.1)
  ]
    where
      not_None : (ys : List A) (y : A) (zs : List A) → p y ≡ true → ¬ (None (ys ++ y ∷ zs))
      not_None [] y zs e n = cc (n.0)
      not_None (w ∷ ys) y zs e n = not_None ys y zs e n.1

  pub modify_found-split :
      (f : A → Option A) (pre : List A) (x : A) (post : List A)
      → None pre
      → p x ≡ true
      → modify_found p f (pre ++ x ∷ post) ≡ pre ++ or_else (f x) x ∷ post
  modify_found-split f [] x post n h = modify_found-cons f x post ∙ rw h
  modify_found-split f (z ∷ pre) x post n h =
      modify_found-cons f z (pre ++ x ∷ post)
      ∙ rw n.0 (ap (◌∷◌ z) (modify_found-split f pre x post n.1 h))

  -- A pass over the list that changes only elements that pass the test.
  module _ {κ} {C : Type κ} (g : A → A × Option C)
      (keeps : (x : A) → p x ≡ false → g x ≡ (x, none)) where
    pub map_with_context_of_None :
        (ctx : Option C) (xs : List A) → None xs → map_with_context g ctx xs ≡ (xs, ctx)
    unfolding map_with_context
    map_with_context_of_None ctx [] h = refl
    map_with_context_of_None ctx (x ∷ xs) h =
        rw (keeps x h.0) (rw (map_with_context_of_None ctx xs h.1))

    pub map_with_context-split :
        (ctx : Option C) (c : C) (pre : List A) (x y : A) (post : List A)
        → None pre
        → None post
        → g x ≡ (y, some c)
        → map_with_context g ctx (pre ++ x ∷ post) ≡ (pre ++ y ∷ post, some c)
    unfolding map_with_context
    map_with_context-split ctx c [] x y post n m e =
        rw e (rw (map_with_context_of_None (some c) post m))
    map_with_context-split ctx c (z ∷ pre) x y post n m e =
        rw (keeps z n.0) (rw (map_with_context-split ctx c pre x y post n.1 m e))

-- ===== src/Charts/Range.antt =====
-- The index of the active item stays within the items, of resources/js/Components/Dashboard/
-- useKeyboardChartNavigation.ts.
use fleximo_oss.Base.{
  ℕ, zero, suc, ◌<◌, ◌≤◌, Bool, true, false, not, Option, none, some, or_else, String, List, [],
  ◌∷◌, if◌then◌else◌, ◌==◌, ◌||◌, string_eq, nat_eq, nat_beq_iff, length, get_elem?, includes, ◌≡◌,
  refl, sym, ◌∙◌, arith, if_elim, if_split, is_some,
}
use fleximo_oss.Charts.{
  Navigation, Event, render, focus, blur, key_down, clamp, on_length, mount_chart, on_render,
  on_focus, on_blur, key_target, on_key_down, active_item, step, run, navigation_keys,
}

not_zero : (n : ℕ) → not (suc n == 0) ≡ true
not_zero n = ground arith

module _ {A : Type 0} where
  -- With items there is an index, of one of them; with none there is neither an index nor a tip.
  abbrev InRange : List A → Option ℕ → Bool → Type 0
  InRange [] i tip = (i ≡ none) × (tip ≡ false)
  InRange (a ∷ items) none tip = ⊥
  InRange (a ∷ items) (some i) tip = i < suc (length items)

  abbrev IsInRange : Navigation A → Type 0
  IsInRange s = InRange s.items s.active_index s.is_tooltip_visible

  within :
      (xs : List A) (i : ℕ) (tip : Bool) → 1 ≤ length xs → i < length xs → InRange xs (some i) tip
  within [] i tip h k = ground (arith, h)
  within (a ∷ xs) i tip h k = k

  start_within :
      (xs : List A) (i : Option ℕ) (tip : Bool)
      → InRange xs i tip
      → 1 ≤ length xs
      → or_else i 0 < length xs
  start_within [] i tip h k = ground (arith, k)
  start_within (a ∷ xs) none tip h k = k
  start_within (a ∷ xs) (some i) tip h k = h

  clamp_within : (xs : List A) (i : Option ℕ) → 1 ≤ length xs → clamp xs i < length xs
  clamp_within xs none h = h
  clamp_within xs (some i) h = omega (arith, h)

  on_length-InRange : (s : Navigation A) → IsInRange (on_length s.items s)
  unfolding on_length
  on_length-InRange s = with_items s.items
    where
      with_items : (xs : List A) → IsInRange (on_length xs (record s { items = xs }))
      with_items [] = (refl, refl)
      with_items (a ∷ xs) = clamp_within (a ∷ xs) s.active_index (omega arith)

  hidden : (xs : List A) (i : Option ℕ) (tip : Bool) → InRange xs i tip → InRange xs i false
  hidden [] i tip h = (h.0, refl)
  hidden (a ∷ xs) none tip h = h
  hidden (a ∷ xs) (some i) tip h = h

  -- Items of the same number keep the index in range.
  same_length :
      (xs ys : List A) (i : Option ℕ) (tip : Bool)
      → length xs ≡ length ys
      → InRange ys i tip
      → InRange xs i tip
  same_length [] [] i tip e h = h
  same_length [] (b ∷ ys) i tip e h = ground (arith, e)
  same_length (a ∷ xs) [] i tip e h = ground (arith, e)
  same_length (a ∷ xs) (b ∷ ys) none tip e h = h
  same_length (a ∷ xs) (b ∷ ys) (some i) tip e h = omega (arith, e, h)

  key_target_within :
      (xs : List A) (key : String) (start : ℕ)
      → start < length xs
      → key_target xs key start < length xs
  unfolding key_target
  key_target_within xs key start h = ground arith

  -- A handler that shows the tip puts the index in range.
  moved :
      (s : Navigation A) (b : Bool) (target : ℕ)
      → IsInRange s
      → (1 ≤ length s.items → target < length s.items)
      → IsInRange (
          if length s.items == 0 || b
          then s
          else record s { is_tooltip_visible = true; active_index = some target })
  moved s b target h t =
      if_split IsInRange (length s.items == 0 || b) s _ (λ e. h)
        (λ e.
          let some_items : 1 ≤ length s.items = ground arith in
          within s.items target true some_items (t some_items))

  step-IsInRange : (s : Navigation A) (e : Event A) → IsInRange s → IsInRange (step s e)
  unfolding step on_render on_focus on_blur on_key_down
  step-IsInRange s (render items) h =
      if_split IsInRange (length items == length s.items) (record s { items = items }) _
        (λ e.
          same_length items s.items s.active_index s.is_tooltip_visible
            ((nat_beq_iff (length items) (length s.items)).0 e) h)
        (λ e. on_length-InRange (record s { items = items }))
  step-IsInRange s focus h =
      if_split IsInRange (length s.items == 0) s _ (λ e. h)
        (λ e.
          let some_items : 1 ≤ length s.items = ground arith in
          within s.items _ true some_items (clamp_within s.items s.active_index some_items))
  step-IsInRange s (blur inside) h =
      if_elim IsInRange inside s (record s { is_tooltip_visible = false }) h
        (hidden s.items s.active_index s.is_tooltip_visible h)
  step-IsInRange s (key_down key) h =
      moved s (not (includes navigation_keys key))
        (key_target s.items key (or_else s.active_index 0)) h
        (λ k.
          key_target_within s.items key (or_else s.active_index 0)
            (start_within s.items s.active_index s.is_tooltip_visible h k))

  run_from : (es : List (Event A)) (s : Navigation A) → IsInRange s → IsInRange (run s es)
  unfolding run
  run_from [] s h = h
  run_from (e ∷ es) s h = run_from es (step s e) (step-IsInRange s e h)

  get_within : (xs : List A) (i : ℕ) → i < length xs → is_some (get_elem? xs i) ≡ true
  get_within [] i h = ground (arith, h)
  get_within (a ∷ xs) zero h = refl
  get_within (a ∷ xs) (suc i) h = get_within xs i (omega (arith, h))

  shown_of :
      (s : Navigation A)
      → IsInRange s
      → (is_some (active_item s) ≡ not (length s.items == 0))
        × (s.is_tooltip_visible ≡ true → is_some (active_item s) ≡ true)
  unfolding active_item
  shown_of s h = with_state s.items s.active_index s.is_tooltip_visible h
    where
      with_state :
          (xs : List A) (i : Option ℕ) (tip : Bool)
          → InRange xs i tip
          → (is_some (elim i [ none ↦ none | some k ↦ get_elem? xs k ]) ≡ not (length xs == 0))
            × (tip ≡ true → is_some (elim i [ none ↦ none | some k ↦ get_elem? xs k ]) ≡ true)
      with_state [] i tip h = (rw h.0 refl, (λ e. ground (arith, e, h)))
      with_state (a ∷ xs) none tip h = ground (arith, h)
      with_state (a ∷ xs) (some i) tip h =
          let there = get_within (a ∷ xs) i h in (there ∙ sym (not_zero (length xs)), (λ e. there))

  -- After any renders with however many items, and any focus and keys, there is an active item
  -- exactly if there are items: the index never leaves the items. The tip is shown only with an
  -- active item.
  pub run-IsInRange :
      (items : List A) (es : List (Event A))
      → (is_some (active_item (run (mount_chart items) es))
          ≡ not (length (run (mount_chart items) es).items == 0))
        × ((run (mount_chart items) es).is_tooltip_visible ≡ true
            → is_some (active_item (run (mount_chart items) es)) ≡ true)
  unfolding mount_chart
  run-IsInRange items es = shown_of (run (mount_chart items) es) (
      run_from es (mount_chart items) (
        on_length-InRange
          (record { items = items; active_index = none; is_tooltip_visible = false })))

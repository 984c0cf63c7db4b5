-- ===== src/Charts.antt =====
-- Moving along a chart with the keyboard, resources/js/Components/Dashboard/
-- useKeyboardChartNavigation.ts. The index -1 is `none`; a render comes with the effect that it
-- starts, which runs where the number of items has changed.
pub mod Range
mod Scenarios
use fleximo_oss.Base.{
  ℕ, zero, ◌+◌, ◌-◌, min, max, Bool, true, false, not, Option, none, some, or_else, String, List,
  [], ◌∷◌, if◌then◌else◌, ◌==◌, ◌||◌, string_eq, nat_eq, length, get_elem?, includes, ltb,
}

pub record Navigation (A : Type 0) : Type 0 where
  -- the items of the last render
  pub items : List A
  pub active_index : Option ℕ
  pub is_tooltip_visible : Bool

pub data Event (A : Type 0) : Type 0 where
  render : List A → Event A
  focus : Event A
  -- whether the focus stays within the chart
  blur : (inside : Bool) → Event A
  key_down : (key : String) → Event A

abbrev pub navigation_keys : List String
navigation_keys = "ArrowRight" ∷ "ArrowDown" ∷ "ArrowLeft" ∷ "ArrowUp" ∷ "Home" ∷ "End" ∷ []

module _ {A : Type 0} where
  -- `current < 0 ? 0 : Math.min(current, items.length - 1)`
  abbrev pub clamp : List A → Option ℕ → ℕ
  clamp items none = 0
  clamp items (some i) = min i (length items - 1)

  -- the effect on `items.length`
  unfoldable pub on_length : List A → Navigation A → Navigation A
  on_length [] s = record s { active_index = none; is_tooltip_visible = false }
  on_length (a ∷ items) s = record s { active_index = some (clamp (a ∷ items) s.active_index) }

  unfoldable pub mount_chart : List A → Navigation A
  unfolding on_length
  mount_chart items =
      on_length items (record { items = items; active_index = none; is_tooltip_visible = false })

  unfoldable pub on_render : List A → Navigation A → Navigation A
  unfolding on_length
  on_render items s =
      let shown : Navigation A = record s { items = items } in
      if length items == length s.items then shown else on_length items shown

  unfoldable pub on_focus : Navigation A → Navigation A
  on_focus s = if length s.items == 0 then s else record s {
    is_tooltip_visible = true;
    active_index = some (clamp s.items s.active_index);
  }

  unfoldable pub on_blur : Bool → Navigation A → Navigation A
  on_blur inside s = if inside then s else record s { is_tooltip_visible = false }

  -- where a key goes to from an index
  unfoldable pub key_target : List A → String → ℕ → ℕ
  key_target items key start =
      if key == "ArrowRight" || key == "ArrowDown"
      then min (start + 1) (length items - 1)
      else if key == "ArrowLeft" || key == "ArrowUp"
      then start - 1
      else if key == "Home"
      then 0
      else length items - 1

  unfoldable pub on_key_down : String → Navigation A → Navigation A
  unfolding key_target
  on_key_down key s =
      if length s.items == 0 || not (includes navigation_keys key) then s else record s {
        is_tooltip_visible = true;
        active_index = some (key_target s.items key (or_else s.active_index 0));
      }

  unfoldable pub active_item : Navigation A → Option A
  active_item s = elim s.active_index [ none ↦ none | some i ↦ get_elem? s.items i ]

  unfoldable pub step : Navigation A → Event A → Navigation A
  step s (render items) = on_render items s
  step s focus = on_focus s
  step s (blur inside) = on_blur inside s
  step s (key_down key) = on_key_down key s

  unfoldable pub run : Navigation A → List (Event A) → Navigation A
  unfolding step on_render on_focus on_blur on_key_down
  run s [] = s
  run s (e ∷ es) = run (step s e) es

-- ===== src/Charts/Scenarios.antt =====
-- Keys on a chart at concrete items (resources/js/Components/Dashboard/
-- useKeyboardChartNavigation.ts).
use fleximo_oss.Base.{ℕ, true, not, some, List, [], ◌∷◌, ◌==◌, nat_eq, length, is_some, ◌≡◌, refl}
use fleximo_oss.Charts.{Event, render, focus, key_down, mount_chart, active_item, run}
use fleximo_oss.Charts.Range.{run-IsInRange}

abbrev keys : List (Event ℕ)
keys =
    focus ∷ key_down "End" ∷ key_down "ArrowRight" ∷ render (1 ∷ 2 ∷ []) ∷ key_down "ArrowLeft" ∷ []

run-IsInRange_example :
    (is_some (active_item (run (mount_chart (1 ∷ 2 ∷ 3 ∷ [])) keys))
      ≡ not (length (run (mount_chart (1 ∷ 2 ∷ 3 ∷ [])) keys).items == 0))
    × ((run (mount_chart (1 ∷ 2 ∷ 3 ∷ [])) keys).is_tooltip_visible ≡ true
        → is_some (active_item (run (mount_chart (1 ∷ 2 ∷ 3 ∷ [])) keys)) ≡ true)
run-IsInRange_example = run-IsInRange (1 ∷ 2 ∷ 3 ∷ []) keys

left_of_two : active_item (run (mount_chart (1 ∷ 2 ∷ 3 ∷ [])) keys) ≡ some 1
unfolding run active_item mount_chart
left_of_two = refl

-- ===== src/Hours/Scenarios.antt =====
-- Business hours at concrete entries (resources/js/Hooks/useBusinessHours.ts).
use fleximo_oss.Base.{List, [], ◌∷◌, includes, if◌then◌else◌, nat_eq, ◌≡◌, refl}
use fleximo_oss.Hours.{
  BusinessHour, Event, add_time_range, open_copy_ui, select_weekdays, toggle_copy_target, to_forms,
  init_hours, apply_copy_to_target_days, copy_from, run,
}
use fleximo_oss.Hours.Kept.{client_ids}
use fleximo_oss.Hours.Ids.{IsForm, run-IsForm}
use fleximo_oss.Hours.Copies.{day_view, numbered_view, apply_copy-day_view}

abbrev hours : List BusinessHour
hours =
    record { weekday = 1; open_time = "09:00"; close_time = "12:00"; sort_order = 3 }
    ∷ record { weekday = 2; open_time = "10:00"; close_time = "15:00"; sort_order = 0 }
    ∷ []

-- Monday's hours are to go to the other weekdays but Friday.
abbrev monday_to_thursday : List Event
monday_to_thursday = add_time_range 1 ∷ open_copy_ui 1 ∷ select_weekdays ∷ toggle_copy_target 5 ∷ []

run-IsForm_example : IsForm (run (init_hours hours) monday_to_thursday)
run-IsForm_example = run-IsForm hours monday_to_thursday

apply_copy-day_view_example :
    day_view 2
      (apply_copy_to_target_days (run (init_hours hours) monday_to_thursday)).business_hours
    ≡ (if includes (run (init_hours hours) monday_to_thursday).copy_target_days 2
        then numbered_view 1 (run (init_hours hours) monday_to_thursday).business_hours
        else day_view 2 (run (init_hours hours) monday_to_thursday).business_hours)
unfolding run init_hours
apply_copy-day_view_example = apply_copy-day_view hours monday_to_thursday 1 2 refl

copied_ids :
    client_ids
      (apply_copy_to_target_days (run (init_hours hours) monday_to_thursday)).business_hours
    ≡ 0 ∷ 2 ∷ 3 ∷ 4 ∷ 5 ∷ 6 ∷ 7 ∷ 8 ∷ []
unfolding run init_hours to_forms apply_copy_to_target_days copy_from
copied_ids = refl

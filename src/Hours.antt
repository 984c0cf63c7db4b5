-- ===== src/Hours.antt =====
-- The business hours of a shop and their copy to other days, resources/js/Hooks/useBusinessHours.ts.
-- A client id "business-hour-n" is its number n. `onChange` gives the list to the page, which gives
-- it back.
pub mod Distinct
pub mod Kept
pub mod Ids
pub mod Copies
mod Scenarios
use fleximo_oss.Base.{
  ℕ, suc, ◌+◌, Bool, true, false, not, Option, none, some, String, List, [], ◌∷◌, ◌++◌, map, length,
  get_elem?, set, remove_at, includes, filter_by, is_empty, if◌then◌else◌, ◌==◌, ◌&&◌, ◌||◌, nat_eq,
  ltb, leb, or_else,
}

-- `TenantBusinessHour`, of resources/js/types/tenant.ts
pub record BusinessHour : Type 0 where
  pub weekday : ℕ
  pub open_time : String
  pub close_time : String
  pub sort_order : ℕ

pub record BusinessHourForm : Type 0 where
  pub hour : BusinessHour
  pub client_id : ℕ

pub record Hours : Type 0 where
  pub business_hours : List BusinessHourForm
  pub copy_source_day : Option ℕ
  pub copy_target_days : List ℕ
  pub next_client_id : ℕ

-- `Partial<BusinessHourForm>`, where a field that is not given is `none`. The page gives times only,
-- and the client id is never among the changes.
pub record Change : Type 0 where
  pub weekday : Option ℕ
  pub open_time : Option String
  pub close_time : Option String
  pub sort_order : Option ℕ

pub data Event : Type 0 where
  add_time_range toggle_copy_target open_copy_ui : (weekday : ℕ) → Event
  update_time_range : (index : ℕ) → Change → Event
  remove_time_range : (index : ℕ) → Event
  select_weekdays select_all_days apply_copy : Event

-- `toBusinessHourForm` for each of the shop's hours, with the ids from a number on
unfoldable pub to_forms : ℕ → List BusinessHour → List BusinessHourForm
to_forms next [] = []
to_forms next (h ∷ hours) = record { hour = h; client_id = next } ∷ to_forms (suc next) hours

unfoldable pub to_payload : BusinessHourForm → BusinessHour
to_payload form = form.hour

unfoldable pub init_hours : List BusinessHour → Hours
unfolding to_forms
init_hours hours = record {
  business_hours = to_forms 0 hours;
  copy_source_day = none;
  copy_target_days = [];
  next_client_id = length hours;
}

abbrev pub on_day : ℕ → BusinessHourForm → Bool
on_day day form = form.hour.weekday == day

unfoldable pub add_range : ℕ → Hours → Hours
add_range day s = record s {
  business_hours =
      s.business_hours
      ++ record {
        client_id = s.next_client_id;
        hour = record {
          weekday = day;
          open_time = "";
          close_time = "";
          sort_order = length (filter_by (on_day day) s.business_hours);
        };
      }
        ∷ [];
  next_client_id = suc s.next_client_id;
}

abbrev pub changed : Change → BusinessHourForm → BusinessHourForm
changed change form = record form {
  hour = record {
    weekday = or_else change.weekday form.hour.weekday;
    open_time = or_else change.open_time form.hour.open_time;
    close_time = or_else change.close_time form.hour.close_time;
    sort_order = or_else change.sort_order form.hour.sort_order;
  };
}

-- The page gives the index of an entry; another would make a hole in the array.
unfoldable pub update_range : ℕ → Change → Hours → Hours
update_range index change s = elim (get_elem? s.business_hours index) [
  | none ↦ s
  | some form ↦ record s { business_hours = set s.business_hours index (changed change form) }
]

-- `[...].filter((d) => d !== copySourceDay)`
abbrev pub days_without : ℕ → List ℕ → List ℕ
days_without source days = filter_by (λ d. not (d == source)) days

unfoldable pub toggle_target : ℕ → List ℕ → List ℕ
toggle_target day days = if includes days day then days_without day days else days ++ day ∷ []

abbrev pub select_days : List ℕ → Hours → Hours
select_days days s = elim s.copy_source_day [
  | none ↦ s
  | some source ↦ record s { copy_target_days = days_without source days }
]

-- the source's entries for a day, numbered from an index on, with ids from a number on
unfoldable pub copy_day : ℕ → ℕ → ℕ → List BusinessHourForm → List BusinessHourForm
copy_day day index next [] = []
copy_day day index next (e ∷ entries) =
    record { client_id = next; hour = record e.hour { weekday = day; sort_order = index } }
    ∷ copy_day day (suc index) (suc next) entries

-- `copyTargetDays.flatMap(...)`
unfoldable pub copy_days : List ℕ → ℕ → List BusinessHourForm → List BusinessHourForm
unfolding copy_day
copy_days [] next entries = []
copy_days (day ∷ days) next entries =
    copy_day day 0 next entries ++ copy_days days (next + length entries) entries

unfoldable pub copy_from : ℕ → Hours → Hours
unfolding copy_days
copy_from source s =
    let remaining =
      filter_by (λ h. not (includes s.copy_target_days h.hour.weekday)) s.business_hours in
    let copied =
      copy_days s.copy_target_days s.next_client_id (filter_by (on_day source) s.business_hours) in
    record {
      business_hours = remaining ++ copied;
      copy_source_day = none;
      copy_target_days = [];
      next_client_id = s.next_client_id + length copied;
    }

unfoldable pub apply_copy_to_target_days : Hours → Hours
unfolding copy_from
apply_copy_to_target_days s = elim s.copy_source_day [
  | none ↦ s
  | some source ↦ if is_empty s.copy_target_days then s else copy_from source s
]

unfoldable pub open_copy : ℕ → Hours → Hours
open_copy day s = elim s.copy_source_day [
  | none ↦ record s { copy_source_day = some day; copy_target_days = [] }
  | some source ↦
      if source == day
      then record s { copy_source_day = none; copy_target_days = [] }
      else record s { copy_source_day = some day; copy_target_days = [] }
]

unfoldable pub step : Hours → Event → Hours
step s (add_time_range day) = add_range day s
step s (update_time_range index change) = update_range index change s
step s (remove_time_range index) = record s { business_hours = remove_at s.business_hours index }
step s (toggle_copy_target day) = record s {
  copy_target_days = toggle_target day s.copy_target_days;
}
step s select_weekdays = select_days (1 ∷ 2 ∷ 3 ∷ 4 ∷ 5 ∷ []) s
step s select_all_days = select_days (0 ∷ 1 ∷ 2 ∷ 3 ∷ 4 ∷ 5 ∷ 6 ∷ []) s
step s apply_copy = apply_copy_to_target_days s
step s (open_copy_ui day) = open_copy day s

unfoldable pub run : Hours → List Event → Hours
unfolding step add_range update_range toggle_target apply_copy_to_target_days open_copy
run s [] = s
run s (e ∷ es) = run (step s e) es

-- ===== src/Hours/Ids.antt =====
-- The ids and the days of the form for business hours over events, of resources/js/Hooks/
-- useBusinessHours.ts.
use fleximo_oss.Base.{
  ℕ, suc, ◌+◌, not, Option, none, some, List, [], ◌∷◌, ◌++◌, length, get_elem?, includes, filter_by,
  is_empty, if◌then◌else◌, ◌==◌, nat_eq, refl, subst, arith, if_elim, if_split, Option-cases, inl,
  inr,
}
use fleximo_oss.Hours.{
  BusinessHour, BusinessHourForm, Hours, Event, add_time_range, toggle_copy_target, open_copy_ui,
  update_time_range, remove_time_range, select_weekdays, select_all_days, apply_copy, Change,
  to_forms, init_hours, on_day, add_range, update_range, days_without, toggle_target, select_days,
  copy_days, copy_from, apply_copy_to_target_days, open_copy, step, run,
}
use fleximo_oss.Hours.Distinct.{
  Distinct, Between, map-append, Between-append, Distinct-filter_by, Distinct-snoc,
}
use fleximo_oss.Hours.Kept.{
  client_ids, Between-filtered, Between-removed, client_ids-set, copy_days-Between,
}

-- The entries have ids of their own, which were given out before; the target days differ.
pub record IsForm (s : Hours) : Type 0 where
  pub ids : Between 0 s.next_client_id (client_ids s.business_hours)
  pub targets : Distinct s.copy_target_days

module _ (s : Hours) (h : IsForm s) where
  copy_from-IsForm : (source : ℕ) → IsForm (copy_from source s)
  unfolding copy_from
  copy_from-IsForm source =
      let p = λ (f : BusinessHourForm). not (includes s.copy_target_days f.hour.weekday) in
      let remaining = filter_by p s.business_hours in
      let copied =
        copy_days s.copy_target_days s.next_client_id
          (filter_by (on_day source) s.business_hours) in
      record {
        ids = rw (map-append (λ f. f.client_id) remaining copied) (
            Between-append (client_ids remaining) (client_ids copied) 0 s.next_client_id
              (s.next_client_id + length copied) (omega arith) (omega arith)
              (Between-filtered p 0 s.next_client_id s.business_hours h.ids)
              (copy_days-Between s.copy_target_days s.next_client_id
                (filter_by (on_day source) s.business_hours)));
        targets = tt;
      }

  add_range-IsForm : (day : ℕ) → IsForm (add_range day s)
  unfolding add_range
  add_range-IsForm day = record {
    ids = rw (map-append (λ f. f.client_id) s.business_hours _) (
        Between-append (client_ids s.business_hours) (s.next_client_id ∷ []) 0 s.next_client_id
          (suc s.next_client_id) (omega arith) (omega arith) h.ids
          ((refl, tt), ((omega arith, omega arith), tt)));
    targets = h.targets;
  }

  update_range-IsForm : (index : ℕ) (change : Change) → IsForm (update_range index change s)
  unfolding update_range
  update_range-IsForm index change = elim (Option-cases (get_elem? s.business_hours index)) [
    | inl none_there ↦ rw (update_range, none_there) h
    | inr (form, there) ↦
        rw (update_range, there)
          (record {
            ids = rw (client_ids-set s.business_hours index form change there) h.ids;
            targets = h.targets;
          })
  ]

  toggle_target-Distinct : (day : ℕ) → Distinct (toggle_target day s.copy_target_days)
  unfolding toggle_target
  toggle_target-Distinct day =
      let days = s.copy_target_days in
      if_split Distinct (includes days day) (days_without day days) (days ++ day ∷ [])
        (λ there. Distinct-filter_by (λ d. not (d == day)) days h.targets)
        (λ missing. Distinct-snoc days day h.targets missing)

  select_days-IsForm : (days : List ℕ) → Distinct days → IsForm (select_days days s)
  select_days-IsForm days k = with_source s.copy_source_day
    where
      with_source :
          (o : Option ℕ)
          → IsForm (elim o [
            | none ↦ s
            | some source ↦ record s { copy_target_days = days_without source days }
          ])
      with_source none = h
      with_source (some source) = record {
        ids = h.ids;
        targets = Distinct-filter_by (λ d. not (d == source)) days k;
      }

  apply_copy-IsForm : IsForm (apply_copy_to_target_days s)
  unfolding apply_copy_to_target_days
  apply_copy-IsForm = with_source s.copy_source_day
    where
      with_source :
          (o : Option ℕ)
          → IsForm (elim o [
            | none ↦ s
            | some source ↦ if is_empty s.copy_target_days then s else copy_from source s
          ])
      with_source none = h
      with_source (some source) =
          if_elim IsForm (is_empty s.copy_target_days) s _ h (copy_from-IsForm source)

  open_copy-IsForm : (day : ℕ) → IsForm (open_copy day s)
  unfolding open_copy
  open_copy-IsForm day = with_source s.copy_source_day
    where
      with_source :
          (o : Option ℕ)
          → IsForm (elim o [
            | none ↦ record s { copy_source_day = some day; copy_target_days = [] }
            | some source ↦
                if source == day
                then record s { copy_source_day = none; copy_target_days = [] }
                else record s { copy_source_day = some day; copy_target_days = [] }
          ])
      with_source none = record { ids = h.ids; targets = tt }
      with_source (some source) =
          if_elim IsForm (source == day) _ _ (record { ids = h.ids; targets = tt })
            (record { ids = h.ids; targets = tt })

step-IsForm : (s : Hours) (e : Event) → IsForm s → IsForm (step s e)
unfolding step
step-IsForm s (add_time_range day) h = add_range-IsForm s h day
step-IsForm s (update_time_range index change) h = update_range-IsForm s h index change
step-IsForm s (remove_time_range index) h = record {
  ids = Between-removed 0 s.next_client_id s.business_hours index h.ids;
  targets = h.targets;
}
step-IsForm s (toggle_copy_target day) h = record {
  ids = h.ids;
  targets = toggle_target-Distinct s h day;
}
step-IsForm s select_weekdays h =
    select_days-IsForm s h (1 ∷ 2 ∷ 3 ∷ 4 ∷ 5 ∷ []) (refl, (refl, (refl, (refl, (refl, tt)))))
step-IsForm s select_all_days h =
    select_days-IsForm s h (0 ∷ 1 ∷ 2 ∷ 3 ∷ 4 ∷ 5 ∷ 6 ∷ [])
      (refl, (refl, (refl, (refl, (refl, (refl, (refl, tt)))))))
step-IsForm s apply_copy h = apply_copy-IsForm s h
step-IsForm s (open_copy_ui day) h = open_copy-IsForm s h day

to_forms-Between :
    (next : ℕ) (hours : List BusinessHour)
    → Between next (next + length hours) (client_ids (to_forms next hours))
unfolding to_forms
to_forms-Between next [] = (tt, tt)
to_forms-Between next (h ∷ hours) =
    Between-append (next ∷ []) (client_ids (to_forms (suc next) hours)) next (suc next)
      (next + suc (length hours)) (omega arith) (omega arith)
      ((refl, tt), ((omega arith, omega arith), tt))
      (subst (λ k. Between (suc next) k (client_ids (to_forms (suc next) hours))) (omega arith)
        (to_forms-Between (suc next) hours))

run_from : (es : List Event) (s : Hours) → IsForm s → IsForm (run s es)
unfolding run
run_from [] s h = h
run_from (e ∷ es) s h = run_from es (step s e) (step-IsForm s e h)

-- Whatever is added, changed, removed and copied, no two entries of the form have one id, every id
-- was given out before, and no day is selected twice as a target.
pub run-IsForm : (hours : List BusinessHour) (es : List Event) → IsForm (run (init_hours hours) es)
unfolding init_hours
run-IsForm hours es = run_from es (init_hours hours) (record {
  ids =
      subst (λ k. Between 0 k (client_ids (to_forms 0 hours))) (omega arith)
        (to_forms-Between 0 hours);
  targets = tt;
})

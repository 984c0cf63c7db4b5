-- ===== src/Hours/Copies.antt =====
-- What a copy of a day's hours makes of every day, of resources/js/Hooks/useBusinessHours.ts.
use fleximo_oss.Base.{
  ℕ, suc, ◌+◌, Bool, true, false, not, some, String, List, [], ◌∷◌, ◌++◌, map, length, includes,
  filter_by, is_empty, if◌then◌else◌, ◌==◌, nat_eq, nat_beq_iff, ◌≡◌, refl, ap, ap₂, ◌∙◌, subst,
  if_elim, Bool-cases, inl, inr,
}
use fleximo_oss.Hours.Distinct.{Distinct, map-append}
use fleximo_oss.Hours.Ids.{run-IsForm}
use fleximo_oss.Hours.{
  Event, init_hours, run, BusinessHour, BusinessHourForm, Hours, on_day, copy_day, copy_days,
  copy_from, apply_copy_to_target_days,
}

-- an opening and a closing time
abbrev Times : Type 0
Times = String × String

abbrev times : List BusinessHourForm → List Times
times = map (λ h. (h.hour.open_time, h.hour.close_time))

-- the entries of a day: their numbers and times
abbrev pub day_view : ℕ → List BusinessHourForm → List (ℕ × String × String)
day_view day hours =
    map (λ h. (h.hour.sort_order, h.hour.open_time, h.hour.close_time))
      (filter_by (on_day day) hours)

-- the times of a day, numbered anew
abbrev numbered : ℕ → List Times → List (ℕ × String × String)
numbered i [] = []
numbered i ((o, c) ∷ ts) = (i, o, c) ∷ numbered (suc i) ts

abbrev pub numbered_view : ℕ → List BusinessHourForm → List (ℕ × String × String)
numbered_view day hours = numbered 0 (times (filter_by (on_day day) hours))

filter_by-append :
    {A : Type 0} (p : A → Bool) (xs ys : List A)
    → filter_by p (xs ++ ys) ≡ filter_by p xs ++ filter_by p ys
filter_by-append p [] ys = refl
filter_by-append p (x ∷ xs) ys = elim (Bool-cases (p x)) [
  | inl kept ↦ rw kept (ap (λ l. x ∷ l) (filter_by-append p xs ys))
  | inr dropped ↦ rw dropped (filter_by-append p xs ys)
]

append_nil : {A : Type 0} (xs : List A) → xs ++ [] ≡ xs
append_nil [] = refl
append_nil (x ∷ xs) = ap (λ l. x ∷ l) (append_nil xs)

day_view-append :
    (day : ℕ) (xs ys : List BusinessHourForm)
    → day_view day (xs ++ ys) ≡ day_view day xs ++ day_view day ys
day_view-append day xs ys =
    ap (map _) (filter_by-append (on_day day) xs ys) ∙ map-append _ (filter_by (on_day day) xs) _

-- A copy to a day is seen on that day only.
day_view-copy_day :
    (day to i next : ℕ) (entries : List BusinessHourForm)
    → day_view day (copy_day to i next entries)
      ≡ (if to == day then numbered i (times entries) else [])
unfolding copy_day
day_view-copy_day day to i next [] = if_elim (λ l. [] ≡ l) (to == day) [] [] refl refl
day_view-copy_day day to i next (e ∷ entries) =
    let rest = day_view-copy_day day to (suc i) (suc next) entries in
    elim (Bool-cases (to == day)) [
      | inl same ↦
          rw (copy_day, same)
            (ap (λ l. (i, e.hour.open_time, e.hour.close_time) ∷ l) (rw same at rest))
      | inr other ↦ rw (copy_day, other) (rw other at rest)
    ]

day_view-copy_days :
    (day : ℕ) (days : List ℕ) (next : ℕ) (entries : List BusinessHourForm)
    → Distinct days
    → day_view day (copy_days days next entries)
      ≡ (if includes days day then numbered 0 (times entries) else [])
unfolding copy_days
day_view-copy_days day [] next entries h = refl
day_view-copy_days day (d ∷ days) next entries h =
    let first = day_view-copy_day day d 0 next entries in
    let rest = day_view-copy_days day days (next + length entries) entries h.1 in
    let both =
      day_view-append day (copy_day d 0 next entries)
        (copy_days days (next + length entries) entries) in
    elim (Bool-cases (d == day)) [
      | inl same ↦
          let once : includes days day ≡ false =
            subst (λ k. includes days k ≡ false) ((nat_beq_iff d day).0 same) h.0 in
          rw (copy_days, both, first, rest, same, once) (append_nil (numbered 0 (times entries)))
      | inr other ↦ rw (copy_days, both, first, rest, other) refl
    ]

-- Of the entries that stay, those of a target day are gone.
day_view-remaining :
    (day : ℕ) (days : List ℕ) (hours : List BusinessHourForm)
    → day_view day (filter_by (λ h. not (includes days h.hour.weekday)) hours)
      ≡ (if includes days day then [] else day_view day hours)
day_view-remaining day days [] = if_elim (λ l. [] ≡ l) (includes days day) [] [] refl refl
day_view-remaining day days (h ∷ hours) =
    let rest = day_view-remaining day days hours in
    elim (Bool-cases (includes days h.hour.weekday)) [
      | inl target ↦ elim (Bool-cases (h.hour.weekday == day)) [
        | inl same ↦
            let gone : includes days day ≡ true =
              subst (λ k. includes days k ≡ true) ((nat_beq_iff h.hour.weekday day).0 same)
                target in
            rw (target, gone) (rw gone at rest)
        | inr other ↦ rw (target, other) rest
      ]
      | inr kept ↦ elim (Bool-cases (h.hour.weekday == day)) [
        | inl same ↦
            let stays : includes days day ≡ false =
              subst (λ k. includes days k ≡ false) ((nat_beq_iff h.hour.weekday day).0 same) kept in
            rw (kept, same, stays)
              (ap (λ l. (h.hour.sort_order, h.hour.open_time, h.hour.close_time) ∷ l)
                (rw stays at rest))
        | inr other ↦ rw (kept, other) rest
      ]
    ]

or_branches :
    {A : Type 0} (b : Bool) (xs ys : List A)
    → (if b then [] else ys) ++ (if b then xs else []) ≡ (if b then xs else ys)
or_branches true xs ys = refl
or_branches false xs ys = append_nil ys

copy_from-day_view :
    (source : ℕ) (s : Hours) (day : ℕ)
    → Distinct s.copy_target_days
    → day_view day (copy_from source s).business_hours ≡ (
        if includes s.copy_target_days day
        then numbered_view source s.business_hours
        else day_view day s.business_hours)
unfolding copy_from
copy_from-day_view source s day h =
    let days = s.copy_target_days in
    let entries = filter_by (on_day source) s.business_hours in
    day_view-append day (filter_by (λ h. not (includes days h.hour.weekday)) s.business_hours)
      (copy_days days s.next_client_id entries)
    ∙ ap₂ (λ l r. l ++ r) (day_view-remaining day days s.business_hours)
        (day_view-copy_days day days s.next_client_id entries h)
    ∙ or_branches (includes days day) (numbered 0 (times entries)) (day_view day s.business_hours)

applied :
    (source : ℕ) (s : Hours) (day : ℕ)
    → Distinct s.copy_target_days
    → s.copy_source_day ≡ some source
    → day_view day (apply_copy_to_target_days s).business_hours ≡ (
        if includes s.copy_target_days day
        then numbered_view source s.business_hours
        else day_view day s.business_hours)
unfolding apply_copy_to_target_days
applied source s day h e = rw (apply_copy_to_target_days, e) (with_targets s.copy_target_days refl)
  where
    with_targets :
        (days : List ℕ)
        → s.copy_target_days ≡ days
        → day_view day (if is_empty days then s else copy_from source s).business_hours ≡ (
            if includes days day
            then numbered_view source s.business_hours
            else day_view day s.business_hours)
    with_targets [] k = refl
    with_targets (d ∷ days) k =
        subst
          (λ l. day_view day (copy_from source s).business_hours ≡ (
            if includes l day
            then numbered_view source s.business_hours
            else day_view day s.business_hours))
          k (copy_from-day_view source s day h)

-- After any use of the form, a copy gives every target day the times of the source day, in their
-- order and numbered from 0, in place of its own; the entries of every other day stay, in their
-- order.
pub apply_copy-day_view :
    (hours : List BusinessHour) (es : List Event) (source day : ℕ)
    → (run (init_hours hours) es).copy_source_day ≡ some source
    → day_view day (apply_copy_to_target_days (run (init_hours hours) es)).business_hours ≡ (
        if includes (run (init_hours hours) es).copy_target_days day
        then numbered_view source (run (init_hours hours) es).business_hours
        else day_view day (run (init_hours hours) es).business_hours)
apply_copy-day_view hours es source day e =
    let s = run (init_hours hours) es in applied source s day (run-IsForm hours es).targets e

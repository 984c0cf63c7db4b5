-- ===== src/Hours/Kept.antt =====
-- The ids of entries that stay, go and are copied, of resources/js/Hooks/useBusinessHours.ts.
use fleximo_oss.Base.{
  ℕ, zero, suc, ◌+◌, Bool, false, none, some, List, [], ◌∷◌, ◌++◌, map, length, length-append,
  get_elem?, set, remove_at, includes, filter_by, nat_eq, ◌≡◌, refl, sym, ap, ◌∙◌, subst, arith,
  Bool-cases, inl, inr,
}
use fleximo_oss.Hours.{BusinessHourForm, Change, changed, copy_day, copy_days}
use fleximo_oss.Hours.Distinct.{Between, map-append, Between-append}

abbrev pub client_ids : List BusinessHourForm → List ℕ
client_ids = map (λ h. h.client_id)

-- the ids of some of the entries
module _ (p : BusinessHourForm → Bool) where
  missing_filtered :
      (hours : List BusinessHourForm) (x : ℕ)
      → includes (client_ids hours) x ≡ false
      → includes (client_ids (filter_by p hours)) x ≡ false
  missing_filtered [] x h = refl
  missing_filtered (y ∷ hours) x h = ground (arith, missing_filtered hours x)

  pub Between-filtered :
      (low high : ℕ) (hours : List BusinessHourForm)
      → Between low high (client_ids hours)
      → Between low high (client_ids (filter_by p hours))
  Between-filtered low high [] h = (tt, tt)
  Between-filtered low high (y ∷ hours) h =
      let rest = Between-filtered low high hours (h.0.1, h.1.1) in
      elim (Bool-cases (p y)) [
        | inl kept ↦ rw kept ((missing_filtered hours y.client_id h.0.0, rest.0), (h.1.0, rest.1))
        | inr dropped ↦ rw dropped rest
      ]

missing_removed :
    (hours : List BusinessHourForm) (i x : ℕ)
    → includes (client_ids hours) x ≡ false
    → includes (client_ids (remove_at hours i)) x ≡ false
missing_removed [] i x h = refl
missing_removed (y ∷ hours) zero x h = ground (arith, h)
missing_removed (y ∷ hours) (suc i) x h = ground (arith, missing_removed hours i x, h)

pub Between-removed :
    (low high : ℕ) (hours : List BusinessHourForm) (i : ℕ)
    → Between low high (client_ids hours)
    → Between low high (client_ids (remove_at hours i))
Between-removed low high [] i h = h
Between-removed low high (y ∷ hours) zero h = (h.0.1, h.1.1)
Between-removed low high (y ∷ hours) (suc i) h =
    let rest = Between-removed low high hours i (h.0.1, h.1.1) in
    ((missing_removed hours i y.client_id h.0.0, rest.0), (h.1.0, rest.1))

changed_id :
    (change : Change) (form : BusinessHourForm) → (changed change form).client_id ≡ form.client_id
changed_id change form = refl

pub client_ids-set :
    (hours : List BusinessHourForm) (i : ℕ) (form : BusinessHourForm) (change : Change)
    → get_elem? hours i ≡ some form
    → client_ids (set hours i (changed change form)) ≡ client_ids hours
client_ids-set [] i form change h = refl
client_ids-set (x ∷ hours) zero form change h =
    ap (λ k. k ∷ client_ids hours)
      (changed_id change form ∙ sym (ap (λ o. elim o [ none ↦ 0 | some y ↦ y.client_id ]) h))
client_ids-set (x ∷ hours) (suc i) form change h =
    ap (λ l. x.client_id ∷ l) (client_ids-set hours i form change h)

copy_day-Between :
    (day i next : ℕ) (entries : List BusinessHourForm)
    → Between next (next + length entries) (client_ids (copy_day day i next entries))
unfolding copy_day
copy_day-Between day i next [] = (tt, tt)
copy_day-Between day i next (e ∷ entries) =
    Between-append (next ∷ []) (client_ids (copy_day day (suc i) (suc next) entries)) next
      (suc next) (next + suc (length entries)) (omega arith) (omega arith)
      ((refl, tt), ((omega arith, omega arith), tt))
      (subst (λ k. Between (suc next) k (client_ids (copy_day day (suc i) (suc next) entries)))
        (omega arith) (copy_day-Between day (suc i) (suc next) entries))

length-copy_day :
    (day i next : ℕ) (entries : List BusinessHourForm)
    → length (copy_day day i next entries) ≡ length entries
unfolding copy_day
length-copy_day day i next [] = refl
length-copy_day day i next (e ∷ entries) = ap suc (length-copy_day day (suc i) (suc next) entries)

pub copy_days-Between :
    (days : List ℕ) (next : ℕ) (entries : List BusinessHourForm)
    → Between next
        (next + length (copy_days days next entries))
        (client_ids (copy_days days next entries))
unfolding copy_days
copy_days-Between [] next entries = (tt, tt)
copy_days-Between (d ∷ days) next entries =
    let first = copy_day d 0 next entries in
    let rest = copy_days days (next + length entries) entries in
    let size : length (first ++ rest) ≡ length entries + length rest =
      omega (arith, length-append first rest, length-copy_day d 0 next entries) in
    let end : next + length entries + length rest ≡ next + length (first ++ rest) =
      omega (arith, size) in
    rw (map-append (λ h. h.client_id) first rest) (
      subst (λ k. Between next k (client_ids first ++ client_ids rest)) end
        (Between-append (client_ids first) (client_ids rest) next (next + length entries)
          (next + length entries + length rest) (omega arith) (omega arith)
          (copy_day-Between d 0 next entries)
          (copy_days-Between days (next + length entries) entries)))

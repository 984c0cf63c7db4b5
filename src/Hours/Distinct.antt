-- ===== src/Hours/Distinct.antt =====
-- Lists of numbers without repetition, for the ids and the days of resources/js/Hooks/
-- useBusinessHours.ts.
use fleximo_oss.Base.{
  ℕ, ◌≤◌, ◌<◌, Bool, false, List, [], ◌∷◌, ◌++◌, map, includes, filter_by, nat_eq, ◌≡◌, refl, ap,
  arith, Bool-cases, inl, inr, All, All-append,
}

-- No number is there twice.
abbrev pub Distinct : List ℕ → Type 0
Distinct [] = Unit
Distinct (d ∷ days) = (includes days d ≡ false) × Distinct days

-- Ids that differ, from a number on and below another.
abbrev pub Between : ℕ → ℕ → List ℕ → Type 0
Between low high ids = Distinct ids × All (λ id. (low ≤ id) × (id < high)) ids

pub map-append :
    {A B : Type 0} (f : A → B) (xs ys : List A) → map f (xs ++ ys) ≡ map f xs ++ map f ys
map-append f [] ys = refl
map-append f (x ∷ xs) ys = ap (λ l. f x ∷ l) (map-append f xs ys)

pub not_in_append :
    (xs ys : List ℕ) (x : ℕ)
    → includes xs x ≡ false
    → includes ys x ≡ false
    → includes (xs ++ ys) x ≡ false
not_in_append [] ys x h k = k
not_in_append (y ∷ xs) ys x h k = ground (arith, not_in_append xs ys x)

widen :
    (low low' high high' : ℕ) (ids : List ℕ)
    → low' ≤ low
    → high ≤ high'
    → All (λ id. (low ≤ id) × (id < high)) ids
    → All (λ id. (low' ≤ id) × (id < high')) ids
widen low low' high high' [] l h k = tt
widen low low' high high' (i ∷ ids) l h k =
    ((omega (arith, l, k.0.0), omega (arith, h, k.0.1)), widen low low' high high' ids l h k.1)

not_in_later :
    (x low high : ℕ) (ids : List ℕ)
    → x < low
    → All (λ id. (low ≤ id) × (id < high)) ids
    → includes ids x ≡ false
not_in_later x low high [] l h = refl
not_in_later x low high (i ∷ ids) l h = ground (arith, not_in_later x low high ids l h.1, l, h.0.0)

-- Ids below a number and ids from it on differ.
pub Distinct-append :
    (xs ys : List ℕ) (low middle high : ℕ)
    → Between low middle xs
    → Between middle high ys
    → Distinct (xs ++ ys)
Distinct-append [] ys low middle high h k = k.0
Distinct-append (x ∷ xs) ys low middle high h k = (
  not_in_append xs ys x h.0.0 (not_in_later x middle high ys h.1.0.1 k.1),
  Distinct-append xs ys low middle high (h.0.1, h.1.1) k,
)

pub Between-append :
    (xs ys : List ℕ) (low middle high : ℕ)
    → low ≤ middle
    → middle ≤ high
    → Between low middle xs
    → Between middle high ys
    → Between low high (xs ++ ys)
Between-append xs ys low middle high l m h k = (
  Distinct-append xs ys low middle high h k,
  All-append _ xs ys (widen low low middle high xs (omega arith) m h.1)
      (widen middle low high high ys l (omega arith) k.1),
)

not_in_filter_by :
    (p : ℕ → Bool) (xs : List ℕ) (x : ℕ)
    → includes xs x ≡ false
    → includes (filter_by p xs) x ≡ false
not_in_filter_by p [] x h = refl
not_in_filter_by p (y ∷ xs) x h = ground (arith, not_in_filter_by p xs x)

pub Distinct-filter_by : (p : ℕ → Bool) (xs : List ℕ) → Distinct xs → Distinct (filter_by p xs)
Distinct-filter_by p [] h = tt
Distinct-filter_by p (x ∷ xs) h = elim (Bool-cases (p x)) [
  | inl kept ↦ rw kept (not_in_filter_by p xs x h.0, Distinct-filter_by p xs h.1)
  | inr dropped ↦ rw dropped (Distinct-filter_by p xs h.1)
]

pub Distinct-snoc :
    (xs : List ℕ) (x : ℕ) → Distinct xs → includes xs x ≡ false → Distinct (xs ++ x ∷ [])
Distinct-snoc [] x h k = (refl, tt)
Distinct-snoc (y ∷ xs) x h k = (
  not_in_append xs (x ∷ []) y h.0 (ground (arith, k)),
  Distinct-snoc xs x h.1 (ground (arith, k)),
)

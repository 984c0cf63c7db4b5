-- ===== src/Toast/Timers.antt =====
-- The number of notices of resources/js/Hooks/useToast.ts and their timers.
use fleximo_oss.Base.{
  ◌≤◌, Bool, true, false, not, some, String, List, [], ◌∷◌, ◌++◌, includes, length, length-append,
  length-filter_by, ltb, truthy, or_else, ◌==◌, string_eq, ◌≡◌, refl, sym, ap, ◌∙◌, subst, arith,
  Bool-cases, Option-cases, inl, inr, if_elim, All, beq_refl, All-append, All-filter_by, ◌||◌,
}
use mathlib.Core.Option.{some-injective}
use fleximo_oss.Toast.{
  ToastState, ToastItem, Toasts, Event, show, hide, expired, max_toasts, clear_timer, without,
  drop_oldest, show_toast, last_toast, all_but_last, hide_toast, on_expired, step, run,
}

-- No notice has the id of an earlier one.
abbrev pub Fresh : String → List ToastItem → Type 0
Fresh id toasts = All (λ t. (t.id == id) ≡ false) toasts

abbrev pub Unique : List ToastItem → Type 0
Unique [] = Unit
Unique (t ∷ ts) = Fresh t.id ts × Unique ts

abbrev HasTimer : List String → ToastItem → Type 0
HasTimer timers t = includes timers t.id ≡ true

-- At most five notices are shown, with different ids, and each has a timer.
abbrev pub IsTimed : Toasts → Type 0
IsTimed s = (length s.toasts ≤ 5) × Unique s.toasts × All (HasTimer s.timers) s.toasts

ne_sym : (a b : String) → (a == b) ≡ false → (b == a) ≡ false
ne_sym a b h = elim (Bool-cases (b == a)) [
  | inl same ↦
      let again : (a == b) ≡ true =
        (string_eq.beq_iff a b).1 (sym ((string_eq.beq_iff b a).0 same)) in
      ground arith
  | inr other ↦ other
]

second : (b c : Bool) → b ≡ false → (b || c) ≡ true → c ≡ true
second b c h e = ground arith

second_true : (b : Bool) → (b || true) ≡ true
second_true true = refl
second_true false = refl

includes-clear_timer :
    (id k : String) (timers : List String)
    → (k == id) ≡ false
    → includes timers k ≡ true
    → includes (clear_timer id timers) k ≡ true
unfolding clear_timer
includes-clear_timer id k [] h e = e
includes-clear_timer id k (t ∷ timers) h e = elim (Bool-cases (t == id)) [
  | inl same ↦ elim (Bool-cases (t == k)) [
    | inl here ↦
        let again : (k == id) ≡ true =
          (string_eq.beq_iff k id).1
            (sym ((string_eq.beq_iff t k).0 here) ∙ (string_eq.beq_iff t id).0 same) in
        absurd (ground arith)
    | inr later ↦
        rw same (includes-clear_timer id k timers h (second (t == k) (includes timers k) later e))
  ]
  | inr other ↦ elim (Bool-cases (t == k)) [
    | inl here ↦ rw (other, here) refl
    | inr later ↦
        rw (other, later)
          (includes-clear_timer id k timers h (second (t == k) (includes timers k) later e))
  ]
]

kept :
    (id : String) (timers : List String) (ts : List ToastItem)
    → Fresh id ts
    → All (HasTimer timers) ts
    → All (HasTimer (clear_timer id timers)) ts
kept id timers [] f h = tt
kept id timers (t ∷ ts) f h =
    (includes-clear_timer id t.id timers f.0 h.0, kept id timers ts f.1 h.1)

Fresh-without : (id : String) (ts : List ToastItem) → Fresh id (without id ts)
Fresh-without id [] = tt
Fresh-without id (t ∷ ts) = elim (Bool-cases (t.id == id)) [
  | inl same ↦ rw same (Fresh-without id ts)
  | inr other ↦ rw other (other, Fresh-without id ts)
]

Unique-without : (id : String) (ts : List ToastItem) → Unique ts → Unique (without id ts)
Unique-without id [] u = tt
Unique-without id (t ∷ ts) u =
    if_elim Unique (not (t.id == id)) (t ∷ without id ts) (without id ts)
      (All-filter_by _ _ ts u.0, Unique-without id ts u.1) (Unique-without id ts u.1)

-- The same with one more timer in front, which stays.
kept_behind :
    (new id : String) (timers : List String) (ts : List ToastItem)
    → Fresh id ts
    → All (HasTimer (new ∷ timers)) ts
    → All (HasTimer (new ∷ clear_timer id timers)) ts
kept_behind new id timers [] f h = tt
kept_behind new id timers (t ∷ ts) f h = (
  elim (Bool-cases (new == t.id)) [
    | inl here ↦ rw here refl
    | inr later ↦ rw later (
        includes-clear_timer id t.id timers f.0
          (second (new == t.id) (includes timers t.id) later h.0))
  ],
  kept_behind new id timers ts f.1 h.1,
)

-- The notices that stay, with their timers and the new one's.
abbrev with_timer : String → Toasts → Toasts
with_timer new d = record { toasts = d.toasts; timers = new ∷ d.timers }

drop_oldest-IsTimed :
    (new : String) (ts : List ToastItem) (timers : List String)
    → Unique ts
    → All (HasTimer (new ∷ timers)) ts
    → IsTimed (with_timer new (drop_oldest ts timers))
unfolding drop_oldest
drop_oldest-IsTimed new [] timers u h = (omega arith, tt, tt)
drop_oldest-IsTimed new (t ∷ ts) timers u h = elim (Bool-cases (ltb max_toasts (length (t ∷ ts)))) [
  | inl long ↦ rw long (
      drop_oldest-IsTimed new ts (clear_timer t.id timers) u.1
        (kept_behind new t.id timers ts u.0 h.1))
  | inr short ↦ let few : length (t ∷ ts) ≤ 5 = ground arith in rw short (few, u, h)
]

Unique-append :
    (ts : List ToastItem) (new : ToastItem) → Unique ts → Fresh new.id ts → Unique (ts ++ new ∷ [])
Unique-append [] new u f = (tt, tt)
Unique-append (t ∷ ts) new u f =
    (All-append _ ts (new ∷ []) u.0 (ne_sym t.id new.id f.0, tt), Unique-append ts new u.1 f.1)

waiting_too :
    (new : String) (timers : List String) (ts : List ToastItem)
    → All (HasTimer timers) ts
    → All (HasTimer (new ∷ timers)) ts
waiting_too new timers [] h = tt
waiting_too new timers (t ∷ ts) h =
    (rw h.0 (second_true (new == t.id)), waiting_too new timers ts h.1)

show_toast-IsTimed :
    (state : ToastState) (id : String) (s : Toasts)
    → Fresh id s.toasts
    → IsTimed s
    → IsTimed (show_toast state id s)
unfolding show_toast
show_toast-IsTimed state id s f h =
    let new : ToastItem = record { state = state; id = id } in
    drop_oldest-IsTimed id (s.toasts ++ new ∷ []) s.timers (Unique-append s.toasts new h.1 f) (
      All-append _ s.toasts (new ∷ []) (waiting_too id s.timers s.toasts h.2)
        (rw (beq_refl id) refl, tt))

closed-IsTimed :
    (id : String) (s : Toasts)
    → IsTimed s
    → IsTimed (record { toasts = without id s.toasts; timers = clear_timer id s.timers })
closed-IsTimed id s h = (
  omega (arith, length-filter_by {0} (λ t. not (t.id == id)) s.toasts, h.0),
  Unique-without id s.toasts h.1,
  kept id s.timers (without id s.toasts) (Fresh-without id s.toasts)
      (All-filter_by _ _ s.toasts h.2),
)

last-split :
    (ts : List ToastItem) (l : ToastItem) → last_toast ts ≡ some l → all_but_last ts ++ l ∷ [] ≡ ts
unfolding last_toast all_but_last
last-split [] l e = ground arith
last-split (t ∷ []) l e = ap (λ x. x ∷ []) (sym (some-injective _ _ e))
last-split (t ∷ u ∷ ts) l e = ap (λ xs. t ∷ xs) (last-split (u ∷ ts) l e)

All-split :
    (P : ToastItem → Type 0) (ts : List ToastItem) (l : ToastItem)
    → All P (ts ++ l ∷ [])
    → All P ts × P l
All-split P [] l h = (tt, h.0)
All-split P (t ∷ ts) l h = let (rest, last) = All-split P ts l h.1 in ((h.0, rest), last)

Unique-split :
    (ts : List ToastItem) (l : ToastItem) → Unique (ts ++ l ∷ []) → Unique ts × Fresh l.id ts
Unique-split [] l u = (tt, tt)
Unique-split (t ∷ ts) l u =
    let (before, fresh) = Unique-split ts l u.1 in
    let (others, here) = All-split (λ x. (x.id == t.id) ≡ false) ts l u.0 in
    ((others, before), (ne_sym l.id t.id here, fresh))

last_hidden-IsTimed :
    (l : ToastItem) (s : Toasts)
    → last_toast s.toasts ≡ some l
    → IsTimed s
    → IsTimed (record { toasts = all_but_last s.toasts; timers = clear_timer l.id s.timers })
last_hidden-IsTimed l s e h =
    let whole = sym (last-split s.toasts l e) in
    let front = all_but_last s.toasts in
    let (unique, fresh) = Unique-split front l (subst Unique whole h.1) in
    let (timed, _) =
      All-split (HasTimer s.timers) front l (subst (All (HasTimer s.timers)) whole h.2) in
    let long : length (front ++ l ∷ []) ≤ 5 = subst (λ ts. length ts ≤ 5) whole h.0 in
    (
      omega (arith, long, length-append {0} front (l ∷ [])),
      unique,
      kept l.id s.timers front fresh timed,
    )

-- The id of a notice that an event shows is new.
abbrev pub IsNew : Event → Toasts → Type 0
IsNew (show state id) s = Fresh id s.toasts
IsNew _ s = Unit

step-IsTimed : (s : Toasts) (e : Event) → IsNew e s → IsTimed s → IsTimed (step s e)
unfolding step hide_toast on_expired
step-IsTimed s (show state id) n h = show_toast-IsTimed state id s n h
step-IsTimed s (expired id) n h =
    if_elim IsTimed (includes s.timers id) _ s (closed-IsTimed id s h) h
step-IsTimed s (hide id) n h = elim (Bool-cases (truthy id)) [
  | inl named ↦ rw (hide_toast, named) (closed-IsTimed (or_else id "") s h)
  | inr last ↦ elim (Option-cases (last_toast s.toasts)) [
    | inl empty ↦ rw (hide_toast, last, empty) h
    | inr (l, found) ↦ rw (hide_toast, last, found) (last_hidden-IsTimed l s found h)
  ]
]

-- Each id that the events show is new when it comes.
abbrev pub AreNew : List Event → Toasts → Type 0
AreNew [] s = Unit
AreNew (e ∷ es) s = IsNew e s × AreNew es (step s e)

-- If no notice is shown under an id that is on the screen, then after any events at most five
-- notices are shown, no two under one id, and each has a timer that will take it away.
pub run-IsTimed : (es : List Event) (s : Toasts) → AreNew es s → IsTimed s → IsTimed (run s es)
unfolding run
run-IsTimed [] s n h = h
run-IsTimed (e ∷ es) s n h = run-IsTimed es (step s e) n.1 (step-IsTimed s e n.0 h)

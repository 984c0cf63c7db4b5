-- ===== src/Toast.antt =====
-- The notices of resources/js/Hooks/useToast.ts. The timer of a notice is known by the notice's id
-- in `timers`; that it fires is the event `expired`. The id that `crypto.randomUUID()` makes is an
-- argument of `show`, and times are left out.
pub mod Timers
mod Scenarios
use fleximo_oss.Base.{
  ℕ, Bool, true, false, not, Option, none, some, String, List, [], ◌∷◌, ◌++◌, includes, filter_by,
  length, ltb, truthy, or_else, is_empty, if◌then◌else◌, ◌==◌, string_eq,
}

pub data ToastType : Type 0 where
  success error info : ToastType

pub record ToastState : Type 0 where
  pub type : ToastType
  pub message : String

pub record ToastItem : Type 0 where
  pub state : ToastState
  pub id : String

pub record Toasts : Type 0 where
  pub toasts : List ToastItem
  pub timers : List String

pub data Event : Type 0 where
  show : ToastState → (id : String) → Event
  hide : Option String → Event
  expired : (id : String) → Event

abbrev pub max_toasts : ℕ
max_toasts = 5

unfoldable pub no_toasts : Toasts
no_toasts = record { toasts = []; timers = [] }

-- `clearTimer`
unfoldable pub clear_timer : String → List String → List String
clear_timer id timers = filter_by (λ t. not (t == id)) timers

abbrev pub without : String → List ToastItem → List ToastItem
without id toasts = filter_by (λ t. not (t.id == id)) toasts

-- the loop over the oldest notices, for a list that is too long
unfoldable pub drop_oldest : List ToastItem → List String → Toasts
unfolding clear_timer
drop_oldest [] timers = record { toasts = []; timers = timers }
drop_oldest (oldest ∷ rest) timers =
    let dropped = drop_oldest rest (clear_timer oldest.id timers) in
    if ltb max_toasts (length (oldest ∷ rest))
    then dropped
    else record { toasts = oldest ∷ rest; timers = timers }

unfoldable pub show_toast : ToastState → String → Toasts → Toasts
show_toast state id s =
    let dropped = drop_oldest (s.toasts ++ record { state = state; id = id } ∷ []) s.timers in
    record { toasts = dropped.toasts; timers = id ∷ dropped.timers }

unfoldable pub last_toast : List ToastItem → Option ToastItem
last_toast [] = none
last_toast (t ∷ []) = some t
last_toast (t ∷ u ∷ ts) = last_toast (u ∷ ts)

-- `prev.slice(0, -1)`
unfoldable pub all_but_last : List ToastItem → List ToastItem
all_but_last [] = []
all_but_last (t ∷ []) = []
all_but_last (t ∷ u ∷ ts) = t ∷ all_but_last (u ∷ ts)

unfoldable pub hide_toast : Option String → Toasts → Toasts
hide_toast id s =
    if truthy id
    then record {
      toasts = without (or_else id "") s.toasts;
      timers = clear_timer (or_else id "") s.timers;
    }
    else elim (last_toast s.toasts) [
      | none ↦ s
      | some l ↦ record { toasts = all_but_last s.toasts; timers = clear_timer l.id s.timers }
    ]

-- the callback of a notice's timer; a timer that was cleared does not fire
unfoldable pub on_expired : String → Toasts → Toasts
on_expired id s =
    if includes s.timers id
    then record { toasts = without id s.toasts; timers = clear_timer id s.timers }
    else s

unfoldable pub step : Toasts → Event → Toasts
step s (show state id) = show_toast state id s
step s (hide id) = hide_toast id s
step s (expired id) = on_expired id s

unfoldable pub run : Toasts → List Event → Toasts
unfolding step show_toast hide_toast on_expired drop_oldest clear_timer last_toast all_but_last
run s [] = s
run s (e ∷ es) = run (step s e) es

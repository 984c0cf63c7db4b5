-- ===== src/Toast/Scenarios.antt =====
-- Notices that are shown and hidden (resources/js/Hooks/useToast.ts).
use fleximo_oss.Base.{none, List, [], ◌∷◌, map, ◌≡◌, refl, arith}
use fleximo_oss.Toast.{
  ToastState, info, Event, show, hide, no_toasts, run, step, show_toast, hide_toast, drop_oldest,
  clear_timer, last_toast, all_but_last,
}
use fleximo_oss.Toast.Timers.{IsTimed, run-IsTimed, AreNew}

abbrev note : ToastState
note = record { type = info; message = "" }

abbrev six_notices : List Event
six_notices =
    show note "a"
    ∷ show note "b"
    ∷ show note "c"
    ∷ show note "d"
    ∷ show note "e"
    ∷ show note "f"
    ∷ []

oldest_is_dropped :
    map (λ t. t.id) (run no_toasts six_notices).toasts ≡ "b" ∷ "c" ∷ "d" ∷ "e" ∷ "f" ∷ []
unfolding run no_toasts
oldest_is_dropped = refl

abbrev two_notices : List Event
two_notices = show note "a" ∷ show note "b" ∷ hide none ∷ []

none-IsTimed : IsTimed no_toasts
unfolding no_toasts
none-IsTimed = (omega arith, tt, tt)

two-AreNew : AreNew two_notices no_toasts
unfolding no_toasts step show_toast hide_toast drop_oldest clear_timer last_toast all_but_last
two-AreNew = (tt, ((refl, tt), (tt, tt)))

run-IsTimed_example : IsTimed (run no_toasts two_notices)
run-IsTimed_example = run-IsTimed two_notices no_toasts two-AreNew none-IsTimed

-- ===== src/Polling/Pace.antt =====
-- The pace and the liveness of the polling timer of resources/js/Hooks/usePollingTimer.ts.
use fleximo_oss.Base.{
  ℕ, suc, ◌-◌, Bool, true, false, not, Option, none, some, List, [], ◌∷◌, is_some, if◌then◌else◌,
  ◌&&◌, ◌||◌, ◌≡◌, refl, arith, Bool-cases, Option-cases, inl, inr, if_elim, ltb,
}
use fleximo_oss.Polling.{
  Timer, Polled, result, thrown, Event, mount, unmount, timeout, refresh, visibility, fetched,
  init_timer, calculate_backoff, schedule_next_poll, run_fetcher, settle, on_fetched, on_visibility,
  on_timeout, step, run,
}

module _ (base max_interval : ℕ) (pause : Bool) where
  -- The polling may go on: the component is there, no answer asked to stop, and the tab is visible
  -- or does not matter.
  abbrev pub may_poll : Timer → Bool
  may_poll s = s.is_active && not s.should_stop && (not pause || s.is_tab_visible)

  -- The interval is the one for the failures in a row.
  abbrev pub IsPaced : Timer → Type 0
  IsPaced s = s.current_interval ≡ (
      if ltb 0 s.error_count then calculate_backoff base max_interval pause s.error_count else base)

  -- A mounted component that may poll waits for a timer or for an answer.
  abbrev pub IsAlive : Timer → Type 0
  IsAlive s = (s.mounted && may_poll s ≡ true) → (is_some s.timer || ltb 0 s.fetching) ≡ true

  -- A timer is set only for a component that is there, and whose tab is visible or does not matter.
  abbrev pub IsIdle : Timer → Type 0
  IsIdle s = (is_some s.timer ≡ true) → (s.is_active && (not pause || s.is_tab_visible)) ≡ true

  abbrev pub IsPolling : Timer → Type 0
  IsPolling s = IsPaced s × IsAlive s × IsIdle s

  awaiting : (timer : Option ℕ) (n : ℕ) → (is_some timer || ltb 0 (suc n)) ≡ true
  awaiting none n = ground arith
  awaiting (some t) n = refl

  scheduled-IsAlive :
      (mounted active stop visible : Bool) (timer : Option ℕ) (interval fetching : ℕ)
      → (mounted && (active && not stop && visible) ≡ true)
      → (is_some (if active && not stop && visible then some interval else timer) || ltb 0 fetching)
        ≡ true
  scheduled-IsAlive true true false true timer interval fetching h = refl
  scheduled-IsAlive true true false false timer interval fetching h = ground arith
  scheduled-IsAlive true true true visible timer interval fetching h = ground arith
  scheduled-IsAlive true false stop visible timer interval fetching h = ground arith
  scheduled-IsAlive false active stop visible timer interval fetching h = ground arith

  scheduled-IsIdle :
      (active stop visible : Bool) (timer : Option ℕ) (interval : ℕ)
      → ((is_some timer ≡ true) → (active && visible) ≡ true)
      → (is_some (if active && not stop && visible then some interval else timer) ≡ true)
      → (active && visible) ≡ true
  scheduled-IsIdle true stop true timer interval h k = refl
  scheduled-IsIdle true true false timer interval h k = h k
  scheduled-IsIdle true false false timer interval h k = h k
  scheduled-IsIdle false stop visible timer interval h k = h k

  schedule_next_poll-IsPolling :
      (s : Timer) → IsPaced s → IsIdle s → IsPolling (schedule_next_poll base max_interval pause s)
  unfolding schedule_next_poll
  schedule_next_poll-IsPolling s p q = (
    p,
    scheduled-IsAlive s.mounted s.is_active s.should_stop (not pause || s.is_tab_visible) s.timer
        s.current_interval s.fetching,
    scheduled-IsIdle s.is_active s.should_stop (not pause || s.is_tab_visible) s.timer
        s.current_interval q,
  )

  run_fetcher-IsPolling :
      (s : Timer) → IsPaced s → IsIdle s → IsPolling (run_fetcher base max_interval pause s)
  unfolding run_fetcher
  run_fetcher-IsPolling s p q =
      if_elim IsPolling s.is_active (record s { fetching = suc s.fetching }) _
        (p, (λ h. awaiting s.timer s.fetching), q) (schedule_next_poll-IsPolling s p q)

  backed_off : (n x : ℕ) → x ≡ (if ltb 0 (suc n) then x else base)
  backed_off n x = ground arith

  settle-IsPaced : (polled : Polled) (s : Timer) → IsPaced (settle base max_interval pause polled s)
  unfolding settle
  settle-IsPaced thrown s = backed_off s.error_count _
  settle-IsPaced (result goes_on true) s = backed_off s.error_count _
  settle-IsPaced (result goes_on false) s = refl

  settle-IsIdle :
      (polled : Polled) (s : Timer) → IsIdle s → IsIdle (settle base max_interval pause polled s)
  unfolding settle
  settle-IsIdle thrown s h = h
  settle-IsIdle (result goes_on true) s h = h
  settle-IsIdle (result goes_on false) s h = h

  on_fetched-IsPolling :
      (polled : Polled) (s : Timer)
      → IsPolling s
      → IsPolling (on_fetched base max_interval pause polled s)
  unfolding on_fetched
  on_fetched-IsPolling polled s (p, _, q) =
      let answered = record s { fetching = s.fetching - 1 } in
      let settled = settle base max_interval pause polled answered in
      schedule_next_poll-IsPolling (if s.is_active then settled else answered)
        (if_elim IsPaced s.is_active settled answered (settle-IsPaced polled answered) p)
        (if_elim IsIdle s.is_active settled answered (settle-IsIdle polled answered q) q)

  on_timeout-IsPolling :
      (s : Timer) → IsPolling s → IsPolling (on_timeout base max_interval pause s)
  unfolding on_timeout
  on_timeout-IsPolling s h = elim (Option-cases s.timer) [
    | inl unset ↦ rw (on_timeout, unset) h
    | inr (delay, set) ↦
        rw (on_timeout, set)
          (run_fetcher-IsPolling (record s { timer = none }) h.0 (λ e. ground arith))
  ]

  hidden-IsPolling :
      (s : Timer)
      → pause ≡ true
      → IsPaced s
      → IsPolling (record s { is_tab_visible = false; timer = none })
  hidden-IsPolling s e p = (p, (λ h. ground arith), (λ h. ground arith))

  shown :
      (active paused visible : Bool)
      → (active && (not paused || visible)) ≡ true
      → (active && (not paused || true)) ≡ true
  shown active paused visible h = ground arith

  paused : (mounted : Bool) → (mounted && pause) ≡ true → pause ≡ true
  paused mounted h = ground arith

  on_visibility-IsPolling :
      (visible : Bool) (s : Timer)
      → IsPolling s
      → IsPolling (on_visibility base max_interval pause visible s)
  unfolding on_visibility
  on_visibility-IsPolling visible s h = elim (Bool-cases (s.mounted && pause)) [
    | inl both ↦
        rw (on_visibility, both)
          (if_elim IsPolling visible
            (run_fetcher base max_interval pause (record s { is_tab_visible = true })) _
            (run_fetcher-IsPolling (record s { is_tab_visible = true }) h.0
              (λ e. shown s.is_active pause s.is_tab_visible (h.2 e)))
            (hidden-IsPolling s (paused s.mounted both) h.0))
    | inr neither ↦ rw (on_visibility, neither) h
  ]

  active_now : (active visible : Bool) → (active && visible) ≡ true → (true && visible) ≡ true
  active_now active visible h = ground arith

  step-IsPolling :
      (s : Timer) (e : Event) → IsPolling s → IsPolling (step base max_interval pause s e)
  unfolding step
  step-IsPolling s mount h =
      run_fetcher-IsPolling (record s { is_active = true; should_stop = false; mounted = true }) h.0
        (λ e. active_now s.is_active (not pause || s.is_tab_visible) (h.2 e))
  step-IsPolling s unmount h = (h.0, (λ e. ground arith), (λ e. ground arith))
  step-IsPolling s timeout h = on_timeout-IsPolling s h
  step-IsPolling s refresh h =
      run_fetcher-IsPolling
        (record s { error_count = 0; current_interval = base; should_stop = false }) refl h.2
  step-IsPolling s (visibility visible) h = on_visibility-IsPolling visible s h
  step-IsPolling s (fetched p) h =
      if_elim IsPolling (ltb 0 s.fetching) (on_fetched base max_interval pause p s) s
        (on_fetched-IsPolling p s h) h

  init_timer-IsPolling : IsPolling (init_timer base max_interval pause)
  unfolding init_timer
  init_timer-IsPolling = (refl, (λ e. ground arith), (λ e. ground arith))

  from-IsPolling :
      (es : List Event) (s : Timer) → IsPolling s → IsPolling (run base max_interval pause s es)
  unfolding run
  from-IsPolling [] s h = h
  from-IsPolling (e ∷ es) s h =
      from-IsPolling es (step base max_interval pause s e) (step-IsPolling s e h)

  -- Whatever happens, the interval is the base one, or after failures in a row the backed-off one
  -- for their number; a mounted component that may poll has a timer set or awaits an answer; and a
  -- timer is set only for a component that is there and whose tab is visible or does not matter.
  pub run-IsPolling :
      (es : List Event)
      → IsPolling (run base max_interval pause (init_timer base max_interval pause) es)
  run-IsPolling es = from-IsPolling es (init_timer base max_interval pause) init_timer-IsPolling

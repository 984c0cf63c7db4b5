-- ===== src/Polling.antt =====
-- The polling timer, resources/js/Hooks/usePollingTimer.ts. A call of the fetcher runs up to its
-- `await`; `fetching` counts those that wait, and the event `fetched` is the answer of one of
-- them. The options are the section's parameters.
pub mod Pace
pub mod OrderStatus
mod Scenarios
use fleximo_oss.Base.{
  ℕ, zero, suc, ◌-◌, ◌*◌, ◌^◌, min, Bool, true, false, not, Option, none, some, List, [], ◌∷◌,
  if◌then◌else◌, ◌&&◌, ◌||◌, ltb,
}

-- `PollResult`, or an exception of the fetcher
pub data Polled : Type 0 where
  result : (should_continue errored : Bool) → Polled
  thrown : Polled

pub record Timer : Type 0 where
  -- the delay of the timer that is set, if one is
  pub timer : Option ℕ
  pub is_active : Bool
  pub error_count : ℕ
  pub current_interval : ℕ
  pub is_tab_visible : Bool
  pub should_stop : Bool
  -- whether the two effects are set up, that is `enabled`
  pub mounted : Bool
  pub fetching : ℕ

pub data Event : Type 0 where
  mount unmount timeout refresh : Event
  visibility : (is_visible : Bool) → Event
  fetched : Polled → Event

abbrev pub default_max_interval_ms : ℕ
default_max_interval_ms = 60000

module _ (base_interval_ms max_interval_ms : ℕ) (pause_when_hidden : Bool) where
  unfoldable pub init_timer : Timer
  init_timer = record {
    timer = none;
    is_active = true;
    error_count = 0;
    current_interval = base_interval_ms;
    is_tab_visible = true;
    should_stop = false;
    mounted = false;
    fetching = 0;
  }

  unfoldable pub calculate_backoff : ℕ → ℕ
  calculate_backoff error_count = min (base_interval_ms * 2 ^ error_count) max_interval_ms

  abbrev may_schedule : Timer → Bool
  may_schedule s = s.is_active && not s.should_stop && (not pause_when_hidden || s.is_tab_visible)

  unfoldable pub schedule_next_poll : Timer → Timer
  schedule_next_poll s = record s {
    timer = if may_schedule s then some s.current_interval else s.timer;
  }

  -- `runFetcher` up to the call of the fetcher; a component that is gone goes on to `finally`
  unfoldable pub run_fetcher : Timer → Timer
  run_fetcher s =
      if s.is_active then record s { fetching = suc s.fetching } else schedule_next_poll s

  unfoldable pub failed : Timer → Timer
  unfolding calculate_backoff
  failed s = record s {
    error_count = suc s.error_count;
    current_interval = calculate_backoff (suc s.error_count);
  }

  unfoldable pub settle : Polled → Timer → Timer
  unfolding failed
  settle thrown s = failed s
  settle (result should_continue errored) s =
      let paced =
        (if errored
          then failed s
          else record s { error_count = 0; current_interval = base_interval_ms }) in
      record paced { should_stop = paced.should_stop || not should_continue }

  -- the rest of `runFetcher`, and `finally`
  unfoldable pub on_fetched : Polled → Timer → Timer
  on_fetched p s =
      let answered = record s { fetching = s.fetching - 1 } in
      schedule_next_poll (if s.is_active then settle p answered else answered)

  unfoldable pub on_visibility : Bool → Timer → Timer
  on_visibility is_visible s =
      if s.mounted && pause_when_hidden
      then (if is_visible
          then run_fetcher (record s { is_tab_visible = true })
          else record s { is_tab_visible = false; timer = none })
      else s

  unfoldable pub on_timeout : Timer → Timer
  on_timeout s = elim s.timer [ none ↦ s | some delay ↦ run_fetcher (record s { timer = none }) ]

  -- An answer comes only to a call that waits.
  unfoldable pub step : Timer → Event → Timer
  step s mount = run_fetcher (record s { is_active = true; should_stop = false; mounted = true })
  step s unmount = record s { is_active = false; timer = none; mounted = false }
  step s timeout = on_timeout s
  step s refresh =
      run_fetcher
        (record s { error_count = 0; current_interval = base_interval_ms; should_stop = false })
  step s (visibility is_visible) = on_visibility is_visible s
  step s (fetched p) = if ltb 0 s.fetching then on_fetched p s else s

  unfoldable pub run : Timer → List Event → Timer
  unfolding step run_fetcher schedule_next_poll on_fetched settle failed calculate_backoff
      on_visibility on_timeout
  run s [] = s
  run s (e ∷ es) = run (step s e) es

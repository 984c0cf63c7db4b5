-- ===== src/Polling/Scenarios.antt =====
-- Runs of the polling timer and of the order status (resources/js/Hooks/usePollingTimer.ts and
-- useOrderStatusPolling.ts).
use fleximo_oss.Base.{true, false, none, some, List, [], ◌∷◌, ◌≡◌, refl, arith}
use fleximo_oss.Order.{OrderStatus, paid, accepted, ready}
use fleximo_oss.Polling.{
  Event, mount, refresh, fetched, timeout, result, thrown, visibility, init_timer, run,
}
use fleximo_oss.Polling.Pace.{IsPolling, run-IsPolling}
use fleximo_oss.Polling.OrderStatus.{
  StatusReply, init_watch, watch, IsTold, watch-IsTold, Leads, update_order_state, fetcher,
}

-- Two failures in a row, then the tab is hidden and shown again.
abbrev two_failures : List Event
two_failures =
    mount
    ∷ fetched thrown
    ∷ timeout
    ∷ fetched (result true true)
    ∷ visibility false
    ∷ visibility true
    ∷ []

backed_off_twice :
    (run 10000 60000 true (init_timer 10000 60000 true) two_failures).current_interval ≡ 40000
unfolding run init_timer
backed_off_twice = refl

-- A manual retry whose answer asks to stop leaves the timer that was set before it.
armed_after_stop :
    (run 10000 60000 true
      (init_timer 10000 60000 true)
      (mount ∷ fetched (result true false) ∷ refresh ∷ fetched (result false false) ∷ [])).timer
    ≡ some 10000
unfolding run init_timer
armed_after_stop = refl

run-IsPolling_example :
    IsPolling 10000 60000 true (run 10000 60000 true (init_timer 10000 60000 true) two_failures)
run-IsPolling_example = run-IsPolling 10000 60000 true two_failures

abbrev answer : OrderStatus → StatusReply
answer status = record {
  error = none;
  response = some (record {
    id = 1;
    status = status;
    status_label = "";
    is_terminal = false;
    ready_at = none;
    updated_at = "";
  });
}

abbrev answers : List StatusReply
answers = answer accepted ∷ answer ready ∷ answer ready ∷ answer accepted ∷ answer ready ∷ []

ready_is_told_once : (watch (init_watch paid "") answers).ready_calls ≡ 1
unfolding watch init_watch update_order_state fetcher
ready_is_told_once = refl

paid-IsTold : IsTold paid (init_watch paid "")
unfolding init_watch Leads
paid-IsTold = (refl, refl, (λ e. ground arith))

watch-IsTold_example : IsTold paid (watch (init_watch paid "") answers)
watch-IsTold_example = watch-IsTold answers paid (init_watch paid "") paid-IsTold

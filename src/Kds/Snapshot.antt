-- ===== src/Kds/Snapshot.antt =====
-- What a refused status change of resources/js/Hooks/useKdsOrderActions.ts takes back.
use fleximo_oss.Base.{
  ℕ, zero, suc, Bool, true, false, not, some, List, [], ◌∷◌, ◌++◌, includes, length, get_elem?,
  truthy, ◌&&◌, ◌≡◌, refl, sym, ◌∙◌, subst, nat_eq, if_elim, All, arith,
}
use fleximo_oss.Kds.{Target}
use fleximo_oss.Kds.Board.{
  Kds, StatusCall, UpdateReply, Event, fetch_orders, unmount, mount, rendered, fetch_reply,
  update_order_status, update_reply, begin_update, update_refused, release, end_update,
  on_update_reply, step, run,
}
use fleximo_oss.Kds.Rendered.{orders_rendered, run-orders_rendered}
use fleximo_oss.Kds.Serial.{begin_fetch-Alike, on_fetch_reply-Alike}

-- The event is not the answer to a status change.
abbrev pub awaits : Event → Bool
awaits (update_reply i reply now) = false
awaits _ = true

get-append :
    (xs ys : List StatusCall) (i : ℕ) (c : StatusCall)
    → get_elem? xs i ≡ some c
    → get_elem? (xs ++ ys) i ≡ some c
get-append [] ys i c e = ground arith
get-append (x ∷ xs) ys zero c e = e
get-append (x ∷ xs) ys (suc i) c e = get-append xs ys i c e

get-length : (xs : List StatusCall) (c : StatusCall) → get_elem? (xs ++ c ∷ []) (length xs) ≡ some c
get-length [] c = refl
get-length (x ∷ xs) c = get-length xs c

step-waits :
    (s : Kds) (e : Event) (i : ℕ) (c : StatusCall)
    → awaits e ≡ true
    → get_elem? s.updates i ≡ some c
    → get_elem? (step s e).updates i ≡ some c
unfolding step begin_update
step-waits s fetch_orders i c w h =
    subst (λ us. get_elem? us i ≡ some c) (sym (begin_fetch-Alike s).0) h
step-waits s unmount i c w h = h
step-waits s mount i c w h = h
step-waits s rendered i c w h = h
step-waits s (fetch_reply j reply now) i c w h =
    subst (λ us. get_elem? us i ≡ some c) (sym (on_fetch_reply-Alike j reply now s).0) h
step-waits s (update_order_status k t) i c w h =
    if_elim (λ (r : Kds). get_elem? r.updates i ≡ some c)
      (s.is_active && not (includes s.updating_order_ids k)) _ s (get-append s.updates _ i c h) h
step-waits s (update_reply j reply now) i c w h = ground arith

run-waits :
    (es : List Event) (s : Kds) (i : ℕ) (c : StatusCall)
    → All (λ e. awaits e ≡ true) es
    → get_elem? s.updates i ≡ some c
    → get_elem? (run s es).updates i ≡ some c
unfolding run
run-waits [] s i c w h = h
run-waits (e ∷ es) s i c w h = run-waits es (step s e) i c w.1 (step-waits s e i c w.0 h)

begin_update-waits :
    (s : Kds) (k : ℕ) (t : Target)
    → s.is_active ≡ true
    → includes s.updating_order_ids k ≡ false
    → get_elem? (begin_update k t s).updates (length s.updates)
      ≡ some (record { order_id = k; new_status = t; previous_orders = s.orders_ref })
unfolding begin_update
begin_update-waits s k t active free = rw (begin_update, active, free) (get-length s.updates _)

refused-orders :
    (s : Kds) (i : ℕ) (c : StatusCall) (reply : UpdateReply) (now : ℕ)
    → get_elem? s.updates i ≡ some c
    → s.is_active ≡ true
    → truthy reply.error ≡ true
    → ((on_update_reply i reply now s).orders ≡ c.previous_orders)
      × ((on_update_reply i reply now s).last_server_time ≡ s.last_server_time)
unfolding on_update_reply end_update update_refused release
refused-orders s i c reply now there active refused =
    rw (on_update_reply, there, end_update, active, refused) (refl, refl)

-- After any events a status change is begun on a mounted board, and other events follow before its
-- answer: polls with their answers, renders, and changes of other orders. If it is then refused,
-- the board goes back to the orders of the last render before the change began, whatever the polls
-- brought, and the time after which the next poll asks for changes is the one that the polls have
-- reached.
pub refused_update-orders :
    (start : Kds) (before : List Event) (k : ℕ) (t : Target) (es : List Event) (reply : UpdateReply)
    (now : ℕ)
    → (run start before).is_active ≡ true
    → includes (run start before).updating_order_ids k ≡ false
    → All (λ e. awaits e ≡ true) es
    → (run (begin_update k t (run start before)) es).is_active ≡ true
    → truthy reply.error ≡ true
    → let s = run start before in
      let waiting = run (begin_update k t s) es in
      let refused = on_update_reply (length s.updates) reply now waiting in
      (refused.orders ≡ orders_rendered start start.orders_ref before)
      × (refused.last_server_time ≡ waiting.last_server_time)
refused_update-orders start before k t es reply now active free w still refused =
    let s = run start before in
    let c : StatusCall = record { order_id = k; new_status = t; previous_orders = s.orders_ref } in
    let (orders, time) =
      refused-orders (run (begin_update k t s) es) (length s.updates) c reply now
        (run-waits es (begin_update k t s) (length s.updates) c w
          (begin_update-waits s k t active free))
        still refused in
    (orders ∙ run-orders_rendered before start, time)

-- ===== src/Kds/Active.antt =====
-- The statuses of the orders that resources/js/Hooks/useKdsPolling.ts and useKdsOrderActions.ts
-- leave on the board.
use fleximo_oss.Base.{
  ℕ, zero, suc, Bool, not, Option, none, some, String, List, [], ◌∷◌, includes, remove_at,
  get_elem?, truthy, if◌then◌else◌, nat_eq, ◌&&◌, ◌≡◌, refl, Option-cases, inl, inr, if_elim, All,
  All-append, arith, subst,
}
use mathlib.Core.Option.{some-injective}
use fleximo_oss.Kds.{KdsOrder, Target}
use fleximo_oss.Errors.{normalize_error_message}
use fleximo_oss.Kds.Board.{
  fetch_fallback, Kds, StatusCall, FetchReply, UpdateReply, Event, fetch_orders, unmount, mount,
  rendered, fetch_reply, update_order_status, update_reply, begin_fetch, guard_incoming, end_fetch,
  on_fetch_reply, begin_update, update_accepted, update_refused, release, end_update,
  on_update_reply, fetch_succeeded, fetch_failed, step, run,
}
use fleximo_oss.Kds.ActiveMerge.{
  AreActive, apply_incoming-AreActive, upsert_active_order-AreActive, show_status-AreActive,
}

-- Every order on the board is active, and so is every order to which a refusal may go back, now or
-- for a change that is begun next.
abbrev pub IsBoard : Kds → Type 0
IsBoard s =
    AreActive s.orders × All (λ c. AreActive c.previous_orders) s.updates × AreActive s.orders_ref

abbrev Alike : Kds → Kds → Type 0
Alike s t = (s.orders ≡ t.orders) × (s.updates ≡ t.updates) × (s.orders_ref ≡ t.orders_ref)

IsBoard-Alike : (s t : Kds) → Alike s t → IsBoard t → IsBoard s
IsBoard-Alike s t (same_orders, same_updates, same_ref) h =
    rw (same_orders, same_updates, same_ref) h

begin_fetch-Alike : (s : Kds) → Alike (begin_fetch s) s
unfolding begin_fetch
begin_fetch-Alike s = if_elim (λ t. Alike t s) s.is_active _ s (refl, refl, refl) (refl, refl, refl)

begin_fetch-IsBoard : (s : Kds) → IsBoard s → IsBoard (begin_fetch s)
begin_fetch-IsBoard s h = IsBoard-Alike (begin_fetch s) s (begin_fetch-Alike s) h

module _ (full : Bool) (reply : FetchReply) (now : ℕ) where
  fetch_failed-IsBoard : (message : String) (s : Kds) → IsBoard s → IsBoard (fetch_failed message s)
  unfolding fetch_failed
  fetch_failed-IsBoard message s h = h

  fetch_succeeded-IsBoard :
      (incoming : List KdsOrder) (time : Option String) (s : Kds)
      → IsBoard s
      → IsBoard (fetch_succeeded full incoming time now s)
  unfolding fetch_succeeded
  fetch_succeeded-IsBoard incoming time s h = (
    apply_incoming-AreActive full s
        (guard_incoming now incoming s.pending_status_updates).guarded_incoming h.0,
    h.1,
    h.2,
  )

  answered-IsBoard :
      (message : String) (body : Option (List KdsOrder × Option String)) (s : Kds)
      → IsBoard s
      → IsBoard (elim body [
        | none ↦ fetch_failed message s
        | some (incoming, time) ↦ fetch_succeeded full incoming time now s
      ])
  answered-IsBoard message none s h = fetch_failed-IsBoard message s h
  answered-IsBoard message (some (incoming, time)) s h = fetch_succeeded-IsBoard incoming time s h

  end_fetch-IsBoard : (s : Kds) → IsBoard s → IsBoard (end_fetch full reply now s)
  unfolding end_fetch
  end_fetch-IsBoard s h =
      let message = normalize_error_message reply.error fetch_fallback in
      let failed = fetch_failed message s in
      let answered : Kds = elim reply.body [
        | none ↦ failed
        | some (incoming, time) ↦ fetch_succeeded full incoming time now s
      ] in
      if_elim IsBoard s.is_active (if truthy reply.error then failed else answered) s
        (if_elim IsBoard (truthy reply.error) failed answered (fetch_failed-IsBoard message s h)
          (answered-IsBoard message reply.body s h))
        h

on_fetch_reply-IsBoard :
    (i : ℕ) (reply : FetchReply) (now : ℕ) (s : Kds)
    → IsBoard s
    → IsBoard (on_fetch_reply i reply now s)
unfolding on_fetch_reply
on_fetch_reply-IsBoard i reply now s h = elim (Option-cases (get_elem? s.fetches i)) [
  | inl gone ↦ rw (on_fetch_reply, gone) h
  | inr (full, there) ↦
      rw (on_fetch_reply, there)
        (end_fetch-IsBoard full reply now (record s { fetches = remove_at s.fetches i }) h)
]

begin_update-IsBoard : (k : ℕ) (t : Target) (s : Kds) → IsBoard s → IsBoard (begin_update k t s)
unfolding begin_update
begin_update-IsBoard k t s h =
    if_elim IsBoard (s.is_active && not (includes s.updating_order_ids k)) _ s
      (show_status-AreActive k t s.orders h.0, All-append _ s.updates _ h.1 (h.2, tt), h.2) h

update_accepted-IsBoard :
    (c : StatusCall) (order : Option KdsOrder) (now : ℕ) (s : Kds)
    → IsBoard s
    → IsBoard (update_accepted c order now s)
unfolding update_accepted
update_accepted-IsBoard c none now s h = h
update_accepted-IsBoard c (some o) now s h =
    (upsert_active_order-AreActive s.orders o h.0, h.1, h.2)

end_update-IsBoard :
    (c : StatusCall) (reply : UpdateReply) (now : ℕ) (s : Kds)
    → AreActive c.previous_orders
    → IsBoard s
    → IsBoard (end_update c reply now s)
unfolding end_update update_refused release
end_update-IsBoard c reply now s k h =
    if_elim IsBoard s.is_active _ _
      (if_elim IsBoard (truthy reply.error) _ _ (k, h.1, h.2)
        (begin_fetch-IsBoard _
          (update_accepted-IsBoard c reply.order now (release c.order_id s) h)))
      h

call_taken :
    (updates : List StatusCall) (i : ℕ) (c : StatusCall)
    → get_elem? updates i ≡ some c
    → All (λ u. AreActive u.previous_orders) updates
    → AreActive c.previous_orders × All (λ u. AreActive u.previous_orders) (remove_at updates i)
call_taken [] i c e h = ground arith
call_taken (u ∷ updates) zero c e h =
    (subst (λ x. AreActive x.previous_orders) (some-injective _ _ e) h.0, h.1)
call_taken (u ∷ updates) (suc i) c e h =
    let (active, rest) = call_taken updates i c e h.1 in (active, (h.0, rest))

on_update_reply-IsBoard :
    (i : ℕ) (reply : UpdateReply) (now : ℕ) (s : Kds)
    → IsBoard s
    → IsBoard (on_update_reply i reply now s)
unfolding on_update_reply
on_update_reply-IsBoard i reply now s h = elim (Option-cases (get_elem? s.updates i)) [
  | inl gone ↦ rw (on_update_reply, gone) h
  | inr (c, there) ↦
      let (active, rest) = call_taken s.updates i c there h.1 in
      rw (on_update_reply, there)
        (end_update-IsBoard c reply now (record s { updates = remove_at s.updates i }) active
          (h.0, rest, h.2))
]

step-IsBoard : (s : Kds) (e : Event) → IsBoard s → IsBoard (step s e)
unfolding step
step-IsBoard s fetch_orders h = begin_fetch-IsBoard s h
step-IsBoard s unmount h = h
step-IsBoard s mount h = h
step-IsBoard s rendered h = (h.0, h.1, h.0)
step-IsBoard s (fetch_reply i reply now) h = on_fetch_reply-IsBoard i reply now s h
step-IsBoard s (update_order_status k t) h = begin_update-IsBoard k t s h
step-IsBoard s (update_reply i reply now) h = on_update_reply-IsBoard i reply now s h

-- On a board whose orders are active, and whose requests under way started from active orders,
-- only active orders stand after any events, whatever the answers bring.
pub run-IsBoard : (es : List Event) (s : Kds) → IsBoard s → IsBoard (run s es)
unfolding run
run-IsBoard [] s h = h
run-IsBoard (e ∷ es) s h = run-IsBoard es (step s e) (step-IsBoard s e h)

-- ===== src/Kds/Rendered.antt =====
-- The orders of the last render that `ordersRef` holds, of resources/js/Hooks/useKdsOrders.ts.
use fleximo_oss.Base.{
  ℕ, Bool, List, [], ◌∷◌, includes, remove_at, get_elem?, truthy, not, ◌&&◌, nat_eq, ◌≡◌, refl, ap,
  ◌∙◌, Bool-cases, Option-cases, inl, inr, if_elim,
}
use fleximo_oss.Kds.{KdsOrder, Target}
use fleximo_oss.Kds.Board.{
  Kds, StatusCall, FetchReply, UpdateReply, Event, fetch_orders, unmount, mount, rendered,
  fetch_reply, update_order_status, update_reply, begin_fetch, end_fetch, on_fetch_reply,
  begin_update, update_accepted, update_refused, release, end_update, on_update_reply,
  fetch_succeeded, fetch_failed, step, run,
}

-- The orders of the board at the last render among events, or else the given ones.
abbrev pub orders_rendered : Kds → List KdsOrder → List Event → List KdsOrder
orders_rendered s shown [] = shown
orders_rendered s shown (rendered ∷ es) = orders_rendered (step s rendered) s.orders es
orders_rendered s shown (fetch_orders ∷ es) = orders_rendered (step s fetch_orders) shown es
orders_rendered s shown (unmount ∷ es) = orders_rendered (step s unmount) shown es
orders_rendered s shown (mount ∷ es) = orders_rendered (step s mount) shown es
orders_rendered s shown (fetch_reply i reply now ∷ es) =
    orders_rendered (step s (fetch_reply i reply now)) shown es
orders_rendered s shown (update_order_status k t ∷ es) =
    orders_rendered (step s (update_order_status k t)) shown es
orders_rendered s shown (update_reply i reply now ∷ es) =
    orders_rendered (step s (update_reply i reply now)) shown es

-- Two states with the same orders of the last render.
abbrev Same : Kds → Kds → Type 0
Same s t = t.orders_ref ≡ s.orders_ref

begin_fetch-ref : (s : Kds) → Same s (begin_fetch s)
unfolding begin_fetch
begin_fetch-ref s = if_elim (Same s) s.is_active _ s refl refl

end_fetch-ref :
    (full : Bool) (reply : FetchReply) (now : ℕ) (s : Kds) → Same s (end_fetch full reply now s)
unfolding end_fetch fetch_failed fetch_succeeded
end_fetch-ref full reply now s = elim (Bool-cases s.is_active) [
  | inl active ↦ elim (Bool-cases (truthy reply.error)) [
    | inl failed ↦ rw (active, failed) refl
    | inr fine ↦ elim (Option-cases reply.body) [
      | inl empty ↦ rw (active, fine, empty) refl
      | inr (body, full_body) ↦ rw (active, fine, full_body) refl
    ]
  ]
  | inr gone ↦ rw gone refl
]

on_fetch_reply-ref :
    (i : ℕ) (reply : FetchReply) (now : ℕ) (s : Kds) → Same s (on_fetch_reply i reply now s)
unfolding on_fetch_reply
on_fetch_reply-ref i reply now s = elim (Option-cases (get_elem? s.fetches i)) [
  | inl none_there ↦ rw (on_fetch_reply, none_there) refl
  | inr (full, there) ↦
      rw (on_fetch_reply, there)
        (end_fetch-ref full reply now (record s { fetches = remove_at s.fetches i }))
]

begin_update-ref : (k : ℕ) (t : Target) (s : Kds) → Same s (begin_update k t s)
unfolding begin_update
begin_update-ref k t s =
    if_elim (Same s) (s.is_active && not (includes s.updating_order_ids k)) _ s refl refl

end_update-ref :
    (c : StatusCall) (reply : UpdateReply) (now : ℕ) (s : Kds) → Same s (end_update c reply now s)
unfolding end_update update_accepted update_refused release
end_update-ref c reply now s =
    if_elim (Same s) s.is_active _ _
      (if_elim (Same s) (truthy reply.error) _ _ refl
        (begin_fetch-ref (update_accepted c reply.order now (release c.order_id s))))
      refl

on_update_reply-ref :
    (i : ℕ) (reply : UpdateReply) (now : ℕ) (s : Kds) → Same s (on_update_reply i reply now s)
unfolding on_update_reply
on_update_reply-ref i reply now s = elim (Option-cases (get_elem? s.updates i)) [
  | inl none_there ↦ rw (on_update_reply, none_there) refl
  | inr (c, there) ↦
      rw (on_update_reply, there)
        (end_update-ref c reply now (record s { updates = remove_at s.updates i }))
]

pub run-orders_rendered :
    (es : List Event) (s : Kds) → (run s es).orders_ref ≡ orders_rendered s s.orders_ref es
unfolding run step
run-orders_rendered [] s = refl
run-orders_rendered (rendered ∷ es) s = run-orders_rendered es (step s rendered)
run-orders_rendered (unmount ∷ es) s = run-orders_rendered es (step s unmount)
run-orders_rendered (mount ∷ es) s = run-orders_rendered es (step s mount)
run-orders_rendered (fetch_orders ∷ es) s =
    run-orders_rendered es (begin_fetch s)
    ∙ ap (λ l. orders_rendered (begin_fetch s) l es) (begin_fetch-ref s)
run-orders_rendered (fetch_reply i reply now ∷ es) s =
    run-orders_rendered es (on_fetch_reply i reply now s)
    ∙ ap (λ l. orders_rendered (on_fetch_reply i reply now s) l es)
        (on_fetch_reply-ref i reply now s)
run-orders_rendered (update_order_status k t ∷ es) s =
    run-orders_rendered es (begin_update k t s)
    ∙ ap (λ l. orders_rendered (begin_update k t s) l es) (begin_update-ref k t s)
run-orders_rendered (update_reply i reply now ∷ es) s =
    run-orders_rendered es (on_update_reply i reply now s)
    ∙ ap (λ l. orders_rendered (on_update_reply i reply now s) l es)
        (on_update_reply-ref i reply now s)

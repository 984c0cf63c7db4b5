-- ===== src/Kds/Serial.antt =====
-- The status changes under way and `updatingOrderIdsRef` of resources/js/Hooks/useKdsOrderActions.ts.
use fleximo_oss.Base.{
  ℕ, zero, suc, ◌+◌, Bool, true, false, not, Option, some, String, List, [], ◌∷◌, ◌++◌, includes,
  filter_by, remove_at, get_elem?, truthy, if◌then◌else◌, ◌==◌, nat_eq, ◌&&◌, ◌≡◌, refl, sym, ap,
  ◌∙◌, arith, Bool-cases, Option-cases, inl, inr, if_elim,
}
use fleximo_oss.Kds.{KdsOrder, Target}
use fleximo_oss.Kds.Board.{
  Kds, StatusCall, FetchReply, UpdateReply, Event, fetch_orders, unmount, mount, rendered,
  fetch_reply, update_order_status, update_reply, begin_fetch, end_fetch, on_fetch_reply,
  begin_update, end_update, on_update_reply, update_accepted, update_refused, release,
  fetch_succeeded, fetch_failed, step, run,
}

-- The requests under way that change the status of an order.
unfoldable pub outstanding : ℕ → List StatusCall → ℕ
outstanding k [] = 0
outstanding k (c ∷ updates) = (if c.order_id == k then 1 else 0) + outstanding k updates

abbrev bit : Bool → ℕ
bit true = 1
bit false = 0

-- One request is under way for an order that is marked, and none for another.
abbrev pub IsSerial : Kds → Type 0
IsSerial s = (k : ℕ) → outstanding k s.updates ≡ bit (includes s.updating_order_ids k)

outstanding-append :
    (k : ℕ) (updates : List StatusCall) (c : StatusCall)
    → outstanding k (updates ++ c ∷ []) ≡ outstanding k updates + (if c.order_id == k then 1 else 0)
unfolding outstanding
outstanding-append k [] c = ground arith
outstanding-append k (u ∷ updates) c = ground (arith, outstanding-append k updates c)

outstanding-remove_at :
    (k : ℕ) (updates : List StatusCall) (i : ℕ) (c : StatusCall)
    → get_elem? updates i ≡ some c
    → outstanding k (remove_at updates i) + (if c.order_id == k then 1 else 0)
      ≡ outstanding k updates
unfolding outstanding
outstanding-remove_at k [] i c e = ground arith
outstanding-remove_at k (u ∷ updates) zero c e = ground arith
outstanding-remove_at k (u ∷ updates) (suc i) c e =
    omega (arith, outstanding-remove_at k updates i c e)

includes-append :
    (k j : ℕ) (ids : List ℕ)
    → includes ids j ≡ false
    → bit (includes (ids ++ j ∷ []) k) ≡ bit (includes ids k) + (if j == k then 1 else 0)
includes-append k j [] h = ground arith
includes-append k j (i ∷ ids) h = ground (arith, includes-append k j ids)

includes-filter_by :
    (k j : ℕ) (ids : List ℕ)
    → includes (filter_by (λ i. not (i == j)) ids) k ≡ (includes ids k && not (j == k))
includes-filter_by k j [] = ground arith
includes-filter_by k j (i ∷ ids) = ground (arith, includes-filter_by k j ids)

begin_update-IsSerial : (j : ℕ) (t : Target) (s : Kds) → IsSerial s → IsSerial (begin_update j t s)
unfolding begin_update
begin_update-IsSerial j t s h k = elim (Bool-cases s.is_active) [
  | inl active ↦ elim (Bool-cases (includes s.updating_order_ids j)) [
    | inl marked ↦ rw (active, marked) (h k)
    | inr free ↦
        rw (active, free)
          (outstanding-append k s.updates _
            ∙ ap (λ n. n + (if j == k then 1 else 0)) (h k)
            ∙ sym (includes-append k j s.updating_order_ids free))
  ]
  | inr gone ↦ rw gone (h k)
]

-- Two states with the same requests under way and the same marks.
abbrev pub Alike : Kds → Kds → Type 0
Alike s t = (s.updates ≡ t.updates) × (s.updating_order_ids ≡ t.updating_order_ids)

pub begin_fetch-Alike : (s : Kds) → Alike (begin_fetch s) s
unfolding begin_fetch
begin_fetch-Alike s = elim (Bool-cases s.is_active) [
  | inl active ↦ rw active (refl, refl)
  | inr gone ↦ rw gone (refl, refl)
]

end_fetch-Alike :
    (full : Bool) (reply : FetchReply) (now : ℕ) (s : Kds) → Alike (end_fetch full reply now s) s
unfolding end_fetch fetch_failed fetch_succeeded
end_fetch-Alike full reply now s = elim (Bool-cases s.is_active) [
  | inl active ↦ elim (Bool-cases (truthy reply.error)) [
    | inl failed ↦ rw (active, failed) (refl, refl)
    | inr fine ↦ elim (Option-cases reply.body) [
      | inl empty ↦ rw (active, fine, empty) (refl, refl)
      | inr (body, full_body) ↦ rw (active, fine, full_body) (refl, refl)
    ]
  ]
  | inr gone ↦ rw gone (refl, refl)
]

pub on_fetch_reply-Alike :
    (i : ℕ) (reply : FetchReply) (now : ℕ) (s : Kds) → Alike (on_fetch_reply i reply now s) s
unfolding on_fetch_reply
on_fetch_reply-Alike i reply now s = elim (Option-cases (get_elem? s.fetches i)) [
  | inl none_there ↦ rw (on_fetch_reply, none_there) (refl, refl)
  | inr (full, there) ↦
      rw (on_fetch_reply, there)
        (end_fetch-Alike full reply now (record s { fetches = remove_at s.fetches i }))
]

update_accepted-Alike :
    (c : StatusCall) (order : Option KdsOrder) (now : ℕ) (s : Kds)
    → Alike (update_accepted c order now s) s
unfolding update_accepted
update_accepted-Alike c order now s = (refl, refl)

update_refused-Alike :
    (c : StatusCall) (message : Option String) (s : Kds) → Alike (update_refused c message s) s
unfolding update_refused
update_refused-Alike c message s = (refl, refl)

end_update-Alike :
    (c : StatusCall) (reply : UpdateReply) (now : ℕ) (s : Kds)
    → Alike (end_update c reply now s) (release c.order_id s)
unfolding end_update
end_update-Alike c reply now s =
    let after = release c.order_id s in
    let taken = update_accepted c reply.order now after in
    let refused = update_refused c reply.error after in
    let (updates, ids) = begin_fetch-Alike taken in
    let (updates', ids') = update_accepted-Alike c reply.order now after in
    if_elim (λ t. Alike t after) s.is_active
      (if truthy reply.error then refused else begin_fetch taken) after
      (if_elim (λ t. Alike t after) (truthy reply.error) refused (begin_fetch taken)
        (update_refused-Alike c reply.error after) (updates ∙ updates', ids ∙ ids'))
      (refl, refl)

released_marks :
    (k i : ℕ) (c : StatusCall) (s : Kds)
    → get_elem? s.updates i ≡ some c
    → outstanding k s.updates ≡ bit (includes s.updating_order_ids k)
    → outstanding k (remove_at s.updates i)
      ≡ bit (includes (release c.order_id s).updating_order_ids k)
unfolding release
released_marks k i c s there h =
    let gone = outstanding-remove_at k s.updates i c there in
    rw (includes-filter_by k c.order_id s.updating_order_ids) (elim (Bool-cases (c.order_id == k)) [
      | inl same ↦ elim (Bool-cases (includes s.updating_order_ids k)) [
        | inl marked ↦ rw (same, marked) (ground arith)
        | inr free ↦ rw (same, free) (ground arith)
      ]
      | inr other ↦ elim (Bool-cases (includes s.updating_order_ids k)) [
        | inl marked ↦ rw (other, marked) (ground arith)
        | inr free ↦ rw (other, free) (ground arith)
      ]
    ])

on_update_reply-IsSerial :
    (i : ℕ) (reply : UpdateReply) (now : ℕ) (s : Kds)
    → IsSerial s
    → IsSerial (on_update_reply i reply now s)
unfolding on_update_reply release
on_update_reply-IsSerial i reply now s h k = elim (Option-cases (get_elem? s.updates i)) [
  | inl none_there ↦ rw (on_update_reply, none_there) (h k)
  | inr (c, there) ↦
      let rest = record s { updates = remove_at s.updates i } in
      let (same_updates, same_ids) = end_update-Alike c reply now rest in
      rw (on_update_reply, there, same_updates, same_ids) (released_marks k i c s there (h k))
]

step-IsSerial : (s : Kds) (e : Event) → IsSerial s → IsSerial (step s e)
unfolding step
step-IsSerial s fetch_orders h k =
    let (same_updates, same_ids) = begin_fetch-Alike s in rw (same_updates, same_ids) (h k)
step-IsSerial s unmount h k = h k
step-IsSerial s mount h k = h k
step-IsSerial s rendered h k = h k
step-IsSerial s (fetch_reply i reply now) h k =
    let (same_updates, same_ids) = on_fetch_reply-Alike i reply now s in
    rw (same_updates, same_ids) (h k)
step-IsSerial s (update_order_status j t) h k = begin_update-IsSerial j t s h k
step-IsSerial s (update_reply i reply now) h k = on_update_reply-IsSerial i reply now s h k

-- Whatever happens on the board, an order has at most one request under way that changes its
-- status, and it has one exactly when it is marked as updating.
pub run-IsSerial : (es : List Event) (s : Kds) → IsSerial s → IsSerial (run s es)
unfolding run
run-IsSerial [] s h = h
run-IsSerial (e ∷ es) s h = run-IsSerial es (step s e) (step-IsSerial s e h)

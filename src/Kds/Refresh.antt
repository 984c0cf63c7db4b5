-- ===== src/Kds/Refresh.antt =====
-- The full refreshes among the fetches of resources/js/Hooks/useKdsPolling.ts.
use fleximo_oss.Base.{
  ℕ, suc, Bool, true, not, Option, none, List, [], ◌∷◌, ◌++◌, get_elem?, truthy, leb, if◌then◌else◌,
  ◌&&◌, ◌≡◌, refl, sym, ap, ◌∙◌, Bool-cases, Option-cases, inl, inr, if_elim, String, includes,
  remove_at, nat_eq,
}
use fleximo_oss.Kds.{KdsOrder, Target}
use fleximo_oss.Kds.Board.{
  Kds, StatusCall, FetchReply, UpdateReply, Event, fetch_orders, unmount, mount, rendered,
  fetch_reply, update_order_status, update_reply, begin_fetch, end_fetch, on_fetch_reply,
  begin_update, end_update, on_update_reply, update_accepted, update_refused, release,
  fetch_succeeded, fetch_failed, step, run,
}

-- The parameters of fetches that stand after `n` fetches since the last full one: the thirtieth
-- asks for everything, that is, without `updated_since`.
unfoldable pub FullEvery : ℕ → List (Option String) → Type 0
FullEvery n [] = Unit
FullEvery n (p ∷ ps) =
    ((leb 30 (suc n) ≡ true) → p ≡ none) × FullEvery (if leb 30 (suc n) then 0 else suc n) ps

-- the fetches since the last full one, after fetches with these parameters
unfoldable pub since_full : ℕ → List (Option String) → ℕ
since_full n [] = n
since_full n (p ∷ ps) = since_full (if leb 30 (suc n) then 0 else suc n) ps

-- The counter of the fetches says how many were made since the last full one.
abbrev pub IsRefreshed : Kds → Type 0
IsRefreshed s = FullEvery 0 s.fetch_params × (s.poll_count ≡ since_full 0 s.fetch_params)

since_full-append :
    (ps : List (Option String)) (p : Option String) (n : ℕ)
    → since_full n (ps ++ p ∷ [])
      ≡ (if leb 30 (suc (since_full n ps)) then 0 else suc (since_full n ps))
unfolding since_full
since_full-append [] p n = refl
since_full-append (q ∷ ps) p n = since_full-append ps p (if leb 30 (suc n) then 0 else suc n)

FullEvery-append :
    (ps : List (Option String)) (p : Option String) (n : ℕ)
    → FullEvery n ps
    → ((leb 30 (suc (since_full n ps)) ≡ true) → p ≡ none)
    → FullEvery n (ps ++ p ∷ [])
unfolding since_full FullEvery
FullEvery-append [] p n h k = (k, tt)
FullEvery-append (q ∷ ps) p n h k =
    (h.0, FullEvery-append ps p (if leb 30 (suc n) then 0 else suc n) h.1 k)

begin_fetch-IsRefreshed : (s : Kds) → IsRefreshed s → IsRefreshed (begin_fetch s)
unfolding begin_fetch
begin_fetch-IsRefreshed s h = elim (Bool-cases s.is_active) [
  | inl active ↦ rw active (
    FullEvery-append s.fetch_params _ 0 h.0 (λ full. rw (h.1, full) refl),
    ap (λ n. if leb 30 (suc n) then 0 else suc n) h.1 ∙ sym (since_full-append s.fetch_params _ 0),
  )
  | inr gone ↦ rw gone h
]

-- Two states whose fetches have the same parameters and the same count.
abbrev Alike : Kds → Kds → Type 0
Alike s t = (s.fetch_params ≡ t.fetch_params) × (s.poll_count ≡ t.poll_count)

IsRefreshed-Alike : (s t : Kds) → Alike s t → IsRefreshed t → IsRefreshed s
IsRefreshed-Alike s t (same_params, same_count) h = rw (same_params, same_count) h

end_fetch-Alike :
    (full : Bool) (reply : FetchReply) (now : ℕ) (s : Kds) → Alike (end_fetch full reply now s) s
unfolding end_fetch fetch_failed fetch_succeeded
end_fetch-Alike full reply now s = elim (Bool-cases s.is_active) [
  | inl active ↦ elim (Bool-cases (truthy reply.error)) [
    | inl failed ↦ rw (active, failed) (refl, refl)
    | inr fine ↦ elim (Option-cases reply.body) [
      | inl empty ↦ rw (active, fine, empty) (refl, refl)
      | inr (body, full_body) ↦ rw (active, fine, full_body) (refl, refl)
    ]
  ]
  | inr gone ↦ rw gone (refl, refl)
]

update_accepted-Alike :
    (c : StatusCall) (order : Option KdsOrder) (now : ℕ) (s : Kds)
    → Alike (update_accepted c order now (release c.order_id s)) s
unfolding update_accepted release
update_accepted-Alike c order now s = (refl, refl)

update_refused-Alike :
    (c : StatusCall) (message : Option String) (s : Kds)
    → Alike (update_refused c message (release c.order_id s)) s
unfolding update_refused release
update_refused-Alike c message s = (refl, refl)

release-Alike : (k : ℕ) (s : Kds) → Alike (release k s) s
unfolding release
release-Alike k s = (refl, refl)

end_update-IsRefreshed :
    (c : StatusCall) (reply : UpdateReply) (now : ℕ) (s : Kds)
    → IsRefreshed s
    → IsRefreshed (end_update c reply now s)
unfolding end_update
end_update-IsRefreshed c reply now s h =
    let after = release c.order_id s in
    let taken = update_accepted c reply.order now after in
    let refused = update_refused c reply.error after in
    if_elim IsRefreshed s.is_active (if truthy reply.error then refused else begin_fetch taken)
      after
      (if_elim IsRefreshed (truthy reply.error) refused (begin_fetch taken)
        (IsRefreshed-Alike refused s (update_refused-Alike c reply.error s) h)
        (begin_fetch-IsRefreshed taken
          (IsRefreshed-Alike taken s (update_accepted-Alike c reply.order now s) h)))
      (IsRefreshed-Alike after s (release-Alike c.order_id s) h)

begin_update-Alike : (j : ℕ) (t : Target) (s : Kds) → Alike (begin_update j t s) s
unfolding begin_update
begin_update-Alike j t s =
    elim (Bool-cases (s.is_active && not (includes s.updating_order_ids j))) [
      | inl free ↦ rw free (refl, refl)
      | inr not_free ↦ rw not_free (refl, refl)
    ]

step-IsRefreshed : (s : Kds) (e : Event) → IsRefreshed s → IsRefreshed (step s e)
unfolding step on_fetch_reply on_update_reply
step-IsRefreshed s fetch_orders h = begin_fetch-IsRefreshed s h
step-IsRefreshed s unmount h = h
step-IsRefreshed s mount h = h
step-IsRefreshed s rendered h = h
step-IsRefreshed s (fetch_reply i reply now) h = elim (Option-cases (get_elem? s.fetches i)) [
  | inl gone ↦ rw (step, on_fetch_reply, gone) h
  | inr (full, there) ↦
      rw (step, on_fetch_reply, there)
        (IsRefreshed-Alike (end_fetch full reply now (record s { fetches = remove_at s.fetches i }))
          (record s { fetches = remove_at s.fetches i })
          (end_fetch-Alike full reply now (record s { fetches = remove_at s.fetches i })) h)
]
step-IsRefreshed s (update_order_status j t) h =
    IsRefreshed-Alike (begin_update j t s) s (begin_update-Alike j t s) h
step-IsRefreshed s (update_reply i reply now) h = elim (Option-cases (get_elem? s.updates i)) [
  | inl gone ↦ rw (step, on_update_reply, gone) h
  | inr (c, there) ↦
      rw (step, on_update_reply, there)
        (end_update-IsRefreshed c reply now (record s { updates = remove_at s.updates i }) h)
]

-- Whatever happens on the board, every thirtieth of the fetches since it started asks for all
-- orders, and the counter says how many fetches there were since the last that had to.
pub run-IsRefreshed : (es : List Event) (s : Kds) → IsRefreshed s → IsRefreshed (run s es)
unfolding run
run-IsRefreshed [] s h = h
run-IsRefreshed (e ∷ es) s h = run-IsRefreshed es (step s e) (step-IsRefreshed s e h)

-- ===== src/Favorites/Toggling.antt =====
-- One toggle, and two toggles at once, of resources/js/Hooks/useFavorites.ts.
use fleximo_oss.Base.{
  ℕ, Bool, true, false, not, Option, none, some, String, List, [], ◌∷◌, ◌++◌, includes, truthy,
  if◌then◌else◌, ◌==◌, nat_eq, ◌≡◌, refl, sym, ap, ◌∙◌, arith, Bool-cases, inl, inr, or_else,
  beq_refl, nat_beq_iff, ◌||◌, ◌&&◌, if_elim,
}
use fleximo_oss.Favorites.{
  ToggleReply, init_favorites, add_id, delete_id, flip_id, is_favorited, toggle_favorite, synced,
  on_toggle_reply,
}

includes-append : (k j : ℕ) (ids : List ℕ) → includes (ids ++ j ∷ []) k ≡ (includes ids k || j == k)
includes-append k j [] = ground arith
includes-append k j (i ∷ ids) = ground (arith, includes-append k j ids)

or_true : (b : Bool) → (b || true) ≡ true
or_true true = refl
or_true false = refl

already : (b c : Bool) → (c ≡ true → b ≡ true) → b ≡ (b || c)
already true c h = refl
already false true h = h refl
already false false h = refl

same_member : (k j : ℕ) (ids : List ℕ) → (j == k) ≡ true → includes ids k ≡ includes ids j
same_member k j ids same = ap (λ i. includes ids i) (sym ((nat_beq_iff j k).0 same))

taken_out : (b c : Bool) → (c ≡ true → b ≡ true) → (b && not c) ≡ (if c then not b else b)
taken_out true true h = refl
taken_out true false h = refl
taken_out false true h = h refl
taken_out false false h = refl

put_in : (b c : Bool) → (c ≡ true → b ≡ false) → (b || c) ≡ (if c then not b else b)
put_in true true h = h refl
put_in true false h = refl
put_in false true h = refl
put_in false false h = refl

includes-add_id : (k j : ℕ) (ids : List ℕ) → includes (add_id j ids) k ≡ (includes ids k || j == k)
unfolding add_id
includes-add_id k j ids = elim (Bool-cases (includes ids j)) [
  | inl there ↦
      rw (add_id, there)
        (already (includes ids k) (j == k) (λ same. same_member k j ids same ∙ there))
  | inr new ↦ rw new (includes-append k j ids)
]

includes-delete_id :
    (k j : ℕ) (ids : List ℕ) → includes (delete_id j ids) k ≡ (includes ids k && not (j == k))
unfolding delete_id
includes-delete_id k j [] = ground arith
includes-delete_id k j (i ∷ ids) = ground (arith, includes-delete_id k j ids)

-- what an answer says of the shop, if it says anything
abbrev pub told : ToggleReply → Option Bool
told reply = if truthy reply.error then none else reply.is_favorited

includes-flip_id :
    (k j : ℕ) (ids : List ℕ)
    → includes (flip_id j ids) k ≡ (if j == k then not (includes ids k) else includes ids k)
unfolding flip_id
includes-flip_id k j ids = elim (Bool-cases (includes ids j)) [
  | inl there ↦
      rw (flip_id, there)
        (includes-delete_id k j ids
          ∙ taken_out (includes ids k) (j == k) (λ same. same_member k j ids same ∙ there))
  | inr new ↦
      rw (flip_id, new)
        (includes-add_id k j ids
          ∙ put_in (includes ids k) (j == k) (λ same. same_member k j ids same ∙ new))
]

added_after : (b c : Bool) → ((if c then not b else b) || c) ≡ (if c then true else b)
added_after b true = ground arith
added_after b false = ground arith

deleted_after : (b c : Bool) → ((if c then not b else b) && not c) ≡ (if c then false else b)
deleted_after b true = ground arith
deleted_after b false = ground arith

synced_flip :
    (ids : List ℕ) (j k : ℕ) (error : Option String) (answer : Option Bool)
    → includes
        (synced
          (record { tenant_id = j; previous_ids = ids })
          (record { error = error; is_favorited = answer })
          (flip_id j ids))
        k
      ≡ (if j == k
          then or_else (if truthy error then none else answer) (includes ids k)
          else includes ids k)
unfolding synced
synced_flip ids j k error answer = elim (Bool-cases (truthy error)) [
  | inl failed ↦ rw (synced, failed) (unchanged answer)
  | inr fine ↦ rw (synced, fine) (answered answer)
]
  where
    unchanged : Option Bool → includes ids k ≡ (if j == k then includes ids k else includes ids k)
    unchanged a = if_elim (λ c. includes ids k ≡ c) (j == k) _ _ refl refl

    answered :
        (a : Option Bool)
        → includes
            (elim a [
              | none ↦ ids
              | some true ↦ add_id j (flip_id j ids)
              | some false ↦ delete_id j (flip_id j ids)
            ])
            k
          ≡ (if j == k then or_else a (includes ids k) else includes ids k)
    answered none = unchanged none
    answered (some true) =
        includes-add_id k j (flip_id j ids)
        ∙ ap (λ b. b || j == k) (includes-flip_id k j ids)
        ∙ added_after (includes ids k) (j == k)
    answered (some false) =
        includes-delete_id k j (flip_id j ids)
        ∙ ap (λ b. b && not (j == k)) (includes-flip_id k j ids)
        ∙ deleted_after (includes ids k) (j == k)

-- A toggle that is answered before another begins: the shop is then a favourite if the server says
-- so, and as before the toggle if the request failed; until the answer it is the opposite of
-- before. No other shop changes.
pub toggle_favorite-on_toggle_reply :
    (ids : List ℕ) (j k : ℕ) (reply : ToggleReply)
    → let before = init_favorites ids in
      let waiting = toggle_favorite j before in
      let after = on_toggle_reply 0 reply waiting in
      (is_favorited waiting k
        ≡ (if j == k then not (is_favorited before k) else is_favorited before k))
      × (is_favorited after k ≡ (
          if j == k then or_else (told reply) (is_favorited before k) else is_favorited before k))
unfolding is_favorited init_favorites toggle_favorite on_toggle_reply synced
toggle_favorite-on_toggle_reply ids j k reply =
    (includes-flip_id k j ids, synced_flip ids j k reply.error reply.is_favorited)

-- Two shops are toggled at once. The second is confirmed as a favourite, and then the first fails:
-- the second is shown as it was before both, although the server has it as a favourite.
pub overlapping_toggles :
    (ids : List ℕ) (j k : ℕ) (refused : ToggleReply)
    → truthy refused.error ≡ true
    → let started = toggle_favorite k (toggle_favorite j (init_favorites ids)) in
      let confirmed =
        on_toggle_reply 1 (record { error = none; is_favorited = some true }) started in
      (is_favorited confirmed k ≡ true)
      × (is_favorited (on_toggle_reply 0 refused confirmed) k ≡ includes ids k)
unfolding is_favorited init_favorites toggle_favorite on_toggle_reply synced
overlapping_toggles ids j k refused failed = (
  includes-add_id k k (flip_id k (flip_id j ids))
      ∙ ap (λ b. includes (flip_id k (flip_id j ids)) k || b) (beq_refl k)
      ∙ or_true (includes (flip_id k (flip_id j ids)) k),
  rw failed refl,
)

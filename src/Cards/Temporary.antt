-- ===== src/Cards/Temporary.antt =====
-- The timer of the success text and the default card over events, of
-- resources/js/Hooks/useCardManagement.ts.
use fleximo_oss.Base.{
  ℕ, suc, ◌+◌, ◌≤◌, Bool, true, false, not, Option, none, some, String, List, [], ◌∷◌, map, truthy,
  or_else, is_some, ◌==◌, nat_eq, beq_refl, includes, filter_by, ◌≡◌, refl, arith, if_elim,
  if_split, Bool-cases, inl, inr, length,
}
use fleximo_oss.Checkout.{SavedCard}
use fleximo_oss.Cards.{
  CardManagement, Answer, answered, threw, Event, register_card, registered, delete_card, deleted,
  fired, unmounted, init_cards, clear_timer, show_temporary_success, log, level_of, register_failed,
  not_default, on_registered, on_deleted, step, run,
}

-- the default cards
abbrev pub defaults : List SavedCard → ℕ
defaults cards = length (filter_by (λ c. c.is_default) cards)

-- The timers that are set and the one the hook holds: none, or that one.
abbrev Held : Option ℕ → List ℕ → Type 0
Held timer [] = Unit
Held timer (t ∷ []) = timer ≡ some t
Held timer (t ∷ u ∷ ts) = ⊥

-- At most one card is the default, at most one timer is set, which is then the one the hook holds,
-- and on a page that stays one is set as long as a success text is shown.
pub record IsTemporary (s : CardManagement) : Type 0 where
  pub one_default : defaults s.cards ≤ 1
  pub held : Held s.timer s.timers
  pub pending : s.is_mounted ≡ true → is_some s.success_message ≡ true → 1 ≤ length s.timers

defaults-not_default : (cards : List SavedCard) → defaults (map not_default cards) ≡ 0
defaults-not_default [] = refl
defaults-not_default (c ∷ cards) = defaults-not_default cards

defaults-filter_by :
    (p : SavedCard → Bool) (cards : List SavedCard) → defaults (filter_by p cards) ≤ defaults cards
defaults-filter_by p [] = omega arith
defaults-filter_by p (c ∷ cards) = ground (arith, defaults-filter_by p cards)

one_more : (c : SavedCard) (cards : List SavedCard) → defaults (c ∷ cards) ≤ suc (defaults cards)
one_more c cards = ground arith

-- The timer that goes off was the only one.
lone_timer :
    (timer : Option ℕ) (timers : List ℕ) (t : ℕ)
    → Held timer timers
    → includes timers t ≡ true
    → filter_by (λ u. not (u == t)) timers ≡ []
lone_timer timer [] t h set = refl
lone_timer timer (u ∷ []) t h set = elim (Bool-cases (u == t)) [
  | inl same ↦ rw same refl
  | inr other ↦ ground (arith, set, other)
]
lone_timer timer (t ∷ u ∷ ts) v h set = ground (arith, h)

-- Clearing the timer that the hook holds leaves none.
cleared_timer :
    (timer : Option ℕ) (timers : List ℕ) → Held timer timers → clear_timer timer timers ≡ []
unfolding clear_timer
cleared_timer none [] h = refl
cleared_timer (some t) [] h = refl
cleared_timer timer (t ∷ []) h = rw h (rw (beq_refl t) refl)
cleared_timer timer (t ∷ u ∷ ts) h = ground (arith, h)

shown :
    (message : String) (s : CardManagement)
    → defaults s.cards ≤ 1
    → Held s.timer s.timers
    → IsTemporary (show_temporary_success message s)
unfolding show_temporary_success
shown message s d h =
    let cleared = cleared_timer s.timer s.timers h in
    record {
      one_default = d;
      held = rw cleared refl;
      pending = λ mounted told. rw cleared (omega arith);
    }

module _ (s : CardManagement) (h : IsTemporary s) where
  registered-IsTemporary : (answer : Answer SavedCard) → IsTemporary (on_registered answer s)
  unfolding on_registered
  registered-IsTemporary (threw message) = record {
    one_default = h.one_default;
    held = h.held;
    pending = h.pending;
  }
  registered-IsTemporary (answered e body status) =
      if_elim IsTemporary (truthy e) _ _
        (record { one_default = h.one_default; held = h.held; pending = h.pending })
        (with_body body)
    where
      with_body :
          (b : Option SavedCard)
          → IsTemporary (elim b [
            | none ↦ record (log (level_of status) s) {
              error = some (or_else e register_failed);
              is_registering = false;
            }
            | some card ↦
                let added : CardManagement = record s { cards = card ∷ map not_default s.cards } in
                let shown = show_temporary_success "カードを登録しました" added in
                record shown { cleared_forms = shown.cleared_forms + 1; is_registering = false }
          ])
      with_body none = record { one_default = h.one_default; held = h.held; pending = h.pending }
      with_body (some card) =
          let k =
            shown "カードを登録しました" (record s { cards = card ∷ map not_default s.cards })
              (omega (arith, one_more card (map not_default s.cards), defaults-not_default s.cards))
              h.held in
          record { one_default = k.one_default; held = k.held; pending = k.pending }

  deleted-IsTemporary : (id : ℕ) (answer : Answer (Unit {0})) → IsTemporary (on_deleted id answer s)
  unfolding on_deleted
  deleted-IsTemporary id (threw message) = record {
    one_default = h.one_default;
    held = h.held;
    pending = h.pending;
  }
  deleted-IsTemporary id (answered e body status) =
      let others = filter_by (λ c. not (c.id == id)) s.cards in
      let k =
        shown "カードを削除しました" (record s { cards = others })
          (omega (arith, defaults-filter_by (λ c. not (c.id == id)) s.cards, h.one_default))
          h.held in
      if_elim IsTemporary (truthy e) _ _
        (record { one_default = h.one_default; held = h.held; pending = h.pending })
        (record { one_default = k.one_default; held = k.held; pending = k.pending })

  fired-IsTemporary : (t : ℕ) → IsTemporary (step s (fired t))
  unfolding step
  fired-IsTemporary t =
      if_split IsTemporary (includes s.timers t) _ s
        (λ set. record {
          one_default = h.one_default;
          held = rw (lone_timer s.timer s.timers t h.held set) tt;
          pending = λ m e. ground (arith, e);
        })
        (λ unset. h)

step-IsTemporary : (s : CardManagement) (e : Event) → IsTemporary s → IsTemporary (step s e)
unfolding step
step-IsTemporary s register_card h = record {
  one_default = h.one_default;
  held = h.held;
  pending = λ m e. ground (arith, e);
}
step-IsTemporary s (registered answer) h = registered-IsTemporary s h answer
step-IsTemporary s (delete_card id) h = record {
  one_default = h.one_default;
  held = h.held;
  pending = λ m e. ground (arith, e);
}
step-IsTemporary s (deleted id answer) h = deleted-IsTemporary s h id answer
step-IsTemporary s (fired t) h = fired-IsTemporary s h t
step-IsTemporary s unmounted h = record {
  one_default = h.one_default;
  held = rw (cleared_timer s.timer s.timers h.held) tt;
  pending = λ m e. ground (arith, m);
}

run_from : (es : List Event) (s : CardManagement) → IsTemporary s → IsTemporary (run s es)
unfolding run
run_from [] s h = h
run_from (e ∷ es) s h = run_from es (step s e) (step-IsTemporary s e h)

-- Whatever requests, answers and timers come in whatever order, at most one card is marked as the
-- default if at most one was at first. At most one timer is set, the one that the hook can still
-- clear, and as long as a success text is shown on a page that stays, one is set that will take the
-- text away.
pub run-IsTemporary :
    (cards : List SavedCard) (es : List Event)
    → defaults cards ≤ 1
    → IsTemporary (run (init_cards cards) es)
unfolding init_cards
run-IsTemporary cards es h =
    run_from es (init_cards cards)
      (record { one_default = h; held = tt; pending = λ m e. ground (arith, e) })

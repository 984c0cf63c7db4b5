-- ===== src/Cards/Scenarios.antt =====
-- Saved cards at concrete requests and answers (resources/js/Hooks/useCardManagement.ts).
use fleximo_oss.Base.{ℕ, Bool, true, false, none, some, List, [], ◌∷◌, map, ◌≡◌, refl, arith}
use fleximo_oss.Checkout.{SavedCard}
use fleximo_oss.Cards.{
  answered, Event, register_card, registered, delete_card, deleted, fired, init_cards, run,
}
use fleximo_oss.Cards.Temporary.{IsTemporary, run-IsTemporary}

abbrev card : ℕ → Bool → SavedCard
card id is_default = record {
  id = id;
  card_no_display = "";
  brand = none;
  expire = "2901";
  is_default = is_default;
}

abbrev cards : List SavedCard
cards = card 1 false ∷ card 2 true ∷ []

-- a card that is not to be the default is registered, and another is deleted meanwhile
abbrev events : List Event
events =
    register_card
    ∷ delete_card 1
    ∷ registered (answered none (some (card 3 false)) 201)
    ∷ deleted 1 (answered none (some tt) 200)
    ∷ fired 0
    ∷ []

run-IsTemporary_example : IsTemporary (run (init_cards cards) events)
run-IsTemporary_example = run-IsTemporary cards events (omega arith)

-- Registering a card that is not the default leaves no default among the cards, and the timer of
-- the first success text does not take the second away.
no_default_left :
    (map (λ c. c.is_default) (run (init_cards cards) events).cards ≡ false ∷ false ∷ [])
    × ((run (init_cards cards) events).timers ≡ 1 ∷ [])
    × ((run (init_cards cards) events).success_message ≡ some "カードを削除しました")
unfolding run init_cards
no_default_left = (refl, refl, refl)

-- ===== src/Checkout/Form.antt =====
-- The choice of how to pay, resources/js/Hooks/useCheckoutForm.ts, and its part in
-- resources/js/Hooks/useCheckout.ts. A setter takes the function from the old value to the new one.
use fleximo_oss.Base.{
  ℕ, Bool, false, Option, none, some, List, [], ◌∷◌, map, find_entry, includes, if◌then◌else◌,
  nat_eq,
}
use fleximo_oss.Checkout.{PaymentMethod, new_card, saved_card, paypay, SavedCard}
use fleximo_oss.Checkout.Flow.{Params}

pub record CheckoutForm : Type 0 where
  pub payment_method : Option PaymentMethod
  pub save_card : Bool
  pub save_as_default_requested : Bool
  pub selected_saved_card_id : Option ℕ

pub data Event : Type 0 where
  set_payment_method : (Option PaymentMethod → Option PaymentMethod) → Event
  set_saved_card_id : (Option ℕ → Option ℕ) → Event
  set_save_card set_save_as_default : (Bool → Bool) → Event

abbrev pub card_ids : List SavedCard → List ℕ
card_ids cards = map (λ c. c.id) cards

unfoldable pub default_saved_card_id : List SavedCard → Option ℕ
default_saved_card_id cards = elim (find_entry (λ c. c.is_default) cards) [
  | some (i, c) ↦ some c.id
  | none ↦ elim cards [ [] ↦ none | c ∷ rest ↦ some c.id ]
]

unfoldable pub init_form : List SavedCard → CheckoutForm
unfolding default_saved_card_id
init_form cards = record {
  payment_method = elim cards [ [] ↦ none | c ∷ rest ↦ some saved_card ];
  save_card = false;
  save_as_default_requested = false;
  selected_saved_card_id = default_saved_card_id cards;
}

-- the selected card, if the customer still has it, or else the default one
unfoldable pub chosen_card_id : List SavedCard → Option ℕ → Option ℕ
chosen_card_id cards none = default_saved_card_id cards
chosen_card_id cards (some id) =
    if includes (card_ids cards) id then some id else default_saved_card_id cards

unfoldable pub saved_card_id : List SavedCard → CheckoutForm → Option ℕ
saved_card_id cards form = elim form.payment_method [
  | some saved_card ↦ chosen_card_id cards form.selected_saved_card_id
  | some new_card ↦ none
  | some paypay ↦ none
  | none ↦ none
]

abbrev pub save_as_default : CheckoutForm → Bool
save_as_default form = if form.save_card then form.save_as_default_requested else false

unfoldable pub step : CheckoutForm → Event → CheckoutForm
step s (set_payment_method f) = record s { payment_method = f s.payment_method }
step s (set_saved_card_id f) = record s { selected_saved_card_id = f s.selected_saved_card_id }
step s (set_save_card f) = record s {
  save_card = f s.save_card;
  save_as_default_requested = if f s.save_card then s.save_as_default_requested else false;
}
step s (set_save_as_default f) = record s {
  save_as_default_requested = f s.save_as_default_requested;
}

-- what `useCheckout` hands from the form to the payment
abbrev pub params_of : ℕ → List SavedCard → CheckoutForm → Params
params_of cart_id cards form = record {
  cart_id = cart_id;
  payment_method = form.payment_method;
  saved_card_id = saved_card_id cards form;
  save_card = form.save_card;
  save_as_default = save_as_default form;
}

-- ===== src/Checkout/Choice.antt =====
-- The card that a checkout is sent with: resources/js/Hooks/useCheckout.ts, the form and the payment
-- together.
use fleximo_oss.Base.{
  ℕ, Bool, true, Option, none, some, List, [], ◌∷◌, find_entry, includes, ◌==◌, nat_eq, ◌||◌, ◌≡◌,
  ◌⊎◌, false, if◌then◌else◌, ap, refl, sym, ◌∙◌, subst, arith, beq_refl, Bool-cases, Option-cases,
  inl, inr, if_split,
}
use fleximo_oss.Checkout.{
  PaymentMethod, new_card, saved_card, paypay, SavedCard, pay_by_card, pay_by_paypay, Effect,
  posted_checkout,
}
use fleximo_oss.Checkout.Flow.{
  World, PaymentState, handle_checkout, checkout_with, pay, handle_card_checkout,
  handle_paypay_checkout,
}
use fleximo_oss.Cart.Entries.{find_entry-cons}
use fleximo_oss.Checkout.Form.{
  CheckoutForm, card_ids, default_saved_card_id, chosen_card_id, saved_card_id, params_of,
}

-- The id is that of one of the cards.
abbrev Has : List SavedCard → Option ℕ → Type 0
Has cards none = Unit
Has cards (some id) = includes (card_ids cards) id ≡ true

later : (b c : Bool) → c ≡ true → (b || c) ≡ true
later b c h = ground arith

found_first : (b c : Bool) → b ≡ true → (b || c) ≡ true
found_first b c h = ground arith

Has-found :
    (cards : List SavedCard) (i : ℕ) (c : SavedCard)
    → find_entry (λ x. x.is_default) cards ≡ some (i, c)
    → includes (card_ids cards) c.id ≡ true
Has-found [] i c e = ground arith
Has-found (x ∷ cards) i c e = elim (find_entry-cons (λ y. y.is_default) x cards i c e) [
  | inl here ↦
      found_first (x.id == c.id) (includes (card_ids cards) c.id) (rw here.2 (beq_refl x.id))
  | inr (no_default, (k, there, place)) ↦
      later (x.id == c.id) (includes (card_ids cards) c.id) (Has-found cards k c there)
]

default_saved_card_id-Has : (cards : List SavedCard) → Has cards (default_saved_card_id cards)
unfolding default_saved_card_id
default_saved_card_id-Has [] = tt
default_saved_card_id-Has (c ∷ cards) =
    elim (Option-cases (find_entry (λ x. x.is_default) (c ∷ cards))) [
      | inl no_default ↦ rw (default_saved_card_id, no_default) (rw (beq_refl c.id) refl)
      | inr ((i, d), found) ↦ rw (default_saved_card_id, found) (Has-found (c ∷ cards) i d found)
    ]

none_is_not : {C : Type 0} {id : ℕ} → some id ≡ none → C
none_is_not h = ground (arith, h)

default_of_none : (cards : List SavedCard) → default_saved_card_id cards ≡ none → cards ≡ []
unfolding default_saved_card_id
default_of_none [] h = refl
default_of_none (c ∷ cards) h = elim (Option-cases (find_entry (λ x. x.is_default) (c ∷ cards))) [
  | inl no_default ↦ none_is_not (rw (default_saved_card_id, no_default) at h)
  | inr (found, there) ↦ none_is_not (rw (default_saved_card_id, there) at h)
]

chosen_of_none :
    (cards : List SavedCard) (selected : Option ℕ)
    → chosen_card_id cards selected ≡ none
    → cards ≡ []
unfolding chosen_card_id
chosen_of_none cards none h = default_of_none cards h
chosen_of_none cards (some id) h = elim (Bool-cases (includes (card_ids cards) id)) [
  | inl there ↦ none_is_not (rw (chosen_card_id, there) at h)
  | inr gone ↦ default_of_none cards (rw gone at h)
]

chosen_card_id-Has :
    (cards : List SavedCard) (selected : Option ℕ) → Has cards (chosen_card_id cards selected)
unfolding chosen_card_id
chosen_card_id-Has cards none = default_saved_card_id-Has cards
chosen_card_id-Has cards (some id) =
    if_split (Has cards) (includes (card_ids cards) id) (some id) _ (λ e. e)
      (λ e. default_saved_card_id-Has cards)

-- the id of the first card that is marked as the default
abbrev pub first_default : List SavedCard → Option ℕ
first_default [] = none
first_default (c ∷ cards) =
    let rest = first_default cards in if c.is_default then some c.id else rest

abbrev pub first_id : List SavedCard → Option ℕ
first_id [] = none
first_id (c ∷ cards) = some c.id

-- Nothing is selected, or a card that the customer has not.
abbrev pub NotThere : List SavedCard → Option ℕ → Type 0
NotThere cards none = Unit
NotThere cards (some k) = includes (card_ids cards) k ≡ false

-- The card sent is the selected one; if nothing is selected, or a card that is gone, it is the first
-- that is marked as the default, or the first of all if none is marked.
abbrev pub IsPick : List SavedCard → Option ℕ → ℕ → Type 0
IsPick cards selected id =
    ((selected ≡ some id) × (includes (card_ids cards) id ≡ true))
    ⊎ (NotThere cards selected
        × ((first_default cards ≡ some id)
            ⊎ ((first_default cards ≡ none) × (first_id cards ≡ some id))))

marked_id : Option (ℕ × SavedCard) → Option ℕ
marked_id none = none
marked_id (some (i, c)) = some c.id

first_default_lem :
    (cards : List SavedCard)
    → first_default cards ≡ marked_id (find_entry (λ c. c.is_default) cards)
unfolding marked_id
first_default_lem [] = refl
first_default_lem (c ∷ cards) = elim (Bool-cases c.is_default) [
  | inl here ↦ rw here refl
  | inr later ↦ elim (Option-cases (find_entry (λ x. x.is_default) cards)) [
    | inl missing ↦ rw (later, missing) (first_default_lem cards ∙ ap marked_id missing)
    | inr ((i, d), found) ↦ rw (later, found) (first_default_lem cards ∙ ap marked_id found)
  ]
]

default-IsPick :
    (cards : List SavedCard) (selected : Option ℕ) (id : ℕ)
    → NotThere cards selected
    → default_saved_card_id cards ≡ some id
    → IsPick cards selected id
unfolding default_saved_card_id marked_id
default-IsPick [] selected id gone h = ground (arith, h)
default-IsPick (c ∷ cards) selected id gone h =
    elim (Option-cases (find_entry (λ x. x.is_default) (c ∷ cards))) [
      | inl no_default ↦ inr (
        gone,
        inr (
          first_default_lem (c ∷ cards) ∙ ap marked_id no_default,
          (rw (default_saved_card_id, no_default) at h),
        ),
      )
      | inr ((i, d), found) ↦ inr (
        gone,
        inl (
            first_default_lem (c ∷ cards)
            ∙ ap marked_id found
            ∙ (rw (default_saved_card_id, found) at h)),
      )
    ]

chosen_card_id-IsPick :
    (cards : List SavedCard) (selected : Option ℕ) (id : ℕ)
    → chosen_card_id cards selected ≡ some id
    → IsPick cards selected id
unfolding chosen_card_id
chosen_card_id-IsPick cards none id h = default-IsPick cards none id tt h
chosen_card_id-IsPick cards (some k) id h = elim (Bool-cases (includes (card_ids cards) k)) [
  | inl there ↦
      let same : some k ≡ some id = rw (chosen_card_id, there) at h in
      inl (same, subst (λ o. Has cards o) same there)
  | inr gone ↦ default-IsPick cards (some k) id gone (rw (chosen_card_id, gone) at h)
]

-- The order is placed for the cart; by card, with a saved card of the customer's exactly where that
-- way to pay was chosen, namely the selected one if it is there, or by PayPay where that was.
abbrev pub IsChosen : ℕ → List SavedCard → CheckoutForm → List Effect → Type 0
IsChosen cart_id cards form (posted_checkout (pay_by_card cart (some id)) ∷ rest) =
    (cart ≡ cart_id)
    × (form.payment_method ≡ some saved_card)
    × (includes (card_ids cards) id ≡ true)
    × IsPick cards form.selected_saved_card_id id
IsChosen cart_id cards form (posted_checkout (pay_by_card cart none) ∷ rest) =
    (cart ≡ cart_id)
    × ((form.payment_method ≡ some new_card)
        ⊎ ((form.payment_method ≡ some saved_card) × (cards ≡ [])))
IsChosen cart_id cards form (posted_checkout (pay_by_paypay cart) ∷ rest) =
    (cart ≡ cart_id) × (form.payment_method ≡ some paypay)
IsChosen cart_id cards form [] = form.payment_method ≡ none
IsChosen cart_id cards form (_ ∷ rest) = ⊥

by_card :
    (cart_id : ℕ) (cards : List SavedCard) (form : CheckoutForm) (card : Option ℕ)
    (rest : List Effect)
    → form.payment_method ≡ some saved_card
    → Has cards card
    → (card ≡ none → cards ≡ [])
    → ((id : ℕ) → card ≡ some id → IsPick cards form.selected_saved_card_id id)
    → IsChosen cart_id cards form (posted_checkout (pay_by_card cart_id card) ∷ rest)
by_card cart_id cards form none rest m h k pick = (refl, inr (m, k refl))
by_card cart_id cards form (some id) rest m h k pick = (refl, m, h, pick id refl)

by_new_card :
    (cart_id : ℕ) (cards : List SavedCard) (form : CheckoutForm) (card : Option ℕ)
    (rest : List Effect)
    → form.payment_method ≡ some new_card
    → card ≡ none
    → IsChosen cart_id cards form (posted_checkout (pay_by_card cart_id card) ∷ rest)
by_new_card cart_id cards form none rest m h = (refl, inl m)
by_new_card cart_id cards form (some id) rest m h = ground (arith, h)

saved_card_id_lem :
    (cards : List SavedCard) (form : CheckoutForm)
    → form.payment_method ≡ some saved_card
    → saved_card_id cards form ≡ chosen_card_id cards form.selected_saved_card_id
unfolding saved_card_id
saved_card_id_lem cards form m = rw (saved_card_id, m) refl

other_card_id_lem :
    (cards : List SavedCard) (form : CheckoutForm)
    → form.payment_method ≡ some new_card
    → saved_card_id cards form ≡ none
unfolding saved_card_id
other_card_id_lem cards form m = rw (saved_card_id, m) refl

module _ (world : World) (cart_id : ℕ) (cards : List SavedCard) (form : CheckoutForm)
    (mounted : Bool) where
  with_method :
      (s : PaymentState) (method : Option PaymentMethod)
      → form.payment_method ≡ method
      → IsChosen cart_id cards form
          (elim method as (λ _. PaymentState × List Effect) [
            | none ↦ (s, [])
            | some m ↦ checkout_with world m (params_of cart_id cards form) mounted
          ]).1
  unfolding checkout_with pay handle_card_checkout handle_paypay_checkout
  with_method s none m = m
  with_method s (some paypay) m = (refl, m)
  with_method s (some new_card) m =
      by_new_card cart_id cards form (saved_card_id cards form) _ m (other_card_id_lem cards form m)
  with_method s (some saved_card) m =
      let id = saved_card_id_lem cards form m in
      by_card cart_id cards form (saved_card_id cards form) _ m
        (subst (Has cards) (sym id) (chosen_card_id-Has cards form.selected_saved_card_id))
        (λ e. chosen_of_none cards form.selected_saved_card_id (sym id ∙ e))
        (λ k e. chosen_card_id-IsPick cards form.selected_saved_card_id k (sym id ∙ e))

  -- A checkout places its order for the cart of the page, in the way that the form says. Where a
  -- saved card is chosen, the card sent is the selected one; if none is selected, or one that the
  -- customer no longer has, it is the first that is marked as the default, or the first of all if
  -- none is marked; and none is sent only if the customer has none. With no way to pay chosen
  -- nothing is sent.
  pub handle_checkout-IsChosen :
      (s : PaymentState)
      → IsChosen cart_id cards form
          (handle_checkout world (params_of cart_id cards form) mounted s).1
  unfolding handle_checkout
  handle_checkout-IsChosen s = with_method s form.payment_method refl

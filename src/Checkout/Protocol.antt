-- ===== src/Checkout/Protocol.antt =====
-- That every checkout of resources/js/Hooks/useCheckoutPayment.ts keeps the order that the machine
-- of Checkout.Machine allows.
use fleximo_oss.Base.{
  true, false, Option, none, some, String, List, [], truthy, or_else, is_some, if◌then◌else◌, ◌&&◌,
  nat_eq, ◌≡◌, refl, arith, inl, inr, if_elim, if_split, All, ◌⊎◌,
}
use fleximo_oss.Errors.{normalize_error_message, has_japanese}
use fleximo_oss.Errors.Japanese.{normalize_error_message-Japanese, truthy_of_has_japanese}
use fleximo_oss.Checkout.{
  PaymentMethod, new_card, saved_card, paypay, Payment, CheckoutData, CheckoutRequest, pay_by_card,
  pay_by_paypay, FinalizeRequest, Effect, posted_checkout, asked_token, visited_failed,
}
use fleximo_oss.Checkout.Effects.{Result, returned, raised, Run, ◌>>=◌, ◌>>◌, emit}
use fleximo_oss.Checkout.Flow.{
  World, Params, PaymentState, checkout_failed, body_or_raise, is_safe_redirect_url,
  finalize_payment, pay_with_token, handle_card_checkout, redirect_to, handle_paypay_checkout, pay,
  checkout_with, handle_checkout,
}
use fleximo_oss.Checkout.Machine.{
  untouched, ordered, tokened, gone, follow, IsSafe, Conforms, body_or_raise-cases,
  finalize_payment-Exits, follow_two, finalize_payment-Conforms,
}

module _ (world : World) where
  pay_with_token-Conforms :
      (params : Params) (checkout : CheckoutData)
      → Conforms world ordered (pay_with_token world params checkout)
  unfolding pay_with_token
  pay_with_token-Conforms params checkout = with_token world.create_token
    where
      with_token :
          (token : Result String)
          → Conforms world ordered (elim token [
            | raised message ↦ emit asked_token tt >> emit (visited_failed checkout.order_id) tt
            | returned t ↦
                emit asked_token tt
                >> finalize_payment world
                    (record {
                      payment_id = checkout.payment.id;
                      token = some t;
                      save_as_default =
                          if params.save_card then some params.save_as_default else none;
                    })
                    checkout.order_id
          ])
      with_token (raised message) = (refl, (tt, (tt, tt)))
      with_token (returned t) =
          let request : FinalizeRequest = record {
            payment_id = checkout.payment.id;
            token = some t;
            save_as_default = if params.save_card then some params.save_as_default else none;
          } in
          let (e, shape, exit) = finalize_payment-Exits world request checkout.order_id in
          rw shape (follow_two tokened request e refl exit.0, (tt, (tt, (exit.1, tt))))

  -- the request of a checkout in front of what follows it
  placed_first :
      (request : CheckoutRequest) (r : Run (Unit {0}))
      → Conforms world ordered r
      → Conforms world untouched (emit (posted_checkout request) tt >> r)
  placed_first request (effects, returned a) h = (h.0, (tt, h.1))
  placed_first request (effects, raised message) h = (h.0, (tt, h.1))

  handle_card_checkout-Conforms :
      (params : Params) → Conforms world untouched (handle_card_checkout world params)
  unfolding handle_card_checkout
  handle_card_checkout-Conforms params =
      let request = pay_by_card params.cart_id params.saved_card_id in
      placed_first request
        (body_or_raise (world.checkout request) checkout_failed >>= λ checkout.
          if checkout.payment.requires_token
          then pay_with_token world params checkout
          else finalize_payment world
              (record { payment_id = checkout.payment.id; token = none; save_as_default = none })
              checkout.order_id)
        (elim (body_or_raise-cases (world.checkout request) checkout_failed) [
          | inl (checkout, answered) ↦ rw answered (
              if_elim (Conforms world ordered) checkout.payment.requires_token _ _
                (pay_with_token-Conforms params checkout)
                (finalize_payment-Conforms world ordered _ checkout.order_id refl))
          | inr (message, refused) ↦ rw refused (refl, tt)
        ])

  redirect_to-Conforms : (payment : Payment) → Conforms world ordered (redirect_to world payment)
  unfolding redirect_to
  redirect_to-Conforms payment =
      if_elim (Conforms world ordered) (payment.requires_redirect && truthy payment.redirect_url) _
        _
        (if_split (Conforms world ordered)
          (is_safe_redirect_url world (or_else payment.redirect_url "")) _ _
          (λ safe. (refl, (safe, tt))) (λ unsafe. (refl, tt)))
        (refl, tt)

  handle_paypay_checkout-Conforms :
      (params : Params) → Conforms world untouched (handle_paypay_checkout world params)
  unfolding handle_paypay_checkout
  handle_paypay_checkout-Conforms params =
      let request = pay_by_paypay params.cart_id in
      placed_first request
        (body_or_raise (world.checkout request) checkout_failed >>= λ checkout.
          redirect_to world checkout.payment)
        (elim (body_or_raise-cases (world.checkout request) checkout_failed) [
          | inl (checkout, answered) ↦ rw answered (redirect_to-Conforms checkout.payment)
          | inr (message, refused) ↦ rw refused (refl, tt)
        ])

  pay-Conforms :
      (method : PaymentMethod) (params : Params)
      → Conforms world untouched (pay world method params)
  unfolding pay
  pay-Conforms paypay params = handle_paypay_checkout-Conforms params
  pay-Conforms new_card params = handle_card_checkout-Conforms params
  pay-Conforms saved_card params = handle_card_checkout-Conforms params

  -- the end of a checkout: the page was left and the button stays off, or an error is shown
  abbrev pub IsSettled : PaymentState × List Effect → Type 0
  IsSettled (s, effects) =
      ((follow untouched effects ≡ some gone) × (s ≡ record { is_processing = true; error = none }))
      ⊎ ((follow untouched effects ≡ some ordered)
          × (s.is_processing ≡ false)
          × (truthy s.error ≡ true))

  abbrev Ends : PaymentState × List Effect → Type 0
  Ends r = IsSettled r × All (IsSafe world) r.1

  ended_lem :
      (r : Run (Unit {0}))
      → Conforms world untouched r
      → IsSettled (
        elim r.1 [
          | returned _ ↦ record { is_processing = true; error = none }
          | raised message ↦ record {
            is_processing = false;
            error = some (normalize_error_message (some message) checkout_failed);
          }
        ],
        r.0,
      )
        × All (IsSafe world) r.0
  unfolding has_japanese
  ended_lem (effects, returned a) h = (inl (h.0, refl), h.1)
  ended_lem (effects, raised message) h =
      let told = normalize_error_message-Japanese (some message) checkout_failed refl in
      (inr (h.0, refl, truthy_of_has_japanese _ told), h.1)

  checkout_with-IsSettled :
      (method : PaymentMethod) (params : Params)
      → IsSettled (checkout_with world method params true)
        × All (IsSafe world) (checkout_with world method params true).1
  unfolding checkout_with
  checkout_with-IsSettled method params =
      ended_lem (pay world method params) (pay-Conforms method params)

  -- A checkout on a page that stays, with a method chosen, ends in one of two ways, whatever the
  -- server, the card form and the addresses are. Either the order was placed, its payment was
  -- confirmed at most once, the page was left once and last, and the button stays off; or no page
  -- was left, nothing was confirmed, an error text is shown and the button is on again. Only safe
  -- addresses are gone to.
  pub handle_checkout-IsSettled :
      (params : Params) (s : PaymentState)
      → is_some params.payment_method ≡ true
      → IsSettled (handle_checkout world params true s)
        × All (IsSafe world) (handle_checkout world params true s).1
  unfolding handle_checkout
  handle_checkout-IsSettled params s chosen = with_method params.payment_method chosen
    where
      with_method :
          (method : Option PaymentMethod)
          → is_some method ≡ true
          → Ends (elim method [ none ↦ (s, []) | some m ↦ checkout_with world m params true ])
      with_method none h = ground arith
      with_method (some m) h = checkout_with-IsSettled m params

-- ===== src/Checkout/Flow.antt =====
-- resources/js/Hooks/useCheckoutPayment.ts. What the browser and the server do is the section's
-- parameter: `protocol` reads the protocol of an address against the page's origin (`none` where
-- `new URL` throws), and the others answer the requests.
use fleximo_oss.Base.{
  ℕ, Bool, true, false, not, Option, none, some, String, List, [], truthy, or_else, is_some,
  if◌then◌else◌, ◌==◌, ◌&&◌, ◌||◌, string_eq,
}
use fleximo_oss.Errors.{normalize_error_message}
use fleximo_oss.Checkout.{
  PaymentMethod, new_card, saved_card, paypay, Payment, CheckoutData, FinalizeData, Reply,
  CheckoutRequest, pay_by_card, pay_by_paypay, FinalizeRequest, Effect, posted_checkout,
  posted_finalize, asked_token, visited_complete, visited_failed, left_for,
}
use fleximo_oss.Checkout.Effects.{
  Result, returned, raised, Run, ◌>>=◌, ◌>>◌, done, raise, emit, attempt,
}

pub record World : Type 0 where
  pub protocol : String → Option String
  pub checkout : CheckoutRequest → Reply CheckoutData
  pub finalize : FinalizeRequest → Reply FinalizeData
  -- what `fincode.createToken()` is resolved or rejected with
  pub create_token : Result String

-- the hook's parameters at the call
pub record Params : Type 0 where
  pub cart_id : ℕ
  pub payment_method : Option PaymentMethod
  pub saved_card_id : Option ℕ
  pub save_card : Bool
  pub save_as_default : Bool

pub record PaymentState : Type 0 where
  pub is_processing : Bool
  pub error : Option String

abbrev pub checkout_failed : String
checkout_failed = "決済処理に失敗しました"

abbrev pub finalize_failed : String
finalize_failed = "決済の確定に失敗しました"

-- `if (error || !response) throw new Error(normalizeErrorMessage(error, fallback))`
unfoldable pub body_or_raise : {A : Type 0} → Reply A → String → Run A
body_or_raise reply fallback =
    if truthy reply.error
    then raise (normalize_error_message reply.error fallback)
    else elim reply.body [
      | none ↦ raise (normalize_error_message reply.error fallback)
      | some a ↦ done a
    ]

module _ (world : World) where
  unfoldable pub is_safe_redirect_url : String → Bool
  is_safe_redirect_url url = elim (world.protocol url) [
    | none ↦ false
    | some p ↦ p == "https:" || p == "http:"
  ]

  -- A missing address becomes the text "undefined".
  unfoldable pub handle_finalize_response : FinalizeData → ℕ → Run (Unit {0})
  handle_finalize_response response order_id =
      if response.requires_3ds_redirect
      then (let url = or_else response.redirect_url "undefined" in
          if is_safe_redirect_url url
          then emit (left_for url) tt
          else emit (visited_failed order_id) tt)
      else elim response.order_id [
        | none ↦ emit (visited_failed order_id) tt
        | some id ↦ emit (visited_complete id) tt
      ]

  -- the request that confirms the payment, with what follows it
  unfoldable pub finalize_payment : FinalizeRequest → ℕ → Run (Unit {0})
  finalize_payment request order_id =
      attempt
        (do
          let reply = world.finalize request
          emit (posted_finalize request) tt
          response ← body_or_raise reply finalize_failed
          handle_finalize_response response order_id)
        (emit (visited_failed order_id) tt)

  -- a new card: the token, and then the confirmation
  unfoldable pub pay_with_token : Params → CheckoutData → Run (Unit {0})
  pay_with_token params checkout = elim world.create_token [
    | raised message ↦ do emit asked_token tt; emit (visited_failed checkout.order_id) tt
    | returned token ↦ do
      emit asked_token tt
      finalize_payment
          (record {
            payment_id = checkout.payment.id;
            token = some token;
            save_as_default = if params.save_card then some params.save_as_default else none;
          })
          checkout.order_id
  ]

  unfoldable pub handle_card_checkout : Params → Run (Unit {0})
  handle_card_checkout params = do
    let request = pay_by_card params.cart_id params.saved_card_id
    emit (posted_checkout request) tt
    checkout ← body_or_raise (world.checkout request) checkout_failed
    if checkout.payment.requires_token
        then pay_with_token params checkout
        else finalize_payment
            (record { payment_id = checkout.payment.id; token = none; save_as_default = none })
            checkout.order_id

  unfoldable pub redirect_to : Payment → Run (Unit {0})
  redirect_to payment =
      if payment.requires_redirect && truthy payment.redirect_url
      then (let url = or_else payment.redirect_url "" in
          if is_safe_redirect_url url then emit (left_for url) tt else raise "不正なリダイレクト先が検出されました")
      else raise "PayPay決済のリダイレクトURLを取得できませんでした"

  unfoldable pub handle_paypay_checkout : Params → Run (Unit {0})
  handle_paypay_checkout params = do
    let request = pay_by_paypay params.cart_id
    emit (posted_checkout request) tt
    checkout ← body_or_raise (world.checkout request) checkout_failed
    redirect_to checkout.payment

  unfoldable pub pay : PaymentMethod → Params → Run (Unit {0})
  pay paypay params = handle_paypay_checkout params
  pay new_card params = handle_card_checkout params
  pay saved_card params = handle_card_checkout params

  -- the state after a checkout with the method, and its effects
  unfoldable pub checkout_with : PaymentMethod → Params → Bool → PaymentState × List Effect
  checkout_with method params mounted =
      let (effects, ended) = pay method params in
      (
        elim ended [
          | returned _ ↦ record { is_processing = true; error = none }
          | raised message ↦
              if mounted
              then record {
                is_processing = false;
                error = some (normalize_error_message (some message) checkout_failed);
              }
              else record { is_processing = true; error = none }
        ],
        effects,
      )

  -- `mounted` says whether the page is still there when an exception comes.
  unfoldable pub handle_checkout : Params → Bool → PaymentState → PaymentState × List Effect
  handle_checkout params mounted s = elim params.payment_method [
    | none ↦ (s, [])
    | some method ↦ checkout_with method params mounted
  ]

-- whether the button is off; `is_ready` is the state of the card form
unfoldable pub is_checkout_disabled : PaymentState → Params → Bool → Bool
is_checkout_disabled s params is_ready = s.is_processing || elim params.payment_method [
  | none ↦ true
  | some new_card ↦ not is_ready
  | some saved_card ↦ not (is_some params.saved_card_id)
  | some paypay ↦ false
]

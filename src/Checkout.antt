-- ===== src/Checkout.antt =====
-- The payment of an order: the data of resources/js/types/checkout.ts and of cards.ts as far as the
-- hooks read them, and the effects of a checkout.
pub mod Effects
pub mod Flow
pub mod Machine
pub mod Protocol
pub mod Fincode
pub mod Tokens
pub mod Form
pub mod Choice
mod Scenarios
use fleximo_oss.Base.{ℕ, Bool, Option, String, List}

-- `PaymentMethod` of resources/js/types/order.ts
pub data PaymentMethod : Type 0 where
  new_card saved_card paypay : PaymentMethod

pub record SavedCard : Type 0 where
  pub id : ℕ
  pub card_no_display : String
  pub brand : Option String
  pub expire : String
  pub is_default : Bool

-- `payment` of `CheckoutApiResponse`
pub record Payment : Type 0 where
  pub id : ℕ
  pub requires_redirect : Bool
  pub requires_token : Bool
  pub redirect_url : Option String

-- `data` of `CheckoutApiResponse`; of the order the hooks read the id only.
pub record CheckoutData : Type 0 where
  pub order_id : ℕ
  pub payment : Payment

-- `data` of `FinalizePaymentApiResponse`, its order by its id
pub record FinalizeData : Type 0 where
  pub order_id : Option ℕ
  pub requires_3ds_redirect : Bool
  pub redirect_url : Option String

-- The answer to a POST: `error`, and `data` if there is a body.
pub record Reply (A : Type 0) : Type 0 where
  pub error : Option String
  pub body : Option A

-- What a POST to the checkout sends: the cart, and the card for a card payment.
pub data CheckoutRequest : Type 0 where
  pay_by_card : (cart_id : ℕ) → (card_id : Option ℕ) → CheckoutRequest
  pay_by_paypay : (cart_id : ℕ) → CheckoutRequest

-- `save_as_default` is sent where the card is to be saved, and `token` for a new card.
pub record FinalizeRequest : Type 0 where
  pub payment_id : ℕ
  pub token : Option String
  pub save_as_default : Option Bool

pub data Effect : Type 0 where
  posted_checkout : CheckoutRequest → Effect
  posted_finalize : FinalizeRequest → Effect
  asked_token : Effect
  visited_complete visited_failed : (order_id : ℕ) → Effect
  left_for : (url : String) → Effect

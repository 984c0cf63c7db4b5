-- ===== src/Checkout/Scenarios.antt =====
-- Checkouts at concrete carts, cards and answers of the server (resources/js/Hooks/
-- useCheckoutPayment.ts and its neighbours).
use fleximo_oss.Base.{
  ℕ, Bool, true, false, Option, none, some, String, List, [], ◌∷◌, ◌≡◌, refl, All, is_some,
}
use fleximo_oss.Checkout.{
  new_card, saved_card, SavedCard, pay_by_card, posted_checkout, posted_finalize, asked_token,
  left_for,
}
use fleximo_oss.Checkout.Effects.{returned}
use fleximo_oss.Checkout.Flow.{
  World, Params, PaymentState, body_or_raise, is_safe_redirect_url, handle_finalize_response,
  finalize_payment, pay_with_token, handle_card_checkout, pay, checkout_with, handle_checkout,
}
use fleximo_oss.Checkout.Machine.{IsSafe}
use fleximo_oss.Checkout.Protocol.{IsSettled, handle_checkout-IsSettled}
use fleximo_oss.Checkout.Fincode.{
  Fincode, working, start, script_loaded, mount, init_fincode, run, FormData, CardData, TokenAnswer,
  answered, create_token, starts_with,
}
use fleximo_oss.Checkout.Tokens.{
  IsCoherent, run-IsCoherent, IsTokenized, can_send, create_token-IsTokenized,
}
use fleximo_oss.Checkout.Form.{
  CheckoutForm, default_saved_card_id, chosen_card_id, saved_card_id, params_of,
}
use fleximo_oss.Checkout.Choice.{IsChosen, handle_checkout-IsChosen}

abbrev idle : PaymentState
idle = record { is_processing = false; error = none }

abbrev card : ℕ → Bool → SavedCard
card id is_default = record {
  id = id;
  card_no_display = "";
  brand = none;
  expire = "2901";
  is_default = is_default;
}

abbrev two_cards : List SavedCard
two_cards = card 3 false ∷ card 4 true ∷ []

-- The server takes every order, asks new cards for a token and sends 3-D Secure to `target`.
abbrev bank : Option String → World
bank target = record {
  protocol = λ url. some "https:";
  checkout = λ request. record {
    error = none;
    body = some (record {
      order_id = 7;
      payment = record {
        id = 9;
        requires_redirect = false;
        requires_token = true;
        redirect_url = none;
      };
    });
  };
  finalize = λ request. record {
    error = none;
    body = some (record { order_id = none; requires_3ds_redirect = true; redirect_url = target });
  };
  create_token = returned "tok";
}

abbrev by_new_card : Params
by_new_card = record {
  cart_id = 5;
  payment_method = some new_card;
  saved_card_id = none;
  save_card = false;
  save_as_default = false;
}

handle_checkout-IsSettled_example :
    IsSettled
      (bank (some "https://3ds"))
      (handle_checkout (bank (some "https://3ds")) by_new_card true idle)
    × All
        (IsSafe (bank (some "https://3ds")))
        (handle_checkout (bank (some "https://3ds")) by_new_card true idle).1
handle_checkout-IsSettled_example =
    handle_checkout-IsSettled (bank (some "https://3ds")) by_new_card idle refl

-- A confirmation that asks for 3-D Secure and gives no address goes to the address "undefined".
missing_address :
    (handle_checkout (bank none) by_new_card true idle).1
    ≡ posted_checkout (pay_by_card 5 none)
      ∷ asked_token
      ∷ posted_finalize (record { payment_id = 9; token = some "tok"; save_as_default = none })
      ∷ left_for "undefined"
      ∷ []
unfolding handle_checkout checkout_with pay handle_card_checkout body_or_raise pay_with_token
    finalize_payment handle_finalize_response is_safe_redirect_url
missing_address = refl

run-IsCoherent_example : IsCoherent (
    run init_fincode
      (start "p_test_1" true none ∷ script_loaded working ∷ mount "form" true true ∷ []))
run-IsCoherent_example =
    run-IsCoherent
      (start "p_test_1" true none ∷ script_loaded working ∷ mount "form" true true ∷ [])

-- A test key loads the test script, even in production.
test_script :
    (run init_fincode (start "p_test_1" true none ∷ script_loaded working ∷ [])).scripts
    ≡ "https://js.test.fincode.jp/v1/fincode.js" ∷ []
unfolding run starts_with init_fincode
test_script = refl

abbrev mounted_form : Fincode
mounted_form = record {
  has_instance = true;
  has_ui = true;
  mounted_container = some "form";
  is_ready = true;
  is_loading = false;
  error = none;
  emptied = [];
  scripts = [];
}

abbrev filled : Option FormData
filled =
    some (record { card_no = some "4111"; expire = some "2901"; cvc = none; holder_name = none })

abbrev two_tokens : CardData → TokenAnswer
two_tokens data_sent = answered 200 ("a" ∷ "b" ∷ []) []

create_token-IsTokenized_example :
    IsTokenized filled two_tokens
      (create_token mounted_form filled two_tokens).0
      (create_token mounted_form filled two_tokens).1
    × (is_some (create_token mounted_form filled two_tokens).0 ≡ can_send mounted_form filled)
create_token-IsTokenized_example = create_token-IsTokenized mounted_form filled two_tokens

-- A selected card that is gone is replaced by the default one.
abbrev stale : CheckoutForm
stale = record {
  payment_method = some saved_card;
  save_card = false;
  save_as_default_requested = false;
  selected_saved_card_id = some 8;
}

stale_card : saved_card_id two_cards stale ≡ some 4
unfolding saved_card_id chosen_card_id default_saved_card_id
stale_card = refl

handle_checkout-IsChosen_example :
    IsChosen 5 two_cards stale
      (handle_checkout (bank none) (params_of 5 two_cards stale) true idle).1
handle_checkout-IsChosen_example = handle_checkout-IsChosen (bank none) 5 two_cards stale true idle

-- ===== src/Checkout/Machine.antt =====
-- The order of requests and navigation that a checkout may make, as a machine of its own, and that
-- the confirmation of a payment keeps it, for resources/js/Hooks/useCheckoutPayment.ts.
use fleximo_oss.Base.{
  ℕ, true, Option, none, some, String, List, [], ◌∷◌, truthy, or_else, nat_eq, ◌≡◌, refl,
  Bool-cases, Option-cases, inl, inr, if_elim, if_split, All, ◌⊎◌,
}
use fleximo_oss.Errors.{normalize_error_message}
use fleximo_oss.Checkout.{
  FinalizeData, Reply, FinalizeRequest, Effect, posted_checkout, posted_finalize, asked_token,
  visited_complete, visited_failed, left_for,
}
use fleximo_oss.Checkout.Effects.{returned, raised, Run, done, raise, emit}
use fleximo_oss.Checkout.Flow.{
  World, finalize_failed, body_or_raise, is_safe_redirect_url, handle_finalize_response,
  finalize_payment,
}

-- Nothing is sent; an order was placed; a card token was made; the payment was confirmed; the page
-- was left.
pub data Phase : Type 0 where
  untouched ordered tokened confirmed gone : Phase

-- An order is placed once, its payment is confirmed at most once, and the page is left last.
abbrev next : Phase → Effect → Option Phase
next untouched (posted_checkout r) = some ordered
next ordered asked_token = some tokened
next ordered (posted_finalize r) = some confirmed
next ordered (left_for url) = some gone
next tokened (posted_finalize r) = some confirmed
next tokened (visited_failed id) = some gone
next confirmed (visited_complete id) = some gone
next confirmed (visited_failed id) = some gone
next confirmed (left_for url) = some gone
next _ _ = none

abbrev pub follow : Phase → List Effect → Option Phase
follow p [] = some p
follow p (e ∷ es) = elim (next p e) [ none ↦ none | some q ↦ follow q es ]

-- Only safe addresses are gone to.
abbrev pub IsSafe : World → Effect → Type 0
IsSafe world (left_for url) = is_safe_redirect_url world url ≡ true
IsSafe world _ = Unit

-- An effect that ends a confirmed payment.
abbrev IsExit : World → Effect → Type 0
IsExit world e = (next confirmed e ≡ some gone) × IsSafe world e

-- The machine accepts the run from the phase: one that returns has left the page, and one that
-- throws has stayed in the phase `ordered`. The addresses gone to are safe.
abbrev pub Conforms : World → Phase → Run (Unit {0}) → Type 0
Conforms world from (effects, returned _) =
    (follow from effects ≡ some gone) × All (IsSafe world) effects
Conforms world from (effects, raised message) =
    (follow from effects ≡ some ordered) × All (IsSafe world) effects

pub body_or_raise-cases :
    {A : Type 0} (reply : Reply A) (fallback : String)
    → ((a : A) × (body_or_raise reply fallback ≡ done a))
      ⊎ ((message : String) × (body_or_raise reply fallback ≡ raise message))
unfolding body_or_raise
body_or_raise-cases reply fallback = elim (Bool-cases (truthy reply.error)) [
  | inl failed ↦ inr (normalize_error_message reply.error fallback, rw failed refl)
  | inr fine ↦ elim (Option-cases reply.body) [
    | inl empty ↦ inr (normalize_error_message reply.error fallback, rw (fine, empty) refl)
    | inr (a, full) ↦ inl (a, rw (fine, full) refl)
  ]
]

pub follow_two :
    (from : Phase) (request : FinalizeRequest) (e : Effect)
    → next from (posted_finalize request) ≡ some confirmed
    → next confirmed e ≡ some gone
    → follow from (posted_finalize request ∷ e ∷ []) ≡ some gone
follow_two from request e h k = rw (follow, h, follow, k) refl

module _ (world : World) where
  -- a run of one effect that ends a confirmed payment
  abbrev Exits : Run (Unit {0}) → Type 0
  Exits r = (e : Effect) × (r ≡ emit e tt) × IsExit world e

  visited-Exits :
      (order : Option ℕ) (order_id : ℕ)
      → Exits (elim order [
        | none ↦ emit (visited_failed order_id) tt
        | some id ↦ emit (visited_complete id) tt
      ])
  visited-Exits none order_id = (visited_failed order_id, refl, (refl, tt))
  visited-Exits (some id) order_id = (visited_complete id, refl, (refl, tt))

  finalize_response-Exits :
      (response : FinalizeData) (order_id : ℕ)
      → Exits (handle_finalize_response world response order_id)
  unfolding handle_finalize_response
  finalize_response-Exits response order_id =
      let url = or_else response.redirect_url "undefined" in
      if_elim Exits response.requires_3ds_redirect _ _
        (if_split Exits (is_safe_redirect_url world url) _ _
          (λ safe. (left_for url, refl, (refl, safe)))
          (λ unsafe. (visited_failed order_id, refl, (refl, tt))))
        (visited-Exits response.order_id order_id)

  -- the confirmation and then one effect that ends it, whatever the server answers
  pub finalize_payment-Exits :
      (request : FinalizeRequest) (order_id : ℕ)
      → (e : Effect) × (finalize_payment world request order_id
          ≡ (posted_finalize request ∷ e ∷ [], returned tt))
        × IsExit world e
  unfolding finalize_payment
  finalize_payment-Exits request order_id =
      elim (body_or_raise-cases (world.finalize request) finalize_failed) [
        | inl (response, answered) ↦
            let (e, one, exit) = finalize_response-Exits response order_id in
            (e, rw (finalize_payment, answered, one) refl, exit)
        | inr (message, refused) ↦
            (visited_failed order_id, rw (finalize_payment, refused) refl, (refl, tt))
      ]

  pub finalize_payment-Conforms :
      (from : Phase) (request : FinalizeRequest) (order_id : ℕ)
      → next from (posted_finalize request) ≡ some confirmed
      → Conforms world from (finalize_payment world request order_id)
  finalize_payment-Conforms from request order_id h =
      let (e, shape, exit) = finalize_payment-Exits request order_id in
      rw shape (follow_two from request e h exit.0, (tt, (exit.1, tt)))

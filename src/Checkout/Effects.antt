-- ===== src/Checkout/Effects.antt =====
-- Code that posts, navigates and throws, for resources/js/Hooks/useCheckoutPayment.ts: the effects
-- in their order, and a result or the message of the exception.
use fleximo_oss.Base.{String, List, [], ◌∷◌, ◌++◌}
use fleximo_oss.Checkout.{Effect}

pub data Result (A : Type 0) : Type 0 where
  returned : A → Result A
  raised : (message : String) → Result A

abbrev pub Run : Type 0 → Type 0
Run A = List Effect × Result A

infixl 5 ◌>>=◌ ◌>>◌
abbrev pub ◌>>=◌ : {A B : Type 0} → Run A → (A → Run B) → Run B
(effects, returned a) >>= f = (effects ++ (f a).0, (f a).1)
(effects, raised message) >>= f = (effects, raised message)

abbrev pub ◌>>◌ : {B : Type 0} → Run (Unit {0}) → Run B → Run B
m >> k = m >>= λ _. k

abbrev pub done : {A : Type 0} → A → Run A
done a = ([], returned a)

abbrev pub raise : {A : Type 0} → String → Run A
raise message = ([], raised message)

abbrev pub emit : {A : Type 0} → Effect → A → Run A
emit e a = (e ∷ [], returned a)

-- `try { body } catch { ... }`
abbrev pub attempt : {A : Type 0} → Run A → Run A → Run A
attempt (effects, returned a) handler = (effects, returned a)
attempt (effects, raised message) handler = (effects ++ handler.0, handler.1)

-- ===== src/Errors/Japanese.antt =====
-- Messages of resources/js/Utils/errorHelpers.ts that have Japanese text.
use Prim.Native.String
use fleximo_oss.Base.{
  true, Option, none, some, String, ◌≡◌, arith, ◌||◌, truthy, Bool-cases, string_eq, inl, inr,
}
use text.Mathlib.TextLemmas.{nil-append, cons-append}
use text.Mathlib.TextEquality.{eq_iff}
use fleximo_oss.Errors.{has_japanese, normalize_error_message}

pub has_japanese-append :
    (s t : String) → has_japanese (String.◌++◌ s t) ≡ (has_japanese s || has_japanese t)
unfolding has_japanese
has_japanese-append String.[] t = rw nil-append
has_japanese-append (String.◌∷◌ c s) t = rw cons-append (ground (arith, has_japanese-append s t))

pub truthy_of_has_japanese : (s : String) → has_japanese s ≡ true → truthy (some s) ≡ true
unfolding has_japanese
truthy_of_has_japanese s h = elim (Bool-cases (string_eq.beq s "")) [
  | inl empty ↦ cc (rw ((eq_iff s "").0 empty) at h)
  | inr full ↦ rw full
]

-- A normalised message has Japanese text if the fallback has.
pub normalize_error_message-Japanese :
    (message : Option String) (fallback : String)
    → has_japanese fallback ≡ true
    → has_japanese (normalize_error_message message fallback) ≡ true
unfolding normalize_error_message
normalize_error_message-Japanese none fallback h = h
normalize_error_message-Japanese (some m) fallback h = ground arith

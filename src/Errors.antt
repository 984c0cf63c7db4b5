-- ===== src/Errors.antt =====
-- resources/js/Utils/errorHelpers.ts: the text shown for a thrown value or for a server's message.
pub mod Japanese
use Prim.Native.Char.{Char, code}
use Prim.Native.String
use fleximo_oss.Base.{
  ℕ, Bool, true, false, Option, none, some, String, leb, ◌&&◌, ◌||◌, truthy, or_else, if◌then◌else◌,
  nat_beq,
}

-- A thrown value, as far as the helpers tell values apart: an `Error`, a text, another object with
-- its `message` if that is a text, and anything else.
pub data Thrown : Type 0 where
  error : (name message : String) → (stack : Option String) → Thrown
  text : String → Thrown
  object : (message : Option String) → Thrown
  other : Thrown

pub record ErrorDetails : Type 0 where
  pub message : String
  pub name : Option String
  pub stack : Option String

abbrev pub default_fallback : String
default_fallback = "エラーが発生しました"

unfoldable pub get_error_message : Thrown → String → String
get_error_message (error name message stack) fallback = message
get_error_message (text s) fallback = s
get_error_message (object message) fallback = or_else message fallback
get_error_message other fallback = fallback

unfoldable pub get_error_details : Thrown → ErrorDetails
unfolding get_error_message
get_error_details (error name message stack) = record {
  message = message;
  name = some name;
  stack = stack;
}
get_error_details e = record {
  message = get_error_message e default_fallback;
  name = none;
  stack = none;
}

-- `toError`: the name and the message of the `Error` that comes out; a new one is called "Error".
unfoldable pub to_error : Thrown → String → String × String
unfolding get_error_message
to_error (error name message stack) fallback = (name, message)
to_error e fallback = ("Error", get_error_message e fallback)

-- `japaneseTextPattern`, one character of it. All its ranges are below the surrogates.
unfoldable pub is_japanese : ℕ → Bool
is_japanese c =
    nat_beq c 0x3005
    || (leb 0x3040 c && leb c 0x30ff)
    || (leb 0x3400 c && leb c 0x4dbf)
    || (leb 0x4e00 c && leb c 0x9faf)

unfoldable pub has_japanese : String → Bool
unfolding is_japanese
has_japanese String.[] = false
has_japanese (String.◌∷◌ c s) = is_japanese (code c) || has_japanese s

unfoldable pub normalize_error_message : Option String → String → String
unfolding has_japanese
normalize_error_message none fallback = fallback
normalize_error_message (some message) fallback =
    if truthy (some message) then (if has_japanese message then message else fallback) else fallback

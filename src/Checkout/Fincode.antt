-- ===== src/Checkout/Fincode.antt =====
-- The card form of the payment provider, resources/js/Hooks/useFincode.ts. The provider's script is
-- not part of the repository: what its calls do is an argument of the operations. `Window.Fincode`
-- is called with the public key, and its `ui`, `create` and `mount` put the form in a container.
use Prim.Native.Char.{code}
use Prim.Native.String
use fleximo_oss.Base.{
  ℕ, Bool, true, false, not, Option, none, some, String, List, [], ◌∷◌, ◌++◌, truthy, or_else,
  if◌then◌else◌, ◌==◌, ◌&&◌, ◌||◌, string_eq, nat_eq,
}
use fleximo_oss.Checkout.Effects.{Result, returned, raised}

pub record Fincode : Type 0 where
  -- whether `fincodeRef` and `uiRef` hold an object
  pub has_instance : Bool
  pub has_ui : Bool
  pub mounted_container : Option String
  pub is_ready : Bool
  pub is_loading : Bool
  pub error : Option String
  -- the containers that were emptied, as far as they are still there
  pub emptied : List String
  -- the scripts that were put on the page
  pub scripts : List String

-- What the script gives: no global, an exception, or an instance.
pub data Global : Type 0 where
  absent throwing working : Global

pub data Event : Type 0 where
  -- the effect for a key; `loaded` is the global, where its script is on the page already
  start : (public_key : String) → (is_production : Bool) → (loaded : Option Global) → Event
  script_loaded : Global → Event
  script_failed unmount : Event
  -- whether the container is there, and whether the form could be made
  mount : (container : String) → (found made : Bool) → Event

abbrev pub card_form_mount_error : String
card_form_mount_error = "カード入力フォームの表示に失敗しました"

abbrev pub script_url : Bool → String
script_url true = "https://js.fincode.jp/v1/fincode.js"
script_url false = "https://js.test.fincode.jp/v1/fincode.js"

-- `text.startsWith(prefix)`
unfoldable pub starts_with : (start text : String) → Bool
starts_with String.[] text = true
starts_with (String.◌∷◌ c s) String.[] = false
starts_with (String.◌∷◌ c s) (String.◌∷◌ d t) = code c == code d && starts_with s t

-- `isTestKey ? false : isProduction`
unfoldable pub effective_is_production : String → Bool → Bool
unfolding starts_with
effective_is_production public_key is_production =
    if starts_with "p_test_" public_key then false else is_production

unfoldable pub init_fincode : Fincode
init_fincode = record {
  has_instance = false;
  has_ui = false;
  mounted_container = none;
  is_ready = false;
  is_loading = true;
  error = none;
  emptied = [];
  scripts = [];
}

unfoldable pub cleanup_ui : Fincode → Fincode
cleanup_ui s =
    if truthy s.mounted_container
    then record s {
      emptied = s.emptied ++ or_else s.mounted_container "" ∷ [];
      mounted_container = none;
      has_ui = false;
    }
    else record s { has_ui = false }

unfoldable pub initialize_fincode : Global → Fincode → Fincode
initialize_fincode absent s = record s {
  error = some "fincode.js の読み込みに失敗しました";
  is_loading = false;
}
initialize_fincode throwing s = record s { error = some "fincode の初期化に失敗しました"; is_loading = false }
initialize_fincode working s = record s { has_instance = true; is_ready = true; is_loading = false }

abbrev pub put_script : Bool → Fincode → Fincode
put_script production s = record s { scripts = s.scripts ++ script_url production ∷ [] }

-- the effect, up to the events of the script that it puts on the page
unfoldable pub start_fincode : String → Bool → Option Global → Fincode → Fincode
start_fincode public_key is_production loaded s =
    if truthy (some public_key)
    then elim loaded [
      | none ↦ put_script (effective_is_production public_key is_production) s
      | some absent ↦ put_script (effective_is_production public_key is_production) s
      | some throwing ↦ initialize_fincode throwing s
      | some working ↦ initialize_fincode working s
    ]
    else record s { error = some "fincode の公開キーが設定されていません"; is_loading = false }

-- `getElementById("")` finds nothing.
unfoldable pub mount_ui : String → Bool → Bool → Fincode → Fincode
unfolding cleanup_ui
mount_ui container found made s =
    if not s.has_instance
    then record s { error = some "fincode が初期化されていません" }
    else if not (found && truthy (some container))
    then record s { error = some card_form_mount_error }
    else if made
    then record (cleanup_ui s) { has_ui = true; mounted_container = some container; error = none }
    else record (cleanup_ui s) {
      has_ui = false;
      mounted_container = none;
      error = some card_form_mount_error;
    }

unfoldable pub step : Fincode → Event → Fincode
step s (start public_key is_production loaded) = start_fincode public_key is_production loaded s
step s (script_loaded global) = initialize_fincode global s
step s script_failed = record s { error = some "fincode.js の読み込みに失敗しました"; is_loading = false }
step s unmount = cleanup_ui s
step s (mount container found made) = mount_ui container found made s

unfoldable pub run : Fincode → List Event → Fincode
unfolding step effective_is_production start_fincode initialize_fincode mount_ui cleanup_ui
run s [] = s
run s (e ∷ es) = run (step s e) es

-- what `getFormData` gives
pub record FormData : Type 0 where
  pub card_no : Option String
  pub expire : Option String
  pub cvc : Option String
  pub holder_name : Option String

pub record CardData : Type 0 where
  pub card_no : String
  pub expire : String
  pub security_code : String
  pub holder_name : String

-- what `tokens` calls back with; an error is its message
pub data TokenAnswer : Type 0 where
  answered : (status : ℕ) → (tokens : List String) → (errors : List String) → TokenAnswer
  failed : TokenAnswer

abbrev pub no_token : String
no_token = "トークンの生成に失敗しました"

-- `texts.join(", ")`
unfoldable pub join_comma : List String → String
join_comma [] = ""
join_comma (s ∷ []) = s
join_comma (s ∷ t ∷ texts) = String.◌++◌ s (String.◌++◌ ", " (join_comma (t ∷ texts)))

unfoldable pub token_of : TokenAnswer → Result String
unfolding join_comma
token_of failed = raised no_token
token_of (answered status tokens []) =
    if status == 200
    then elim tokens [ [] ↦ raised no_token | t ∷ rest ↦ returned t ]
    else raised no_token
token_of (answered status tokens (e ∷ errors)) =
    let message = join_comma (e ∷ errors) in
    let refused = raised (if truthy (some message) then message else no_token) in
    if status == 200 then elim tokens [ [] ↦ refused | t ∷ rest ↦ returned t ] else refused

-- `createToken`: the card data that is sent, if any, and what the promise is settled with. `form`
-- is `none` where `getFormData` rejects.
unfoldable pub create_token :
    Fincode → Option FormData → (CardData → TokenAnswer) → Option CardData × Result String
unfolding token_of
create_token s form tokens =
    if not s.has_instance || not s.has_ui then (none, raised "fincode が初期化されていません") else elim form [
      | none ↦ (none, raised "カード情報の取得に失敗しました")
      | some f ↦
          if not (truthy f.card_no) || not (truthy f.expire)
          then (none, raised "カード情報が入力されていません")
          else (let card : CardData = record {
            card_no = or_else f.card_no "";
            expire = or_else f.expire "";
            security_code = or_else f.cvc "";
            holder_name = or_else f.holder_name "";
          } in
              (some card, token_of (tokens card)))
    ]

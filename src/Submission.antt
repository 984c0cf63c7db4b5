-- ===== src/Submission.antt =====
-- Sending a form and telling the user of failures: resources/js/Hooks/useErrorHandler.ts and
-- useApiFormSubmission.ts. A submission up to its `await` and what follows it are two operations.
-- The error texts of the fields are those of `errors` in the answer, under the fields' names.
pub mod Channels
mod Scenarios
use fleximo_oss.Base.{
  ℕ, Bool, true, false, not, Option, none, some, or_else, String, List, [], ◌∷◌, ◌++◌, truthy, leb,
  is_empty, is_some, if◌then◌else◌, ◌==◌, ◌&&◌, nat_eq,
}
use fleximo_oss.JsMap.{JsMap}
use fleximo_oss.Toast.{ToastState, error}

abbrev pub FieldErrors : Type 0
FieldErrors = JsMap String String

-- `errorData`
pub record ErrorData : Type 0 where
  pub errors : Option FieldErrors

-- the answer to a request, as far as these hooks read it
pub record Reply : Type 0 where
  pub error : Option String
  pub status : ℕ
  pub error_data : Option ErrorData

-- an option that may be missing or `false`
pub data Setting : Type 0 where
  by_default off : Setting
  given : String → Setting

pub record HandleApiErrorOptions : Type 0 where
  pub login_redirect_path : Setting
  pub forbidden_message : Setting
  pub server_error_message : Setting

pub data Effect : Type 0 where
  visited : (path : String) → Effect
  toasted : ToastState → Effect
  reloaded : Effect
  succeeded : Reply → Effect

-- a notice, if the hook was given `showToast`
abbrev pub show_error : Bool → String → List Effect
show_error has_toast message =
    if has_toast then toasted (record { type = error; message = message }) ∷ [] else []

abbrev pub show_setting : Bool → Setting → String → List Effect
show_setting has_toast by_default message = show_error has_toast message
show_setting has_toast off message = []
show_setting has_toast (given text) message = show_error has_toast text

abbrev pub login_visit : Setting → List Effect
login_visit by_default = visited "/login" ∷ []
login_visit off = []
login_visit (given path) = visited path ∷ []

-- the effects, and what is returned
unfoldable pub handle_api_error :
    Bool → HandleApiErrorOptions → Reply → List Effect × Option ErrorData
handle_api_error has_toast options reply =
    if not (truthy reply.error)
    then ([], none)
    else if reply.status == 401
    then (login_visit options.login_redirect_path, none)
    else if reply.status == 403
    then (show_setting has_toast options.forbidden_message "アクセス権限がありません", none)
    else if reply.status == 419
    then (show_error has_toast "セッションの有効期限が切れました。ページを再読み込みします。" ++ reloaded ∷ [], none)
    else if reply.status == 422
    then ([], reply.error_data)
    else if leb 500 reply.status
    then (show_setting has_toast options.server_error_message "サーバーエラーが発生しました", none)
    else (show_error has_toast (or_else reply.error ""), none)

pub record Submission : Type 0 where
  pub processing : Bool
  pub errors : FieldErrors
  pub general_error : String

pub record SubmitOptions : Type 0 where
  pub handler : HandleApiErrorOptions
  pub network_error_message : Option String
  -- whether `onSuccess` is given, and whether it throws
  pub has_on_success : Bool
  pub throws : Bool

abbrev pub default_network_error_message : String
default_network_error_message = "通信エラーが発生しました。もう一度お試しください。"

abbrev pub network_text : SubmitOptions → String
network_text options =
    if truthy options.network_error_message
    then or_else options.network_error_message ""
    else default_network_error_message

-- up to the request
unfoldable pub begin_submit : Submission → Submission
begin_submit s = record { processing = true; errors = []; general_error = "" }

abbrev pub errors_of : Option ErrorData → FieldErrors
errors_of none = []
errors_of (some data_given) = or_else data_given.errors []

-- What `catch` and `finally` make of an exception.
abbrev pub submit_failed : SubmitOptions → Submission → Submission
submit_failed options s = record s { general_error = network_text options; processing = false }

-- After the answer, or after a request that was rejected: the state, the effects, and what is
-- returned.
unfoldable pub end_submit :
    Bool → SubmitOptions → Option Reply → Submission → Submission × List Effect × Option Reply
end_submit has_toast options none s = (submit_failed options s, [], none)
end_submit has_toast options (some reply) s =
    let (effects, found) = handle_api_error has_toast options.handler reply in
    let called = if options.has_on_success then succeeded reply ∷ [] else [] in
    if truthy reply.error
    then (if reply.status == 422
        then (record s { errors = errors_of found; processing = false }, effects, some reply)
        else (
          record s { general_error = or_else reply.error ""; processing = false },
          effects,
          some reply,
        ))
    else if options.has_on_success && options.throws
    then (submit_failed options s, called, none)
    else (record s { processing = false }, called, some reply)

-- ===== src/Cards.antt =====
-- The customer's saved cards, resources/js/Hooks/useCardManagement.ts. A request and what follows
-- its answer are two events, which others may come between; the timers that are set are listed, and
-- `timer` is what `timerRef` holds.
pub mod Temporary
mod Scenarios
use fleximo_oss.Base.{
  ℕ, ◌+◌, Bool, true, false, not, Option, none, some, String, List, [], ◌∷◌, ◌++◌, map, truthy,
  or_else, or_option, is_some, if◌then◌else◌, ◌==◌, ◌||◌, ◌&&◌, nat_eq, includes, filter_by, leb,
  ltb,
}
use fleximo_oss.Checkout.{SavedCard}

pub data Level : Type 0 where
  warn error : Level

pub record CardManagement : Type 0 where
  pub cards : List SavedCard
  pub is_registering : Bool
  pub deleting_id : Option ℕ
  pub error : Option String
  pub success_message : Option String
  pub timer : Option ℕ
  pub timers : List ℕ
  pub next_timer : ℕ
  pub is_mounted : Bool
  -- how often `clearForm` was called, and the levels of what was logged
  pub cleared_forms : ℕ
  pub logged : List Level

-- The answer to a request, or an exception: the message, if it is an `Error`.
pub data Answer (A : Type 0) : Type 0 where
  answered : (error : Option String) → (body : Option A) → (status : ℕ) → Answer A
  threw : (message : Option String) → Answer A

pub data Event : Type 0 where
  register_card : Event
  registered : Answer SavedCard → Event
  delete_card : (id : ℕ) → Event
  deleted : (id : ℕ) → Answer (Unit {0}) → Event
  fired : (timer : ℕ) → Event
  unmounted : Event

unfoldable pub init_cards : List SavedCard → CardManagement
init_cards cards = record {
  cards = cards;
  is_registering = false;
  deleting_id = none;
  error = none;
  success_message = none;
  timer = none;
  timers = [];
  next_timer = 0;
  is_mounted = true;
  cleared_forms = 0;
  logged = [];
}

unfoldable pub clear_timer : Option ℕ → List ℕ → List ℕ
clear_timer none timers = timers
clear_timer (some t) timers = filter_by (λ u. not (u == t)) timers

unfoldable pub show_temporary_success : String → CardManagement → CardManagement
show_temporary_success message s = record s {
  success_message = some message;
  timers = clear_timer s.timer s.timers ++ s.next_timer ∷ [];
  timer = some s.next_timer;
  next_timer = s.next_timer + 1;
}

abbrev pub log : Level → CardManagement → CardManagement
log level s = record s { logged = s.logged ++ level ∷ [] }

-- a refusal by the request's own fault is a warning
abbrev pub level_of : ℕ → Level
level_of status = if leb 400 status && ltb status 500 then warn else error

abbrev pub register_failed : String
register_failed = "カード登録に失敗しました"

-- `{ ...c, is_default: false }`
abbrev pub not_default : SavedCard → SavedCard
not_default c = record c { is_default = false }

unfoldable pub on_registered : Answer SavedCard → CardManagement → CardManagement
on_registered (threw message) s = record (log error s) {
  error = some (or_else message register_failed);
  is_registering = false;
}
on_registered (answered e body status) s =
    let refused = record (log (level_of status) s) {
      error = some (or_else e register_failed);
      is_registering = false;
    } in
    if truthy e then refused else elim body [
      | none ↦ refused
      | some card ↦
          let added : CardManagement = record s { cards = card ∷ map not_default s.cards } in
          let shown = show_temporary_success "カードを登録しました" added in
          record shown { cleared_forms = shown.cleared_forms + 1; is_registering = false }
    ]

unfoldable pub on_deleted : ℕ → Answer (Unit {0}) → CardManagement → CardManagement
on_deleted id (threw message) s = record (log error s) {
  error = some (or_else message "カード削除に失敗しました");
  deleting_id = none;
}
on_deleted id (answered e body status) s =
    if truthy e
    then record (log (level_of status) s) { error = e; deleting_id = none }
    else (let rest : CardManagement = record s {
      cards = filter_by (λ c. not (c.id == id)) s.cards;
    } in
        record (show_temporary_success "カードを削除しました" rest) { deleting_id = none })

unfoldable pub step : CardManagement → Event → CardManagement
step s register_card = record s { is_registering = true; error = none; success_message = none }
step s (registered answer) = on_registered answer s
step s (delete_card id) = record s { deleting_id = some id; error = none; success_message = none }
step s (deleted id answer) = on_deleted id answer s
step s (fired t) =
    if includes s.timers t
    then record s {
      success_message = none;
      timer = none;
      timers = filter_by (λ u. not (u == t)) s.timers;
    }
    else s
step s unmounted = record s { timers = clear_timer s.timer s.timers; is_mounted = false }

unfoldable pub run : CardManagement → List Event → CardManagement
unfolding step on_registered on_deleted show_temporary_success clear_timer
run s [] = s
run s (e ∷ es) = run (step s e) es

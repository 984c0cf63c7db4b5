-- ===== src/Checkout/Tokens.antt =====
-- The state of the card form over events, and the promise of `createToken`, of
-- resources/js/Hooks/useFincode.ts.
use fleximo_oss.Base.{
  ℕ, Bool, true, false, not, Option, none, some, String, List, [], ◌∷◌, truthy, or_else, is_some,
  if◌then◌else◌, ◌==◌, ◌||◌, ◌&&◌, ◌≡◌, refl, sym, ap, ◌∙◌, arith, if_elim, if_split, nat_eq,
  nat_beq_iff,
}
use fleximo_oss.Checkout.Effects.{Result, returned, raised}
use fleximo_oss.Checkout.Fincode.{
  Fincode, Global, absent, throwing, working, Event, start, script_loaded, script_failed, unmount,
  mount, init_fincode, cleanup_ui, initialize_fincode, start_fincode, put_script, mount_ui, step,
  run, FormData, CardData, TokenAnswer, answered, failed, no_token, join_comma, token_of,
  create_token, effective_is_production, card_form_mount_error,
}

-- The form is ready when the provider's object is there, which a mounted form needs, and a form is
-- mounted exactly where its container is kept, whose name is not empty.
pub record IsCoherent (s : Fincode) : Type 0 where
  pub ready : s.is_ready ≡ s.has_instance
  pub form : s.has_ui ≡ is_some s.mounted_container
  pub needed : s.has_ui ≡ true → s.has_instance ≡ true
  pub named : is_some s.mounted_container ≡ true → truthy s.mounted_container ≡ true

initialize-IsCoherent :
    (g : Global) (s : Fincode) → IsCoherent s → IsCoherent (initialize_fincode g s)
unfolding initialize_fincode
initialize-IsCoherent absent s h = record {
  ready = h.ready;
  form = h.form;
  needed = h.needed;
  named = h.named;
}
initialize-IsCoherent throwing s h = record {
  ready = h.ready;
  form = h.form;
  needed = h.needed;
  named = h.named;
}
initialize-IsCoherent working s h = record {
  ready = refl;
  form = h.form;
  needed = λ e. refl;
  named = h.named;
}

started :
    (key : String) (production : Bool) (loaded : Option Global) (s : Fincode)
    → IsCoherent s
    → IsCoherent (start_fincode key production loaded s)
unfolding start_fincode initialize_fincode
started key production loaded s h =
    if_elim IsCoherent (truthy (some key)) _ _ (with_global loaded)
      (record { ready = h.ready; form = h.form; needed = h.needed; named = h.named })
  where
    with_global :
        (l : Option Global)
        → IsCoherent (elim l [
          | none ↦ put_script (effective_is_production key production) s
          | some absent ↦ put_script (effective_is_production key production) s
          | some throwing ↦ initialize_fincode throwing s
          | some working ↦ initialize_fincode working s
        ])
    with_global none = record { ready = h.ready; form = h.form; needed = h.needed; named = h.named }
    with_global (some absent) = record {
      ready = h.ready;
      form = h.form;
      needed = h.needed;
      named = h.named;
    }
    with_global (some throwing) = initialize-IsCoherent throwing s h
    with_global (some working) = initialize-IsCoherent working s h

true_of_not : (b : Bool) → not b ≡ false → b ≡ true
true_of_not b h = ground arith

-- After a clean-up no form is mounted and no container is kept, and the rest is as before.
abbrev IsCleaned : Fincode → Fincode → Type 0
IsCleaned s t =
    (t.mounted_container ≡ none)
    × (t.has_ui ≡ false)
    × (t.has_instance ≡ s.has_instance)
    × (t.is_ready ≡ s.is_ready)

unnamed : (o : Option String) → (is_some o ≡ true → truthy o ≡ true) → truthy o ≡ false → o ≡ none
unnamed none h e = refl
unnamed (some c) h e = ground (arith, h refl, e)

cleanup-IsCleaned : (s : Fincode) → IsCoherent s → IsCleaned s (cleanup_ui s)
unfolding cleanup_ui
cleanup-IsCleaned s h =
    if_split (IsCleaned s) (truthy s.mounted_container) _ _ (λ e. (refl, refl, refl, refl))
      (λ e. (unnamed s.mounted_container h.named e, refl, refl, refl))

cleanup-IsCoherent : (s : Fincode) → IsCoherent s → IsCoherent (cleanup_ui s)
cleanup-IsCoherent s h =
    let (container, ui, provider, ready) = cleanup-IsCleaned s h in
    record {
      ready = ready ∙ h.ready ∙ sym provider;
      form = ui ∙ sym (ap is_some container);
      needed = λ e. ground (arith, e, ui);
      named = λ e. ground (arith, e, ap is_some container);
    }

mounted :
    (container : String) (found made : Bool) (s : Fincode)
    → IsCoherent s
    → IsCoherent (mount_ui container found made s)
unfolding mount_ui
mounted container found made s h =
    let failed_early : Fincode = record s { error = some "fincode が初期化されていません" } in
    let not_found : Fincode = record s { error = some card_form_mount_error } in
    let shown : Fincode = record (cleanup_ui s) {
      has_ui = true;
      mounted_container = some container;
      error = none;
    } in
    let not_shown : Fincode = record (cleanup_ui s) {
      has_ui = false;
      mounted_container = none;
      error = some card_form_mount_error;
    } in
    let tried = if made then shown else not_shown in
    let (none_kept, ui, provider, ready) = cleanup-IsCleaned s h in
    let target = found && truthy (some container) in
    if_split IsCoherent (not s.has_instance) failed_early (if not target then not_found else tried)
      (λ missing. record { ready = h.ready; form = h.form; needed = h.needed; named = h.named })
      (λ there.
        if_split IsCoherent (not target) not_found tried
          (λ absent. record { ready = h.ready; form = h.form; needed = h.needed; named = h.named })
          (λ place.
            if_elim IsCoherent made shown not_shown
              (record {
                ready = ready ∙ h.ready ∙ sym provider;
                form = refl;
                needed = λ e. provider ∙ true_of_not s.has_instance there;
                named = λ e. both_of found (truthy (some container)) place;
              })
              (record {
                ready = ready ∙ h.ready ∙ sym provider;
                form = refl;
                needed = λ e. ground arith;
                named = λ e. ground arith;
              })))
  where
    both_of : (b c : Bool) → not (b && c) ≡ false → c ≡ true
    both_of b c e = ground arith

step-IsCoherent : (s : Fincode) (e : Event) → IsCoherent s → IsCoherent (step s e)
unfolding step
step-IsCoherent s (start key production loaded) h = started key production loaded s h
step-IsCoherent s (script_loaded g) h = initialize-IsCoherent g s h
step-IsCoherent s script_failed h = record {
  ready = h.ready;
  form = h.form;
  needed = h.needed;
  named = h.named;
}
step-IsCoherent s unmount h = cleanup-IsCoherent s h
step-IsCoherent s (mount container found made) h = mounted container found made s h

run_from : (es : List Event) (s : Fincode) → IsCoherent s → IsCoherent (run s es)
unfolding run
run_from [] s h = h
run_from (e ∷ es) s h = run_from es (step s e) (step-IsCoherent s e h)

-- Whatever happens to the script and the page, the form is reported ready exactly when the
-- provider's object is there, a mounted form has its container kept under a name that is not
-- empty, and none is mounted without the provider's object.
pub run-IsCoherent : (es : List Event) → IsCoherent (run init_fincode es)
unfolding init_fincode
run-IsCoherent es =
    run_from es init_fincode
      (record { ready = refl; form = refl; needed = λ e. ground arith; named = λ e. ground arith })

-- The promise is rejected with a text.
abbrev pub IsRefused : Result String → Type 0
IsRefused r = (message : String) × (r ≡ raised message) × (truthy (some message) ≡ true)

-- What an answer of `tokens` settles the promise with: its first token where there is one and the
-- status is 200, and else a text.
abbrev pub IsSettledBy : TokenAnswer → Result String → Type 0
IsSettledBy failed r = IsRefused r
IsSettledBy (answered status [] errors) r = IsRefused r
IsSettledBy (answered status (t ∷ rest) errors) r =
    (status ≡ 200 → r ≡ returned t) × ((status ≡ 200 → ⊥) → IsRefused r)

-- The card data are those of the form.
abbrev pub IsCardOf : Option FormData → CardData → Type 0
IsCardOf none card = ⊥
IsCardOf (some f) card =
    (f.card_no ≡ some card.card_no)
    × (f.expire ≡ some card.expire)
    × (card.security_code ≡ or_else f.cvc "")
    × (card.holder_name ≡ or_else f.holder_name "")

-- The form is mounted and has a card number and an expiry date.
abbrev pub can_send : Fincode → Option FormData → Bool
can_send s none = false
can_send s (some f) = s.has_instance && (s.has_ui && (truthy f.card_no && truthy f.expire))

-- What is sent is the form's data, and the answer to it settles the promise; where nothing is sent
-- it is rejected.
abbrev pub IsTokenized :
    Option FormData → (CardData → TokenAnswer) → Option CardData → Result String → Type 0
IsTokenized form tokens none r = IsRefused r
IsTokenized form tokens (some card) r = IsCardOf form card × IsSettledBy (tokens card) r

refused : (message : String) → truthy (some message) ≡ true → IsRefused (raised message)
refused message h = (message, refl, h)

refusal_lem :
    (message : String) → IsRefused (raised (if truthy (some message) then message else no_token))
refusal_lem message =
    if_split (λ m. IsRefused (raised m)) (truthy (some message)) message no_token
      (λ e. refused message e) (λ e. refused no_token refl)

first_token :
    (status : ℕ) (t : String) (rest errors : List String) (r : Result String)
    → IsRefused r
    → IsSettledBy (answered status (t ∷ rest) errors) (if status == 200 then returned t else r)
first_token status t rest errors r told =
    if_split (IsSettledBy (answered status (t ∷ rest) errors)) (status == 200) (returned t) r
      (λ e. ((λ k. refl), (λ other. absurd (other ((nat_beq_iff status 200).0 e)))))
      (λ e. ((λ k. absurd (ground (arith, e, k))), (λ other. told)))

token_of_lem : (answer : TokenAnswer) → IsSettledBy answer (token_of answer)
unfolding token_of
token_of_lem failed = refused no_token refl
token_of_lem (answered status [] []) =
    if_elim IsRefused (status == 200) (raised no_token) (raised no_token) (refused no_token refl)
      (refused no_token refl)
token_of_lem (answered status [] (e ∷ errors)) =
    let text = refusal_lem (join_comma (e ∷ errors)) in
    if_elim IsRefused (status == 200) _ _ text text
token_of_lem (answered status (t ∷ rest) []) =
    first_token status t rest [] (raised no_token) (refused no_token refl)
token_of_lem (answered status (t ∷ rest) (e ∷ errors)) =
    first_token status t rest (e ∷ errors) _ (refusal_lem (join_comma (e ∷ errors)))

-- the promise and the data of one call, with the state it is made in
abbrev Told :
    (CardData → TokenAnswer) → Fincode → Option FormData → Option CardData × Result String → Type 0
Told tokens s form r = IsTokenized form tokens r.0 r.1 × (is_some r.0 ≡ can_send s form)

text_of : (o : Option String) → truthy o ≡ true → o ≡ some (or_else o "")
text_of none h = ground arith
text_of (some t) h = refl

from_form :
    (s : Fincode) (form : Option FormData) (tokens : CardData → TokenAnswer)
    → (not s.has_instance || not s.has_ui) ≡ false
    → Told tokens s form (elim form [
      | none ↦ (none, raised "カード情報の取得に失敗しました")
      | some f ↦
          if not (truthy f.card_no) || not (truthy f.expire)
          then (none, raised "カード情報が入力されていません")
          else (let card : CardData = record {
            card_no = or_else f.card_no "";
            expire = or_else f.expire "";
            security_code = or_else f.cvc "";
            holder_name = or_else f.holder_name "";
          } in
              (some card, token_of (tokens card)))
    ])
from_form s none tokens there = (refused "カード情報の取得に失敗しました" refl, refl)
from_form s (some f) tokens there =
    let card : CardData = record {
      card_no = or_else f.card_no "";
      expire = or_else f.expire "";
      security_code = or_else f.cvc "";
      holder_name = or_else f.holder_name "";
    } in
    if_split (Told tokens s (some f)) (not (truthy f.card_no) || not (truthy f.expire)) _
      (some card, token_of (tokens card))
      (λ missing. (
        refused "カード情報が入力されていません" refl,
        one_missing s.has_instance s.has_ui (truthy f.card_no) (truthy f.expire) missing,
      ))
      (λ given.
        let (number, date) = neither (truthy f.card_no) (truthy f.expire) given in
        let (provider, ui) = neither s.has_instance s.has_ui there in
        (
          (
            (text_of f.card_no number, text_of f.expire date, refl, refl),
            token_of_lem (tokens card),
          ),
          rw (provider, ui, number, date) refl,
        ))
  where
    one_missing : (a b c d : Bool) → (not c || not d) ≡ true → false ≡ (a && (b && (c && d)))
    one_missing a b c d h = ground arith

    neither : (b c : Bool) → (not b || not c) ≡ false → (b ≡ true) × (c ≡ true)
    neither true true h = (refl, refl)
    neither true false h = ground arith
    neither false c h = ground arith

-- `createToken` sends card data exactly where the form is mounted and has a card number and an
-- expiry date, and sends those of the form. Its promise is resolved with the first token of an
-- answer with status 200 that has one, and in every other case rejected with a text that is not
-- empty.
pub create_token-IsTokenized :
    (s : Fincode) (form : Option FormData) (tokens : CardData → TokenAnswer)
    → IsTokenized form tokens (create_token s form tokens).0 (create_token s form tokens).1
      × (is_some (create_token s form tokens).0 ≡ can_send s form)
unfolding create_token
create_token-IsTokenized s form tokens =
    if_split (Told tokens s form) (not s.has_instance || not s.has_ui) _ _
      (λ missing. (refused "fincode が初期化されていません" refl, unmounted form missing))
      (λ there. from_form s form tokens there)
  where
    unmounted :
        (f : Option FormData) → (not s.has_instance || not s.has_ui) ≡ true → false ≡ can_send s f
    unmounted none h = refl
    unmounted (some f) h = ground arith

-- ===== src/Submission/Channels.antt =====
-- How a submission reports its end, of resources/js/Hooks/useApiFormSubmission.ts.
use fleximo_oss.Base.{
  ℕ, ◌+◌, Bool, true, false, not, Option, none, some, or_else, String, List, [], ◌∷◌, truthy,
  is_empty, if◌then◌else◌, ◌==◌, ◌&&◌, nat_eq, nat_beq_iff, ◌≡◌, ◌⊎◌, refl, arith, if_split,
  Option-cases, Bool-cases, inl, inr,
}
use fleximo_oss.Submission.{
  Reply, ErrorData, FieldErrors, HandleApiErrorOptions, Effect, succeeded, handle_api_error,
  Submission, SubmitOptions, default_network_error_message, network_text, begin_submit, errors_of,
  end_submit,
}

abbrev count : Bool → ℕ
count true = 1
count false = 0

abbrev fine : Option Reply → Bool
fine none = false
fine (some reply) = not (truthy reply.error)

-- In how many ways the end of a submission is reported: a text for the form, texts for its fields,
-- and an answer without error that is returned.
abbrev pub shown : Submission × List Effect × Option Reply → ℕ
shown (s, effects, returned) =
    count (truthy (some s.general_error)) + count (not (is_empty s.errors)) + count (fine returned)

-- A refusal of the input (422) that names no field.
abbrev pub is_silent : Option Reply → Bool
is_silent none = false
is_silent (some reply) =
    truthy reply.error && (reply.status == 422 && is_empty (errors_of reply.error_data))

abbrev Ends : Option Reply → Submission × List Effect × Option Reply → Type 0
Ends answer r = (r.0.processing ≡ false) × (shown r ≡ (if is_silent answer then 0 else 1))

network_text_lem : (options : SubmitOptions) → truthy (some (network_text options)) ≡ true
network_text_lem options = with_text options.network_error_message
  where
    with_text :
        (o : Option String)
        → truthy (some (if truthy o then or_else o "" else default_network_error_message)) ≡ true
    with_text none = refl
    with_text (some text) =
        if_split (λ t. truthy (some t) ≡ true) (truthy (some text)) text
          default_network_error_message (λ e. e) (λ e. refl)

truthy_text : (o : Option String) → truthy o ≡ true → truthy (some (or_else o "")) ≡ true
truthy_text none h = ground (arith, h)
truthy_text (some text) h = h

-- For a refusal of the input the handler hands on the data of the answer.
handed_on :
    (has_toast : Bool) (options : HandleApiErrorOptions) (reply : Reply)
    → truthy reply.error ≡ true
    → (reply.status == 422) ≡ true
    → (handle_api_error has_toast options reply).1 ≡ reply.error_data
unfolding handle_api_error
handed_on has_toast options reply failed invalid =
    rw (handle_api_error, failed, (nat_beq_iff reply.status 422).0 invalid) refl

-- The text for a failed connection: the one given, if it is not empty, or else the usual one.
abbrev pub IsNetworkText : Option String → String → Type 0
IsNetworkText none text = text ≡ "通信エラーが発生しました。もう一度お試しください。"
IsNetworkText (some g) text =
    ((truthy (some g) ≡ true) × (text ≡ g))
    ⊎ ((truthy (some g) ≡ false) × (text ≡ "通信エラーが発生しました。もう一度お試しください。"))

network-IsNetworkText :
    (options : SubmitOptions) → IsNetworkText options.network_error_message (network_text options)
network-IsNetworkText options = with_text options.network_error_message
  where
    with_text :
        (o : Option String)
        → IsNetworkText o (if truthy o then or_else o "" else default_network_error_message)
    with_text none = refl
    with_text (some g) =
        if_split (IsNetworkText (some g)) (truthy (some g)) g default_network_error_message
          (λ e. inl (e, refl)) (λ e. inr (e, refl))

-- the texts of the fields in the data of an answer
abbrev pub AreFieldErrors : Option ErrorData → FieldErrors → Type 0
AreFieldErrors none errors = errors ≡ []
AreFieldErrors (some found) errors =
    (found.errors ≡ some errors) ⊎ ((found.errors ≡ none) × (errors ≡ []))

errors-AreFieldErrors : (found : Option ErrorData) → AreFieldErrors found (errors_of found)
errors-AreFieldErrors none = refl
errors-AreFieldErrors (some found) = elim (Option-cases found.errors) [
  | inl missing ↦ inr (missing, rw missing refl)
  | inr (errors, there) ↦ inl (rw there refl)
]

abbrev Ended : Type 0
Ended = Submission × List Effect × Option Reply

-- A refusal of the input (422) gives the texts of its fields, no text for the form, and no effect.
abbrev pub RefusesInput : Reply → Ended → Type 0
RefusesInput reply (s, effects, returned) =
    (truthy reply.error ≡ true)
    × (reply.status ≡ 422)
    × AreFieldErrors reply.error_data s.errors
    × (s.general_error ≡ "")
    × (effects ≡ [])
    × (returned ≡ some reply)

-- Another error gives its text for the form.
abbrev pub Fails : Reply → Ended → Type 0
Fails reply (s, effects, returned) =
    (truthy reply.error ≡ true)
    × ((reply.status == 422) ≡ false)
    × (reply.error ≡ some s.general_error)
    × (s.errors ≡ [])
    × (returned ≡ some reply)

-- An exception, that of a request or of `onSuccess`, gives the text for a failed connection.
abbrev pub Breaks : SubmitOptions → Ended → Type 0
Breaks options (s, effects, returned) =
    IsNetworkText options.network_error_message s.general_error
    × (s.errors ≡ [])
    × (returned ≡ none)

-- An answer without error gives no text, and goes to `onSuccess` if that is given.
abbrev pub Succeeds : SubmitOptions → Reply → Ended → Type 0
Succeeds options reply (s, effects, returned) =
    (truthy reply.error ≡ false)
    × (s.general_error ≡ "")
    × (s.errors ≡ [])
    × (effects ≡ (if options.has_on_success then succeeded reply ∷ [] else []))
    × (returned ≡ some reply)

-- Which of the ways an answer ends in, or a request without an answer.
abbrev pub IsReport : SubmitOptions → Option Reply → Ended → Type 0
IsReport options none r = Breaks options r × (r.1 ≡ [])
IsReport options (some reply) r =
    RefusesInput reply r
    ⊎ Fails reply r
    ⊎ ((truthy reply.error ≡ false)
        × ((options.has_on_success && options.throws) ≡ true)
        × Breaks options r
        × (r.1 ≡ succeeded reply ∷ []))
    ⊎ (((options.has_on_success && options.throws) ≡ false) × Succeeds options reply r)

-- what is counted for a refusal of the input, another refusal, an exception, and a success
only_fields : (e t : Bool) → t ≡ true → 0 + count (not e) + count (not t) ≡ (if e then 0 else 1)
only_fields true t h = rw h refl
only_fields false t h = rw h refl

only_general : (g t : Bool) → g ≡ true → t ≡ true → count g + 0 + count (not t) ≡ 1
only_general g t h k = rw (h, k) refl

only_network : (g : Bool) → g ≡ true → count g + 0 + 0 ≡ 1
only_network g h = rw h refl

only_success : (t : Bool) → t ≡ false → 0 + count (not t) ≡ 1
only_success t h = rw h refl

module _ (has_toast : Bool) (options : SubmitOptions) where
  with_reply :
      (s : Submission) (reply : Reply)
      → Ends (some reply) (end_submit has_toast options (some reply) (begin_submit s))
  unfolding end_submit begin_submit
  with_reply s reply =
      let found = (handle_api_error has_toast options.handler reply).1 in
      elim (Bool-cases (truthy reply.error)) [
        | inl failed ↦ elim (Bool-cases (reply.status == 422)) [
          | inl invalid ↦
              rw
                (
                  end_submit,
                  failed,
                  invalid,
                  handed_on has_toast options.handler reply failed invalid,
                )
                (
                  refl,
                  only_fields (is_empty (errors_of reply.error_data)) (truthy reply.error) failed,
                )
          | inr other ↦
              rw (end_submit, failed, other)
                (
                  refl,
                  only_general (truthy (some (or_else reply.error ""))) (truthy reply.error)
                      (truthy_text reply.error failed) failed,
                )
        ]
        | inr fine ↦ elim (Bool-cases (options.has_on_success && options.throws)) [
          | inl thrown ↦
              rw (end_submit, fine, thrown)
                (
                  refl,
                  only_network (truthy (some (network_text options))) (network_text_lem options),
                )
          | inr done ↦ rw (end_submit, fine, done) (refl, only_success (truthy reply.error) fine)
        ]
      ]

  some_text : (o : Option String) → truthy o ≡ true → o ≡ some (or_else o "")
  some_text none h = ground (arith, h)
  some_text (some text) h = refl

  no_effects :
      (reply : Reply)
      → truthy reply.error ≡ true
      → (reply.status == 422) ≡ true
      → (handle_api_error has_toast options.handler reply).0 ≡ []
  unfolding handle_api_error
  no_effects reply failed invalid =
      rw (handle_api_error, failed, (nat_beq_iff reply.status 422).0 invalid) refl

  called_lem :
      (b c : Bool) (reply : Reply)
      → (b && c) ≡ true
      → (if b then succeeded reply ∷ [] else []) ≡ succeeded reply ∷ []
  called_lem true c reply h = refl
  called_lem false c reply h = ground (arith, h)

  end_submit-IsReport :
      (s : Submission) (reply : Reply)
      → IsReport options (some reply) (end_submit has_toast options (some reply) (begin_submit s))
  unfolding end_submit begin_submit
  end_submit-IsReport s reply = elim (Bool-cases (truthy reply.error)) [
    | inl failed ↦ elim (Bool-cases (reply.status == 422)) [
      | inl invalid ↦
          rw (end_submit, failed, invalid, handed_on has_toast options.handler reply failed invalid)
            (inl (
              refl,
              (nat_beq_iff reply.status 422).0 invalid,
              errors-AreFieldErrors reply.error_data,
              refl,
              no_effects reply failed invalid,
              refl,
            ))
      | inr other ↦
          rw (end_submit, failed, other)
            (inr (inl (refl, refl, some_text reply.error failed, refl, refl)))
    ]
    | inr fine ↦ elim (Bool-cases (options.has_on_success && options.throws)) [
      | inl thrown ↦
          rw (end_submit, fine, thrown)
            (inr (
              inr (
                inl (
                  refl,
                  refl,
                  (network-IsNetworkText options, refl, refl),
                  called_lem options.has_on_success options.throws reply thrown,
                ))))
      | inr done ↦
          rw (end_submit, fine, done) (inr (inr (inr (refl, (refl, refl, refl, refl, refl)))))
    ]
  ]

  -- A submission ends, with the form usable again, in exactly one of three ways: a text for the
  -- form, texts for its fields, or the answer without an error. Only a refusal of the input that
  -- names no field ends in none. An answer with status 422 and an error gives the texts of its
  -- fields only, and no notice or other effect; another error gives its own text for the form; an
  -- exception gives the text for a failed connection; and an answer without error gives no text and
  -- is handed to `onSuccess`.
  pub end_submit-shown :
      (s : Submission) (answer : Option Reply)
      → ((end_submit has_toast options answer (begin_submit s)).0.processing ≡ false)
        × (shown (end_submit has_toast options answer (begin_submit s))
            ≡ (if is_silent answer then 0 else 1))
        × IsReport options answer (end_submit has_toast options answer (begin_submit s))
  unfolding end_submit begin_submit
  end_submit-shown s none = (
    refl,
    only_network (truthy (some (network_text options))) (network_text_lem options),
    ((network-IsNetworkText options, refl, refl), refl),
  )
  end_submit-shown s (some reply) =
      let (usable, one_way) = with_reply s reply in (usable, one_way, end_submit-IsReport s reply)

-- ===== src/Submission/Scenarios.antt =====
-- Submissions of a form at concrete answers (resources/js/Hooks/useApiFormSubmission.ts).
use fleximo_oss.Base.{true, false, Option, none, some, [], if◌then◌else◌, ◌≡◌, refl}
use fleximo_oss.Submission.{
  Reply, by_default, handle_api_error, Submission, SubmitOptions, begin_submit, end_submit,
}
use fleximo_oss.Submission.Channels.{shown, is_silent, IsReport, end_submit-shown}

abbrev empty_form : Submission
empty_form = record { processing = false; errors = []; general_error = "" }

abbrev plain : SubmitOptions
plain = record {
  handler = record {
    login_redirect_path = by_default;
    forbidden_message = by_default;
    server_error_message = by_default;
  };
  network_error_message = none;
  has_on_success = true;
  throws = false;
}

-- a refusal with a text but no fields
abbrev refused : Option Reply
refused = some (record { error = some "closed"; status = 422; error_data = none })

end_submit-shown_example :
    ((end_submit true plain refused (begin_submit empty_form)).0.processing ≡ false)
    × (shown (end_submit true plain refused (begin_submit empty_form))
        ≡ (if is_silent refused then 0 else 1))
    × IsReport plain refused (end_submit true plain refused (begin_submit empty_form))
end_submit-shown_example = end_submit-shown true plain empty_form refused

-- The text of such a refusal is shown nowhere: not in the form, and not as a notice.
lost_text :
    ((end_submit true plain refused (begin_submit empty_form)).0 ≡ empty_form)
    × ((end_submit true plain refused (begin_submit empty_form)).1 ≡ [])
unfolding end_submit handle_api_error begin_submit
lost_text = (refl, refl)

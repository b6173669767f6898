-- ===== src/EditConflict.antt =====
-- Edits that may meet a newer version on the server (src/edit-conflict.ts): claimEdit and
-- confirmedEdit. The server, the dialog and the abort signal are parameters: what each attempt
-- comes to, what the dialog says, and whether the signal is aborted before and after it.
pub mod Guarded
use allocube.Prelude.{
  ℕ, ◌≡◌, ◌⊎◌, ◌↔◌, refl, sym, ap, subst, arith, Bool, true, false, not, ◌||◌, Option, none, some,
  List, [], ◌∷◌, ltb, ◌==◌, elem, filter, if◌then◌else◌, Bool-cases, inl, inr,
}

-- The codes of ApiError; the first seven are conflictCodes.
pub data Code : Type 0 where
  edit_conflict machine_settings_stale resource_configuration_stale feedback_stale : Code
  announcement_stale unavailability_preview_stale user_disable_preview_stale : Code
  other_code : ℕ → Code

-- What an edit can throw: an ApiError, EditCancelled, EditOutcomeUnknown, or another error, such as
-- a timeout.
pub data Failure : Type 0 where
  api_error : (status : ℕ) → Option Code → Failure
  edit_cancelled edit_outcome_unknown other_failure : Failure

-- What the server answers: an object with keys and without `error`, or something else.
pub data Reply : Type 0 where
  proper : ℕ → Reply
  improper : Reply

pub data Attempt : Type 0 where
  answered : Reply → Attempt
  threw : Failure → Attempt

pub data Outcome : Type 0 where
  done : ℕ → Outcome
  failed : Failure → Outcome

pub data Answer : Type 0 where
  said : Bool → Answer
  raised : Failure → Answer

pub record World : Type 0 where
  -- a call of `attempt` without and with the overwrite header; it may throw before it sends
  pub attempt : Bool → Attempt
  -- the dialog, which is told whether an impact changed
  pub confirm : Bool → Answer
  pub aborted_before : Bool
  pub aborted_after : Bool

pub record Edit : Type 0 where
  -- the attempts made, the last one first, each with its overwrite flag
  pub attempts : List Bool
  pub outcome : Outcome

-- `conflictCodes.has(code ?? "")`
abbrev pub conflicts : Option Code → Bool
conflicts none = false
conflicts (some (other_code c)) = false
conflicts (some code) = true

-- `error.code?.includes("PREVIEW") ?? false`
abbrev pub impact_changed : Option Code → Bool
impact_changed (some unavailability_preview_stale) = true
impact_changed (some user_disable_preview_stale) = true
impact_changed _ = false

-- The callback of withRequestDeadline.
unfoldable pub attempted : Attempt → Outcome
attempted (answered (proper value)) = done value
attempted (answered improper) = failed edit_outcome_unknown
attempted (threw failure) = failed failure

-- What the last `catch` throws.
unfoldable pub reported : Failure → Failure
reported (api_error status code) =
    if ltb status 500 then api_error status code else edit_outcome_unknown
reported edit_cancelled = edit_cancelled
reported edit_outcome_unknown = edit_outcome_unknown
reported other_failure = edit_outcome_unknown

abbrev pub report : Outcome → Outcome
unfolding reported
report (done value) = done value
report (failed failure) = failed (reported failure)

-- After the dialog: the second attempt overwrites.
unfoldable pub after_dialog : World → Answer → Edit
unfolding attempted report reported
after_dialog w (raised failure) = record {
  attempts = false ∷ [];
  outcome = failed (reported failure);
}
after_dialog w (said false) = record { attempts = false ∷ []; outcome = failed edit_cancelled }
after_dialog w (said true) =
    if w.aborted_after
    then record { attempts = false ∷ []; outcome = failed edit_cancelled }
    else record { attempts = true ∷ false ∷ []; outcome = report (attempted (w.attempt true)) }

-- After the first attempt.
unfoldable pub after_first : World → Outcome → Edit
unfolding after_dialog reported
after_first w (done value) = record { attempts = false ∷ []; outcome = done value }
after_first w (failed (api_error status code)) =
    if not (status == 409) || not (conflicts code)
    then record { attempts = false ∷ []; outcome = failed (reported (api_error status code)) }
    else if w.aborted_before
    then record { attempts = false ∷ []; outcome = failed edit_cancelled }
    else after_dialog w (w.confirm (impact_changed code))
after_first w (failed failure) = record {
  attempts = false ∷ [];
  outcome = failed (reported failure);
}

unfoldable pub confirmed_edit : World → Edit
unfolding after_first attempted
confirmed_edit w = after_first w (attempted (w.attempt false))

-- The paths with an edit in progress, and those with an edit of unknown outcome.
pub record Edits : Type 0 where
  pub pending : List ℕ
  pub uncertain : List ℕ

-- claimEdit: the edits after it, or what it throws.
unfoldable pub claim_edit : ℕ → Edits → Option Failure × Edits
claim_edit path e =
    if elem path e.uncertain
    then (some edit_outcome_unknown, e)
    else if elem path e.pending
    then (some edit_cancelled, e)
    else (none, record e { pending = path ∷ e.pending })

-- What claimEdit returns.
unfoldable pub release_edit : ℕ → Edits → Edits
release_edit path e = record e { pending = filter (λ p. not (p == path)) e.pending }

unfoldable pub mark_edit_uncertain : ℕ → Edits → Edits
mark_edit_uncertain path e = record e {
  uncertain = if elem path e.uncertain then e.uncertain else path ∷ e.uncertain;
}

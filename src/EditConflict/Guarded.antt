-- ===== src/EditConflict/Guarded.antt =====
-- When an edit (src/edit-conflict.ts, confirmedEdit) is attempted a second time, and what it throws.
use allocube.Prelude.{
  ◌≡◌, ◌⊎◌, ◌↔◌, refl, sym, ap, subst, ◌∙◌, arith, Bool, true, false, not, ◌||◌, Option, [], ◌∷◌,
  ltb, ◌==◌, ==_iff, if◌then◌else◌, Bool-cases, inl, inr,
}
use allocube.EditConflict.{
  Code, Failure, api_error, edit_cancelled, edit_outcome_unknown, other_failure, Attempt, answered,
  threw, proper, improper, Outcome, done, failed, Answer, said, raised, World, Edit, conflicts,
  impact_changed, attempted, reported, report, after_dialog, after_first, confirmed_edit,
}

-- The first attempt met a newer version, and who edits agreed to overwrite it, in time.
abbrev pub MayOverwrite : World → Type 0
MayOverwrite w =
    (code : Option Code) × (w.attempt false ≡ threw (api_error 409 code))
    × (conflicts code ≡ true)
    × (w.aborted_before ≡ false)
    × (w.confirm (impact_changed code) ≡ said true)
    × (w.aborted_after ≡ false)

-- A failure that says that nothing was written, or that this is unknown.
abbrev pub Clear : Outcome → Type 0
Clear (done value) = Unit {0}
Clear (failed (api_error status code)) = ltb status 500 ≡ true
Clear (failed edit_cancelled) = Unit {0}
Clear (failed edit_outcome_unknown) = Unit {0}
Clear (failed other_failure) = ⊥

reported-Clear : (f : Failure) → Clear (failed (reported f))
unfolding reported
reported-Clear (api_error status code) = elim (Bool-cases (ltb status 500)) [
  | inl e ↦ rw e e
  | inr e ↦ rw e tt
]
reported-Clear edit_cancelled = tt
reported-Clear edit_outcome_unknown = tt
reported-Clear other_failure = tt

report-Clear : (o : Outcome) → Clear (report o)
unfolding report
report-Clear (done value) = tt
report-Clear (failed f) = reported-Clear f

-- An edit after its dialog.
abbrev AfterDialog : World → Answer → Edit → Type 0
AfterDialog w answer out =
    ((out.attempts ≡ false ∷ [])
      ⊎ ((out.attempts ≡ true ∷ false ∷ []) × (answer ≡ said true) × (w.aborted_after ≡ false)))
    × Clear out.outcome

after_dialog-AfterDialog :
    (w : World) (answer : Answer) → AfterDialog w answer (after_dialog w answer)
unfolding after_dialog
after_dialog-AfterDialog w (raised f) = (inl refl, reported-Clear f)
after_dialog-AfterDialog w (said false) = (inl refl, tt)
after_dialog-AfterDialog w (said true) = elim (Bool-cases w.aborted_after) [
  | inl e ↦ rw e (inl refl, tt)
  | inr e ↦ rw e (inr (refl, refl, refl), report-Clear (attempted (w.attempt true)))
]

abbrev Guarded : World → Edit → Type 0
Guarded w out =
    ((out.attempts ≡ false ∷ []) ⊎ ((out.attempts ≡ true ∷ false ∷ []) × MayOverwrite w))
    × Clear out.outcome

after_first-Guarded :
    (w : World) (first : Attempt)
    → w.attempt false ≡ first
    → Guarded w (after_first w (attempted first))
unfolding after_first attempted
after_first-Guarded w (answered (proper value)) met = (inl refl, tt)
after_first-Guarded w (answered improper) met = (inl refl, reported-Clear edit_outcome_unknown)
after_first-Guarded w (threw edit_cancelled) met = (inl refl, reported-Clear edit_cancelled)
after_first-Guarded w (threw edit_outcome_unknown) met =
    (inl refl, reported-Clear edit_outcome_unknown)
after_first-Guarded w (threw other_failure) met = (inl refl, reported-Clear other_failure)
after_first-Guarded w (threw (api_error status code)) met =
    elim (Bool-cases (not (status == 409) || not (conflicts code))) [
      | inl e ↦ rw e (inl refl, reported-Clear (api_error status code))
      | inr e ↦
          let named : status ≡ 409 = (==_iff status 409).0 (ground (arith, e)) in
          let dialog = w.confirm (impact_changed code) in
          let (made, clear) = after_dialog-AfterDialog w dialog in
          let Goal : Bool → Type 0 = λ b. Guarded w (
            if b
            then record { attempts = false ∷ []; outcome = failed edit_cancelled }
            else after_dialog w dialog) in
          rw e (elim (Bool-cases w.aborted_before) [
            | inl f ↦ subst Goal (sym f) (inl refl, tt)
            | inr f ↦
                let may : (dialog ≡ said true) → (w.aborted_after ≡ false) → MayOverwrite w =
                  λ agreed live. (
                    code,
                    met ∙ ap (λ s. threw (api_error s code)) named,
                    ground (arith, e),
                    f,
                    agreed,
                    live,
                  ) in
                subst Goal (sym f) (
                  elim made [
                    | inl once ↦ inl once
                    | inr (twice, agreed, live) ↦ inr (twice, may agreed live)
                  ],
                  clear,
                )
          ])
    ]

overwrites : (w : World) → MayOverwrite w → (confirmed_edit w).attempts ≡ true ∷ false ∷ []
unfolding confirmed_edit after_first after_dialog attempted
overwrites w (code, met, conflict, before, agreed, after) =
    rw (met, conflict, before, agreed, after) refl

confirmed_edit-Guarded : (w : World) → Guarded w (confirmed_edit w)
unfolding confirmed_edit
confirmed_edit-Guarded w = after_first-Guarded w (w.attempt false) refl

-- An edit is attempted once, without the overwrite header, or once more with it; the second attempt is
-- made exactly when the first met a newer version (409 with a conflict code), the signal was not
-- aborted before or after the dialog, and the dialog agreed. What the edit throws is a refusal
-- (a status below 500), the cancellation, or that the outcome is unknown.
pub confirmed_edit-MayOverwrite :
    (w : World)
    → (((confirmed_edit w).attempts ≡ false ∷ [])
        ⊎ ((confirmed_edit w).attempts ≡ true ∷ false ∷ []))
      × (((confirmed_edit w).attempts ≡ true ∷ false ∷ []) ↔ MayOverwrite w)
      × Clear (confirmed_edit w).outcome
confirmed_edit-MayOverwrite w =
    let (made, clear) = confirmed_edit-Guarded w in
    (
      elim made [ inl once ↦ inl once | inr twice ↦ inr twice.0 ],
      ((λ h. elim made [ inl once ↦ absurd (cc (once, h)) | inr twice ↦ twice.1 ]), overwrites w),
      clear,
    )

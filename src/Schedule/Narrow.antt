-- ===== src/Schedule/Narrow.antt =====
-- A reservation that gives time back stays apart from the others.
use allocube.Prelude.{
  ℕ, ◌≤◌, ◌≡◌, inl, inr, ◌∙◌, sym, Option, none, some, List, All, All-mono, arith,
}
use allocube.Store.{Reservation, Window, confirmed}
use allocube.Schedule.{Apart, Clear, SameTarget, WindowFits}

-- `new` has the target of `old`, and if it is confirmed, so was `old`, over a span that holds its own.
pub record Narrow (new old : Reservation) : Type 0 where
  pub same_id : new.id ≡ old.id
  pub same_machine : new.machine_id ≡ old.machine_id
  pub same_group : new.resource_group_id ≡ old.resource_group_id
  pub same_scope : new.scope ≡ old.scope
  pub was_confirmed : new.status ≡ confirmed → old.status ≡ confirmed
  pub starts_later : new.status ≡ confirmed → old.start_at ≤ new.start_at
  pub ends_earlier : new.status ≡ confirmed → new.end_at ≤ old.end_at

module _ {new old : Reservation} (n : Narrow new old) where
  SameTarget-left : (b : Reservation) → SameTarget new b → SameTarget old b
  SameTarget-left b (m, t) = (
    sym n.same_machine ∙ m,
    elim t [
      | inl g ↦ inl (sym n.same_group ∙ g)
      | inr (inl s) ↦ inr (inl (sym n.same_scope ∙ s))
      | inr (inr s) ↦ inr (inr s)
    ],
  )

  SameTarget-right : (a : Reservation) → SameTarget a new → SameTarget a old
  SameTarget-right a (m, t) = (
    m ∙ n.same_machine,
    elim t [
      | inl g ↦ inl (g ∙ n.same_group)
      | inr (inl s) ↦ inr (inl s)
      | inr (inr s) ↦ inr (inr (sym n.same_scope ∙ s))
    ],
  )

  pub Apart-narrow_left : (b : Reservation) → Apart old b → Apart new b
  Apart-narrow_left b h p q t =
      let lo = n.starts_later p in
      let hi = n.ends_earlier p in
      elim (h (n.was_confirmed p) q (SameTarget-left b t)) [
        | inl e ↦ inl (omega arith)
        | inr e ↦ inr (omega arith)
      ]

  pub Apart-narrow_right : (a : Reservation) → Apart a old → Apart a new
  Apart-narrow_right a h p q t =
      let lo = n.starts_later q in
      let hi = n.ends_earlier q in
      elim (h p (n.was_confirmed q) (SameTarget-right a t)) [
        | inl e ↦ inl (omega arith)
        | inr e ↦ inr (omega arith)
      ]

  WindowFits-old : (o : Option ℕ) → WindowFits o new → WindowFits o old
  WindowFits-old none h = tt
  WindowFits-old (some id) (inl s) = inl (sym n.same_scope ∙ s)
  WindowFits-old (some id) (inr g) = inr (g ∙ n.same_group)

  pub Clear-narrow : (w : Window) → Clear old w → Clear new w
  Clear-narrow w h p q m f =
      let lo = n.starts_later p in
      let hi = n.ends_earlier p in
      elim (h (n.was_confirmed p) q (m ∙ n.same_machine) (WindowFits-old w.resource_group_id f)) [
        | inl e ↦ inl (omega arith)
        | inr e ↦ inr (omega arith)
      ]

  pub All-Clear-narrow : (ws : List Window) → All (Clear old) ws → All (Clear new) ws
  All-Clear-narrow ws = All-mono (Clear old) (Clear new) ws Clear-narrow

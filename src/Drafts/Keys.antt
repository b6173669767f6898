-- ===== src/Drafts/Keys.antt =====
-- What the drafts of one target hold, and when two keys of src/calendar-state.ts are the same.
use allocube.Prelude.{
  ℕ, ◌≡◌, refl, ap, arith, Bool, true, false, ◌&&◌, Option, none, some, List, any, ==_refl, ==_iff,
}
use allocube.Interval.{Span, inside}
use allocube.Drafts.{
  TargetKey, machine_key, group_key, same_key, reservation_target_key, SegmentInput, Draft, times,
}

pub same_key_refl : (k : TargetKey) → same_key k k ≡ true
unfolding same_key
same_key_refl (machine_key a) = ==_refl a
same_key_refl (group_key a) = ==_refl a

pub same_key→≡ : (j k : TargetKey) → same_key j k ≡ true → j ≡ k
unfolding same_key
same_key→≡ (machine_key a) (machine_key b) h = ap machine_key ((==_iff a b).0 h)
same_key→≡ (group_key a) (group_key b) h = ap group_key ((==_iff a b).0 h)
same_key→≡ (machine_key a) (group_key b) h = absurd (cc h)
same_key→≡ (group_key a) (machine_key b) h = absurd (cc h)

pub same_key_sym : (j k : TargetKey) → same_key j k ≡ same_key k j
unfolding same_key
same_key_sym (machine_key a) (machine_key b) = ground arith
same_key_sym (group_key a) (group_key b) = ground arith
same_key_sym (machine_key a) (group_key b) = refl
same_key_sym (group_key a) (machine_key b) = refl

-- The moment `t` lies in the span.
abbrev pub in_times : ℕ → Option Span → Bool
in_times t none = false
in_times t (some s) = inside t s

-- The input asks for its target at the moment `t`; one of them does.
abbrev pub asks : TargetKey → ℕ → SegmentInput → Bool
asks key t i = same_key (reservation_target_key i) key && in_times t (times i)

abbrev pub requested : TargetKey → ℕ → List SegmentInput → Bool
requested key t = any (asks key t)

abbrev pub held : TargetKey → ℕ → List Draft → Bool
held key t = any (λ d. asks key t d.input)

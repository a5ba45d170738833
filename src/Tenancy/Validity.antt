-- ===== src/Tenancy/Validity.antt =====
-- services/tenancy/metering.go: which metering events `rollupDelta` accepts.
use aether_edit.Prelude.{
  ℕ, String, ◌≡◌, refl, ◌⊎◌, inl, inr, Bool, true, false, Option, none, some, arith, eq_iff,
  Option-cases, err, ◌≢◌, ok,
}
use aether_edit.Prelude.Float.{Float}
use aether_edit.Prelude.Int.{ℤ, pos, negsuc}
use aether_edit.Tenancy.{
  upload_session_created, upload_completed, job_queued, job_started, job_completed, job_failed,
  MeteringKind, other_kind, MeteringEvent, UsageRollup,
}
use aether_edit.Tenancy.Metering.{
  rollup_delta, count_event, blank, is_negative, is_negative_float, MeteringError,
}

abbrev is_other : MeteringKind → Bool
is_other (other_kind k) = true
is_other _ = false

is_other-cases : (k : MeteringKind) → ((s : String) × (k ≡ other_kind s)) ⊎ (is_other k ≡ false)
is_other-cases (other_kind k) = inl (k, refl)
is_other-cases upload_session_created = inr refl
is_other-cases upload_completed = inr refl
is_other-cases job_queued = inr refl
is_other-cases job_started = inr refl
is_other-cases job_completed = inr refl
is_other-cases job_failed = inr refl

bytes_pass : (b : Option ℤ) → ((n : ℕ) → b ≢ some (negsuc n)) → is_negative b ≡ false
bytes_pass none h = refl
bytes_pass (some (pos n)) h = ground arith
bytes_pass (some (negsuc n)) h = absurd (h n refl)

seconds_pass :
    (fl : Float) (s : Option fl.F)
    → ((x : fl.F) → s ≡ some x → fl.lt x (fl.of_nat 0) ≡ false)
    → is_negative_float fl s ≡ false
seconds_pass fl none h = refl
seconds_pass fl (some x) h = h x refl

module _ {fl : Float} where
  -- A payload that can be billed.
  pub record IsValid (ev : MeteringEvent fl) : Type 0 where
    pub named : (ev.event_id ≢ "") × (ev.workspace_id ≢ "")
    pub dated : (t : ℕ) × (ev.at ≡ some t)
    pub bytes_in_range : (n : ℕ) → ev.bytes ≢ some (negsuc n)
    pub seconds_in_range : (x : fl.F) → ev.encode_seconds ≡ some x → fl.lt x (fl.of_nat 0) ≡ false
    pub kind_known : (k : String) → ev.kind ≢ other_kind k

  pub rollup_delta-IsValid :
      (month_of : ℕ → String) (ev : MeteringEvent fl) (d : UsageRollup fl)
      → rollup_delta month_of ev ≡ ok d
      → IsValid ev
  unfolding rollup_delta count_event
  rollup_delta-IsValid month_of ev d h = record {
    named = (
      λ e. ground (arith, h, e, eq_iff ev.event_id ""),
      λ e. ground (arith, h, e, eq_iff ev.workspace_id ""),
    );
    dated = elim (Option-cases ev.at) [ inl e ↦ absurd (ground arith) | inr t ↦ t ];
    bytes_in_range = λ n e. ground arith;
    seconds_in_range = λ x e. ground arith;
    kind_known = λ k e. ground arith;
  }

  known_counted :
      (ev : MeteringEvent fl) (d : UsageRollup fl) (x : MeteringError)
      → ((k : String) → ev.kind ≢ other_kind k)
      → count_event ev d ≢ err x
  unfolding count_event
  known_counted ev d x known h = elim (is_other-cases ev.kind) [
    | inl (k, e) ↦ known k e
    | inr e ↦ ground arith
  ]

  pub invalid_delta :
      (month_of : ℕ → String) (ev : MeteringEvent fl) (x : MeteringError)
      → rollup_delta month_of ev ≡ err x
      → IsValid ev
      → ⊥
  unfolding rollup_delta
  invalid_delta month_of ev x h v =
      let (t, dated) = v.dated in
      let (id, ws) = v.named in
      ground (
        arith,
        id,
        ws,
        eq_iff ev.event_id "",
        eq_iff ev.workspace_id "",
        bytes_pass ev.bytes v.bytes_in_range,
        seconds_pass fl ev.encode_seconds v.seconds_in_range,
        known_counted ev (blank ev.workspace_id (month_of t)) x v.kind_known,
      )

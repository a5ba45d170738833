-- ===== src/Landed/Once.antt =====
-- services/orchestrator/internal/consumer/landed.go: a landed source gets one job.
use aether_edit.Prelude.{
  ℕ, ◌≤◌, String, ◌≡◌, refl, sym, subst, ◌⊎◌, inl, inr, Bool, true, false, ◌&&◌, Option, none, some,
  List, [], ◌∷◌, ◌++◌, arith, eq_iff, Bool-cases, Option-cases,
}
use aether_edit.Prelude.Float.{Float}
use aether_edit.Prelude.Table.{count_where, select_first}
use aether_edit.Prelude.Counting.{count_where-append, count_where-select_first-none}
use aether_edit.Jobs.{Job}
use aether_edit.Store.{blocks_source, has_active_job_for_source, create_job, new_row, same_id}
use aether_edit.Landed.{
  UploadLanded, Outcomes, State, ack, PresetAnswer, preset_found, no_preset, preset_failed,
  ProbeOutcome, probed, bad_asset, probe_failed, job_for, create_for, auto_create_job, finish,
  handle,
}

Preset-cases :
    (a : PresetAnswer)
    → ((a ≡ no_preset) ⊎ (a ≡ preset_failed)) ⊎ ((p : String) × (a ≡ preset_found p))
Preset-cases no_preset = inl (inl refl)
Preset-cases preset_failed = inl (inr refl)
Preset-cases (preset_found p) = inr (p, refl)

Probe-cases : (p : ProbeOutcome) → (p ≡ probed) ⊎ ((p ≡ bad_asset) ⊎ (p ≡ probe_failed))
Probe-cases probed = inl refl
Probe-cases bad_asset = inr (inl refl)
Probe-cases probe_failed = inr (inr refl)

module _ {fl : Float} where
  -- The jobs of a source and preset that have not failed.
  unfoldable pub count_live : String → String → String → List (Job fl) → ℕ
  unfolding count_where blocks_source
  count_live ws key preset rows = count_where (blocks_source ws key preset) rows

  some_live :
      (p : Job fl → Bool) (rows : List (Job fl)) (j : Job fl)
      → select_first p rows ≡ some j
      → 1 ≤ count_where p rows
  unfolding count_where select_first
  some_live p [] j h = ground arith
  some_live p (r ∷ rows) j h = ground (arith, some_live p rows j)

  active_count :
      (ws key preset : String) (rows : List (Job fl))
      → ((has_active_job_for_source ws key preset rows ≡ true)
          × (1 ≤ count_live ws key preset rows))
        ⊎ ((has_active_job_for_source ws key preset rows ≡ false)
            × (count_live ws key preset rows ≡ 0))
  unfolding has_active_job_for_source count_live
  active_count ws key preset rows =
      elim (Option-cases (select_first (blocks_source ws key preset) rows)) [
        | inl absent ↦ inr (
          ground (arith, absent),
          count_where-select_first-none (blocks_source ws key preset) rows absent,
        )
        | inr (j, there) ↦
            inl (ground (arith, there), some_live (blocks_source ws key preset) rows j there)
      ]

  abbrev job_row : Outcomes → UploadLanded → String → Job fl
  job_row o ev preset = new_row o.fresh o.now (job_for ev preset o.now)

  create_cases :
      (o : Outcomes) (ev : UploadLanded) (preset : String) (s : State fl)
      → (create_for o ev preset s ≡ (false, s))
        ⊎ (((create_for o ev preset s).0 ≡ true)
            × ((create_for o ev preset s).1.rows ≡ s.rows ++ job_row o ev preset ∷ []))
  unfolding create_for create_job
  create_cases o ev preset s = elim (Option-cases (select_first (same_id o.fresh) s.rows)) [
    | inl free ↦ inr (ground (arith, free), ground (arith, free))
    | inr (j, taken) ↦ inl (ground (arith, taken))
  ]

  -- The automatic creation leaves the table, or adds the one missing job.
  auto_cases :
      (o : Outcomes) (ev : UploadLanded) (s : State fl)
      → ((auto_create_job o ev s).1.rows ≡ s.rows)
        ⊎ ((preset : String) × (has_active_job_for_source ev.workspace_id ev.object_key preset
                s.rows
              ≡ false)
            × ((auto_create_job o ev s).1.rows ≡ s.rows ++ job_row o ev preset ∷ []))
  unfolding auto_create_job
  auto_cases o ev s = elim (Preset-cases o.preset) [
    | inl (inl e) ↦ inl (ground (arith, e))
    | inl (inr e) ↦ inl (ground (arith, e))
    | inr (preset, e) ↦
        elim (Bool-cases (has_active_job_for_source ev.workspace_id ev.object_key preset s.rows)) [
          | inl there ↦ inl (ground (arith, e, there))
          | inr absent ↦ elim (Bool-cases (o.active_up && o.create_up)) [
            | inr silent ↦ inl (ground (arith, e, absent, silent))
            | inl answers ↦ elim (create_cases o ev preset s) [
              | inl failed ↦ inl (ground (arith, e, absent, answers, failed))
              | inr (_, grown) ↦ inr (preset, absent, ground (arith, e, absent, answers, grown))
            ]
          ]
        ]
  ]

  handle_keeps :
      (auto : Bool) (o : Outcomes) (payload : Option UploadLanded) (s : State fl)
      → ((handle auto o payload s).1 ≡ s)
        ⊎ ((ev : UploadLanded) × ((handle auto o payload s).1 ≡ (auto_create_job o ev s).1))
  unfolding handle finish
  handle_keeps auto o none s = inl refl
  handle_keeps auto o (some ev) s = elim (Option-cases o.exists) [
    | inl silent ↦ inl (ground (arith, silent))
    | inr (there, e) ↦
        elim (Bool-cases (there && (o.scratch && (o.downloads && (o.upsert_up && auto))))) [
          | inr stops ↦ inl (ground (arith, e, stops))
          | inl goes ↦ elim (Probe-cases o.probe) [
            | inl done ↦ inr (ev, ground (arith, e, goes, done))
            | inr (inl bad) ↦ inl (ground (arith, e, goes, bad))
            | inr (inr bad) ↦ inl (ground (arith, e, goes, bad))
          ]
        ]
  ]

  grown_live :
      (o : Outcomes) (ev : UploadLanded) (preset : String) (s : State fl)
      → 1 ≤ count_live ev.workspace_id ev.object_key preset (s.rows ++ job_row o ev preset ∷ [])
  unfolding count_live blocks_source
  grown_live o ev preset s = ground (
    arith,
    eq_iff ev.workspace_id ev.workspace_id,
    eq_iff ev.object_key ev.object_key,
    eq_iff preset preset,
    count_where-append (blocks_source ev.workspace_id ev.object_key preset) s.rows
        (job_row o ev preset),
  )

  -- Where the new job has the key, nothing else has.
  row_alone :
      (o : Outcomes) (ev : UploadLanded) (preset ws key p : String) (rows : List (Job fl))
      → has_active_job_for_source ev.workspace_id ev.object_key preset rows ≡ false
      → blocks_source ws key p (job_row o ev preset) ≡ true
      → count_live ws key p rows ≡ 0
  unfolding blocks_source
  row_alone o ev preset ws key p rows none_yet same =
      let a : ev.workspace_id ≡ ws = ground (arith, same, eq_iff ev.workspace_id ws) in
      let b : ev.object_key ≡ key = ground (arith, same, eq_iff ev.object_key key) in
      let c : preset ≡ p = ground (arith, same, eq_iff preset p) in
      let none_there : has_active_job_for_source ws key p rows ≡ false =
        grind (arith, a, b, c, none_yet) in
      ground (arith, none_there, active_count ws key p rows)

  grown_once :
      (o : Outcomes) (ev : UploadLanded) (preset : String) (s : State fl) (ws key p : String)
      → has_active_job_for_source ev.workspace_id ev.object_key preset s.rows ≡ false
      → count_live ws key p s.rows ≤ 1
      → count_live ws key p (s.rows ++ job_row o ev preset ∷ []) ≤ 1
  unfolding count_live
  grown_once o ev preset s ws key p absent h =
      let more = count_where-append (blocks_source ws key p) s.rows (job_row o ev preset) in
      elim (Bool-cases (blocks_source ws key p (job_row o ev preset))) [
        | inl same ↦ grind (arith, more, same, row_alone o ev preset ws key p s.rows absent same)
        | inr other ↦ grind (arith, more, other, h)
      ]

  auto_once :
      (o : Outcomes) (ev : UploadLanded) (s : State fl) (ws key p : String)
      → count_live ws key p s.rows ≤ 1
      → count_live ws key p (auto_create_job o ev s).1.rows ≤ 1
  auto_once o ev s ws key p h = elim (auto_cases o ev s) [
    | inl same ↦ subst (λ rows. count_live ws key p rows ≤ 1) (sym same) h
    | inr (preset, absent, grown) ↦
        subst (λ rows. count_live ws key p rows ≤ 1) (sym grown)
          (grown_once o ev preset s ws key p absent h)
  ]

  -- A delivery: the setting, the outcomes and the event.
  unfoldable pub deliver_all : Bool → List (Outcomes × Option UploadLanded) → State fl → State fl
  deliver_all auto [] s = s
  deliver_all auto ((o, payload) ∷ ds) s = deliver_all auto ds (handle auto o payload s).1

  handle_once :
      (auto : Bool) (o : Outcomes) (payload : Option UploadLanded) (s : State fl)
      (ws key p : String)
      → count_live ws key p s.rows ≤ 1
      → count_live ws key p (handle auto o payload s).1.rows ≤ 1
  handle_once auto o payload s ws key p h = elim (handle_keeps auto o payload s) [
    | inl same ↦ subst (λ (t : State fl). count_live ws key p t.rows ≤ 1) (sym same) h
    | inr (ev, to) ↦
        subst (λ (t : State fl). count_live ws key p t.rows ≤ 1) (sym to)
          (auto_once o ev s ws key p h)
  ]

  -- However often messages are delivered, one after the other, and however their calls end: a source
  -- that has at most one job with a preset that has not failed has at most one afterwards.
  pub deliver_all_once :
      (auto : Bool) (ds : List (Outcomes × Option UploadLanded)) (s : State fl) (ws key p : String)
      → count_live ws key p s.rows ≤ 1
      → count_live ws key p (deliver_all auto ds s).rows ≤ 1
  unfolding deliver_all
  deliver_all_once auto [] s ws key p h = h
  deliver_all_once auto ((o, payload) ∷ ds) s ws key p h =
      deliver_all_once auto ds (handle auto o payload s).1 ws key p
        (handle_once auto o payload s ws key p h)

  -- An acknowledged message went through the automatic creation.
  acked_inv :
      (o : Outcomes) (ev : UploadLanded) (s : State fl)
      → (handle true o (some ev) s).0 ≡ ack
      → ((auto_create_job o ev s).0 ≡ true)
        × ((handle true o (some ev) s).1 ≡ (auto_create_job o ev s).1)
  unfolding handle finish
  acked_inv o ev s h = elim (Option-cases o.exists) [
    | inl silent ↦ ground (arith, silent, h)
    | inr (there, e) ↦ elim (Bool-cases (there && (o.scratch && (o.downloads && o.upsert_up)))) [
      | inr stops ↦ ground (arith, e, stops, h)
      | inl goes ↦ elim (Probe-cases o.probe) [
        | inl done ↦ (ground (arith, e, goes, done, h), ground (arith, e, goes, done, h))
        | inr (inl bad) ↦ ground (arith, e, goes, bad, h)
        | inr (inr bad) ↦ ground (arith, e, goes, bad, h)
      ]
    ]
  ]

  approved_live :
      (o : Outcomes) (ev : UploadLanded) (preset : String) (s : State fl)
      → o.preset ≡ preset_found preset
      → (auto_create_job o ev s).0 ≡ true
      → 1 ≤ count_live ev.workspace_id ev.object_key preset (auto_create_job o ev s).1.rows
  unfolding auto_create_job
  approved_live o ev preset s e h =
      elim (active_count ev.workspace_id ev.object_key preset s.rows) [
        | inl (there, live) ↦ ground (arith, e, h, there, live)
        | inr (absent, _) ↦ elim (create_cases o ev preset s) [
          | inl failed ↦ ground (arith, e, h, absent, failed)
          | inr (_, grown) ↦ ground (arith, e, h, absent, grown, grown_live o ev preset s)
        ]
      ]

  -- A message that is acknowledged while jobs are created automatically, and whose workspace has a
  -- default preset: the source then has a job with it that has not failed.
  pub acked_live :
      (o : Outcomes) (ev : UploadLanded) (preset : String) (s : State fl)
      → o.preset ≡ preset_found preset
      → (handle true o (some ev) s).0 ≡ ack
      → 1 ≤ count_live ev.workspace_id ev.object_key preset (handle true o (some ev) s).1.rows
  acked_live o ev preset s e h =
      let (approved, to) = acked_inv o ev s h in
      subst (λ (t : State fl). 1 ≤ count_live ev.workspace_id ev.object_key preset t.rows) (sym to)
        (approved_live o ev preset s e approved)

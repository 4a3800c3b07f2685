-- ===== src/Transaction/Stage.antt =====
-- `source_admitted`, `stage` and `stage_upload`: a bundle is written to the inactive slot, behind a
-- journal that is durable before the boot policy and the slot are touched.
pub mod Planning
pub mod Durable
use sv08_mainline.Base.{
  String, Bool, true, false, ◌&&◌, ◌||◌, not, Option, none, some, Result, ok, refuse_if,
  or_key_error, if◌then◌else◌, is_some,
}
use sv08_mainline.Base.Exec.{Exec, pure, lift, query, require_not, ◌>>=◌, ◌>>◌}
use sv08_mainline.Policy.{Options, UpdatePolicy, effective, to_options}
use sv08_mainline.Registry.{
  Slot, other_slot, find_slot, SlotRecord, State, Boot, Proof, identifier, load,
}
use sv08_mainline.Admission.{admit, check_source}
use sv08_mainline.Update.Interfaces.{
  World, Journal, Backend, Platform, save_journal, on_env, preparing, installing, staged,
}
use sv08_mainline.Update.Journals.{load_journal, outstanding, is_sha256}
use sv08_mainline.Update.Generations.{generation_path}
use sv08_mainline.Transaction.Checks.{policy_options, primary_is, release_known}

-- the policy of an automatic operation is the registry's, that of a manual one the caller's
abbrev pub requested_options : Bool → State → Option Options → Option Options
requested_options automatic state options = if automatic then state.update_policy else options

module _ {E : Type 0} (platform : Platform) (backend : Backend E) where
  -- `require_source`
  abbrev pub require_source : State → Boot → Option Options → Exec (World E) (Unit {0})
  require_source state boot options = do
    lift (check_source state boot options)
    query (λ w. backend.validate_context boot w.env)

  abbrev pub jobs_idle_if : Bool → Exec (World E) (Unit {0})
  jobs_idle_if true = lift platform.jobs_idle
  jobs_idle_if false = pure tt

  -- `source_admitted`, up to its `yield`; `lease` is the outcome of taking the upload lease
  unfoldable pub source_admitted :
      {A : Type 0} → Boot → Bool → Option Options → Result A → Exec (World E) (State × A)
  source_admitted boot automatic options lease = do
    lift platform.running
    state ← query (λ w. load w.registry)
    require_not (automatic && not state.auto_update) "Automatic updates are disabled"
    policy ← lift (effective (requested_options automatic state options) automatic)
    jobs_idle_if automatic
    leased ← lift lease
    lift platform.admission
    require_source state boot (some (to_options policy))
    pure (state, leased)

  -- the source stays selected and the target disabled
  abbrev pub require_disarmed : Slot → Slot → String → Exec (World E) (Unit {0})
  require_disarmed source target message = do
    selected ← query (λ w. backend.primary w.env)
    require_not (not (primary_is selected source)) message
    good ← query (λ w. backend.good target w.env)
    require_not good message

  -- `check_copy_budget(state['slots'][slot], reserve_full_copy=True)`
  abbrev pub check_copy_budget : State → Slot → Exec (World E) (Unit {0})
  check_copy_budget state slot = do
    r ← lift (or_key_error (find_slot slot state.slots) "slot")
    query (λ w. generation_path r w.generations)
    lift platform.copy_budget

  abbrev pub check_proof : Proof → Exec (World E) (Unit {0})
  check_proof proof = do
    lift (identifier proof.release)
    require_not (not (is_sha256 proof.bundle_sha256)) "Missing authenticated bundle identity"

  -- the tests of `_stage_admitted`, which end in the new transaction
  unfoldable pub plan_stage :
      String → Proof → Boot → State → Bool → Option Options → Exec (World E) Journal
  plan_stage bundle proof boot state automatic options = do
    check_proof proof
    policy ← lift (admit proof state boot (requested_options automatic state options) automatic)
    previous ← query (λ w. load_journal platform.policy_revision w.journal)
    require_not (is_some state.pending || outstanding previous)
        "Resolve the outstanding transaction before staging"
    require_not (release_known state.slots proof.release)
        "Use a unique new release; reinstalling an existing generation is not supported"
    check_copy_budget state boot.slot
    selected ← query (λ w. backend.primary w.env)
    require_not (not (primary_is selected boot.slot))
        "Boot selection differs from the running source"
    query (λ w. backend.validate_bundle bundle proof (other_slot boot.slot) w.env)
    boot_policy ← query (λ w. backend.boot_policy w.env)
    boot_id ← lift (identifier boot.boot_id)
    pure (record {
      phase = preparing;
      id = platform.fresh_id;
      slot = other_slot boot.slot;
      previous_slot = boot.slot;
      previous_release = boot.release;
      release = proof.release;
      bundle_sha256 = proof.bundle_sha256;
      boot_id = boot_id;
      previous_boot_policy = boot_policy;
      automatic = automatic;
      update_policy = some policy;
      policy_revision = some (platform.policy_revision policy);
      admission_proof = some proof;
      release_revision = proof.release_revision;
    })

  -- the writes of `_stage_admitted`
  unfoldable pub run_stage : String → Proof → Journal → Exec (World E) Journal
  run_stage bundle proof tx = do
    save_journal tx preparing
    on_env (backend.disarm_target tx.slot tx.previous_slot)
    require_disarmed tx.previous_slot tx.slot
        "Pre-disarm must leave the running source selected and target disabled"
    save_journal tx installing
    on_env (backend.install bundle proof tx.slot)
    require_disarmed tx.previous_slot tx.slot
        "Installer must retain the source primary and leave target bad"
    save_journal tx staged
    pure (record tx { phase = staged })

  -- `_stage_admitted`
  unfoldable pub stage_admitted :
      String → Proof → Boot → State → Bool → Option Options → Exec (World E) Journal
  stage_admitted bundle proof boot state automatic options = do
    tx ← plan_stage bundle proof boot state automatic options
    run_stage bundle proof tx

  unfoldable pub stage : String → Proof → Boot → Bool → Option Options → Exec (World E) Journal
  stage bundle proof boot automatic options = do
    check_proof proof
    admitted ← source_admitted boot automatic options (ok tt)
    stage_admitted bundle proof boot admitted.0 automatic options

  -- `lease` is what `staging.lease` yields: the uploaded bundle and its authenticated proof
  unfoldable pub stage_upload :
      Result (String × Proof) → Boot → Bool → Option Options → Exec (World E) Journal
  stage_upload lease boot automatic options = do
    admitted ← source_admitted boot automatic options lease
    let leased = admitted.1
    stage_admitted leased.0 leased.1 boot admitted.0 automatic options

-- ===== src/Transaction/Recovery.antt =====
-- `cancel` and `reconcile`: what an operator or the coordinator does with a transaction that a crash,
-- a reboot or a failed trial left behind.
pub mod Cancelling
pub mod Reconciling
use sv08_mainline.Base.{
  String, Bool, true, false, ◌&&◌, ◌||◌, not, Option, none, some, Result, ok, err, value_error,
  refuse_if, str_eq, if◌then◌else◌, is_some,
}
use sv08_mainline.Base.Exec.{Exec, pure, raise, lift, query, require_not, ◌>>=◌, ◌>>◌}
use sv08_mainline.Registry.{Slot, State, Boot, Pending, is_trial, load}
use sv08_mainline.Update.Interfaces.{
  World, Journal, Phase, Backend, Platform, save_registry, save_journal, on_env, preparing,
  installing, staged, arming, armed, confirming, complete, cancelled, failed,
}
use sv08_mainline.Update.Journals.{load_journal, outstanding}
use sv08_mainline.Transaction.Checks.{
  policy_options, primary_is, is_arming, is_confirming, is_announced, is_source, is_target,
  pending_disagrees, pending_started, failed_trial,
}
use sv08_mainline.Transaction.Stage.{require_source}
use sv08_mainline.Update.Store.{pending_is_trial}

-- what `reconcile` tells the coordinator to do next
pub data NextStep : Type 0 where
  idle needs_health restored_pre_disarm needs_cancel staged_next needs_arm awaiting_reboot :
      NextStep

-- the target runs: its trial state has been prepared, or the trial is being confirmed
abbrev pub prepared_target : Option Pending → Phase → Result (Unit {0})
prepared_target none phase =
    refuse_if (not (is_confirming phase)) "Target boot has no prepared trial state"
prepared_target (some p) phase =
    refuse_if (not (is_trial p.phase)) "Prepare target state before reconciliation"

-- `phase == 'preparing'`
abbrev pub is_preparing : Phase → Bool
is_preparing preparing = true
is_preparing _ = false

module _ {E : Type 0} (platform : Platform) (backend : Backend E) where
  -- the writes of `cancel`
  unfoldable pub run_cancel : State → Journal → Exec (World E) (Option Journal)
  run_cancel state tx = do
    on_env (backend.mark_bad tx.slot)
    good ← query (λ w. backend.good tx.slot w.env)
    require_not good "Bootloader did not disarm the target"
    selected ← query (λ w. backend.primary w.env)
    require_not (primary_is selected tx.slot) "Bootloader did not disarm the target"
    save_registry (record state { pending = none })
    let phase = if failed_trial state.last_failed_trial tx then failed else cancelled
    save_journal tx phase
    pure (some (record tx { phase = phase }))

  unfoldable pub cancel_live : State → Boot → Journal → Exec (World E) (Option Journal)
  unfolding run_cancel
  cancel_live state boot tx = do
    query (λ w. backend.validate_context boot w.env)
    require_not (not (is_source tx boot))
        "Cannot cancel from the target slot; boot the preserved source"
    require_not (pending_started state.pending tx)
        "Prepare fallback state before cancelling a started trial"
    run_cancel state tx

  abbrev pub cancel_journal : State → Boot → Option Journal → Exec (World E) (Option Journal)
  cancel_journal state boot none = pure none
  cancel_journal state boot (some tx) =
      if outstanding (some tx) then cancel_live state boot tx else pure (some tx)

  unfoldable pub cancel : Boot → Exec (World E) (Option Journal)
  cancel boot = do
    lift platform.admission
    lift platform.running
    state ← query (λ w. load w.registry)
    journal ← query (λ w. load_journal platform.policy_revision w.journal)
    cancel_journal state boot journal

  -- the target has booted
  unfoldable pub reconcile_target : Option Pending → Journal → Exec (World E) NextStep
  reconcile_target pending tx = do
    require_not (not (is_announced tx.phase)) "Target booted without an announced activation"
    lift (prepared_target pending tx.phase)
    if is_arming tx.phase then (do save_journal tx armed; pure needs_health) else pure needs_health

  -- a crash before or during the pre-disarm: the old boot policy is put back
  unfoldable pub reconcile_preparing : Boot → Journal → Exec (World E) NextStep
  reconcile_preparing boot tx = do
    require_not (not (str_eq boot.boot_id tx.boot_id))
        "Pre-disarm recovery requires the original source boot"
    on_env (backend.restore_pre_disarm tx.previous_boot_policy tx.slot tx.previous_slot)
    save_journal tx failed
    pure restored_pre_disarm

  -- the source still runs, or runs again
  unfoldable pub source_step : Option Pending → Journal → Phase → Exec (World E) NextStep
  source_step pending tx installing = pure needs_cancel
  source_step pending tx staged = do
    require_not (is_some pending) "Staged transaction unexpectedly has a pending trial"
    pure staged_next
  source_step pending tx arming = pure needs_arm
  source_step pending tx armed = do
    selected ← query (λ w. if is_some pending then backend.primary w.env else ok none)
    pure (if primary_is selected tx.slot then awaiting_reboot else needs_cancel)
  source_step pending tx _ =
      raise (value_error "Confirmation journal cannot resume from the source boot")

  unfoldable pub reconcile_source : Option Pending → Boot → Journal → Exec (World E) NextStep
  unfolding source_step
  reconcile_source pending boot tx = do
    require_not (pending_is_trial pending) "Prepare fallback state before reconciliation"
    if str_eq boot.boot_id tx.boot_id then source_step pending tx tx.phase else pure needs_cancel

  unfoldable pub reconcile_live : State → Boot → Journal → Exec (World E) NextStep
  unfolding reconcile_target reconcile_preparing reconcile_source
  reconcile_live state boot tx = do
    require_source platform backend state boot (policy_options tx.update_policy)
    require_not (pending_disagrees state.pending tx) "Pending trial and transaction disagree"
    if is_target tx boot then reconcile_target state.pending tx else (do
      require_not (not (is_source tx boot)) "Running release is outside the transaction"
      if is_preparing tx.phase
          then reconcile_preparing boot tx
          else reconcile_source state.pending boot tx)

  -- no journal, or a settled one
  unfoldable pub reconcile_idle : State → Exec (World E) NextStep
  reconcile_idle state = do
    require_not (is_some state.pending) "Pending trial has no live transaction"
    pure idle

  abbrev pub reconcile_journal : State → Boot → Option Journal → Exec (World E) NextStep
  reconcile_journal state boot none = reconcile_idle state
  reconcile_journal state boot (some tx) =
      if outstanding (some tx) then reconcile_live state boot tx else reconcile_idle state

  unfoldable pub reconcile : Boot → Exec (World E) NextStep
  unfolding reconcile_idle reconcile_live
  reconcile boot = do
    lift platform.admission
    lift platform.running
    state ← query (λ w. load w.registry)
    journal ← query (λ w. load_journal platform.policy_revision w.journal)
    reconcile_journal state boot journal

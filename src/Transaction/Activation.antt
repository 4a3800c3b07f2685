-- ===== src/Transaction/Activation.antt =====
-- `arm` and `confirm`: the target is selected for a trial boot, and a healthy trial becomes the
-- running system. Both write the journal first, then the registry and the boot selection.
pub mod Durable
pub mod Confirming
use sv08_mainline.Base.{
  String, Bool, true, false, ◌&&◌, ◌||◌, not, Option, none, some, Result, ok, err, value_error,
  refuse_if, str_eq, if◌then◌else◌, is_some,
}
use sv08_mainline.Base.Exec.{Exec, pure, lift, query, require_not, ◌>>=◌, ◌>>◌}
use sv08_mainline.Policy.{Options, UpdatePolicy, effective, to_options}
use sv08_mainline.Registry.{Slot, State, Boot, Pending, load}
use sv08_mainline.Admission.{admit, policy_eq}
use sv08_mainline.Update.Interfaces.{
  World, Journal, Backend, Platform, save_registry, save_journal, on_env, arming, armed, confirming,
  complete,
}
use sv08_mainline.Update.Journals.{load_journal, or_defaults, given_proof}
use sv08_mainline.Transaction.Checks.{
  policy_options, primary_is, can_arm, is_armed, can_confirm, is_confirming, is_source, is_target,
  pending_conflicts, pending_unprepared, armed_pending,
}
use sv08_mainline.Transaction.Stage.{source_admitted, requested_options, require_source}

abbrev pub journal_options : Option Journal → Option Options
journal_options none = none
journal_options (some tx) = policy_options tx.update_policy

-- the journal of an update that this boot staged, and may select
abbrev pub armable : Option Journal → Boot → Result Journal
armable none boot =
    err (value_error "Activation requires the original staging boot; reconcile after a reboot")
armable (some tx) boot =
    if can_arm tx.phase && is_source tx boot && str_eq boot.boot_id tx.boot_id
    then ok tx
    else err (value_error "Activation requires the original staging boot; reconcile after a reboot")

-- the journal of the running target
abbrev pub confirmable : Option Journal → Boot → Result Journal
confirmable none boot = err (value_error "No matching running trial")
confirmable (some tx) boot =
    if can_confirm tx.phase && is_target tx boot
    then ok tx
    else err (value_error "No matching running trial")

module _ {E : Type 0} (platform : Platform) (backend : Backend E) where
  -- the slot is selected and good
  abbrev pub require_selected : Slot → String → Exec (World E) (Unit {0})
  require_selected slot message = do
    selected ← query (λ w. backend.primary w.env)
    require_not (not (primary_is selected slot)) message
    good ← query (λ w. backend.good slot w.env)
    require_not (not good) message

  -- the tests of `arm` under its lock
  unfoldable pub plan_arm : State → Boot → Bool → Exec (World E) Journal
  plan_arm state boot automatic = do
    journal ← query (λ w. load_journal platform.policy_revision w.journal)
    tx ← lift (armable journal boot)
    require_not (automatic && not tx.automatic)
        "Activation origin differs from the admitted transaction"
    policy ←
        lift (
          effective (requested_options automatic state (policy_options tx.update_policy)) automatic)
    require_not (not (policy_eq policy (or_defaults tx.update_policy)))
        "Update policy changed after staging; cancel and review again"
    require_source platform backend state boot (some (to_options policy))
    lift (admit (given_proof tx.admission_proof) state boot (some (to_options policy)) automatic)
    require_not (pending_conflicts state.pending tx) "Another state trial is pending"
    pure tx

  -- an armed trial is only checked: its attempt counters are never replenished
  unfoldable pub still_armed : State → Journal → Exec (World E) Journal
  still_armed state tx = do
    selected ← query (λ w. backend.primary w.env)
    require_not (not (is_some state.pending) || not (primary_is selected tx.slot))
        "Armed state/bootloader disagreement requires reconciliation"
    pure tx

  -- the writes of `arm`
  unfoldable pub run_arm : State → Journal → Exec (World E) Journal
  run_arm state tx = do
    save_journal tx arming
    save_registry (record state { pending = some (armed_pending tx) })
    on_env (backend.mark_active tx.slot)
    require_selected tx.slot "Bootloader did not select the staged trial"
    save_journal tx armed
    pure (record tx { phase = armed })

  unfoldable pub arm : Boot → Bool → Exec (World E) Journal
  arm boot automatic = do
    staged ← query (λ w. load_journal platform.policy_revision w.journal)
    admitted ← source_admitted platform backend boot automatic (journal_options staged) (ok tt)
    let state = admitted.0
    tx ← plan_arm state boot automatic
    if is_armed tx.phase then still_armed state tx else run_arm state tx

  -- the tests of `confirm`; `health` is the callback
  unfoldable pub plan_confirm : (Boot → Result Bool) → Boot → Exec (World E) (State × Journal)
  plan_confirm health boot = do
    lift platform.admission
    lift platform.running
    state ← query (λ w. load w.registry)
    journal ← query (λ w. load_journal platform.policy_revision w.journal)
    tx ← lift (confirmable journal boot)
    require_source platform backend state boot (policy_options tx.update_policy)
    require_not (pending_unprepared state.pending tx) "Trial state has not been prepared"
    require_not (not (is_some state.pending) && not (is_confirming tx.phase)) "Missing trial state"
    healthy ← lift (health boot)
    require_not (not healthy) "Trial health has not passed"
    pure (state, tx)

  -- the writes of `confirm`
  unfoldable pub run_confirm : State → Journal → Exec (World E) Journal
  run_confirm state tx = do
    save_journal tx confirming
    on_env (backend.mark_good tx.slot)
    require_selected tx.slot "Bootloader did not confirm the target as primary"
    save_registry (record state { pending = none })
    save_journal tx complete
    pure (record tx { phase = complete })

  unfoldable pub confirm : (Boot → Result Bool) → Boot → Exec (World E) Journal
  confirm health boot = do planned ← plan_confirm health boot; run_confirm planned.0 planned.1

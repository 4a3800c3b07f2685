-- ===== src/Examples/Update.antt =====
-- The update of the example, at every stage of it.
use sv08_mainline.Base.{◌≡◌, refl, true, false, none, some, Result, ok}
use sv08_mainline.Base.Exec.{◌>>=◌, ◌>>◌}
use sv08_mainline.Policy.{effective}
use sv08_mainline.Registry.{slot_a, slot_b, load, identifier, trial}
use sv08_mainline.Admission.{check_source, admit}
use sv08_mainline.Bootloader.{Device, primary, slot_good, environment_valid, handle, disarm}
use sv08_mainline.Rauc.{disarm_target, boot_policy, mark}
use sv08_mainline.Update.Interfaces.{World, Journal, durable, on_env, staged, complete, cancelled}
use sv08_mainline.Update.Journals.{load_journal, is_sha256}
use sv08_mainline.Update.Generations.{source_record, revised, generation_name}
use sv08_mainline.Update.Generations.{generation_name}
use sv08_mainline.Update.Boot.{
  prepare_boot, run_boot, new_record, new_generation, copyable, copy_or_remove, snapshot,
  make_directory,
}
use sv08_mainline.Update.Boot.Copying.{IsStored}
use sv08_mainline.Update.Boot.Preparing.{
  prepare_boot_safe, prepare_boot_returns, prepare_boot_falls_back, IsKept, IsBooted,
}
use sv08_mainline.Transaction.Linked.{IsConsistent}
use sv08_mainline.Transaction.Stage.{
  stage, stage_upload, source_admitted, plan_stage, run_stage, stage_admitted,
}
use sv08_mainline.Transaction.Stage.Durable.{
  stage-IsRecoverable, stage_returns, IsRecoverable, IsStagedFrom,
}
use sv08_mainline.Transaction.Activation.{
  arm, confirm, plan_arm, run_arm, plan_confirm, run_confirm,
}
use sv08_mainline.Transaction.Activation.Durable.{
  arm-IsAnnounced, arm_returns, arm_idempotent, IsAnnounced, IsActivated,
}
use sv08_mainline.Transaction.Activation.Confirming.{
  confirm_safe, confirm_returns, IsConfirming, IsConfirmed,
}
use sv08_mainline.Transaction.Recovery.{cancel, cancel_live, reconcile, run_cancel}
use sv08_mainline.Transaction.Recovery.Cancelling.{cancel_safe, IsCancelling}
use sv08_mainline.Transaction.Recovery.Reconciling.{reconcile_conservative, IsReconciled}
use sv08_mainline.Transaction.Journey.{
  Reaches, here, later, staging, activating, Reaches-IsConsistent, Reaches-IsStored,
}
use sv08_mainline.Examples.{
  answers, device, proof, running, idle_world, staged_journal, staged_world, armed_world,
  trial_world, trial_boot, target, healthy, powered, pending_trial,
}

abbrev stages : World Device → Result Journal × World Device
stages w = stage answers device "two.raucb" proof running true none w

abbrev uploads : World Device → Result Journal × World Device
uploads w = stage_upload answers device (ok ("two.raucb", proof)) running true none w

test_staged : stages idle_world ≡ (ok staged_journal, staged_world)
unfolding stage source_admitted load identifier effective check_source admit plan_stage run_stage
    stage_admitted load_journal is_sha256 durable on_env ◌>>=◌ ◌>>◌ primary slot_good
    environment_valid handle disarm_target boot_policy disarm mark
test_staged = refl

test_uploaded : uploads idle_world ≡ (ok staged_journal, staged_world)
unfolding stage_upload source_admitted load identifier effective check_source admit plan_stage
    run_stage stage_admitted load_journal is_sha256 durable on_env ◌>>=◌ ◌>>◌ primary slot_good
    environment_valid handle disarm_target boot_policy disarm mark
test_uploaded = refl

test_armed :
    arm answers device running true staged_world
    ≡ (ok (record staged_journal { phase = sv08_mainline.Update.Interfaces.armed }), armed_world)
unfolding arm source_admitted load identifier effective check_source admit plan_arm run_arm
    load_journal is_sha256 durable on_env ◌>>=◌ ◌>>◌ primary slot_good environment_valid handle mark
test_armed = refl

test_trial : prepare_boot answers slot_b "two" 1 none armed_world ≡ (ok trial_boot, trial_world)
unfolding prepare_boot run_boot new_record new_generation copyable copy_or_remove snapshot
    make_directory source_record revised generation_name load identifier effective durable ◌>>=◌
    ◌>>◌
test_trial = refl

test_confirmed :
    (confirm answers device healthy target (powered trial_world)).0
    ≡ ok (record staged_journal { phase = complete })
unfolding confirm plan_confirm run_confirm load identifier effective check_source load_journal
    is_sha256 durable on_env ◌>>=◌ ◌>>◌ primary slot_good environment_valid handle mark
test_confirmed = refl

test_cancelled :
    (cancel answers device running armed_world).0
    ≡ ok (some (record staged_journal { phase = cancelled }))
unfolding cancel cancel_live run_cancel load identifier effective load_journal is_sha256 durable
    on_env ◌>>=◌ ◌>>◌ primary slot_good environment_valid handle disarm mark
test_cancelled = refl

-- the first slot boots again after the trial
test_fallback :
    (prepare_boot answers slot_a "one" 1 none trial_world).0
    ≡ ok (record trial_boot {
      slot = slot_a;
      release = "one";
      generation = "one-0123";
      trial = false;
    })
unfolding prepare_boot run_boot source_record revised load identifier effective durable ◌>>=◌ ◌>>◌
test_fallback = refl

staged_result : (stages idle_world).0 ≡ ok staged_journal
staged_result = rw test_staged refl

idle-IsConsistent : IsConsistent idle_world
idle-IsConsistent = record { linked = tt }

staged-IsConsistent : IsConsistent staged_world
staged-IsConsistent = record { linked = tt }

armed-IsConsistent : IsConsistent armed_world
armed-IsConsistent = record { linked = ((refl, refl, refl, refl), refl) }

trial-IsConsistent : IsConsistent (powered trial_world)
trial-IsConsistent = record { linked = ((refl, refl, refl, refl), refl) }

stage-IsRecoverable_example : IsRecoverable answers device idle_world (stages idle_world).1
stage-IsRecoverable_example =
    stage-IsRecoverable answers device "two.raucb" proof running true none idle_world

stage_returns_example :
    IsStagedFrom answers device proof running true none idle_world staged_journal
      (stages idle_world).1
stage_returns_example =
    stage_returns answers device "two.raucb" proof running true none idle_world staged_journal
      staged_result

arm-IsAnnounced_example :
    IsAnnounced answers device staged_world (arm answers device running true staged_world).1
arm-IsAnnounced_example =
    arm-IsAnnounced answers device running true staged_world staged-IsConsistent

arm_returns_example :
    IsActivated answers device
      (record staged_journal { phase = sv08_mainline.Update.Interfaces.armed })
      (arm answers device running true staged_world).1
arm_returns_example =
    arm_returns answers device running true staged_world
      (record staged_journal { phase = sv08_mainline.Update.Interfaces.armed }) staged-IsConsistent
      (rw test_armed refl)

arm_idempotent_example : (arm answers device running true armed_world).1 ≡ armed_world
arm_idempotent_example =
    arm_idempotent answers device running true armed_world
      (record staged_journal { phase = sv08_mainline.Update.Interfaces.armed }) refl refl

confirm_safe_example :
    IsConfirming answers device
      (powered trial_world)
      (confirm answers device healthy target (powered trial_world)).1
confirm_safe_example =
    confirm_safe answers device healthy target (powered trial_world) trial-IsConsistent

confirm_returns_example :
    IsConfirmed answers device healthy target
      (record staged_journal { phase = complete })
      (confirm answers device healthy target (powered trial_world)).1
confirm_returns_example =
    confirm_returns answers device healthy target (powered trial_world)
      (record staged_journal { phase = complete }) trial-IsConsistent test_confirmed

cancel_safe_example :
    IsCancelling answers device armed_world (cancel answers device running armed_world).1
cancel_safe_example = cancel_safe answers device running armed_world armed-IsConsistent

reconcile_conservative_example :
    IsReconciled answers device armed_world (reconcile answers device running armed_world).1
reconcile_conservative_example =
    reconcile_conservative answers device running armed_world armed-IsConsistent

prepare_boot_safe_example :
    IsKept slot_b
      (generation_name "two" answers.fresh_id)
      armed_world
      (prepare_boot answers slot_b "two" 1 none armed_world).1
prepare_boot_safe_example = prepare_boot_safe answers slot_b "two" 1 none armed_world

prepare_boot_returns_example :
    IsBooted slot_b "two" armed_world trial_boot
      (prepare_boot answers slot_b "two" 1 none armed_world).1
prepare_boot_returns_example =
    prepare_boot_returns answers slot_b "two" 1 none armed_world trial_boot (rw test_trial refl)

prepare_boot_falls_back_example :
    (false ≡ false)
    × ((prepare_boot answers slot_a "one" 1 none trial_world).1.registry.pending ≡ none)
    × ((prepare_boot answers slot_a "one" 1 none trial_world).1.registry.last_failed_trial
        ≡ some (pending_trial trial))
prepare_boot_falls_back_example =
    prepare_boot_falls_back answers slot_a "one" 1 none trial_world
      (record trial_boot { slot = slot_a; release = "one"; generation = "one-0123"; trial = false })
      (pending_trial trial) test_fallback refl refl refl refl

-- staging, then activation
abbrev history : Reaches device idle_world (arm answers device running true (stages idle_world).1).1
history =
    later (later (here idle_world) (staging answers "two.raucb" proof running true none idle_world))
      (activating answers running true (stages idle_world).1)

Reaches-IsConsistent_example :
    IsConsistent (arm answers device running true (stages idle_world).1).1
Reaches-IsConsistent_example =
    Reaches-IsConsistent device idle_world (arm answers device running true (stages idle_world).1).1
      history idle-IsConsistent

Reaches-IsStored_example :
    IsStored "one-0123" (arm answers device running true (stages idle_world).1).1.generations
Reaches-IsStored_example =
    Reaches-IsStored device idle_world (arm answers device running true (stages idle_world).1).1
      "one-0123" history refl idle-IsConsistent refl

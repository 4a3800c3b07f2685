-- ===== src/Rauc.antt =====
-- runtime/sv08_rauc.py: the boot policy that the coordinator's backend changes around an
-- installation. RAUC itself, which runs the handler of `Bootloader` for a state mutation and
-- reports the handler's answers in its status, is a parameter.
pub mod Selection
pub mod Restoring
pub mod Disarming
use sv08_mainline.Base.{
  ℕ, String, Bool, true, false, ◌&&◌, ◌||◌, not, Option, none, some, Result, ok, err, value_error,
  if◌then◌else◌, ◌==◌,
}
use sv08_mainline.Base.Exec.{Exec, pure, lift, query, require_not, ◌>>=◌, ◌>>◌}
use sv08_mainline.Registry.{Slot, slot_a, slot_b, slot_eq, Boot, Proof}
use sv08_mainline.Bootloader.{
  Environment, Device, Operation, Action, set_primary, set_good, set_bad, environment_valid, left,
  with_left, in_order, without, order_eq, write,
}
use sv08_mainline.Update.Interfaces.{Backend}

-- What the backend calls: `rauc status --output-format=json`, `rauc status mark-*` under an
-- operation marker, the writer guard, `verify_environment_copies`, the context and bundle
-- inspections, and the checked `rauc install`. `boot` is `self.boot`, the context it last validated.
pub record Rauc : Type 0 where
  pub boot_primary : Environment → Result (Option Slot)
  pub boot_status : Slot → Environment → Result Bool
  pub writer : Result (Unit {0})
  pub boot : Option Boot
  pub mark : Operation → Exec Device (Unit {0})
  pub copies : Result (Unit {0})
  pub context : Boot → Environment → Result (Unit {0})
  pub bundle : String → Proof → Slot → Environment → Result (Unit {0})
  pub install : String → Proof → Slot → Exec Device (Unit {0})

-- equality of two environments as mappings
abbrev pub environment_eq : Environment → Environment → Bool
environment_eq e f = order_eq e.order f.order && e.a_left == f.a_left && e.b_left == f.b_left

-- `expected`: the order without the target, whose counter is 0
abbrev pub disarmed : Slot → Environment → Environment
disarmed target e = with_left target 0 (record e { order = without target e.order })

-- `self.primary() == slot`
abbrev pub selects : Option Slot → Slot → Bool
selects none slot = false
selects (some p) slot = slot_eq p slot

module _ (rauc : Rauc) where
  -- `boot_policy`
  unfoldable pub boot_policy : Environment → Result Environment
  boot_policy e =
      if environment_valid e
      then ok e
      else err (value_error "Persistent environment layout/order/counters are invalid")

  abbrev pub validated : Option Boot → Result Boot
  validated none = err (value_error "Validate the running context before bootloader writes")
  validated (some boot) = ok boot

  unfoldable pub mark : Action → Slot → Exec Device (Unit {0})
  mark action slot = do
    lift rauc.writer
    boot ← lift (validated rauc.boot)
    query (λ d. rauc.context boot d.environment)
    rauc.mark (record { action = action; slot = slot })

  abbrev pub require_primary : Slot → String → Exec Device (Unit {0})
  require_primary source message = do
    selected ← query (λ d. rauc.boot_primary d.environment)
    require_not (not (selects selected source)) message

  abbrev pub require_good : Slot → String → Exec Device (Unit {0})
  require_good slot message = do
    good ← query (λ d. rauc.boot_status slot d.environment)
    require_not (not good) message

  unfoldable pub disarm_target : Slot → Slot → Exec Device (Unit {0})
  disarm_target target source = do
    require_not (slot_eq target source)
        "Pre-disarm requires a selected source and a distinct inactive target"
    require_primary source "Pre-disarm requires a selected source and a distinct inactive target"
    before ← query (λ d. boot_policy d.environment)
    mark set_bad target
    after ← query (λ d. boot_policy d.environment)
    let message : String = "Pre-disarm did not retain the selected source and disable the target"
    require_not (not (environment_eq after (disarmed target before))) message
    require_primary source message
    require_good source message
    bad ← query (λ d. rauc.boot_status target d.environment)
    require_not bad message

  -- `fw_setenv` of one counter, and the check of both copies
  abbrev pub restore_left : Slot → Environment → Environment → Exec Device (Unit {0})
  restore_left slot current previous =
      if left slot current == left slot previous
      then pure tt
      else (do write (with_left slot (left slot previous)); lift rauc.copies)

  abbrev pub restore_order : Environment → Environment → Exec Device (Unit {0})
  restore_order current previous =
      if order_eq current.order previous.order
      then pure tt
      else (do write (λ e. record e { order = previous.order }); lift rauc.copies)

  -- the tests after the writes
  unfoldable pub restored_check : Environment → Slot → Exec Device (Unit {0})
  restored_check previous source = do
    lift rauc.copies
    after ← query (λ d. boot_policy d.environment)
    let message : String =
        "Journaled boot policy could not be restored with the source still selected"
    require_not (not (environment_eq after previous)) message
    require_primary source message
    require_good source message

  -- the writes of `restore_pre_disarm`: the attempts first, the order last
  unfoldable pub restore_policy : Environment → Environment → Slot → Slot → Exec Device (Unit {0})
  restore_policy current previous target source = do
    require_not (in_order target current.order || not (left target current == 0))
        "Refusing to restore target policy when disarm is incomplete"
    restore_left slot_a current previous
    restore_left slot_b current previous
    restore_order current previous
    restored_check previous source

  unfoldable pub restore_pre_disarm : Environment → Slot → Slot → Exec Device (Unit {0})
  restore_pre_disarm previous target source = do
    lift rauc.copies
    lift (boot_policy previous)
    require_not (slot_eq target source) "Safe pre-disarm restoration conditions are not satisfied"
    require_primary source "Safe pre-disarm restoration conditions are not satisfied"
    require_good source "Safe pre-disarm restoration conditions are not satisfied"
    current ← query (λ d. boot_policy d.environment)
    require_not
        (not (environment_eq current previous || environment_eq current (disarmed target previous)))
        "Boot environment is neither the journaled pre-disarm nor expected post-disarm state"
    if environment_eq current previous
        then pure tt
        else restore_policy current previous target source

  -- the backend that the coordinator is given
  abbrev pub backend : Backend Device
  backend = record {
    validate_context = λ boot d. rauc.context boot d.environment;
    validate_bundle = λ bundle proof target d. rauc.bundle bundle proof target d.environment;
    primary = λ d. rauc.boot_primary d.environment;
    good = λ slot d. rauc.boot_status slot d.environment;
    boot_policy = λ d. boot_policy d.environment;
    disarm_target = disarm_target;
    restore_pre_disarm = restore_pre_disarm;
    install = rauc.install;
    mark_active = mark set_primary;
    mark_bad = mark set_bad;
    mark_good = mark set_good;
  }

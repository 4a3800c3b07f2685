-- ===== src/Bootloader/Commands.antt =====
-- What the handler's commands do to the boot selection, wherever their writes stop.
use sv08_mainline.Base.{◌≡◌, ◌≢◌, ◌⊎◌, ok, Result, true, Option, none, some, arith}
use sv08_mainline.Registry.{Slot}
use sv08_mainline.Bootloader.{
  Device, Operation, install, handle, Command, Reply, mark_state_bad, choose_primary, primary,
  slot_good, environment_valid, left, disarm,
}
use sv08_mainline.Bootloader.Steps.{disarm_primary, select_primary}

-- An operation marker under which no command may write.
abbrev pub PermitsNoWrite : Option Operation → Type 0
PermitsNoWrite none = Unit
PermitsNoWrite (some c) = c.action ≡ install

module _ (copies_verified : Result (Unit {0})) (context : Option Operation) (source : Slot) where
  -- Every command leaves an environment that the handler accepts, wherever its writes stop.
  pub handle-valid :
      (command : Command) (d : Device)
      → environment_valid d.environment ≡ true
      → environment_valid (handle copies_verified context source command d).1.environment ≡ true
  unfolding handle disarm
  handle-valid command d h = ground arith

  -- Disarming a slot keeps another selected slot selected, wherever its writes stop.
  pub handle_disarm-primary :
      (slot p : Slot) (d : Device)
      → environment_valid d.environment ≡ true
      → p ≢ slot
      → primary d.environment ≡ some p
      → primary (handle copies_verified context source (mark_state_bad slot) d).1.environment
        ≡ some p
  unfolding handle
  handle_disarm-primary slot p d h ne e = ground (
    arith,
    disarm_primary slot p d.environment.order d.environment.a_left d.environment.b_left d.writes h
        ne e,
  )

  -- Selecting a slot, wherever its writes stop, leaves the old selection or has made the new one.
  pub handle_select-primary :
      (slot : Slot) (d : Device)
      → environment_valid d.environment ≡ true
      → let e = (handle copies_verified context source (choose_primary slot) d).1.environment in
        (primary e ≡ primary d.environment) ⊎ (primary e ≡ some slot)
  unfolding handle
  handle_select-primary slot d h = ground (
    arith,
    select_primary context slot d.environment.order d.environment.a_left d.environment.b_left
        d.writes h,
  )

  -- Without a marker of the coordinator, and during an installation, no command writes anything.
  pub handle_unmarked :
      (command : Command) (d : Device)
      → PermitsNoWrite context
      → (handle copies_verified context source command d).1 ≡ d
  unfolding handle
  handle_unmarked command d h = ground arith

  -- A command that reports success has done what it says.
  pub handle_selected :
      (slot : Slot) (r : Reply) (d : Device)
      → (handle copies_verified context source (choose_primary slot) d).0 ≡ ok r
      → let e = (handle copies_verified context source (choose_primary slot) d).1.environment in
        (primary e ≡ some slot) × (slot_good e slot ≡ true) × (left slot e ≡ 3)
  unfolding handle
  handle_selected slot r d h = ground arith

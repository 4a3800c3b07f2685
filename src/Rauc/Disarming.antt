-- ===== src/Rauc/Disarming.antt =====
-- What `disarm_target` does to the boot policy, wherever it stops, if RAUC runs the handler of
-- `Bootloader` for the mutation that it is asked for.
use sv08_mainline.Base.{
  ◌≡◌, ◌⊎◌, inl, inr, refl, String, ◌≢◌, true, false, Option, none, some, Result, ok, arith,
}
use sv08_mainline.Base.Exec.{
  Outcome, Reads, reads, bind_read, then_read, then-Reads, at_read, at_then, at_end, weaken, always,
  returned,
}
use sv08_mainline.Registry.{Slot, slot_a, slot_b, slot_eq}
use sv08_mainline.Bootloader.{Environment, Device, environment_valid, primary}
use sv08_mainline.Rauc.{
  Rauc, disarmed, require_primary, require_good, disarm_target, mark, require_primary, require_good,
  selects,
}
use sv08_mainline.Rauc.Selection.{environment_eq-eq, boot_policy-ok}
use sv08_mainline.Bootloader.{
  Operation, Action, install, set_primary, set_good, set_bad, Command, mark_state_good,
  mark_state_bad, choose_primary, unsupported, handle,
}
use sv08_mainline.Bootloader.Commands.{handle_disarm-primary}

-- the command that RAUC gives its custom backend for a marked mutation
abbrev pub command_of : Operation → Command
command_of op = elim op.action [
  | install ↦ unsupported
  | set_primary ↦ choose_primary op.slot
  | set_good ↦ mark_state_good op.slot
  | set_bad ↦ mark_state_bad op.slot
]

-- RAUC leaves the environment to its custom backend: it runs the handler, or fails before it.
pub record IsHandled (rauc : Rauc) : Type 0 where
  pub handled :
      (op : Operation) (d : Device)
      → ((rauc.mark op d).1 ≡ d)
        ⊎ ((copies : Result (Unit {0})) × (source : Slot) × ((rauc.mark op d).1
              ≡ (handle copies (some op) source (command_of op) d).1))

-- What a pre-disarm that returned has done.
pub record IsDisarmedFrom (rauc : Rauc) (target source : Slot) (before after : Environment)
    : Type 0 where
  pub expected : after ≡ disarmed target before
  pub first : rauc.boot_primary after ≡ ok (some source)
  pub source_good : rauc.boot_status source after ≡ ok true
  pub target_bad : rauc.boot_status target after ≡ ok false

distinct : (t s : Slot) → slot_eq t s ≡ false → s ≢ t
distinct slot_a slot_b h = ground arith
distinct slot_b slot_a h = ground arith
distinct slot_a slot_a h = cc
distinct slot_b slot_b h = cc

selects-eq : (p : Option Slot) (s : Slot) → selects p s ≡ true → p ≡ some s
selects-eq none s h = cc
selects-eq (some p) s h = ground arith

module _ (rauc : Rauc) (target source : Slot) where
  require_primary-Reads :
      (message : String) (d : Device)
      → Reads
          (λ _. rauc.boot_primary d.environment ≡ ok (some source))
          d
          (require_primary rauc source message d)
  require_primary-Reads message d =
      bind_read _ _ _ refl λ p hp. reads _ _ λ _ h. ground (arith, selects-eq p source)

  require_good-Reads :
      (message : String) (d : Device)
      → Reads
          (λ _. rauc.boot_status source d.environment ≡ ok true)
          d
          (require_good rauc source message d)
  require_good-Reads message d = bind_read _ _ _ refl λ g hg. reads _ _ λ _ h. ground arith

  mark-Outcome :
      (action : Action) (d : Device) (R : Device → Type 0)
      → R d
      → R (rauc.mark (record { action = action; slot = target }) d).1
      → Outcome (λ _ d'. R d') R (mark rauc action target d)
  unfolding mark
  mark-Outcome action d R start marked = then_read _ _ _ start λ _ _.
      bind_read _ _ _ start λ boot _. then_read _ _ _ start λ _ _. at_end _ marked λ _ _ _ r. r

  disarm_target-Outcome :
      (d : Device) (R : Device → Type 0)
      → R d
      → (environment_valid d.environment ≡ true
          → slot_eq target source ≡ false
          → R (rauc.mark (record { action = set_bad; slot = target }) d).1)
      → Outcome
          (λ _ d'. IsDisarmedFrom rauc target source d.environment d'.environment × R d')
          R
          (disarm_target rauc target source d)
  unfolding disarm_target
  disarm_target-Outcome d R start marked = then_read _ _ _ start λ _ other.
      then-Reads _ _ _ (require_primary-Reads _ d) start λ _ _. bind_read _ _ _ start λ before hb.
        let valid = boot_policy-ok rauc d.environment before hb in
        at_then _ _ _ (
          weaken (mark-Outcome set_bad d R start (marked valid.1 (ground arith)))
            (λ _ d' r. bind_read _ _ _ r λ after ha. then_read _ _ _ r λ _ same.
              then-Reads _ _ _ (require_primary-Reads _ d') r λ _ hp.
                then-Reads _ _ _ (require_good-Reads _ d') r λ _ hg. bind_read _ _ _ r λ bad hbad.
                  at_read _ _ r λ _ hq. (
                    record {
                      expected = ground (
                        arith,
                        valid.0,
                        boot_policy-ok rauc d'.environment after ha,
                        environment_eq-eq after (disarmed target before),
                      );
                      first = hp;
                      source_good = hg;
                      target_bad = ground arith;
                    },
                    r,
                  ))
            (λ _ r. r))

  -- A pre-disarm that returns has taken the target out of the order and its attempts away and changed
  -- nothing else; the source is selected and good and the target is not good.
  pub disarm_target_returns :
      (d : Device)
      → (disarm_target rauc target source d).0 ≡ ok tt
      → IsDisarmedFrom rauc target source d.environment
          (disarm_target rauc target source d).1.environment
  disarm_target_returns d e =
      (returned _ (disarm_target-Outcome d (λ _. Unit {0}) tt (λ _ _. tt)) e).0

  -- If RAUC leaves the environment to the handler, and the source is selected, then it stays
  -- selected wherever a pre-disarm stops, at any write of the handler.
  pub disarm_target_keeps_source :
      IsHandled rauc
      → (d : Device) → primary d.environment ≡ some source
      → primary (disarm_target rauc target source d).1.environment ≡ some source
  disarm_target_keeps_source handler d start =
      always (λ d'. primary d'.environment ≡ some source) _
        (weaken
          (disarm_target-Outcome d (λ d'. primary d'.environment ≡ some source) start
            (λ v ne. marked (handler.handled (record { action = set_bad; slot = target }) d) v ne))
          (λ _ _ h. h.1) (λ _ h. h))
    where
      marked :
          ((rauc.mark (record { action = set_bad; slot = target }) d).1 ≡ d)
            ⊎ ((copies : Result (Unit {0})) × (s : Slot) × ((rauc.mark
                    (record { action = set_bad; slot = target })
                    d).1
                  ≡ (handle copies
                      (some (record { action = set_bad; slot = target }))
                      s
                      (mark_state_bad target)
                      d).1))
          → environment_valid d.environment ≡ true
          → slot_eq target source ≡ false
          → primary (rauc.mark (record { action = set_bad; slot = target }) d).1.environment
            ≡ some source
      marked (inl e) v ne = rw e start
      marked (inr (copies, s, e)) v ne = rw e (
          handle_disarm-primary copies (some (record { action = set_bad; slot = target })) s target
            source d v (distinct target source ne) start)

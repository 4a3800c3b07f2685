-- ===== src/Update/Boot.antt =====
-- `Store.prepare_boot` (runtime/sv08_state.py): which generation of the state a boot of a slot runs
-- on, and what the boot does to the registry before any application starts.
pub mod Copying
pub mod Generation
pub mod Preparing
use sv08_mainline.Base.{
  ℕ, String, Bool, true, false, ◌&&◌, ◌||◌, not, Option, none, some, List, [], ◌∷◌, ◌++◌, Result,
  ok, err, value_error, key_error, os_error, power_loss, str_eq, if◌then◌else◌, ◌==◌,
}
use sv08_mainline.Base.Exec.{Exec, pure, raise, lift, query, require_not, ◌>>=◌, ◌>>◌}
use sv08_mainline.Registry.{
  Slot, slot_eq, SlotRecord, put_slot, State, Pending, trial, is_trial, Mode, is_writable,
  identifier, load, release_revision,
}
use sv08_mainline.Update.Interfaces.{World, Platform, durable, save_registry}
use sv08_mainline.Update.Generations.{
  generation_path, generation_name, is_stored, without, trial_of, unexpected_release,
  current_record, source_record, revised,
}

-- `dict(slot=..., release=..., ...)`, which becomes `boot.json`
pub record Prepared : Type 0 where
  pub slot : Slot
  pub release : String
  pub mode : Mode
  pub generation : String
  pub trial : Bool
  pub customized : Bool

-- customization is remembered across a return to the immutable mode
abbrev pub marked_customized : State → SlotRecord → SlotRecord
marked_customized state r = record r {
  customized = is_writable state.requested_mode || r.customized;
}

-- the pending trial starts, falls back, or stays
abbrev pub pending_after : Bool → Slot → Option Pending → Option Pending
pending_after started slot none = none
pending_after started slot (some p) =
    if started
    then some (record p { phase = trial })
    else if is_trial p.phase && slot_eq p.previous_slot slot
    then none
    else some p

abbrev pub failed_after : Bool → Slot → Option Pending → Option Pending → Option Pending
failed_after started slot none failed = failed
failed_after started slot (some p) failed =
    if not started && is_trial p.phase && slot_eq p.previous_slot slot then some p else failed

-- the registry that the boot saves
abbrev pub booted_registry : State → Bool → Slot → SlotRecord → State
booted_registry state started slot r = record state {
  slots = put_slot slot r state.slots;
  pending = pending_after started slot state.pending;
  last_failed_trial = failed_after started slot state.pending state.last_failed_trial;
}

-- the revision that the caller gives, or that of the installed release manifest
abbrev pub given_revision : Platform → Option ℕ → Result (Option ℕ)
given_revision platform none = platform.installed_revision
given_revision platform (some n) = ok (some n)

abbrev pub parent_of : Option SlotRecord → Option String
parent_of none = none
parent_of (some source) = some source.generation

module _ {E : Type 0} (platform : Platform) where
  -- a new directory, which a name that is taken refuses
  unfoldable pub make_directory : String → Exec (World E) (Unit {0})
  make_directory target = do
    query (λ w. if is_stored target w.generations then err (os_error "File exists") else ok tt)
    durable (λ w. record w { generations = target ∷ w.generations })

  -- `snapshot`: the directory is there before its files are
  unfoldable pub snapshot : String → Exec (World E) (Unit {0})
  snapshot target = do lift platform.fingerprint; make_directory target; lift platform.copied

  -- `if target.exists(): shutil.rmtree(target)`
  unfoldable pub remove_target : String → Exec (World E) (Unit {0})
  remove_target target w =
      (if is_stored target w.generations
          then durable (λ v. record v { generations = without target v.generations })
          else pure tt)
        w

  -- `except BaseException`: the target is removed, and the exception leaves; none is seen of a stop
  abbrev pub or_remove : String → Result (Unit {0}) × World E → Result (Unit {0}) × World E
  or_remove target (ok _, w) = (ok tt, w)
  or_remove target (err power_loss, w) = (err power_loss, w)
  or_remove target (err (value_error m), w) = (remove_target target >> raise (value_error m)) w
  or_remove target (err (key_error m), w) = (remove_target target >> raise (key_error m)) w
  or_remove target (err (os_error m), w) = (remove_target target >> raise (os_error m)) w

  unfoldable pub copy_or_remove : String → Exec (World E) (Unit {0})
  copy_or_remove target w = or_remove target (snapshot target w)

  -- the tests that precede a copy of the source's generation
  unfoldable pub copyable : SlotRecord → ℕ → Exec (World E) (Unit {0})
  copyable source schema = do
    require_not (not (source.schema == schema)) "No supported state migration for this schema"
    query (λ w. generation_path source w.generations)
    lift platform.copy_budget

  -- the new directory, a copy of the source's generation or one with empty children
  unfoldable pub new_generation : Option SlotRecord → ℕ → String → Exec (World E) (Unit {0})
  new_generation none schema target = do
    lift platform.copy_budget
    make_directory target
    durable (λ w. w)
    lift platform.synced
  new_generation (some source) schema target = do copyable source schema; copy_or_remove target

  unfoldable pub new_record : State → Bool → String → ℕ → Exec (World E) SlotRecord
  new_record state started release schema = do
    source ← lift (source_record state started release)
    let target = generation_name release platform.fresh_id
    new_generation source schema target
    lift platform.synced
    pure (record {
      release = release;
      generation = target;
      schema = schema;
      customized = false;
      parent_generation = parent_of source;
      release_revision = none;
    })

  abbrev pub slot_record : State → Bool → Option SlotRecord → String → ℕ → Exec (World E) SlotRecord
  slot_record state started none release schema = new_record state started release schema
  slot_record state started (some r) release schema = pure r

  abbrev pub checked_revision : Option ℕ → Exec (World E) (Option ℕ)
  checked_revision none = pure none
  checked_revision (some n) = do v ← lift (release_revision n); pure (some v)

  -- the rest of the boot: its record is completed and saved
  unfoldable pub run_boot :
      State → Slot → String → Bool → SlotRecord → Option ℕ → Exec (World E) Prepared
  run_boot state slot release started r installed = do
    revised_record ←
        query (λ w. revised platform.policy_revision started state.pending w.journal r installed)
    query (λ w. generation_path revised_record w.generations)
    let final = marked_customized state revised_record
    save_registry (booted_registry state started slot final)
    generation ← query (λ w. generation_path final w.generations)
    pure (record {
      slot = slot;
      release = release;
      mode = state.requested_mode;
      generation = generation;
      trial = started;
      customized = final.customized;
    })

  unfoldable pub prepare_boot : Slot → String → ℕ → Option ℕ → Exec (World E) Prepared
  prepare_boot slot release schema revision = do
    given ← lift (given_revision platform revision)
    installed ← checked_revision given
    lift (identifier release)
    require_not (not (schema == 1)) "Unsupported slot/schema"
    state ← query (λ w. load w.registry)
    require_not (unexpected_release state.pending slot release)
        "Booted trial slot has an unexpected release"
    let started = trial_of state.pending slot release
    r ← slot_record state started (current_record state slot release) release schema
    run_boot state slot release started r installed

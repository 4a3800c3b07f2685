-- ===== src/Registry.antt =====
-- The durable records that the update path shares (runtime/sv08_state.py, runtime/sv08_boot.py):
-- the state registry `state.json` with its slots and pending trial, the running boot context, and
-- the authenticated proof of a bundle. `load` is what `Store.load` checks each time it reads.
-- JSON types are the types of the fields here, so that their `isinstance` tests are by typing.
pub mod SlotTable
pub use SlotTable.*
use sv08_mainline.Base.{
  ℕ, ◌-◌, String, Bool, true, false, ◌&&◌, ◌||◌, not, Option, none, some, List, [], ◌∷◌, Result, ok,
  err, value_error, refuse_if, any, str_eq, if◌then◌else◌, codes, is_alnum, all_codes, leb, ◌==◌,
  length, is_some,
}
use sv08_mainline.Base.Outcome.{◌>>=◌, ◌>>◌}
use sv08_mainline.Policy.{Options, UpdatePolicy, effective}

-- `[A-Za-z0-9._-]`
abbrev is_identifier_code : ℕ → Bool
is_identifier_code c = is_alnum c || c == b'.' || c == b'_' || c == b'-'

abbrev matches_identifier : List ℕ → Bool
matches_identifier [] = false
matches_identifier (c ∷ cs) = is_alnum c && all_codes is_identifier_code cs && leb (length cs) 79

-- `re.fullmatch(r'[A-Za-z0-9][A-Za-z0-9._-]{0,79}', value)`
pub is_identifier : String → Bool
is_identifier s = matches_identifier (codes s)

unfoldable pub identifier : String → Result String
unfolding is_identifier
identifier s =
    if is_identifier s then ok s else err (value_error "Invalid release/generation identifier")

pub data Mode : Type 0 where
  immutable writable : Mode

abbrev pub is_writable : Mode → Bool
is_writable writable = true
is_writable immutable = false

pub data PendingPhase : Type 0 where
  armed trial : PendingPhase

abbrev pub is_trial : PendingPhase → Bool
is_trial trial = true
is_trial armed = false

pub record Pending : Type 0 where
  pub slot : Slot
  pub release : String
  pub previous_slot : Slot
  pub phase : PendingPhase
  pub id : String

pub record State : Type 0 where
  pub requested_mode : Mode
  pub auto_update : Bool
  pub update_policy : Option Options
  pub slots : Slots
  pub pending : Option Pending
  pub last_failed_trial : Option Pending

-- `/run/sv08/boot.json` with its boot identity
pub record Boot : Type 0 where
  pub slot : Slot
  pub release : String
  pub mode : Mode
  pub boot_id : String

-- What the bundle verifier returned; `signer_trusted` is `none` where it is no boolean.
pub record Proof : Type 0 where
  pub release : String
  pub bundle_sha256 : String
  pub release_revision : Option ℕ
  pub signer_trusted : Option Bool
  pub update_policy : Option UpdatePolicy

-- `sv08_update_policy.release_revision`: the value is a positive integer.
abbrev pub release_revision : ℕ → Result ℕ
release_revision n =
    if n == 0 then err (value_error "Release revision must be a positive integer") else ok n

abbrev checked_revision : Option ℕ → Result (Option ℕ)
checked_revision none = ok none
checked_revision (some n) = do r ← release_revision n; ok (some r)

abbrev check_record : SlotRecord → Result SlotRecord
check_record r = do
  checked_revision r.release_revision
  identifier r.release
  identifier r.generation
  refuse_if (not (r.schema == 1)) "Unsupported state schema; migration implementation required"
  ok r

check_slots : Slots → Result Slots
check_slots [] = ok []
check_slots ((k, r) ∷ rest) = do check_record r; check_slots rest; ok ((k, r) ∷ rest)

-- the trial slot holds the record of the trial release
abbrev trial_matches : Pending → Slots → Bool
trial_matches p slots = elim (find_slot p.slot slots) [
  | none ↦ false
  | some r ↦ str_eq r.release p.release
]

check_pending : Slots → Option Pending → Result (Option Pending)
check_pending slots none = ok none
check_pending slots (some p) = do
  refuse_if (not (is_some (find_slot p.previous_slot slots)) || slot_eq p.slot p.previous_slot)
      "Invalid pending transaction slots/phase"
  identifier p.release
  identifier p.id
  refuse_if (is_trial p.phase && not (trial_matches p slots))
      "Trial state does not match slot registry"
  ok (some p)

unfoldable pub load : State → Result State
unfolding check_slots check_pending
load state = do
  effective state.update_policy true
  check_slots state.slots
  check_pending state.slots state.pending
  ok state

-- ===== src/Update/Generations.antt =====
-- The reads of `Store.prepare_boot` (runtime/sv08_state.py): the state generation that a boot starts
-- from, its name, and the release revision that its record gets.
use sv08_mainline.Base.{
  ℕ, String, Bool, true, false, ◌&&◌, not, Option, none, some, List, [], ◌∷◌, Result, ok, err,
  value_error, refuse_if, or_key_error, any, str_eq, if◌then◌else◌, ◌==◌, take_chars, append_text,
}
use sv08_mainline.Base.Outcome.{◌>>=◌, ◌>>◌}
use sv08_mainline.Policy.{UpdatePolicy}
use sv08_mainline.Registry.{
  Slot, slot_eq, Slots, SlotRecord, find_slot, State, Pending, identifier, release_revision,
}
use sv08_mainline.Update.Interfaces.{Journal}
use sv08_mainline.Update.Journals.{load_journal}

-- `generation_path`: the generation's directory is there.
abbrev pub generation_path : SlotRecord → List String → Result String
generation_path r generations = do
  g ← identifier r.generation
  refuse_if (not (any (str_eq g) generations)) "Missing/invalid state generation; use recovery"
  ok g

-- `release[:60] + '-' + uuid.uuid4().hex[:12]`
unfoldable pub generation_name : String → String → String
generation_name release fresh =
    append_text (take_chars 60 release) (append_text "-" (take_chars 12 fresh))

-- the directory of a generation is there
abbrev pub is_stored : String → List String → Bool
is_stored name generations = any (str_eq name) generations

-- the generations once the directory of this name is removed
abbrev pub without : String → List String → List String
without name [] = []
without name (g ∷ gs) = if str_eq name g then without name gs else g ∷ without name gs

-- `pending and pending['slot'] == slot and pending['release'] == release`
abbrev pub trial_of : Option Pending → Slot → String → Bool
trial_of none slot release = false
trial_of (some p) slot release = slot_eq p.slot slot && str_eq p.release release

-- `pending and pending['slot'] == slot and pending['release'] != release`
abbrev pub unexpected_release : Option Pending → Slot → String → Bool
unexpected_release none slot release = false
unexpected_release (some p) slot release = slot_eq p.slot slot && not (str_eq p.release release)

-- the record of this slot, if it is of this release
abbrev pub current_record : State → Slot → String → Option SlotRecord
current_record state slot release = elim (find_slot slot state.slots) [
  | none ↦ none
  | some r ↦ if str_eq r.release release then some r else none
]

-- the first of the records of this release
abbrev same_release : String → Slots → Result (Option SlotRecord)
same_release release [] = err (value_error "Unannounced release; keep applications stopped")
same_release release ((k, r) ∷ rest) =
    if str_eq r.release release then ok (some r) else same_release release rest

abbrev is_empty : Slots → Bool
is_empty [] = true
is_empty (_ ∷ _) = false

-- the record whose generation is copied; none on the very first boot
unfoldable pub source_record : State → Bool → String → Result (Option SlotRecord)
source_record state true release = elim state.pending [
  | none ↦ ok none
  | some p ↦ (do r ← or_key_error (find_slot p.previous_slot state.slots) "slot"; ok (some r))
]
source_record state false release =
    if is_empty state.slots then ok none else same_release release state.slots

abbrev has_id : Option Pending → String → Bool
has_id none id = false
has_id (some p) id = str_eq id p.id

abbrev has_revision : Option ℕ → ℕ → Bool
has_revision none n = false
has_revision (some m) n = m == n

-- `record.get('release_revision', n) == n`
abbrev has_revision_or : Option ℕ → ℕ → Bool
has_revision_or none n = true
has_revision_or (some m) n = m == n

-- the journal of this trial names another revision
abbrev journal_differs : Option Journal → Option Pending → ℕ → Bool
journal_differs none pending n = false
journal_differs (some tx) pending n =
    has_id pending tx.id && not (has_revision tx.release_revision n)

-- the journal that `prepare_boot` loads only for a trial
abbrev trial_journal : (UpdatePolicy → String) → Bool → Option Journal → Result (Option Journal)
trial_journal policy_revision true journal = load_journal policy_revision journal
trial_journal policy_revision false journal = ok none

-- a journal that is read without being validated names the revision
abbrev journal_revision : Bool → Option Pending → Option Journal → Option ℕ
journal_revision trial pending none = none
journal_revision trial pending (some tx) =
    if trial && has_id pending tx.id then tx.release_revision else none

abbrev with_revision : SlotRecord → Option ℕ → Result SlotRecord
with_revision r none = ok r
with_revision r (some n) = do v ← release_revision n; ok (record r { release_revision = some v })

-- The revision that the record of the booted slot gets.
unfoldable pub revised :
    (UpdatePolicy → String)
    → Bool
    → Option Pending
    → Option Journal
    → SlotRecord
    → Option ℕ
    → Result SlotRecord
revised policy_revision trial pending journal r none =
    with_revision r (journal_revision trial pending journal)
revised policy_revision trial pending journal r (some n) = do
  refuse_if (not (has_revision_or r.release_revision n))
      "Installed release revision differs from slot registry"
  tx ← trial_journal policy_revision trial journal
  refuse_if (journal_differs tx pending n)
      "Installed release revision differs from admitted signed metadata"
  ok (record r { release_revision = some n })

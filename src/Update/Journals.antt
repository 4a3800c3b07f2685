-- ===== src/Update/Journals.antt =====
-- `Transaction.load` (runtime/sv08_transaction.py): what is checked each time the journal is read.
use sv08_mainline.Base.{
  ℕ, String, Bool, true, false, ◌&&◌, not, Option, none, some, Result, ok, refuse_if, str_eq, ◌==◌,
  codes, all_codes, is_hex, length,
}
use sv08_mainline.Base.Outcome.{◌>>=◌, ◌>>◌}
use sv08_mainline.Policy.{UpdatePolicy, defaults, effective, to_options}
use sv08_mainline.Registry.{Proof, slot_eq, identifier, release_revision}
use sv08_mainline.Admission.{policy_eq, is_true}
use sv08_mainline.Update.Interfaces.{Journal, Phase, complete, cancelled, failed}

-- `phase in ('complete', 'cancelled', 'failed')`
abbrev pub is_settled : Phase → Bool
is_settled complete = true
is_settled cancelled = true
is_settled failed = true
is_settled _ = false

-- a journal that is there and not settled
abbrev pub outstanding : Option Journal → Bool
outstanding none = false
outstanding (some tx) = not (is_settled tx.phase)

-- `re.fullmatch('[0-9a-f]{64}', value)`
unfoldable pub is_sha256 : String → Bool
is_sha256 s = all_codes is_hex (codes s) && length (codes s) == 64

abbrev text_is : Option String → String → Bool
text_is none t = false
text_is (some s) t = str_eq s t

abbrev revision_eq : Option ℕ → Option ℕ → Bool
revision_eq none none = true
revision_eq (some m) (some n) = m == n
revision_eq _ _ = false

-- `value`, or `effective()` where the key is missing
abbrev pub or_defaults : Option UpdatePolicy → UpdatePolicy
or_defaults none = defaults
or_defaults (some p) = p

-- `tx.get('admission_proof', {})`: the empty mapping has none of the keys that are read
abbrev pub given_proof : Option Proof → Proof
given_proof none = record {
  release = "";
  bundle_sha256 = "";
  release_revision = none;
  signer_trusted = none;
  update_policy = none;
}
given_proof (some p) = p

proof_agrees : Journal → UpdatePolicy → Proof → Bool
proof_agrees tx options proof =
    policy_eq (or_defaults proof.update_policy) options
    && str_eq proof.bundle_sha256 tx.bundle_sha256
    && str_eq proof.release tx.release
    && revision_eq proof.release_revision tx.release_revision

check_policy : (UpdatePolicy → String) → Journal → Option UpdatePolicy → Result (Unit {0})
unfolding proof_agrees
check_policy policy_revision tx none = ok tt
check_policy policy_revision tx (some p) = do
  options ← effective (some (to_options p)) tx.automatic
  refuse_if (not (text_is tx.policy_revision (policy_revision options)))
      "Invalid journal policy revision"
  let proof = given_proof tx.admission_proof
  refuse_if (not (proof_agrees tx options proof)) "Journal admission proof and policy disagree"
  refuse_if (tx.automatic && not (is_true proof.signer_trusted))
      "Automatic journal requires trusted provenance"

abbrev check_revision : Option ℕ → Result (Unit {0})
check_revision none = ok tt
check_revision (some n) = do release_revision n; ok tt

check_journal : (UpdatePolicy → String) → Journal → Result (Unit {0})
unfolding check_policy
check_journal policy_revision tx = do
  refuse_if (slot_eq tx.slot tx.previous_slot) "Invalid transaction slots"
  identifier tx.id
  identifier tx.release
  identifier tx.previous_release
  identifier tx.boot_id
  refuse_if (not (is_sha256 tx.bundle_sha256)) "Invalid bundle identity"
  check_revision tx.release_revision
  check_policy policy_revision tx tx.update_policy

unfoldable pub load_journal : (UpdatePolicy → String) → Option Journal → Result (Option Journal)
unfolding check_journal
load_journal policy_revision none = ok none
load_journal policy_revision (some tx) = do check_journal policy_revision tx; ok (some tx)

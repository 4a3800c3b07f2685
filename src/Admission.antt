-- ===== src/Admission.antt =====
-- `admit` and `check_source` of runtime/sv08_update_policy.py: whether the update policy lets this
-- bundle replace this running system.
pub mod Laws
use sv08_mainline.Base.{
  ℕ, String, Bool, true, false, ◌&&◌, ◌||◌, not, Option, none, some, List, [], ◌∷◌, Result, ok, err,
  value_error, refuse_if, or_key_error, any, str_eq, if◌then◌else◌, ltb, ◌==◌,
}
use sv08_mainline.Base.Outcome.{◌>>=◌, ◌>>◌}
use sv08_mainline.Policy.{Options, UpdatePolicy, effective}
use sv08_mainline.Registry.{
  State, Boot, Proof, Slots, SlotRecord, find_slot, release_revision, is_writable,
}

abbrev pub bool_eq : Bool → Bool → Bool
bool_eq true b = b
bool_eq false b = not b

-- equality of two policies as mappings
abbrev pub policy_eq : UpdatePolicy → UpdatePolicy → Bool
policy_eq p q =
    bool_eq p.check_compatibility q.check_compatibility
    && bool_eq p.check_customization q.check_customization
    && bool_eq p.check_version q.check_version
    && bool_eq p.allow_downgrade q.allow_downgrade
    && bool_eq p.allow_untrusted_provenance q.allow_untrusted_provenance

-- `proof.get('update_policy') is not None and proof['update_policy'] != policy`
abbrev policy_differs : Option UpdatePolicy → UpdatePolicy → Bool
policy_differs none p = false
policy_differs (some q) p = not (policy_eq q p)

-- `value is True`
abbrev pub is_true : Option Bool → Bool
is_true none = false
is_true (some b) = b

-- the release ordering, on the revisions of the running slot and of the bundle
admit_revisions : UpdatePolicy → Option ℕ → Option ℕ → Result (Unit {0})
admit_revisions policy none candidate =
    err (value_error "Release ordering is unknown; signed release revisions are required")
admit_revisions policy (some current) none =
    err (value_error "Release ordering is unknown; signed release revisions are required")
admit_revisions policy (some current) (some candidate) = do
  release_revision current
  release_revision candidate
  refuse_if (candidate == current) "Release revision is already installed"
  refuse_if (ltb candidate current && not policy.allow_downgrade) "Release downgrade is disabled"

-- `if policy['check_version']: ...`
admit_version : UpdatePolicy → Proof → Option SlotRecord → Result (Unit {0})
unfolding admit_revisions
admit_version policy proof record? =
    if policy.check_version
    then (do
      r ← or_key_error record? "slot"
      admit_revisions policy r.release_revision proof.release_revision)
    else ok tt

admit_signer : UpdatePolicy → Option Bool → Result (Unit {0})
admit_signer policy none = err (value_error "Missing authenticated signer provenance proof")
admit_signer policy (some trusted) =
    refuse_if (not trusted && not policy.allow_untrusted_provenance)
      "Manual provenance exception was not reviewed"

unfoldable pub admit : Proof → State → Boot → Option Options → Bool → Result UpdatePolicy
unfolding admit_version admit_signer
admit proof state boot options automatic = do
  policy ← effective options automatic
  refuse_if (policy_differs proof.update_policy policy)
      "Authenticated proof differs from the reviewed update policy"
  refuse_if (automatic && not (is_true proof.signer_trusted))
      "Automatic updates require trusted bundle provenance"
  admit_signer policy proof.signer_trusted
  admit_version policy proof (find_slot boot.slot state.slots)
  ok policy

-- `any(r['customized'] for r in state['slots'].values())`
abbrev pub any_customized : Slots → Bool
any_customized [] = false
any_customized ((k, r) ∷ rest) = r.customized || any_customized rest

-- `not record or record['release'] != boot['release']`
abbrev runs_other : Option SlotRecord → String → Bool
runs_other none release = true
runs_other (some r) release = not (str_eq r.release release)

unfoldable pub check_source : State → Boot → Option Options → Result UpdatePolicy
check_source state boot options = do
  policy ← effective options false
  refuse_if (runs_other (find_slot boot.slot state.slots) boot.release)
      "Running release differs from state registry"
  refuse_if (is_writable boot.mode || is_writable state.requested_mode)
      "Writable system requires immutable mode before image replacement"
  refuse_if (policy.check_customization && any_customized state.slots)
      "Customized slots require reconciliation before image replacement"
  ok policy

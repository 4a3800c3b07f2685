-- ===== src/Admission/Laws.antt =====
-- What an admitted bundle and an admitted source satisfy.
use sv08_mainline.Base.{ℕ, ◌<◌, ◌≡◌, ◌≢◌, ◌⊎◌, Bool, true, false, Option, none, some, ok, arith}
use sv08_mainline.Policy.{Options, UpdatePolicy}
use sv08_mainline.Policy.Laws.{effective_automatic_trusted}
use sv08_mainline.Registry.{State, Boot, Proof, SlotRecord, find_slot}
use sv08_mainline.Admission.{admit, admit_revisions}

-- What the version test of a policy asks of the running slot's revision and the bundle's.
pub record IsOrdered (allow_downgrade : Bool) (current candidate : ℕ) : Type 0 where
  pub positive : (0 < current) × (0 < candidate)
  pub changes : candidate ≢ current
  pub forward : (current < candidate) ⊎ (allow_downgrade ≡ true)

abbrev pub IsOrderedAs : UpdatePolicy → Option ℕ → Option ℕ → Type 0
IsOrderedAs policy (some current) (some candidate) =
    IsOrdered policy.allow_downgrade current candidate
IsOrderedAs policy _ _ = ⊥

admit_revisions-ok :
    (policy : UpdatePolicy) (current candidate : Option ℕ)
    → admit_revisions policy current candidate ≡ ok tt
    → IsOrderedAs policy current candidate
unfolding admit_revisions
admit_revisions-ok policy none candidate h = cc
admit_revisions-ok policy (some c) none h = cc
admit_revisions-ok policy (some c) (some d) h = ground arith

-- An automatic update that is admitted has a trusted signer and no provenance exception.
pub admit_automatic :
    (proof : Proof) (state : State) (boot : Boot) (options : Option Options) (p : UpdatePolicy)
    → admit proof state boot options true ≡ ok p
    → (proof.signer_trusted ≡ some true) × (p.allow_untrusted_provenance ≡ false)
unfolding admit
admit_automatic proof state boot options p h = ground (arith, effective_automatic_trusted options p)

-- With the version test on, an admitted bundle moves the running slot's revision forward, or the
-- policy allows a downgrade; it never reinstalls the same revision.
pub admit_ordered :
    (proof : Proof) (state : State) (boot : Boot) (options : Option Options) (automatic : Bool)
    (p : UpdatePolicy) (r : SlotRecord)
    → admit proof state boot options automatic ≡ ok p
    → p.check_version ≡ true
    → find_slot boot.slot state.slots ≡ some r
    → IsOrderedAs p r.release_revision proof.release_revision
unfolding admit
admit_ordered proof state boot options automatic p r h v f =
    admit_revisions-ok p r.release_revision proof.release_revision (ground arith)

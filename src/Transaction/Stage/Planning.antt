-- ===== src/Transaction/Stage/Planning.antt =====
-- What the tests of `_stage_admitted` establish before anything is written.
use sv08_mainline.Base.{String, ◌≡◌, refl, Bool, false, Option, none, some, ok, arith, is_some}
use sv08_mainline.Base.Exec.{Reads, reads, bind_read, then_read, then-Reads, at_pure}
use sv08_mainline.Policy.{Options}
use sv08_mainline.Registry.{Slot, other_slot, State, Boot, Proof, Pending}
use sv08_mainline.Update.Interfaces.{World, Journal, Backend, Platform}
use sv08_mainline.Update.Journals.{outstanding}
use sv08_mainline.Update.Loading.{load_journal-ok}
use sv08_mainline.Transaction.Checks.{release_known}
use sv08_mainline.Transaction.Rules.{primary_is-eq}
use sv08_mainline.Transaction.Stage.{plan_stage, check_proof, check_copy_budget}

none_pending : (p : Option Pending) → is_some p ≡ false → p ≡ none
none_pending none h = refl
none_pending (some p) h = cc

module _ {E : Type 0} (platform : Platform) (backend : Backend E) where
  -- What the tests of `_stage_admitted` establish of the transaction that they begin.
  pub record IsPlanned (proof : Proof) (boot : Boot) (state : State) (automatic : Bool)
      (options : Option Options) (w : World E) (tx : Journal) : Type 0 where
    pub target : tx.slot ≡ other_slot boot.slot
    pub source : tx.previous_slot ≡ boot.slot
    pub release : tx.release ≡ proof.release
    pub idle : state.pending ≡ none
    pub settled : outstanding w.journal ≡ false
    pub new_release : release_known state.slots proof.release ≡ false
    pub selected : backend.primary w.env ≡ ok (some boot.slot)
    pub verified : (bundle : String) × (backend.validate_bundle bundle proof tx.slot w.env ≡ ok tt)
    pub undo : backend.boot_policy w.env ≡ ok tx.previous_boot_policy

  pub check_proof-Reads :
      (proof : Proof) (w : World E) → Reads (λ _. Unit {0}) w (check_proof platform backend proof w)
  check_proof-Reads proof w = then_read _ _ _ refl λ _ _. reads _ _ λ _ _. tt

  check_copy_budget-Reads :
      (state : State) (slot : Slot) (w : World E)
      → Reads (λ _. Unit {0}) w (check_copy_budget platform backend state slot w)
  check_copy_budget-Reads state slot w =
      bind_read _ _ _ refl λ _ _. then_read _ _ _ refl λ _ _. reads _ _ λ _ _. tt

  pub plan_stage-Reads :
      (bundle : String) (proof : Proof) (boot : Boot) (state : State) (automatic : Bool)
      (options : Option Options) (w : World E)
      → Reads
          (IsPlanned proof boot state automatic options w)
          w
          (plan_stage platform backend bundle proof boot state automatic options w)
  unfolding plan_stage
  plan_stage-Reads bundle proof boot state automatic options w =
      then-Reads _ _ _ (check_proof-Reads proof w) refl λ _ _. bind_read _ _ _ refl λ policy hp.
        bind_read _ _ _ refl λ previous loaded. then_read _ _ _ refl λ _ free.
          then_read _ _ _ refl λ _ new.
            then-Reads _ _ _ (check_copy_budget-Reads state boot.slot w) refl λ _ _.
              bind_read _ _ _ refl λ selected hs. then_read _ _ _ refl λ _ first.
                then_read _ _ _ refl λ _ verified. bind_read _ _ _ refl λ boot_policy hb.
                  bind_read _ _ _ refl λ boot_id hi. at_pure _ _ (
                    refl,
                    record {
                      target = refl;
                      source = refl;
                      release = refl;
                      idle = none_pending state.pending (ground arith);
                      settled = ground (
                        arith,
                        load_journal-ok platform.policy_revision w.journal previous loaded,
                      );
                      new_release = ground arith;
                      selected = ground (arith, primary_is-eq selected boot.slot);
                      verified = (bundle, verified);
                      undo = hb;
                    },
                  )

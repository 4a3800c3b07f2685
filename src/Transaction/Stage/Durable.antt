-- ===== src/Transaction/Stage/Durable.antt =====
-- What `stage` and `stage_upload` leave behind, however they end.
use sv08_mainline.Base.{
  ℕ, String, ◌≡◌, refl, sym, subst, ◌⊎◌, inl, inr, Bool, true, false, Option, none, some, Result,
  ok,
}
use sv08_mainline.Base.Exec.{Outcome, then-Reads, bind-Reads, at_pure, weaken, always, returned}
use sv08_mainline.Policy.{Options}
use sv08_mainline.Registry.{State, Boot, Proof}
use sv08_mainline.Update.Interfaces.{
  World, Journal, Phase, preparing, installing, staged, Backend, Platform, then_durable, then_env,
}
use sv08_mainline.Transaction.Rules.{IsDisarmed, require_disarmed-Reads, source_admitted-Reads}
use sv08_mainline.Transaction.Stage.{run_stage, stage_admitted, stage, stage_upload}
use sv08_mainline.Transaction.Stage.Planning.{IsPlanned, check_proof-Reads, plan_stage-Reads}

-- the phases of a transaction that has touched the boot policy and is not announced
abbrev pub is_staging : Phase → Bool
is_staging preparing = true
is_staging installing = true
is_staging staged = true
is_staging _ = false

module _ {E : Type 0} (platform : Platform) (backend : Backend E) where
  -- Wherever staging stops, the registry is as it was, and the backend is untouched or a journal
  -- that can undo the pre-disarm is durable.
  pub record IsRecoverable (w w' : World E) : Type 0 where
    pub registry_same : w'.registry ≡ w.registry
    pub generations_same : w'.generations ≡ w.generations
    pub journal_kept : (w'.journal ≡ w.journal) ⊎ (w.registry.pending ≡ none)
    pub undoable :
        (w'.env ≡ w.env)
        ⊎ ((tx : Journal) × (w'.journal ≡ some tx)
            × (is_staging tx.phase ≡ true)
            × (backend.boot_policy w.env ≡ ok tx.previous_boot_policy))

  -- What a staging that returned has done.
  pub record IsStaged (w : World E) (tx : Journal) (w' : World E) : Type 0 where
    pub registry_same : w'.registry ≡ w.registry
    pub journal : w'.journal ≡ some tx
    pub phase : tx.phase ≡ staged
    pub disarmed : IsDisarmed platform backend tx.previous_slot tx.slot w'.env

  unchanged : (w : World E) → IsRecoverable w w
  unchanged w = record {
    registry_same = refl;
    generations_same = refl;
    journal_kept = inl refl;
    undoable = inl refl;
  }

  pub run_stage-Outcome :
      (bundle : String) (proof : Proof) (tx : Journal) (w : World E)
      → backend.boot_policy w.env ≡ ok tx.previous_boot_policy
      → w.registry.pending ≡ none
      → Outcome
          (λ tx' w'. IsStaged w tx' w' × (tx' ≡ record tx { phase = staged }) × IsRecoverable w w')
          (IsRecoverable w)
          (run_stage platform backend bundle proof tx w)
  unfolding run_stage
  run_stage-Outcome bundle proof tx w undo idle = then_durable _ _ _ (unchanged w) λ n.
      then_env _ _ _ (λ e. undoing preparing refl)
        λ e.
          then-Reads _ _ _ (require_disarmed-Reads platform backend _ _ _ _)
            (undoing preparing refl)
            λ _ _. then_durable _ _ _ (undoing preparing refl) λ m.
              then_env _ _ _ (λ e'. undoing installing refl)
                λ e'.
                  then-Reads _ _ _ (require_disarmed-Reads platform backend _ _ _ _)
                    (undoing installing refl)
                    λ _ d. then_durable _ _ _ (undoing installing refl) λ k. at_pure _ _ (
                      record {
                        registry_same = refl;
                        journal = refl;
                        phase = refl;
                        disarmed = record { first = d.first; attempts = d.attempts };
                      },
                      refl,
                      undoing staged refl,
                    )
    where
      undoing :
          {e : E} {k : ℕ} (phase : Phase)
          → is_staging phase ≡ true
          → IsRecoverable w
              (record w { journal = some (record tx { phase = phase }); env = e; power = k })
      undoing phase h = record {
        registry_same = refl;
        generations_same = refl;
        journal_kept = inr idle;
        undoable = inr (record tx { phase = phase }, refl, h, undo);
      }

  -- What a staging that returned has done, and what it had found before.
  pub record IsStagedFrom (proof : Proof) (boot : Boot) (automatic : Bool)
      (options : Option Options) (w : World E) (tx : Journal) (w' : World E) : Type 0 where
    pub result : IsStaged w tx w'
    pub planned :
        (plan : Journal) × IsPlanned platform backend proof boot w.registry automatic options w plan
        × (tx ≡ record plan { phase = staged })

  stage_admitted-Outcome :
      (bundle : String) (proof : Proof) (boot : Boot) (state : State) (automatic : Bool)
      (options : Option Options) (w : World E)
      → state ≡ w.registry
      → Outcome
          (λ tx w'. IsStagedFrom proof boot automatic options w tx w' × IsRecoverable w w')
          (IsRecoverable w)
          (stage_admitted platform backend bundle proof boot state automatic options w)
  unfolding stage_admitted
  stage_admitted-Outcome bundle proof boot state automatic options w same =
      bind-Reads _ _ _
        (plan_stage-Reads platform backend bundle proof boot state automatic options w)
        (unchanged w)
        λ plan planned.
          weaken (run_stage-Outcome bundle proof plan w planned.undo (rw (sym same) planned.idle))
            (λ tx w' h. (
              record {
                result = h.0;
                planned = (
                  plan,
                  subst
                      (λ (s : State).
                        IsPlanned platform backend proof boot s automatic options w plan)
                      same planned,
                  h.1,
                );
              },
              h.2,
            ))
            (λ w' h. h)

  pub stage-Outcome :
      (bundle : String) (proof : Proof) (boot : Boot) (automatic : Bool) (options : Option Options)
      (w : World E)
      → Outcome
          (λ tx w'. IsStagedFrom proof boot automatic options w tx w' × IsRecoverable w w')
          (IsRecoverable w)
          (stage platform backend bundle proof boot automatic options w)
  unfolding stage
  stage-Outcome bundle proof boot automatic options w =
      then-Reads _ _ _ (check_proof-Reads platform backend proof w) (unchanged w) λ _ _.
        bind-Reads _ _ _ (source_admitted-Reads platform backend boot automatic options _ w)
          (unchanged w) λ x h. stage_admitted-Outcome bundle proof boot x.0 automatic options w h.0

  -- However a staging ends, at any write and with any failure of the backend, the registry and the
  -- generations are as they were, and either the backend is untouched or the durable journal holds
  -- the boot policy that the backend had before.
  pub stage-IsRecoverable :
      (bundle : String) (proof : Proof) (boot : Boot) (automatic : Bool) (options : Option Options)
      (w : World E)
      → IsRecoverable w (stage platform backend bundle proof boot automatic options w).1
  stage-IsRecoverable bundle proof boot automatic options w =
      always (IsRecoverable w) _
        (weaken (stage-Outcome bundle proof boot automatic options w) (λ _ _ h. h.1) (λ _ h. h))

  -- A staging that returns has journaled the transaction as staged, for the slot that does not run
  -- and a release that no slot had, with no other transaction open; the backend still selects the
  -- running source and the target is not good.
  pub stage_returns :
      (bundle : String) (proof : Proof) (boot : Boot) (automatic : Bool) (options : Option Options)
      (w : World E) (tx : Journal)
      → (stage platform backend bundle proof boot automatic options w).0 ≡ ok tx
      → IsStagedFrom proof boot automatic options w tx
          (stage platform backend bundle proof boot automatic options w).1
  stage_returns bundle proof boot automatic options w tx e =
      (returned _ (stage-Outcome bundle proof boot automatic options w) e).0

  pub stage_upload-Outcome :
      (lease : Result (String × Proof)) (boot : Boot) (automatic : Bool) (options : Option Options)
      (w : World E)
      → Outcome
          (λ tx w'.
            ((leased : String × Proof) × (lease ≡ ok leased)
              × IsStagedFrom leased.1 boot automatic options w tx w')
            × IsRecoverable w w')
          (IsRecoverable w)
          (stage_upload platform backend lease boot automatic options w)
  unfolding stage_upload
  stage_upload-Outcome lease boot automatic options w =
      bind-Reads _ _ _ (source_admitted-Reads platform backend boot automatic options lease w)
        (unchanged w)
        λ x h.
          weaken (stage_admitted-Outcome x.1.0 x.1.1 boot x.0 automatic options w h.0)
            (λ tx w' r. ((x.1, h.1, r.0), r.1)) (λ w' r. r)

  -- The same of an uploaded bundle: however its staging ends, the registry and the generations are
  -- as they were, and either the backend is untouched or the durable journal holds the boot policy
  -- that the backend had before.
  pub stage_upload-IsRecoverable :
      (lease : Result (String × Proof)) (boot : Boot) (automatic : Bool) (options : Option Options)
      (w : World E)
      → IsRecoverable w (stage_upload platform backend lease boot automatic options w).1
  stage_upload-IsRecoverable lease boot automatic options w =
      always (IsRecoverable w) _
        (weaken (stage_upload-Outcome lease boot automatic options w) (λ _ _ h. h.1) (λ _ h. h))

  -- The staging of an uploaded bundle that returns had the lease, and has staged the leased bundle
  -- with its proof, as the staging of a named bundle does.
  pub stage_upload_returns :
      (lease : Result (String × Proof)) (boot : Boot) (automatic : Bool) (options : Option Options)
      (w : World E) (tx : Journal)
      → (stage_upload platform backend lease boot automatic options w).0 ≡ ok tx
      → (leased : String × Proof) × (lease ≡ ok leased)
        × IsStagedFrom leased.1 boot automatic options w tx
            (stage_upload platform backend lease boot automatic options w).1
  stage_upload_returns lease boot automatic options w tx e =
      (returned _ (stage_upload-Outcome lease boot automatic options w) e).0

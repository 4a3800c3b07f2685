-- ===== src/Transaction/Activation/Confirming.antt =====
-- What `confirm` leaves behind, however it ends.
use sv08_mainline.Base.{
  ℕ, ◌≡◌, refl, ◌⊎◌, inl, inr, Bool, true, false, Option, none, some, Result, ok, arith, eq_iff,
}
use sv08_mainline.Base.Exec.{
  Outcome, Reads, bind_read, then_read, then-Reads, bind-Reads, at_pure, weaken, always, returned,
}
use sv08_mainline.Registry.{State, Boot}
use sv08_mainline.Update.Interfaces.{
  World, Journal, Phase, confirming, complete, Backend, Platform, then_durable, then_env,
}
use sv08_mainline.Update.Loading.{load-ok, load_journal-ok}
use sv08_mainline.Transaction.Checks.{can_confirm, pending_unprepared}
use sv08_mainline.Transaction.Linked.{IsFor, IsConsistent, linked-IsFor}
use sv08_mainline.Transaction.Rules.{IsSelected, require_selected-Reads, require_source-Reads}
use sv08_mainline.Transaction.Activation.{confirmable, plan_confirm, run_confirm, confirm}

module _ {E : Type 0} (platform : Platform) (backend : Backend E) where
  -- What the tests of `confirm` establish.
  pub record IsConfirmable (health : Boot → Result Bool) (boot : Boot) (w : World E)
      (x : State × Journal) : Type 0 where
    pub registry : x.0 ≡ w.registry
    pub journaled : w.journal ≡ some x.1
    pub phase : can_confirm x.1.phase ≡ true
    pub slot : boot.slot ≡ x.1.slot
    pub release : boot.release ≡ x.1.release
    pub prepared : pending_unprepared w.registry.pending x.1 ≡ false
    pub healthy : health boot ≡ ok true

  pub plan_confirm-Reads :
      (health : Boot → Result Bool) (boot : Boot) (w : World E)
      → Reads (IsConfirmable health boot w) w (plan_confirm platform backend health boot w)
  unfolding plan_confirm
  plan_confirm-Reads health boot w = then_read _ _ _ refl λ _ _. then_read _ _ _ refl λ _ _.
      bind_read _ _ _ refl λ state hs. bind_read _ _ _ refl λ journal hj.
        bind_read _ _ _ refl λ tx found.
          then-Reads _ _ _ (require_source-Reads platform backend state boot _ w) refl λ _ _.
            then_read _ _ _ refl λ _ prepared. then_read _ _ _ refl λ _ _.
              bind_read _ _ _ refl λ healthy hh. then_read _ _ _ refl λ _ well. at_pure _ _ (
                refl,
                found_confirmable state journal tx (load-ok w.registry state hs)
                    (load_journal-ok platform.policy_revision w.journal journal hj) found
                    (ground arith) (ground arith),
              )
    where
      found_confirmable :
          (state : State) (journal : Option Journal) (tx : Journal)
          → state ≡ w.registry
          → journal ≡ w.journal
          → confirmable journal boot ≡ ok tx
          → pending_unprepared state.pending tx ≡ false
          → health boot ≡ ok true
          → IsConfirmable health boot w (state, tx)
      found_confirmable state none tx same stored found prepared well = cc
      found_confirmable state (some j) tx same stored found prepared well = record {
        registry = same;
        journaled = ground arith;
        phase = ground arith;
        slot = ground arith;
        release = ground (arith, eq_iff boot.release tx.release, eq_iff boot.release j.release);
        prepared = ground arith;
        healthy = well;
      }

  -- Wherever a confirmation stops, the trial is still pending, or the backend has confirmed it.
  pub record IsConfirming (w w' : World E) : Type 0 where
    pub consistent : IsConsistent w'
    pub generations_same : w'.generations ≡ w.generations
    pub confirmed :
        (w'.registry ≡ w.registry)
        ⊎ ((tx : Journal) × (w'.journal ≡ some tx)
            × IsSelected platform backend tx.slot w'.env
            × (w'.registry ≡ record w.registry { pending = none }))

  -- What a confirmation that returned has done.
  pub record IsConfirmed (health : Boot → Result Bool) (boot : Boot) (tx : Journal) (w' : World E)
      : Type 0 where
    pub journal : w'.journal ≡ some tx
    pub phase : tx.phase ≡ complete
    pub running : boot.slot ≡ tx.slot
    pub healthy : health boot ≡ ok true
    pub settled : w'.registry.pending ≡ none
    pub selected : IsSelected platform backend tx.slot w'.env

  run_confirm-Outcome :
      (health : Boot → Result Bool) (boot : Boot) (state : State) (tx : Journal) (w : World E)
      → IsConsistent w
      → IsConfirmable health boot w (state, tx)
      → Outcome
          (λ tx' w'. IsConfirmed health boot tx' w' × IsConfirming w w')
          (IsConfirming w)
          (run_confirm platform backend w.registry tx w)
  unfolding run_confirm
  run_confirm-Outcome health boot state tx w c found =
      then_durable _ _ _ (record { consistent = c; generations_same = refl; confirmed = inl refl })
        λ n.
          then_env _ _ _ (λ e. waiting)
            λ e. then-Reads _ _ _ (require_selected-Reads platform backend _ _ _) waiting λ _ s.
              then_durable _ _ _ waiting λ m. then_durable _ _ _ (settling confirming s) λ k.
                at_pure _ _ (
                  record {
                    journal = refl;
                    phase = refl;
                    running = found.slot;
                    healthy = found.healthy;
                    settled = refl;
                    selected = record { first = s.first; attempts = s.attempts };
                  },
                  settling complete s,
                )
    where
      fits : IsFor w.registry.pending tx
      fits = linked-IsFor w.registry.pending w.journal tx c.linked found.journaled

      waiting :
          {e : E} {k : ℕ}
          → IsConfirming w
              (record w { journal = some (record tx { phase = confirming }); env = e; power = k })
      waiting = record {
        consistent = record { linked = ground arith };
        generations_same = refl;
        confirmed = inl refl;
      }

      settling :
          {e : E} {k : ℕ} (phase : Phase)
          → IsSelected platform backend tx.slot e
          → IsConfirming w (record w {
            registry = record w.registry { pending = none };
            journal = some (record tx { phase = phase });
            env = e;
            power = k;
          })
      settling phase s = record {
        consistent = record { linked = tt };
        generations_same = refl;
        confirmed = inr (record tx { phase = phase }, refl, s, refl);
      }

  pub confirm-Outcome :
      (health : Boot → Result Bool) (boot : Boot) (w : World E)
      → IsConsistent w
      → Outcome
          (λ tx w'. IsConfirmed health boot tx w' × IsConfirming w w')
          (IsConfirming w)
          (confirm platform backend health boot w)
  unfolding confirm
  confirm-Outcome health boot w c =
      bind-Reads _ _ _ (plan_confirm-Reads health boot w)
        (record { consistent = c; generations_same = refl; confirmed = inl refl })
        λ x found. rw found.registry (run_confirm-Outcome health boot x.0 x.1 w c found)

  -- From a consistent world, a confirmation that stops at any write, or at any failure of the
  -- backend, leaves a consistent world in which the registry is as it was, or the backend already
  -- selects the target as good and only the pending trial was cleared.
  pub confirm_safe :
      (health : Boot → Result Bool) (boot : Boot) (w : World E)
      → IsConsistent w
      → IsConfirming w (confirm platform backend health boot w).1
  confirm_safe health boot w c =
      always (IsConfirming w) _ (weaken (confirm-Outcome health boot w c) (λ _ _ h. h.1) (λ _ h. h))

  -- From a consistent world, a confirmation that returns ran on the target slot with a passed
  -- health check, has journaled the transaction as complete and cleared the pending trial, and the
  -- backend selects the target as good.
  pub confirm_returns :
      (health : Boot → Result Bool) (boot : Boot) (w : World E) (tx : Journal)
      → IsConsistent w
      → (confirm platform backend health boot w).0 ≡ ok tx
      → IsConfirmed health boot tx (confirm platform backend health boot w).1
  confirm_returns health boot w tx c e = (returned _ (confirm-Outcome health boot w c) e).0

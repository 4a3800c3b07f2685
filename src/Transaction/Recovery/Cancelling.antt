-- ===== src/Transaction/Recovery/Cancelling.antt =====
-- What `cancel` leaves behind, however it ends.
use sv08_mainline.Base.{
  ◌≡◌, refl, sym, ◌⊎◌, inl, inr, true, false, Option, none, some, ok, arith, if◌then◌else◌,
}
use sv08_mainline.Base.Exec.{
  Outcome, bind_read, then_read, at_pure, at_if, weaken, always, returned,
}
use sv08_mainline.Registry.{State, Boot, Slot}
use sv08_mainline.Update.Interfaces.{
  World, Journal, Phase, cancelled, failed, Backend, Platform, then_durable, then_env,
}
use sv08_mainline.Update.Journals.{outstanding, is_settled}
use sv08_mainline.Update.Loading.{load-ok, load_journal-ok}
use sv08_mainline.Transaction.Checks.{primary_is, failed_trial}
use sv08_mainline.Transaction.Linked.{IsConsistent}
use sv08_mainline.Transaction.Recovery.{run_cancel, cancel_live, cancel_journal, cancel}

-- The target can boot no more: it is not good, and another slot is selected.
pub record IsRetired {E : Type 0} (backend : Backend E) (slot : Slot) (e : E) : Type 0 where
  pub attempts : backend.good slot e ≡ ok false
  pub selection : (p : Option Slot) × (backend.primary e ≡ ok p) × (primary_is p slot ≡ false)

module _ {E : Type 0} (platform : Platform) (backend : Backend E) where
  -- Wherever a cancellation stops, the registry is as it was, or the target has been disarmed.
  pub record IsCancelling (w w' : World E) : Type 0 where
    pub consistent : IsConsistent w'
    pub generations_same : w'.generations ≡ w.generations
    pub retired :
        (w'.registry ≡ w.registry)
        ⊎ ((tx : Journal) × (w.journal ≡ some tx)
            × IsRetired backend tx.slot w'.env
            × (w'.registry ≡ record w.registry { pending = none }))

  -- What a cancellation that returned has done: nothing where no transaction was open.
  pub record IsCancelled (w : World E) (r : Option Journal) (w' : World E) : Type 0 where
    pub journal : w'.journal ≡ r
    pub settled : outstanding r ≡ false
    pub change : ((outstanding w.journal ≡ false) × (w' ≡ w)) ⊎ (w'.registry.pending ≡ none)

  abbrev settled_phase : State → Journal → Phase
  settled_phase state tx = if failed_trial state.last_failed_trial tx then failed else cancelled

  outstanding_settled : (state : State) (tx : Journal) → is_settled (settled_phase state tx) ≡ true
  outstanding_settled state tx = ground arith

  run_cancel-Outcome :
      (tx : Journal) (w : World E)
      → IsConsistent w
      → w.journal ≡ some tx
      → is_settled tx.phase ≡ false
      → Outcome
          (λ r w'. IsCancelled w r w' × IsCancelling w w')
          (IsCancelling w)
          (run_cancel platform backend w.registry tx w)
  unfolding run_cancel
  run_cancel-Outcome tx w c stored live =
      then_env _ _ _ (λ e. waiting)
        λ e. bind_read _ _ _ waiting λ g hg. then_read _ _ _ waiting λ _ hbad.
          bind_read _ _ _ waiting λ p hp. then_read _ _ _ waiting λ _ hother.
            let gone : IsRetired backend tx.slot e = record {
              attempts = ground arith;
              selection = (p, hp, ground arith);
            } in
            then_durable _ _ _ waiting λ n.
              then_durable _ _ _
                (record {
                  consistent = record { linked = tt };
                  generations_same = refl;
                  retired = inr (tx, stored, gone, refl);
                })
                λ m. at_pure _ _ (
                  record {
                    journal = refl;
                    settled = ground (arith, outstanding_settled w.registry tx);
                    change = inr refl;
                  },
                  record {
                    consistent = record { linked = tt };
                    generations_same = refl;
                    retired = inr (tx, stored, gone, refl);
                  },
                )
    where
      waiting : {e : E} → IsCancelling w (record w { env = e })
      waiting = record {
        consistent = record { linked = c.linked };
        generations_same = refl;
        retired = inl refl;
      }

  cancel_journal-Outcome :
      (boot : Boot) (journal : Option Journal) (w : World E)
      → IsConsistent w
      → journal ≡ w.journal
      → Outcome
          (λ r w'. IsCancelled w r w' × IsCancelling w w')
          (IsCancelling w)
          (cancel_journal platform backend w.registry boot journal w)
  unfolding cancel_live
  cancel_journal-Outcome boot none w c stored = at_pure _ _ (
    record { journal = sym stored; settled = refl; change = inl (ground arith, refl) },
    record { consistent = c; generations_same = refl; retired = inl refl },
  )
  cancel_journal-Outcome boot (some tx) w c stored =
      at_if (outstanding (some tx)) _ _ w
        (λ live. then_read _ _ _ unchanged λ _ _. then_read _ _ _ unchanged λ _ _.
          then_read _ _ _ unchanged λ _ _. run_cancel-Outcome tx w c (sym stored) (ground arith))
        (λ done. at_pure _ _ (
          record { journal = sym stored; settled = done; change = inl (ground arith, refl) },
          unchanged,
        ))
    where
      unchanged : IsCancelling w w
      unchanged = record { consistent = c; generations_same = refl; retired = inl refl }

  pub cancel-Outcome :
      (boot : Boot) (w : World E)
      → IsConsistent w
      → Outcome
          (λ r w'. IsCancelled w r w' × IsCancelling w w')
          (IsCancelling w)
          (cancel platform backend boot w)
  unfolding cancel
  cancel-Outcome boot w c = then_read _ _ _ unchanged λ _ _. then_read _ _ _ unchanged λ _ _.
      bind_read _ _ _ unchanged λ state hs. bind_read _ _ _ unchanged λ journal hj.
        rw (load-ok w.registry state hs) (
          cancel_journal-Outcome boot journal w c
            (load_journal-ok platform.policy_revision w.journal journal hj))
    where
      unchanged : IsCancelling w w
      unchanged = record { consistent = c; generations_same = refl; retired = inl refl }

  -- From a consistent world, a cancellation that stops at any write, or at any failure of the
  -- backend, leaves a consistent world in which the registry is as it was, or the backend no longer
  -- selects the target nor holds it good and only the pending trial was cleared.
  pub cancel_safe :
      (boot : Boot) (w : World E)
      → IsConsistent w
      → IsCancelling w (cancel platform backend boot w).1
  cancel_safe boot w c =
      always (IsCancelling w) _ (weaken (cancel-Outcome boot w c) (λ _ _ h. h.1) (λ _ h. h))

  -- From a consistent world, a cancellation that returns leaves a settled journal, or none. It
  -- has changed nothing where no transaction was open, or no trial is pending after it.
  pub cancel_returns :
      (boot : Boot) (w : World E) (r : Option Journal)
      → IsConsistent w
      → (cancel platform backend boot w).0 ≡ ok r
      → IsCancelled w r (cancel platform backend boot w).1
  cancel_returns boot w r c e = (returned _ (cancel-Outcome boot w c) e).0

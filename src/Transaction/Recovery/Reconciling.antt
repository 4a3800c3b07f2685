-- ===== src/Transaction/Recovery/Reconciling.antt =====
-- What `reconcile` changes, however it ends.
use sv08_mainline.Base.{ℕ, ◌≡◌, refl, sym, ◌⊎◌, inl, inr, Option, none, some, Result, arith, str_eq}
use sv08_mainline.Base.Exec.{
  Outcome, bind_read, then_read, then-Reads, at_read, at_pure, at_if, always,
}
use sv08_mainline.Registry.{Boot, Pending}
use sv08_mainline.Update.Interfaces.{
  World, Journal, Phase, preparing, installing, staged, arming, armed, failed, Backend, Platform,
  then_durable, then_env,
}
use sv08_mainline.Update.Journals.{outstanding}
use sv08_mainline.Update.Loading.{load-ok, load_journal-ok}
use sv08_mainline.Transaction.Checks.{is_target, is_arming}
use sv08_mainline.Transaction.Linked.{IsConsistent, linked-IsFor}
use sv08_mainline.Transaction.Rules.{require_source-Reads}
use sv08_mainline.Transaction.Recovery.{
  NextStep, reconcile_target, reconcile_preparing, source_step, reconcile_source, reconcile_live,
  reconcile_idle, reconcile_journal, reconcile, is_preparing,
}

module _ {E : Type 0} (platform : Platform) (backend : Backend E) where
  -- What a reconciliation may change: nothing but the phase of the journal and, for a transaction
  -- that is still preparing, the boot policy.
  pub record IsReconciled (w w' : World E) : Type 0 where
    pub consistent : IsConsistent w'
    pub registry_same : w'.registry ≡ w.registry
    pub generations_same : w'.generations ≡ w.generations
    pub policy :
        (w'.env ≡ w.env) ⊎ ((tx : Journal) × (w.journal ≡ some tx) × (tx.phase ≡ preparing))
    pub journal :
        (w'.journal ≡ w.journal)
        ⊎ ((tx : Journal) × (w.journal ≡ some tx)
            × (((tx.phase ≡ arming) × (w'.journal ≡ some (record tx { phase = armed })))
                ⊎ ((tx.phase ≡ preparing) × (w'.journal ≡ some (record tx { phase = failed })))))

  module _ (w : World E) (c : IsConsistent w) where
    unchanged : IsReconciled w w
    unchanged = record {
      consistent = c;
      registry_same = refl;
      generations_same = refl;
      policy = inl refl;
      journal = inl refl;
    }

    abbrev Settles : Result NextStep × World E → Type 0
    Settles x = Outcome (λ _ w'. IsReconciled w w') (IsReconciled w) x

    reconcile_target-Settles :
        (tx : Journal)
        → w.journal ≡ some tx
        → Settles (reconcile_target platform backend w.registry.pending tx w)
    unfolding reconcile_target
    reconcile_target-Settles tx stored = then_read _ _ _ unchanged λ _ _.
        then_read _ _ _ unchanged λ _ _.
          at_if (is_arming tx.phase) _ _ w
            (λ ar. then_durable _ _ _ unchanged λ n. at_pure _ _ (promoted n (ground arith)))
            (λ _. at_pure _ _ unchanged)
      where
        promoted :
            (n : ℕ)
            → tx.phase ≡ arming
            → IsReconciled w (record w { journal = some (record tx { phase = armed }); power = n })
        promoted n ar = record {
          consistent = record {
            linked = ground (arith, linked-IsFor w.registry.pending w.journal tx c.linked stored);
          };
          registry_same = refl;
          generations_same = refl;
          policy = inl refl;
          journal = inr (tx, stored, inl (ar, refl));
        }

    reconcile_preparing-Settles :
        (boot : Boot) (tx : Journal)
        → w.journal ≡ some tx
        → tx.phase ≡ preparing
        → Settles (reconcile_preparing platform backend boot tx w)
    unfolding reconcile_preparing
    reconcile_preparing-Settles boot tx stored prep = then_read _ _ _ unchanged λ _ _.
        then_env _ _ _ restoring
          λ e. then_durable _ _ _ (restoring e) λ n. at_pure _ _ (restored e n)
      where
        restoring : (e : E) → IsReconciled w (record w { env = e })
        restoring e = record {
          consistent = record { linked = c.linked };
          registry_same = refl;
          generations_same = refl;
          policy = inr (tx, stored, prep);
          journal = inl refl;
        }

        restored :
            (e : E) (n : ℕ)
            → IsReconciled w
                (record w { journal = some (record tx { phase = failed }); env = e; power = n })
        restored e n = record {
          consistent = record { linked = ground (arith, c.linked) };
          registry_same = refl;
          generations_same = refl;
          policy = inr (tx, stored, prep);
          journal = inr (tx, stored, inr (prep, refl));
        }

    source_step-Settles :
        (pending : Option Pending) (tx : Journal) (phase : Phase)
        → Settles (source_step platform backend pending tx phase w)
    unfolding source_step
    source_step-Settles pending tx installing = at_pure _ _ unchanged
    source_step-Settles pending tx staged = then_read _ _ _ unchanged λ _ _. at_pure _ _ unchanged
    source_step-Settles pending tx arming = at_pure _ _ unchanged
    source_step-Settles pending tx armed = bind_read _ _ _ unchanged λ _ _. at_pure _ _ unchanged
    source_step-Settles pending tx _ = at_read _ _ unchanged λ _ _. unchanged

    reconcile_source-Settles :
        (pending : Option Pending) (boot : Boot) (tx : Journal)
        → Settles (reconcile_source platform backend pending boot tx w)
    unfolding reconcile_source
    reconcile_source-Settles pending boot tx = then_read _ _ _ unchanged λ _ _.
        at_if (str_eq boot.boot_id tx.boot_id) _ _ w (λ _. source_step-Settles pending tx tx.phase)
          (λ _. at_pure _ _ unchanged)

    reconcile_live-Settles :
        (boot : Boot) (tx : Journal)
        → w.journal ≡ some tx
        → Settles (reconcile_live platform backend w.registry boot tx w)
    unfolding reconcile_live
    reconcile_live-Settles boot tx stored =
        then-Reads _ _ _ (require_source-Reads platform backend w.registry boot _ w) unchanged
          λ _ _. then_read _ _ _ unchanged λ _ _.
            at_if (is_target tx boot) _ _ w (λ _. reconcile_target-Settles tx stored)
              (λ _. then_read _ _ _ unchanged λ _ _.
                at_if (is_preparing tx.phase) _ _ w
                  (λ prep. reconcile_preparing-Settles boot tx stored (ground arith))
                  (λ _. reconcile_source-Settles w.registry.pending boot tx))

    reconcile_journal-Settles :
        (boot : Boot) (journal : Option Journal)
        → journal ≡ w.journal
        → Settles (reconcile_journal platform backend w.registry boot journal w)
    unfolding reconcile_idle
    reconcile_journal-Settles boot none stored =
        then_read _ _ _ unchanged λ _ _. at_pure _ _ unchanged
    reconcile_journal-Settles boot (some tx) stored =
        at_if (outstanding (some tx)) _ _ w (λ _. reconcile_live-Settles boot tx (sym stored))
          (λ _. then_read _ _ _ unchanged λ _ _. at_pure _ _ unchanged)

    pub reconcile-Outcome : (boot : Boot) → Settles (reconcile platform backend boot w)
    unfolding reconcile
    reconcile-Outcome boot = then_read _ _ _ unchanged λ _ _. then_read _ _ _ unchanged λ _ _.
        bind_read _ _ _ unchanged λ state hs. bind_read _ _ _ unchanged λ journal hj.
          rw (load-ok w.registry state hs) (
            reconcile_journal-Settles boot journal
              (load_journal-ok platform.policy_revision w.journal journal hj))

  -- From a consistent world, a reconciliation, however it ends, leaves the registry as it was and
  -- the world consistent. It changes the backend only for a journal in the phase preparing, and the
  -- journal only from arming to armed, or from preparing to failed.
  pub reconcile_conservative :
      (boot : Boot) (w : World E)
      → IsConsistent w
      → IsReconciled w (reconcile platform backend boot w).1
  reconcile_conservative boot w c = always (IsReconciled w) _ (reconcile-Outcome w c boot)

-- ===== src/Transaction/Activation/Durable.antt =====
-- What `arm` leaves behind, however it ends.
use sv08_mainline.Base.{
  ℕ, ◌≡◌, refl, ◌⊎◌, inl, inr, Bool, true, false, Option, none, some, ok, arith, is_some, eq_iff,
}
use sv08_mainline.Base.Exec.{
  Outcome, Reads, bind_read, then_read, then-Reads, bind-Reads, at_pure, at_if, weaken, always,
  returned,
}
use sv08_mainline.Registry.{State, Boot}
use sv08_mainline.Update.Interfaces.{
  World, Journal, Phase, arming, armed, Backend, Platform, then_durable, then_env,
}
use sv08_mainline.Update.Journals.{load_journal}
use sv08_mainline.Update.Loading.{load_journal-ok}
use sv08_mainline.Transaction.Checks.{
  is_announced, can_arm, is_armed, pending_conflicts, armed_pending,
}
use sv08_mainline.Transaction.Linked.{IsFor, IsConsistent, linked-IsFor}
use sv08_mainline.Transaction.Rules.{
  require_selected-Reads, require_source-Reads, source_admitted-Reads, primary_is-eq,
}
use sv08_mainline.Transaction.Activation.{
  armable, plan_arm, still_armed, run_arm, arm, journal_options,
}

module _ {E : Type 0} (platform : Platform) (backend : Backend E) where
  -- What the tests of `arm` establish of the journal.
  pub record IsArmable (boot : Boot) (state : State) (w : World E) (tx : Journal) : Type 0 where
    pub journaled : w.journal ≡ some tx
    pub phase : can_arm tx.phase ≡ true
    pub slot : boot.slot ≡ tx.previous_slot
    pub release : boot.release ≡ tx.previous_release
    pub same_boot : boot.boot_id ≡ tx.boot_id
    pub free : pending_conflicts state.pending tx ≡ false

  pub plan_arm-Reads :
      (state : State) (boot : Boot) (automatic : Bool) (w : World E)
      → Reads (IsArmable boot state w) w (plan_arm platform backend state boot automatic w)
  unfolding plan_arm
  plan_arm-Reads state boot automatic w = bind_read _ _ _ refl λ journal loaded.
      bind_read _ _ _ refl λ tx found. then_read _ _ _ refl λ _ origin.
        bind_read _ _ _ refl λ policy hp. then_read _ _ _ refl λ _ same.
          then-Reads _ _ _ (require_source-Reads platform backend state boot _ w) refl λ _ _.
            then_read _ _ _ refl λ _ admitted.
              then_read _ _ _ refl
                λ _ free. at_pure _ _ (refl, found_armable journal tx loaded found (ground arith))
    where
      found_armable :
          (journal : Option Journal) (tx : Journal)
          → load_journal platform.policy_revision w.journal ≡ ok journal
          → armable journal boot ≡ ok tx
          → pending_conflicts state.pending tx ≡ false
          → IsArmable boot state w tx
      found_armable none tx loaded found free = cc
      found_armable (some j) tx loaded found free =
          let stored = load_journal-ok platform.policy_revision w.journal (some j) loaded in
          record {
            journaled = ground arith;
            phase = ground arith;
            slot = ground arith;
            release = ground (
              arith,
              eq_iff boot.release tx.previous_release,
              eq_iff boot.release j.previous_release,
            );
            same_boot =
                ground (arith, eq_iff boot.boot_id tx.boot_id, eq_iff boot.boot_id j.boot_id);
            free = free;
          }

  -- Wherever an activation stops, the backend is untouched, or the trial that it may boot is
  -- announced by the durable journal and registered as pending.
  pub record IsAnnounced (w w' : World E) : Type 0 where
    pub consistent : IsConsistent w'
    pub generations_same : w'.generations ≡ w.generations
    pub announced :
        (w'.env ≡ w.env)
        ⊎ ((tx : Journal) × (w'.journal ≡ some tx)
            × (is_announced tx.phase ≡ true)
            × (w'.registry.pending ≡ some (armed_pending tx)))

  -- What an activation that returned has done.
  pub record IsActivated (tx : Journal) (w' : World E) : Type 0 where
    pub journal : w'.journal ≡ some tx
    pub phase : tx.phase ≡ armed
    pub pending : is_some w'.registry.pending ≡ true
    pub first : backend.primary w'.env ≡ ok (some tx.slot)

  run_arm-Outcome :
      (tx : Journal) (w : World E)
      → IsConsistent w
      → IsFor w.registry.pending tx
      → Outcome
          (λ tx' w'. IsActivated tx' w' × IsAnnounced w w')
          (IsAnnounced w)
          (run_arm platform backend w.registry tx w)
  unfolding run_arm
  run_arm-Outcome tx w c fits =
      then_durable _ _ _ (record { consistent = c; generations_same = refl; announced = inl refl })
        λ n.
          then_durable _ _ _
            (record {
              consistent = record { linked = ground arith };
              generations_same = refl;
              announced = inl refl;
            })
            λ m.
              then_env _ _ _ (λ e. announcing arming refl)
                λ e.
                  then-Reads _ _ _ (require_selected-Reads platform backend _ _ _)
                    (announcing arming refl)
                    λ _ s. then_durable _ _ _ (announcing arming refl) λ k. at_pure _ _ (
                      record { journal = refl; phase = refl; pending = refl; first = s.first },
                      announcing armed refl,
                    )
    where
      announcing :
          {e : E} {k : ℕ} (phase : Phase)
          → is_announced phase ≡ true
          → IsAnnounced w (record w {
            registry = record w.registry { pending = some (armed_pending tx) };
            journal = some (record tx { phase = phase });
            env = e;
            power = k;
          })
      announcing phase h = record {
        consistent = record { linked = ((refl, refl, refl, refl), h) };
        generations_same = refl;
        announced = inr (record tx { phase = phase }, refl, h, refl);
      }

  still_armed-Outcome :
      (tx : Journal) (w : World E)
      → IsConsistent w
      → w.journal ≡ some tx
      → is_armed tx.phase ≡ true
      → Outcome
          (λ tx' w'. IsActivated tx' w' × IsAnnounced w w')
          (IsAnnounced w)
          (still_armed platform backend w.registry tx w)
  unfolding still_armed
  still_armed-Outcome tx w c stored phase = bind_read _ _ _ unchanged λ p hp.
      then_read _ _ _ unchanged λ _ h. at_pure _ _ (
        record {
          journal = stored;
          phase = ground arith;
          pending = ground arith;
          first = ground (arith, primary_is-eq p tx.slot);
        },
        unchanged,
      )
    where
      unchanged : IsAnnounced w w
      unchanged = record { consistent = c; generations_same = refl; announced = inl refl }

  pub arm-Outcome :
      (boot : Boot) (automatic : Bool) (w : World E)
      → IsConsistent w
      → Outcome
          (λ tx w'. IsActivated tx w' × IsAnnounced w w')
          (IsAnnounced w)
          (arm platform backend boot automatic w)
  unfolding arm
  arm-Outcome boot automatic w c = bind_read _ _ _ unchanged λ staged hs.
      bind-Reads _ _ _
        (source_admitted-Reads platform backend boot automatic (journal_options staged) _ w)
        unchanged
        λ x h. bind-Reads _ _ _ (plan_arm-Reads x.0 boot automatic w) unchanged λ tx a.
          at_if (is_armed tx.phase) _ _ w
            (λ yes_armed. rw h.0 (still_armed-Outcome tx w c a.journaled yes_armed))
            (λ _. rw h.0 (
              run_arm-Outcome tx w c
                (linked-IsFor w.registry.pending w.journal tx c.linked a.journaled)))
    where
      unchanged : IsAnnounced w w
      unchanged = record { consistent = c; generations_same = refl; announced = inl refl }

  -- From a consistent world, an activation that stops at any write, or at any failure of the
  -- backend, leaves a consistent world in which either the backend is untouched, or the journal
  -- announces the activation and the registry holds its pending trial.
  pub arm-IsAnnounced :
      (boot : Boot) (automatic : Bool) (w : World E)
      → IsConsistent w
      → IsAnnounced w (arm platform backend boot automatic w).1
  arm-IsAnnounced boot automatic w c =
      always (IsAnnounced w) _ (weaken (arm-Outcome boot automatic w c) (λ _ _ h. h.1) (λ _ h. h))

  -- From a consistent world, an activation that returns has journaled the transaction as armed, a
  -- trial is pending, and the backend selects the target.
  pub arm_returns :
      (boot : Boot) (automatic : Bool) (w : World E) (tx : Journal)
      → IsConsistent w
      → (arm platform backend boot automatic w).0 ≡ ok tx
      → IsActivated tx (arm platform backend boot automatic w).1
  arm_returns boot automatic w tx c e = (returned _ (arm-Outcome boot automatic w c) e).0

  -- Arming a transaction whose journal is already armed changes nothing at all, whether it returns
  -- or raises: the attempt counters of the trial are never replenished.
  pub arm_idempotent :
      (boot : Boot) (automatic : Bool) (w : World E) (tx : Journal)
      → w.journal ≡ some tx
      → tx.phase ≡ armed
      → (arm platform backend boot automatic w).1 ≡ w
  unfolding arm still_armed
  arm_idempotent boot automatic w tx stored phase =
      always (λ w'. w' ≡ w) _
        (bind_read _ _ _ refl λ staged hs.
          bind-Reads _ _ _
            (source_admitted-Reads platform backend boot automatic (journal_options staged) _ w)
            refl
            λ x h. bind-Reads _ _ _ (plan_arm-Reads x.0 boot automatic w) refl λ t a.
              at_if (is_armed t.phase) _ _ w
                (λ _. bind_read _ _ _ refl λ _ _. then_read _ _ _ refl λ _ _. at_pure _ _ refl)
                (λ other. absurd (ground (arith, a.journaled))))

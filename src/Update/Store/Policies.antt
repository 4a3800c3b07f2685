-- ===== src/Update/Store/Policies.antt =====
-- What `Store.policy` changes, however it ends.
use sv08_mainline.Base.{
  ℕ, ◌≡◌, refl, ◌⊎◌, inl, inr, Bool, true, false, Option, none, some, Result, arith, is_some, ◌||◌,
}
use sv08_mainline.Base.Exec.{
  ◌>>◌, pure, Outcome, Reads, reads, bind_read, then_read, then-Reads, bind-Reads, at_pure, at_then,
  always,
}
use sv08_mainline.Policy.{Options}
use sv08_mainline.Registry.{Mode, State}
use sv08_mainline.Update.Interfaces.{World, Platform, save_registry, then_durable}
use sv08_mainline.Update.Journals.{outstanding}
use sv08_mainline.Update.Loading.{load-ok}
use sv08_mainline.Update.Store.{policy, change_mode, change_policy, change_automatic, when}

-- Everything of the registry that says what the slots hold and which trial is open.
pub record IsSameSystem (s s' : State) : Type 0 where
  pub slots : s'.slots ≡ s.slots
  pub pending : s'.pending ≡ s.pending
  pub last_failed_trial : s'.last_failed_trial ≡ s.last_failed_trial

module _ {E : Type 0} where
  -- A change of the policy touches the registry alone, and there the mode, the automatic flag and
  -- the options. The mode changes only if no trial is pending and no transaction is open.
  pub record IsPolicyChange (w w' : World E) : Type 0 where
    pub journal_same : w'.journal ≡ w.journal
    pub env_same : w'.env ≡ w.env
    pub generations_same : w'.generations ≡ w.generations
    pub system_same : IsSameSystem w.registry w'.registry
    pub mode_kept :
        (w'.registry.requested_mode ≡ w.registry.requested_mode)
        ⊎ ((is_some w.registry.pending || outstanding w.journal) ≡ false)

  same_world : (w : World E) → IsPolicyChange w w
  same_world w = record {
    journal_same = refl;
    env_same = refl;
    generations_same = refl;
    system_same = record { slots = refl; pending = refl; last_failed_trial = refl };
    mode_kept = inl refl;
  }

  -- a registry that `policy` may save in this world
  record IsAllowed (w : World E) (s : State) : Type 0 where
    system : IsSameSystem w.registry s
    mode :
        (s.requested_mode ≡ w.registry.requested_mode)
        ⊎ ((is_some w.registry.pending || outstanding w.journal) ≡ false)

  IsAllowed-automatic :
      (w : World E) (s : State) (b : Option Bool)
      → IsAllowed w s
      → IsAllowed w (change_automatic s b)
  IsAllowed-automatic w s none h = h
  IsAllowed-automatic w s (some b) h = record {
    system = record {
      slots = h.system.slots;
      pending = h.system.pending;
      last_failed_trial = h.system.last_failed_trial;
    };
    mode = h.mode;
  }

  saved :
      (w : World E) (s : State) (n : ℕ)
      → IsAllowed w s
      → IsPolicyChange w (record w { registry = s; power = n })
  saved w s n h = record {
    journal_same = refl;
    env_same = refl;
    generations_same = refl;
    system_same = h.system;
    mode_kept = h.mode;
  }

module _ {E : Type 0} (platform : Platform) where
  change_mode-Reads :
      (mode : Option Mode) (w : World E)
      → Reads (IsAllowed w) w (change_mode platform w.registry mode w)
  unfolding change_mode
  change_mode-Reads none w = at_pure _ _ (
    refl,
    record {
      system = record { slots = refl; pending = refl; last_failed_trial = refl };
      mode = inl refl;
    },
  )
  change_mode-Reads (some m) w = bind_read _ _ _ refl λ v hv. then_read _ _ _ refl λ _ free.
      then_read _ _ _ refl λ _ _. at_pure _ _ (
        refl,
        record {
          system = record { slots = refl; pending = refl; last_failed_trial = refl };
          mode = inr (ground arith);
        },
      )

  change_policy-Reads :
      (s : State) (options : Option Options) (w : World E)
      → IsAllowed w s
      → Reads (IsAllowed w) w (change_policy platform s options w)
  unfolding change_policy
  change_policy-Reads s none w h = at_pure _ _ (refl, h)
  change_policy-Reads s (some o) w h = bind_read _ _ _ refl λ p _. at_pure _ _ (
    refl,
    record {
      system = record {
        slots = h.system.slots;
        pending = h.system.pending;
        last_failed_trial = h.system.last_failed_trial;
      };
      mode = h.mode;
    },
  )

  when_running-Reads :
      (b : Bool) (r : Result (Unit {0})) (w : World E)
      → Reads (λ _. Unit {0}) w (when platform b (λ v. (r, v)) w)
  when_running-Reads true r w = reads _ _ λ _ _. tt
  when_running-Reads false r w = at_pure _ _ (refl, tt)

  when_saved-Outcome :
      (b : Bool) (s : State) (w : World E)
      → IsAllowed w s
      → Outcome
          (λ _ w'. IsPolicyChange w w')
          (IsPolicyChange w)
          ((when platform b (save_registry s) >> pure s) w)
  when_saved-Outcome true s w h = then_durable _ _ _ (same_world w) λ n. at_pure _ _ (saved w s n h)
  when_saved-Outcome false s w h = at_then _ _ _ (at_pure _ _ (at_pure _ _ (same_world w)))

  policy-Outcome :
      (mode : Option Mode) (automatic : Option Bool) (options : Option Options) (w : World E)
      → Outcome
          (λ _ w'. IsPolicyChange w w')
          (IsPolicyChange w)
          (policy platform mode automatic options w)
  unfolding policy
  policy-Outcome mode automatic options w =
      then-Reads _ _ _
        (when_running-Reads (is_some mode || is_some automatic || is_some options) platform.running
          w)
        (same_world w)
        λ _ _. bind_read _ _ _ (same_world w) λ state hs. rw (load-ok w.registry state hs) (
          bind-Reads _ _ _ (change_mode-Reads mode w) (same_world w) λ moded hm.
            bind-Reads _ _ _ (change_policy-Reads moded options w hm) (same_world w)
              λ optioned ho. when_saved-Outcome _ _ w (IsAllowed-automatic w optioned automatic ho))

  -- However a change of the policy ends, it leaves the journal, the backend, the generations, the
  -- slots and the pending trial as they were, and it changes the mode only if no trial is pending
  -- and no transaction is open.
  pub policy_safe :
      (mode : Option Mode) (automatic : Option Bool) (options : Option Options) (w : World E)
      → IsPolicyChange w (policy platform mode automatic options w).1
  policy_safe mode automatic options w =
      always (IsPolicyChange w) _ (policy-Outcome mode automatic options w)

-- ===== src/Rauc/Restoring.antt =====
-- What `restore_pre_disarm` does to the boot policy, wherever it stops.
use sv08_mainline.Base.{
  ℕ, zero, suc, ◌≡◌, ◌≢◌, refl, sym, String, true, false, some, Result, ok, arith, ◌==◌,
}
use sv08_mainline.Base.Exec.{
  Outcome, Ends, Reads, reads, bind_read, then_read, then-Reads, at_read, at_pure, at_if, at_then,
  weaken, always, returned, ◌>>◌,
}
use sv08_mainline.Registry.{Slot, slot_a, slot_b, slot_eq}
use sv08_mainline.Bootloader.{
  Environment, Device, environment_valid, primary, left, with_left, order_eq, write, write_at,
}
use sv08_mainline.Rauc.{
  Rauc, environment_eq, disarmed, restore_left, restore_order, restore_policy, restored_check,
  require_primary, require_good, restore_pre_disarm,
}
use sv08_mainline.Rauc.Selection.{
  environment_eq-eq, order_eq-eq, IsPartial, disarmed-IsPartial, with_left-IsPartial,
  partial-primary, boot_policy-ok,
}

at_write :
    {Q : Unit {0} → Device → Type 0} {R : Device → Type 0} (f : Environment → Environment)
    (d : Device)
    → R d
    → ((n : ℕ) → Q tt (record { environment = f d.environment; writes = n }))
    → Outcome Q R (write f d)
at_write {Q} {R} f d h k = record { holds = go d.writes }
  where
    go : (n : ℕ) → Ends Q R (write_at f d n)
    go zero = h
    go (suc n) = k n

module _ (rauc : Rauc) (previous : Environment) (target source : Slot) where
  -- the source is selected
  abbrev Selects : Device → Type 0
  Selects d = primary d.environment ≡ some source

  restore_left-Outcome :
      (s : Slot) (current : Environment) (d : Device)
      → left s d.environment ≡ left s current
      → Selects d
      → Selects (record d { environment = with_left s (left s previous) d.environment })
      → Outcome
          (λ _ d'. d'.environment ≡ with_left s (left s previous) d.environment)
          Selects
          (restore_left rauc s current previous d)
  restore_left-Outcome s current d same h k =
      at_if (left s current == left s previous) _ _ d (λ e. at_pure _ _ (ground arith))
        (λ _.
          at_then _ _ _
            (at_write (with_left s (left s previous)) _ h (λ n. at_read _ _ k (λ _ _. refl))))

  restore_order-Outcome :
      (current : Environment) (d : Device)
      → d.environment.order ≡ current.order
      → Selects d
      → Selects (record d { environment = record d.environment { order = previous.order } })
      → Outcome
          (λ _ d'. d'.environment ≡ record d.environment { order = previous.order })
          Selects
          (restore_order rauc current previous d)
  restore_order-Outcome current d same h k =
      at_if (order_eq current.order previous.order) _ _ d
        (λ e. at_pure _ _ (ground (arith, order_eq-eq current.order previous.order)))
        (λ _. at_then _ _ _ (
          at_write (λ e. record e { order = previous.order }) _ h
            (λ n. at_read _ _ k (λ _ _. refl))))

  require_primary-Reads :
      (message : String) (d : Device)
      → Reads (λ _. Unit {0}) d (require_primary rauc source message d)
  require_primary-Reads message d = bind_read _ _ _ refl λ _ _. reads _ _ λ _ _. tt

  require_good-Reads :
      (message : String) (d : Device) → Reads (λ _. Unit {0}) d (require_good rauc source message d)
  require_good-Reads message d = bind_read _ _ _ refl λ _ _. reads _ _ λ _ _. tt

  -- What a restoration establishes: the journaled policy, if it returns.
  abbrev Restores : Result (Unit {0}) × Device → Type 0
  Restores x = Outcome (λ _ d'. d'.environment ≡ previous) Selects x

  module _ (p : primary previous ≡ some source) (ne : slot_eq target source ≡ false)
      (v : environment_valid previous ≡ true) where
    checked-Restores :
        (d : Device) → d.environment ≡ previous → Restores (restored_check rauc previous source d)
    unfolding restored_check
    checked-Restores d same =
        let start : Selects d = rw same p in
        then_read _ _ _ start λ _ _. bind_read _ _ _ start λ _ _. then_read _ _ _ start λ _ _.
          then-Reads _ _ _ (require_primary-Reads _ d) start
            λ _ _. weaken (require_good-Reads _ d) (λ _ d' h. rw h.0 same) (λ d' h. rw h start)

    order-Restores :
        (current : Environment) (d : Device)
        → d.environment.order ≡ current.order
        → IsPartial previous target source d.environment
        → d.environment.a_left ≡ previous.a_left
        → d.environment.b_left ≡ previous.b_left
        → Restores ((restore_order rauc current previous >> restored_check rauc previous source) d)
    order-Restores current d same h ha hb = at_then _ _ _ (
        weaken
          (restore_order-Outcome current d same (partial-primary previous target source _ ne v p h)
            (rw (ha, hb) p))
          (λ _ d' e. checked-Restores d' (ground (arith, e))) (λ _ r. r))

    b_left-Restores :
        (current : Environment) (d : Device)
        → d.environment.order ≡ current.order
        → IsPartial previous target source d.environment
        → d.environment.a_left ≡ previous.a_left
        → d.environment.b_left ≡ current.b_left
        → Restores (
            (restore_left rauc slot_b current previous
                >> (restore_order rauc current previous >> restored_check rauc previous source))
              d)
    b_left-Restores current d same h ha hb = at_then _ _ _ (
        weaken
          (restore_left-Outcome slot_b current d hb
            (partial-primary previous target source _ ne v p h)
            (partial-primary previous target source _ ne v p
              (with_left-IsPartial previous target source slot_b _ h)))
          (λ _ d' e.
            order-Restores current d' (ground (arith, e))
              (rw e (with_left-IsPartial previous target source slot_b _ h)) (ground (arith, e))
              (ground (arith, e)))
          (λ _ r. r))

    a_left-Restores :
        (current : Environment) (d : Device)
        → d.environment ≡ current
        → IsPartial previous target source d.environment
        → Restores (restore_policy rauc current previous target source d)
    unfolding restore_policy
    a_left-Restores current d same h =
        let start : Selects d = partial-primary previous target source _ ne v p h in
        then_read _ _ _ start λ _ _. at_then _ _ _ (
          weaken
            (restore_left-Outcome slot_a current d (rw same refl) start (
              partial-primary previous target source _ ne v p
                (with_left-IsPartial previous target source slot_a _ h)))
            (λ _ d' e.
              b_left-Restores current d' (ground (arith, e, same))
                (rw e (with_left-IsPartial previous target source slot_a _ h)) (ground (arith, e))
                (ground (arith, e, same)))
            (λ _ r. r))

  restore_pre_disarm-Outcome :
      (d : Device)
      → primary previous ≡ some source
      → primary d.environment ≡ some source
      → Restores (restore_pre_disarm rauc previous target source d)
  unfolding restore_pre_disarm
  restore_pre_disarm-Outcome d p start = then_read _ _ _ start λ _ _.
      then_read _ _ _ start λ checked hp. then_read _ _ _ start λ _ other.
        then-Reads _ _ _ (require_primary-Reads _ d) start λ _ _.
          then-Reads _ _ _ (require_good-Reads _ d) start λ _ _. bind_read _ _ _ start λ current hc.
            then_read _ _ _ start λ _ known.
              at_if (environment_eq current previous) _ _ d
                (λ same. at_pure _ _ (
                  ground (
                    arith,
                    boot_policy-ok rauc d.environment current hc,
                    environment_eq-eq current previous same,
                  )))
                (λ differs.
                  a_left-Restores p (ground arith) (boot_policy-ok rauc previous checked hp).1
                    current d (sym (boot_policy-ok rauc d.environment current hc).0)
                    (rw
                      (
                        sym (boot_policy-ok rauc d.environment current hc).0,
                        environment_eq-eq current (disarmed target previous) (ground arith),
                      )
                      (disarmed-IsPartial previous target source (ground arith))))

  -- If the journaled policy and the present one select the source, the source stays selected
  -- wherever a restoration stops, at any write.
  pub restore_keeps_source :
      (d : Device)
      → primary previous ≡ some source
      → primary d.environment ≡ some source
      → primary (restore_pre_disarm rauc previous target source d).1.environment ≡ some source
  restore_keeps_source d p start =
      always Selects _ (weaken (restore_pre_disarm-Outcome d p start) (λ _ d' e. rw e p) (λ _ r. r))

  -- If the journaled policy and the present one select the source, a restoration that returns has
  -- put back exactly the journaled policy.
  pub restore_returns :
      (d : Device)
      → primary previous ≡ some source
      → primary d.environment ≡ some source
      → (restore_pre_disarm rauc previous target source d).0 ≡ ok tt
      → (restore_pre_disarm rauc previous target source d).1.environment ≡ previous
  restore_returns d p start e = returned _ (restore_pre_disarm-Outcome d p start) e

  -- An environment that is neither the journaled policy nor the one that a whole pre-disarm leaves is
  -- left alone: the restoration changes nothing and does not return.
  pub restore_refuses :
      (d : Device)
      → environment_eq d.environment previous ≡ false
      → environment_eq d.environment (disarmed target previous) ≡ false
      → ((restore_pre_disarm rauc previous target source d).1 ≡ d)
        × ((restore_pre_disarm rauc previous target source d).0 ≢ ok tt)
  unfolding restore_pre_disarm
  restore_refuses d np nd = (
    always (λ d'. d' ≡ d) _ (weaken refused (λ _ _ h. absurd h) (λ _ h. h)),
    λ e. returned _ refused e,
  )
    where
      refused : Outcome (λ _ _. ⊥) (λ d'. d' ≡ d) (restore_pre_disarm rauc previous target source d)
      refused = then_read _ _ _ refl λ _ _. then_read _ _ _ refl λ _ _. then_read _ _ _ refl λ _ _.
          then-Reads _ _ _ (require_primary-Reads _ d) refl λ _ _.
            then-Reads _ _ _ (require_good-Reads _ d) refl λ _ _. bind_read _ _ _ refl λ current hc.
              then_read _ _ _ refl
                λ _ known. absurd (ground (arith, boot_policy-ok rauc d.environment current hc))

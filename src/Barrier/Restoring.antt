-- ===== src/Barrier/Restoring.antt =====
-- What the service barrier leaves when an operation under it has returned.
use sv08_mainline.Base.{
  String, ◌≡◌, refl, subst, ap, Bool, true, false, Option, none, some, List, [], ◌∷◌, Result, ok,
  err, is_some, if◌then◌else◌,
}
use sv08_mainline.Base.Exec.{
  pure, Outcome, at_then, at_pure, at_end, bind_read, then_read, weaken, returned,
}
use sv08_mainline.Barrier.{
  Host, Intent, Lease, intent, enter, start_all, restore_services, call, under_lock,
  after_restoring,
}
use sv08_mainline.Barrier.Quiet.{IsApart, IsQuiet, enter-IsQuiet, reach}

module _ {W : Type 0} (host : Host W) where
  -- systemd was asked to start these services, in this order, and accepted each of them; nothing
  -- else happened in between.
  pub data Started : List String → W → W → Type 0 where
    none_left : (w : W) → Started [] w w
    accepted :
        (name : String) (names : List String) (u v w : W)
        → host.systemctl_start name u ≡ (ok tt, v)
        → Started names v w
        → Started (name ∷ names) u w

  -- Why the services may be left as they are at the end of an operation, or that they were started
  -- again, from the state in which the lock is closed.
  pub data Restored (names : List String) (keep_stopped : Bool) (closed w : W) : Type 0 where
    kept : keep_stopped ≡ true → closed ≡ w → Restored names keep_stopped closed w
    queued :
        (i : Intent)
        → intent (host.shutdown closed) (host.boot_id closed) ≡ ok (some i)
        → closed ≡ w
        → Restored names keep_stopped closed w
    started :
        keep_stopped ≡ false
        → intent (host.shutdown closed) (host.boot_id closed) ≡ ok none
        → Started names closed w
        → Restored names keep_stopped closed w

  start_all-Started :
      (names : List String) (w : W)
      → Outcome (λ _ v. Started names w v) (λ _. Unit {0}) (start_all host names w)
  unfolding start_all
  start_all-Started [] w = at_pure _ _ (none_left w)
  start_all-Started (name ∷ names) w = at_then _ _ _ (
      at_end (host.systemctl_start name w) tt (λ _ v e _.
        weaken (start_all-Started names v) (λ _ u h. accepted name names w v u e h) (λ _ _. tt)))

  after_intent :
      (names : List String) (i : Option Intent) (w : W)
      → intent (host.shutdown w) (host.boot_id w) ≡ ok i
      → Outcome
          (λ _ v. Restored names false w v)
          (λ _. Unit {0})
          ((if is_some i then pure tt else start_all host names) w)
  after_intent names (some i) w e = at_pure _ _ (queued i e refl)
  after_intent names none w e =
      weaken (start_all-Started names w) (λ _ v h. started refl e h) (λ _ _. tt)

  restore_services-Restored :
      (names : List String) (keep : Bool) (w : W)
      → Outcome
          (λ _ v. Restored names keep w v)
          (λ _. Unit {0})
          (restore_services host names keep w)
  unfolding restore_services
  restore_services-Restored names true w = at_pure _ _ (kept refl refl)
  restore_services-Restored names false w = bind_read _ _ _ tt (λ i e. after_intent names i w e)

  -- What the barrier leaves of an operation that returned `a`: the state that its body started from,
  -- with the names of the services that were stopped, and the state that it closed the lock in.
  pub record Returned {A : Type 0} (body : W → Lease A × W) (a : A) (start end : W) : Type 0 where
    pub names : List String
    pub quiet : W
    pub entered : enter host start ≡ (ok names, quiet)
    pub result : (body quiet).0.result ≡ ok a
    pub restored : Restored names (body quiet).0.keep_stopped (host.close_lock (body quiet).1) end

  after_restoring-ok :
      {A : Type 0} (r : Result (Unit {0})) (q : Result A) {a : A}
      → after_restoring r q ≡ ok a
      → (r ≡ ok tt) × (q ≡ ok a)
  after_restoring-ok (ok _) q h = (refl, h)
  after_restoring-ok (err e) q h = cc

module _ {W A : Type 0} (host : Host W) (body : W → Lease A × W) where
  abbrev closed : W → W
  closed u = host.close_lock (body u).1

  abbrev restored : List String → W → Result (Unit {0}) × W
  restored names u = restore_services host names (body u).0.keep_stopped (closed u)

  under_lock-Returned :
      (x : Result (List String) × W) (v w' : W) (a : A)
      → enter host v ≡ x
      → under_lock host body x ≡ (ok a, w')
      → Returned host body a v w'
  under_lock-Returned (err x, u) v w' a e h = cc
  under_lock-Returned (ok names, u) v w' a e h = record {
    names = names;
    quiet = u;
    entered = e;
    result = ended.1;
    restored = subst (Restored host names (body u).0.keep_stopped (closed u)) (ap (λ x. x.1) h) (
        returned (restored names u)
          (restore_services-Restored host names (body u).0.keep_stopped (closed u)) ended.0);
  }
    where
      ended : ((restored names u).0 ≡ ok tt) × ((body u).0.result ≡ ok a)
      ended = after_restoring-ok host (restored names u).0 (body u).0.result (ap (λ x. x.0) h)

  run_call-Outcome :
      (w : W)
      → Outcome
          (λ a v. Returned host body a (host.open_lock w).1 v)
          (λ _. Unit {0})
          (call host body w)
  unfolding call
  run_call-Outcome w = then_read _ _ _ tt (λ _ _. at_then _ _ _ (
      weaken (reach (λ v. v ≡ (host.open_lock w).1) (host.open_lock w) refl)
        (λ _ v opened. at_end (under_lock host body (enter host v)) tt (λ a t e _.
          subst (λ s. Returned host body a s t) opened
            (under_lock-Returned (enter host v) v t a refl e)))
        (λ _ _. tt)))

  run_call-Returned :
      (w w' : W) (a : A)
      → call host body w ≡ (ok a, w')
      → Returned host body a (host.open_lock w).1 w'
  run_call-Returned w w' a h =
      subst (Returned host body a (host.open_lock w).1) (ap (λ x. x.1) h)
        (returned (call host body w) (run_call-Outcome w) (ap (λ x. x.0) h))

  -- An operation under the barrier that returns a value has run its body in a state in which neither
  -- printer service runs, no restart of this boot having been queued when the lock was held, and the
  -- value is the body's. After the lock is closed, each service that was stopped for it, and no other,
  -- is started again through systemd, which accepts each start; or nothing more happens, since the
  -- body asked to keep the printers stopped or a restart of this boot is queued by then. systemd and
  -- the request to Klipper leave the other of the two services alone.
  pub call-Returned :
      IsApart host
      → (w w' : W) (a : A) → call host body w ≡ (ok a, w')
      → (r : Returned host body a (host.open_lock w).1 w') × IsQuiet host
          (host.take_lock (host.open_lock w).1).1
          r.names
          r.quiet
  call-Returned apart w w' a h =
      let end = run_call-Returned w w' a h in
      (end, enter-IsQuiet host apart (host.open_lock w).1 end.quiet end.names end.entered)

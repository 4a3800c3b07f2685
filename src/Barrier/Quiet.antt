-- ===== src/Barrier/Quiet.antt =====
-- What holds when the body of an image operation starts under the service barrier.
use sv08_mainline.Base.{
  String, ◌≡◌, refl, sym, subst, ◌∙◌, ap, true, none, List, [], ◌∷◌, ◌++◌, Result, ok, err, str_eq,
  if◌then◌else◌, arith,
}
use sv08_mainline.Base.Exec.{
  Outcome, at_bind, at_then, at_read, at_pure, at_if, at_end, bind_read, then_read, weaken,
  returned,
}
use sv08_mainline.Barrier.{
  Host, klipper, moonraker, intent, require_running, is_stopped_state, is_settled_state, quiesce,
  stop, stop_klipper, stop_moonraker, enter,
}

-- `systemctl show` answers that the service does not run
abbrev pub IsStopped : Result String → Type 0
IsStopped (ok s) = is_stopped_state s ≡ true
IsStopped (err e) = ⊥

-- A request to Klipper and a stop of one of the two services leave the other one as it is.
pub record IsApart {W : Type 0} (host : Host W) : Type 0 where
  pub quiesce_moonraker :
      (w : W) → host.active_state (host.send_quiesce w).1 moonraker ≡ host.active_state w moonraker
  pub stop_klipper_moonraker :
      (w : W)
      → host.active_state (host.systemctl_stop klipper w).1 moonraker
        ≡ host.active_state w moonraker
  pub stop_moonraker_klipper :
      (w : W)
      → host.active_state (host.systemctl_stop moonraker w).1 klipper ≡ host.active_state w klipper

-- a service that was active is to be started again
abbrev pub names_if_active : String → Result String → List String
names_if_active name (ok s) = if str_eq s "active" then name ∷ [] else []
names_if_active name (err e) = []

pub record IsQuiet {W : Type 0} (host : Host W) (locked : W) (names : List String) (w : W)
    : Type 0 where
  pub not_queued : intent (host.shutdown locked) (host.boot_id locked) ≡ ok none
  pub klipper_stopped : IsStopped (host.active_state w klipper)
  pub moonraker_stopped : IsStopped (host.active_state w moonraker)
  pub restores : names ≡ (
      names_if_active klipper (host.active_state locked klipper)
      ++ names_if_active moonraker (host.active_state locked moonraker))

IsStopped-of : (r : Result String) (s : String) → r ≡ ok s → is_stopped_state s ≡ true → IsStopped r
IsStopped-of (ok t) s e h = ground arith
IsStopped-of (err x) s e h = cc

-- what a step leaves, however it ends
pub reach : {S A : Type 0} (P : S → Type 0) (x : Result A × S) → P x.1 → Outcome (λ _. P) P x
reach P x h = at_end x h (λ _ _ _ p. p)

require_running-none :
    {W : Type 0} (host : Host W) (w : W)
    → require_running (host.shutdown w) (host.boot_id w) ≡ ok tt
    → intent (host.shutdown w) (host.boot_id w) ≡ ok none
unfolding require_running
require_running-none host w h = ground arith

module _ {W : Type 0} (host : Host W) where
  -- A stop that returns has seen the service stopped, and keeps what a stop by systemd keeps.
  stop-Outcome :
      {B : Type 0} (read : W → B) (name : String) (w : W)
      → ((v : W) → read (host.systemctl_stop name v).1 ≡ read v)
      → Outcome
          (λ _ v. IsStopped (host.active_state v name) × (read v ≡ read w))
          (λ _. Unit {0})
          (stop host name w)
  unfolding stop
  stop-Outcome read name w keeps = at_then _ _ _ (
      weaken (reach (λ v. read v ≡ read w) (host.systemctl_stop name w) (keeps w))
        (λ _ v same. bind_read _ _ _ tt (λ s e.
          at_read _ _ tt
            (λ _ stopped. (IsStopped-of (host.active_state v name) s e (ground arith), same))))
        (λ _ _. tt))

  quiesce-Outcome :
      IsApart host
      → (w : W)
      → Outcome
          (λ _ v. host.active_state v moonraker ≡ host.active_state w moonraker)
          (λ _. Unit {0})
          (quiesce host w)
  unfolding quiesce
  quiesce-Outcome apart w = at_bind _ _ _ (
      weaken
        (reach (λ v. host.active_state v moonraker ≡ host.active_state w moonraker)
          (host.send_quiesce w) (apart.quiesce_moonraker w))
        (λ packet v same.
          at_then _ _ _
            (at_read _ _ tt (λ _ _. bind_read _ _ _ tt (λ _ _. at_read _ _ tt (λ _ _. same)))))
        (λ _ _. tt))

  stop_klipper-Outcome :
      IsApart host
      → (s : String) (w : W) → host.active_state w klipper ≡ ok s
      → is_settled_state s ≡ true
      → Outcome
          (λ names v.
            IsStopped (host.active_state v klipper)
            × (host.active_state v moonraker ≡ host.active_state w moonraker)
            × (names ≡ names_if_active klipper (ok s)))
          (λ _. Unit {0})
          (stop_klipper host s w)
  unfolding stop_klipper
  stop_klipper-Outcome apart s w e settled =
      at_if (str_eq s "active") _ _ _
        (λ active. at_then _ _ _ (
          weaken (quiesce-Outcome apart w)
            (λ _ v same. at_then _ _ _ (
              weaken
                (stop-Outcome (λ u. host.active_state u moonraker) klipper v
                  apart.stop_klipper_moonraker)
                (λ _ u h. at_pure _ _ (h.0, h.1 ∙ same, cc)) (λ _ _. tt)))
            (λ _ _. tt)))
        (λ inactive.
          at_pure _ _ (IsStopped-of (host.active_state w klipper) s e (ground arith), refl, cc))

  stop_moonraker-Outcome :
      IsApart host
      → (s : String) (w : W) → host.active_state w moonraker ≡ ok s
      → is_settled_state s ≡ true
      → Outcome
          (λ names v.
            IsStopped (host.active_state v moonraker)
            × (host.active_state v klipper ≡ host.active_state w klipper)
            × (names ≡ names_if_active moonraker (ok s)))
          (λ _. Unit {0})
          (stop_moonraker host s w)
  unfolding stop_moonraker
  stop_moonraker-Outcome apart s w e settled =
      at_if (str_eq s "active") _ _ _
        (λ active. at_then _ _ _ (
          weaken
            (stop-Outcome (λ u. host.active_state u klipper) moonraker w
              apart.stop_moonraker_klipper)
            (λ _ u h. at_pure _ _ (h.0, h.1, cc)) (λ _ _. tt)))
        (λ inactive.
          at_pure _ _ (IsStopped-of (host.active_state w moonraker) s e (ground arith), refl, cc))

  -- the two stops, one after the other
  stopped-IsQuiet :
      (k m : String) (v u t : W) (first second : List String)
      → require_running (host.shutdown v) (host.boot_id v) ≡ ok tt
      → host.active_state v klipper ≡ ok k
      → host.active_state v moonraker ≡ ok m
      → IsStopped (host.active_state u klipper)
        × (host.active_state u moonraker ≡ host.active_state v moonraker)
        × (first ≡ names_if_active klipper (ok k))
      → IsStopped (host.active_state t moonraker)
        × (host.active_state t klipper ≡ host.active_state u klipper)
        × (second ≡ names_if_active moonraker (ok m))
      → IsQuiet host v (first ++ second) t
  stopped-IsQuiet k m v u t first second running ek em (ku, mu, fu) (mt, kt, st) = record {
    not_queued = require_running-none host v running;
    klipper_stopped = subst IsStopped (sym kt) ku;
    moonraker_stopped = mt;
    restores =
        ap (λ l. l ++ second) (fu ∙ ap (names_if_active klipper) (sym ek))
        ∙ ap (λ l. names_if_active klipper (host.active_state v klipper) ++ l)
            (st ∙ ap (names_if_active moonraker) (sym em));
  }

  run_enter-Outcome :
      IsApart host
      → (w : W) → Outcome (IsQuiet host (host.take_lock w).1) (λ _. Unit {0}) (enter host w)
  unfolding enter
  run_enter-Outcome apart w = at_then _ _ _ (
      weaken (reach (λ v. v ≡ (host.take_lock w).1) (host.take_lock w) refl)
        (λ _ v locked. then_read _ _ _ tt (λ _ running. bind_read _ _ _ tt (λ k ek.
          bind_read _ _ _ tt (λ m em. at_then _ _ _ (
            at_read _ _ tt (λ _ settled. at_bind _ _ _ (
              weaken (stop_klipper-Outcome apart k v ek (ground arith))
                (λ first u hu. at_bind _ _ _ (
                  weaken (stop_moonraker-Outcome apart m u (hu.1 ∙ em) (ground arith))
                    (λ second t ht. at_pure _ _ (
                      subst (λ l. IsQuiet host l (first ++ second) t) locked
                        (stopped-IsQuiet k m v u t first second running ek em hu ht)))
                    (λ _ _. tt)))
                (λ _ _. tt))))))))
        (λ _ _. tt))

  -- When the body of an operation starts under the barrier, no restart of this boot was queued once
  -- the lock was held, neither printer service runs, and the services to be started again are those
  -- of the two that were active once the lock was held. systemd and the request to Klipper leave the
  -- other of the two services alone.
  pub enter-IsQuiet :
      IsApart host
      → (w w' : W) (names : List String) → enter host w ≡ (ok names, w')
      → IsQuiet host (host.take_lock w).1 names w'
  enter-IsQuiet apart w w' names h =
      subst (λ v. IsQuiet host (host.take_lock w).1 names v) (ap (λ x. x.1) h)
        (returned (enter host w) (run_enter-Outcome apart w) (ap (λ x. x.0) h))

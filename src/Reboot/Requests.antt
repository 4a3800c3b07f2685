-- ===== src/Reboot/Requests.antt =====
-- How the steps of a controlled restart and the choice of the receipt bound the reboot requests.
use sv08_mainline.Base.{
  String, ◌≡◌, refl, ◌⊎◌, inl, inr, Bool, true, false, ◌&&◌, Option, none, some, Result, ok, arith,
  str_eq,
}
use sv08_mainline.Base.Exec.{
  Outcome, Reads, bind_read, then_read, then-Reads, at_read, at_pure, at_then, reads,
}
use sv08_mainline.Update.Interfaces.{Journal}
use sv08_mainline.Restart.Receipts.{
  ReceiptState, ready, dispatching, queued, uncertain, suppressed, observed, retired, Receipt,
  Machine, Restarting, Dispatch, acknowledged, not_launched, unacknowledged, require_running,
  controlled_restart, request, at_replace,
}
use sv08_mainline.Reboot.{is_before, is_dispatched, load_receipt, retires, replaces, forgets}

-- At most one request was sent in this boot, and only behind a receipt that says so.
pub record IsOnce (boot_id : String) (m : Machine) : Type 0 where
  pub requested :
      (m.requests ≡ 0)
      ⊎ ((m.requests ≡ 1)
          × (r : Receipt) × (m.receipt ≡ some r)
          × (r.boot_id ≡ boot_id)
          × (is_dispatched r.state ≡ true))

pub load_receipt-ok : (stored r : Option Receipt) → load_receipt stored ≡ ok r → r ≡ stored
unfolding load_receipt
load_receipt-ok none r h = ground arith
load_receipt-ok (some q) r h = ground arith

module _ (boot_id : String) where
  abbrev pub KeepsOnce : {A : Type 0} → Result A × Machine → Type 0
  KeepsOnce x = Outcome (λ _ m. IsOnce boot_id m) (IsOnce boot_id) x

  pub unsent : (m : Machine) → m.requests ≡ 0 → IsOnce boot_id m
  unsent m h = record { requested = inl h }

  pub sent :
      (m : Machine) (r : Receipt)
      → m.requests ≡ 1
      → m.receipt ≡ some r
      → r.boot_id ≡ boot_id
      → is_dispatched r.state ≡ true
      → IsOnce boot_id m
  sent m r n e b d = record { requested = inr (n, r, e, b, d) }

  pub require_running-Reads : (m : Machine) → Reads (λ _. Unit {0}) m (require_running boot_id m)
  unfolding require_running
  require_running-Reads m = bind_read _ _ _ refl λ _ _. reads _ _ λ _ _. tt

  request-KeepsOnce :
      (s : Restarting) (receipt kept : Receipt) (d : Dispatch) (m : Machine)
      → m.requests ≡ 0
      → receipt.boot_id ≡ boot_id
      → m.receipt ≡ some kept
      → kept.boot_id ≡ boot_id
      → is_dispatched kept.state ≡ true
      → KeepsOnce (request s receipt d m)
  unfolding request
  request-KeepsOnce s receipt kept acknowledged m n b e kb kd = at_then _ _ _ (
      at_pure _ _ (
        at_replace _ _ (sent _ kept (ground arith) e kb kd)
          (λ k. sent _ _ (ground arith) refl b refl)))
  request-KeepsOnce s receipt kept unacknowledged m n b e kb kd = at_then _ _ _ (
      at_pure _ _ (
        at_then _ _ _ (
          at_replace _ _ (sent _ kept (ground arith) e kb kd) (λ k.
            at_read _ _ (sent _ _ (ground arith) refl b refl)
              (λ _ _. sent _ _ (ground arith) refl b refl)))))
  request-KeepsOnce s receipt kept not_launched m n b e kb kd = bind_read _ _ _ (unsent m n) λ _ _.
      then_read _ _ _ (unsent m n) λ _ _. at_then _ _ _ (
        at_replace _ _ (unsent m n) (λ j.
          at_then _ _ _
            (at_replace _ _ (unsent _ n) (λ k. at_read _ _ (unsent _ n) (λ _ _. unsent _ n)))))

  pub controlled_restart-KeepsOnce :
      (s : Restarting) (receipt : Receipt) (m : Machine)
      → s.boot_id ≡ boot_id
      → m.requests ≡ 0
      → receipt.boot_id ≡ boot_id
      → KeepsOnce (controlled_restart s receipt m)
  unfolding controlled_restart require_running
  controlled_restart-KeepsOnce s receipt m here n b = then_read _ _ _ (unsent m n) λ _ _.
      then_read _ _ _ (unsent m n) λ _ _.
        then-Reads {F = λ _. Unit {0}} _ _ _ (bind_read _ _ _ refl λ _ _. reads _ _ λ _ _. tt)
          (unsent m n)
          λ _ _. at_then _ _ _ (
            at_replace _ _ (unsent m n) (λ j. at_then _ _ _ (
              at_replace _ _ (unsent _ n)
                (λ k. request-KeepsOnce s receipt _ s.dispatch _ n b refl b refl))))

pub before-quiet :
    (b : Bool) (st : ReceiptState) → is_before st ≡ true → (b && is_dispatched st) ≡ false
before-quiet b ready h = ground arith
before-quiet b suppressed h = ground arith
before-quiet b retired h = ground arith
before-quiet b dispatching h = cc
before-quiet b queued h = cc
before-quiet b uncertain h = cc
before-quiet b observed h = cc

pub retires-is_before :
    (r : Receipt) (j : Option Journal) (b : String)
    → retires r j b ≡ true
    → is_before r.state ≡ true
retires-is_before r none b h = cc
retires-is_before r (some tx) b h = ground arith

pub replaces-is_before :
    (r : Receipt) (j : Option Journal) → replaces r j ≡ true → is_before r.state ≡ true
replaces-is_before r none h = cc
replaces-is_before r (some tx) h = ground arith

pub forgets-earlier :
    (r : Receipt) (j : Option Journal) (b : String)
    → forgets r j b ≡ true
    → str_eq r.boot_id b ≡ false
forgets-earlier r none b h = cc
forgets-earlier r (some tx) b h = ground arith

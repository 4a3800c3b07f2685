-- ===== src/Reboot/Once.antt =====
-- How many reboot requests the runs of the automatic restart send in one boot, wherever they stop.
use sv08_mainline.Base.{
  ℕ, ◌≤◌, List, [], ◌∷◌, String, ◌≡◌, refl, sym, ◌⊎◌, inl, inr, true, false, not, ◌&&◌, Option,
  none, some, ok, arith, str_eq, eq_iff,
}
use sv08_mainline.Base.Exec.{
  bind_read, then_read, then-Reads, at_pure, at_if, at_then, weaken, always,
}
use sv08_mainline.Registry.{State}
use sv08_mainline.Update.Interfaces.{Journal}
use sv08_mainline.Restart.Receipts.{Receipt, Machine, at_replace}
use sv08_mainline.Reboot.{
  Surroundings, is_dispatched, retires, replaces, forgets, observes, expected_receipt,
  dispatch_restart, begin, continue_receipt, with_receipt, run,
}
use sv08_mainline.Reboot.Requests.{
  KeepsOnce, load_receipt-ok, unsent, require_running-Reads, controlled_restart-KeepsOnce,
  before-quiet, retires-is_before, replaces-is_before, forgets-earlier, IsOnce,
}

module _ (s : Surroundings) where
  abbrev here : String
  here = s.restarting.boot_id

  dispatch_restart-KeepsOnce :
      (state : State) (tx : Journal) (expected : Receipt) (m : Machine)
      → m.requests ≡ 0
      → expected.boot_id ≡ here
      → KeepsOnce here (dispatch_restart s state tx expected m)
  unfolding dispatch_restart
  dispatch_restart-KeepsOnce state tx expected m n b =
      let start : IsOnce here m = unsent here m n in
      bind_read _ _ _ start λ _ _. then_read _ _ _ start λ _ _. bind_read _ _ _ start λ _ _.
        then_read _ _ _ start λ _ _. bind_read _ _ _ start λ _ _. then_read _ _ _ start λ _ _.
          then-Reads _ _ _ (require_running-Reads here m) start λ _ _. then_read _ _ _ start λ _ _.
            then_read _ _ _ start λ _ _. then_read _ _ _ start λ _ _. then_read _ _ _ start λ _ _.
              then_read _ _ _ start λ _ _. at_then _ _ _ (
                at_replace _ _ start (λ k. at_then _ _ _ (
                  weaken (controlled_restart-KeepsOnce here s.restarting expected _ refl n b)
                    (λ _ d h. at_pure _ _ h) (λ _ h. h))))

  begin-KeepsOnce :
      (receipt : Option Receipt) (journal : Option Journal) (m : Machine)
      → m.requests ≡ 0
      → KeepsOnce here (begin s receipt journal m)
  unfolding begin
  begin-KeepsOnce receipt journal m n =
      let start : IsOnce here m = unsent here m n in
      bind_read _ _ _ start λ tx _. bind_read _ _ _ start λ expected he.
        then_read _ _ _ start λ _ _. then_read _ _ _ start λ _ hb. bind_read _ _ _ start λ state _.
          at_if (not state.auto_update) _ _ m
            (λ _. at_then _ _ _ (at_replace _ _ start (λ k. at_pure _ _ (unsent here _ n))))
            (λ _.
              dispatch_restart-KeepsOnce state tx expected m n
                (expected_boot tx expected he (ground arith)))
    where
      expected_boot :
          (tx : Journal) (e : Receipt)
          → expected_receipt tx ≡ ok e
          → str_eq tx.boot_id here ≡ true
          → e.boot_id ≡ here
      expected_boot tx e h b = ground (arith, eq_iff tx.boot_id here)

  -- nothing was sent in this boot before a receipt that says so
  quiet :
      (r : Receipt) (m : Machine)
      → IsOnce here m
      → m.receipt ≡ some r
      → (str_eq r.boot_id here && is_dispatched r.state) ≡ false
      → m.requests ≡ 0
  quiet r m c e h = go c.requested
    where
      go :
          (m.requests ≡ 0)
            ⊎ ((m.requests ≡ 1)
                × (q : Receipt) × (m.receipt ≡ some q)
                × (q.boot_id ≡ here)
                × (is_dispatched q.state ≡ true))
          → m.requests ≡ 0
      go (inl n) = n
      go (inr (n, q, eq, b, d)) =
          absurd (ground (arith, e, eq_iff r.boot_id here, eq_iff q.boot_id here))

  continue_receipt-KeepsOnce :
      (r : Receipt) (journal : Option Journal) (m : Machine)
      → IsOnce here m
      → m.receipt ≡ some r
      → KeepsOnce here (continue_receipt s r journal m)
  unfolding continue_receipt
  continue_receipt-KeepsOnce r journal m c e =
      at_if (not (str_eq r.boot_id here)) _ _ m
        (λ other.
          at_if (observes r journal) _ _ m
            (λ _.
              at_then _ _ _ (
                at_replace _ _ c (λ k. at_pure _ _ (unsent here _ (quiet r m c e (ground arith))))))
            (λ _. at_pure _ _ c))
        (λ same.
          at_if (is_dispatched r.state) _ _ m (λ _. at_pure _ _ c)
            (λ h. begin-KeepsOnce (some r) journal m (quiet r m c e (ground arith))))

  with_receipt-KeepsOnce :
      (receipt : Option Receipt) (journal : Option Journal) (m : Machine)
      → IsOnce here m
      → receipt ≡ m.receipt
      → KeepsOnce here (with_receipt s receipt journal m)
  unfolding with_receipt
  with_receipt-KeepsOnce none journal m c e = begin-KeepsOnce none journal m (empty c.requested)
    where
      empty :
          (m.requests ≡ 0)
            ⊎ ((m.requests ≡ 1)
                × (q : Receipt) × (m.receipt ≡ some q)
                × (q.boot_id ≡ here)
                × (is_dispatched q.state ≡ true))
          → m.requests ≡ 0
      empty (inl n) = n
      empty (inr (n, q, eq, b, d)) = absurd (ground arith)
  with_receipt-KeepsOnce (some r) journal m c e =
      at_if (retires r journal here) _ _ m
        (λ h. then-Reads _ _ _ (require_running-Reads here m) c λ _ _. at_then _ _ _ (
          at_replace _ _ c (λ k. at_pure _ _ (
            unsent here _ (
              quiet r m c (sym e) (before-quiet _ r.state (retires-is_before r journal here h)))))))
        (λ _.
          at_if (replaces r journal) _ _ m
            (λ h. then-Reads _ _ _ (require_running-Reads here m) c λ _ _.
              begin-KeepsOnce none journal m
                (quiet r m c (sym e) (before-quiet _ r.state (replaces-is_before r journal h))))
            (λ _.
              at_if (forgets r journal here) _ _ m
                (λ h.
                  begin-KeepsOnce none journal m
                    (quiet r m c (sym e) (ground (arith, forgets-earlier r journal here h))))
                (λ _. continue_receipt-KeepsOnce r journal m c (sym e))))

  -- A run of the automatic restart, however it ends and at whatever write it is interrupted, keeps
  -- this: at most one reboot request was sent in this boot, and none without a durable receipt of
  -- this boot that says that one may have been.
  pub run-IsOnce : (m : Machine) → IsOnce here m → IsOnce here (run s m).1
  unfolding run
  run-IsOnce m c = always (IsOnce here) _ (
      bind_read _ _ _ c λ receipt hr. bind_read _ _ _ c λ journal _.
        with_receipt-KeepsOnce receipt journal m c (load_receipt-ok m.receipt receipt hr))

-- Calls of `run` in one boot, each with its own surroundings and its own power.
pub runs : String → List (Surroundings × ℕ) → Machine → Machine
runs boot_id [] m = m
runs boot_id ((s, n) ∷ calls) m =
    runs boot_id calls
      (run (record s { restarting = record s.restarting { boot_id = boot_id } })
        (record m { power = n })).1

runs-IsOnce :
    (boot_id : String) (calls : List (Surroundings × ℕ)) (m : Machine)
    → IsOnce boot_id m
    → IsOnce boot_id (runs boot_id calls m)
unfolding runs
runs-IsOnce boot_id [] m c = c
runs-IsOnce boot_id ((s, n) ∷ calls) m c = runs-IsOnce boot_id calls _ (
    run-IsOnce (record s { restarting = record s.restarting { boot_id = boot_id } })
      (record m { power = n }) (record { requested = c.requested }))

-- If no restart was requested in this boot yet, then any number of runs in it, with any answers and
-- stopped at any write, requests at most one.
pub runs_request_once :
    (boot_id : String) (calls : List (Surroundings × ℕ)) (m : Machine)
    → m.requests ≡ 0
    → (runs boot_id calls m).requests ≤ 1
runs_request_once boot_id calls m h =
    bounded (runs boot_id calls m) (runs-IsOnce boot_id calls m (unsent boot_id m h)).requested
  where
    bounded :
        (d : Machine)
        → (d.requests ≡ 0)
          ⊎ ((d.requests ≡ 1)
              × (r : Receipt) × (d.receipt ≡ some r)
              × (r.boot_id ≡ boot_id)
              × (is_dispatched r.state ≡ true))
        → d.requests ≤ 1
    bounded d (inl n) = ground arith
    bounded d (inr (n, r, e, b, q)) = ground arith

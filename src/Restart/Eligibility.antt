-- ===== src/Restart/Eligibility.antt =====
-- What `require_restart` establishes.
use sv08_mainline.Base.{
  String, ◌≡◌, true, false, ◌||◌, Option, none, some, Result, ok, arith, eq_iff,
}
use sv08_mainline.Registry.{State, Boot, Pending, immutable}
use sv08_mainline.Update.Interfaces.{Journal, armed}
use sv08_mainline.Update.Journals.{is_settled}
use sv08_mainline.Transaction.Checks.{armed_pending}
use sv08_mainline.Restart.{require_restart, trial_differs, is_ready}

trial_differs-eq :
    (p : Option Pending) (tx : Journal) → trial_differs p tx ≡ false → p ≡ some (armed_pending tx)
trial_differs-eq none tx h = cc
trial_differs-eq (some p) tx h = ground (arith, eq_iff p.release tx.release, eq_iff p.id tx.id)

module _ (jobs_idle : Result (Unit {0})) (state : State) (tx : Journal) (boot_id : String)
    (boot : Option Boot) where
  -- A restart into an armed update is eligible only in the boot that staged it, with the pending trial
  -- of this transaction not yet started and the immutable mode requested.
  pub require_restart_armed :
      require_restart jobs_idle state (some tx) boot_id boot ≡ ok tt
      → tx.phase ≡ armed
      → (tx.boot_id ≡ boot_id)
        × (state.pending ≡ some (armed_pending tx))
        × (state.requested_mode ≡ immutable)
  unfolding require_restart
  require_restart_armed h p =
      ground (arith, eq_iff tx.boot_id boot_id, trial_differs-eq state.pending tx)

  -- No restart is eligible while a transaction is in transition: it is staged, armed or settled.
  pub require_restart_steady :
      require_restart jobs_idle state (some tx) boot_id boot ≡ ok tt
      → (is_ready tx.phase || is_settled tx.phase) ≡ true
  unfolding require_restart
  require_restart_steady h = ground arith

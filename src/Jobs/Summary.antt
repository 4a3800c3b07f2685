-- ===== src/Jobs/Summary.antt =====
-- `Jobs.history` (runtime/sv08_admin_jobs.py).
use sv08_mainline.Base.{
  ℕ, ◌-◌, String, Bool, true, false, List, Result, ok, err, value_error, key_error, os_error,
  power_loss, length, any, map,
}
use mathlib.Core.List.{reverse}
use sv08_mainline.Base.Exec.{Exec, query, pure, ◌>>=◌}
use sv08_mainline.Jobs.{blocking, limit}
use sv08_mainline.Jobs.History.{is_migrated, active_rows, all_rows, archive_batches, total_limit}
use sv08_mainline.Jobs.Ledger.{Ledger, Service, observe}
use sv08_mainline.Jobs.Upkeep.{review}
use sv08_mainline.Jobs.Public.{Public, Reader, public}

-- what `Jobs.history` shows of the ledger
pub record Summary : Type 0 where
  pub revision : String
  pub active : ℕ
  pub archives : ℕ
  pub total : ℕ
  pub total_remaining : ℕ
  pub maintenance_available : Bool
  pub migrated : Bool
  pub jobs : List Public
  pub remaining : ℕ
  pub blocked : Bool

-- `History(self).review(view)` inside its `try`, which no `OSError` passes
reviewed_if : {A : Type 0} → Result A → Result Bool
reviewed_if (ok _) = ok true
reviewed_if (err (value_error _)) = ok false
reviewed_if (err (key_error m)) = err (key_error m)
reviewed_if (err (os_error m)) = err (os_error m)
reviewed_if (err power_loss) = err power_loss

module _ (service : Service) where
  -- `Jobs.history`
  unfoldable pub history : Reader → Exec Ledger Summary
  unfolding observe reviewed_if
  history reader = do
    h ← observe service
    available ← query (λ l. reviewed_if (review service h l).0)
    let rows = all_rows h
    pure (record {
      revision = service.storage.revision h;
      active = length (active_rows h);
      archives = length (archive_batches h);
      total = length rows;
      total_remaining = total_limit - length rows;
      maintenance_available = available;
      migrated = is_migrated h;
      jobs = map (public reader) (reverse rows);
      remaining = limit - length (active_rows h);
      blocked = any blocking rows;
    })

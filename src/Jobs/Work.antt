-- ===== src/Jobs/Work.antt =====
-- `Jobs.work` (runtime/sv08_admin_jobs.py) in its critical sections, and the publication of a
-- reviewed unknown outcome by `apply` (runtime/sv08_admin_resolution.py).
use sv08_mainline.Base.{
  String, Bool, true, false, ◌||◌, not, Option, none, some, List, ◌∷◌, Error, Result, ok, err,
  value_error, key_error, os_error, power_loss, refuse_if, str_eq, if◌then◌else◌, take_chars,
  append_text,
}
use sv08_mainline.Base.Outcome
use sv08_mainline.Base.Exec.{Exec, lift, query, pure, raise, ◌>>=◌, ◌>>◌}
use sv08_mainline.Base.Lists.{set_first, first, mem_text}
use sv08_mainline.Jobs.{
  Row, Phase, running, interrupted, succeeded, refused, blocking, is_queued, Plan,
}
use sv08_mainline.Jobs.Validation.{plan_eq}
use sv08_mainline.Jobs.History.{History, active_rows, identities}
use sv08_mainline.Jobs.Ledger.{
  Ledger, Service, Worker, idle, preparing, applying, save, observe, find_row,
}
use sv08_mainline.Jobs.Submit.{found}
use sv08_mainline.Jobs.Public.{Reader, is_expired}

unfoldable pub stale : Row → Row
stale row = record row {
  phase = interrupted;
  message = "Boot changed or worker start expired; reconciliation is required.";
}

unfoldable pub started : Row → Row
started row = record row {
  phase = running;
  message = "Revalidating review and executing the image transaction.";
}

-- the durable end of a job
unfoldable pub concluded : Phase → String → Row → Row
concluded phase message row = record row { phase = phase; message = message }

-- `identity is not None and row['id'] != identity`
pub is_other : Option String → Row → Bool
is_other none row = false
is_other (some identity) row = not (str_eq row.id identity)

pub is_missing : Option String → List Row → Bool
is_missing none rows = false
is_missing (some identity) rows = not (mem_text identity (identities rows))

-- What the controller answers to a worker: that it could be made, with its boot and whether its
-- context is the host's; the plan that it makes again; and the end of `apply`.
pub record Attempt : Type 0 where
  pub controller : Result (String × Bool)
  pub replanned : Result Plan
  pub outcome : Result String

-- the revalidation of the review
unfoldable pub prepared : Attempt → Row → Result (Unit {0})
prepared a row = Outcome.◌>>=◌ a.controller (λ context.
    Outcome.◌>>◌
      (refuse_if (not (str_eq context.0 row.boot_id) || not context.1)
        "Boot context changed before execution")
      (Outcome.◌>>=◌ a.replanned (λ plan.
        refuse_if (not (plan_eq plan row.plan)) "System state changed. Refresh and review again.")))

-- `str(error)`
error_text : Error → String
error_text (value_error m) = m
error_text (key_error m) = append_text "'" (append_text m "'")
error_text (os_error m) = m
error_text power_loss = ""

-- what the worker holds from here on
abbrev pub hold : Worker → Exec Ledger (Unit {0})
hold worker l = (ok tt, record l { worker = worker })

-- the worker lock is given back however the code ends
abbrev pub released : Exec Ledger (Unit {0}) → Exec Ledger (Unit {0})
released m l = let (r, l') = m l in (r, record l' { worker = idle })

-- the plan of a receipt reaches `controller.apply`
abbrev pub hand_over : Row → Exec Ledger (Unit {0})
hand_over row l = (ok tt, record l { worker = applying row; applied = row.id ∷ l.applied })

module _ (service : Service) where
  -- the claim of the first blocking receipt
  unfoldable pub claim : Reader → Option String → History → Option Row → Exec Ledger (Unit {0})
  unfolding stale started is_other
  claim reader identity h none = pure tt
  claim reader identity h (some row) =
      if not (is_queued row.phase) || is_other identity row
      then pure tt
      else (if not (str_eq row.boot_id reader.boot_id) || is_expired reader.now row.queued_at
          then save service (set_first blocking stale (active_rows h))
              (some (service.storage.revision h)) true
          else (do
            save service (set_first blocking started (active_rows h))
                (some (service.storage.revision h)) true
            hold (preparing (started row))))

  unfoldable pub claim_present : Reader → Option String → History → Bool → Exec Ledger (Unit {0})
  unfolding claim
  claim_present reader identity h true = pure tt
  claim_present reader identity h false = claim reader identity h (first blocking (active_rows h))

  -- the first section of `work`, whose worker lock is free
  unfoldable pub start : Reader → Option String → Exec Ledger (Unit {0})
  unfolding observe claim_present is_missing
  start reader identity = do
    h ← observe service
    claim_present reader identity h (is_missing identity (active_rows h))

  -- the last section, with what the attempt came to
  unfoldable pub conclude : Row → Phase → String → Exec Ledger (Unit {0})
  unfolding observe concluded
  conclude row phase message = do
    h ← observe service
    _ ← lift (found (find_row row.id (active_rows h)))
    save service
        (set_first (λ (r : Row). str_eq r.id row.id) (concluded phase message) (active_rows h))
        (some (service.storage.revision h)) true

  unfoldable pub conclude_outcome : Row → Result String → Exec Ledger (Unit {0})
  unfolding conclude
  conclude_outcome row (ok message) = conclude row succeeded (take_chars 1000 message)
  conclude_outcome row (err power_loss) = raise power_loss
  conclude_outcome row (err e) =
      conclude row interrupted
        "Outcome uncertain. Inspect the transaction journal; do not replay this job."

  unfoldable pub attempt : Attempt → Row → Result (Unit {0}) → Exec Ledger (Unit {0})
  unfolding conclude_outcome conclude error_text
  attempt a row (ok _) = do hand_over row; conclude_outcome row a.outcome
  attempt a row (err power_loss) = raise power_loss
  attempt a row (err e) = conclude row refused (take_chars 1000 (error_text e))

  unfoldable pub perform : Attempt → Worker → Exec Ledger (Unit {0})
  unfolding attempt prepared
  perform a idle = pure tt
  perform a (applying row) = pure tt
  perform a (preparing row) = attempt a row (prepared a row)

  -- `Jobs.work`
  unfoldable pub work : Reader → Option String → Attempt → Exec Ledger (Unit {0})
  unfolding start perform
  work reader identity a = released (do start reader identity; l ← query ok; perform a l.worker)

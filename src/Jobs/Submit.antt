-- ===== src/Jobs/Submit.antt =====
-- The critical sections of `Jobs.submit` (runtime/sv08_admin_jobs.py): the check
-- under the ledger lock alone, the queueing under the state lock, and the record of a lost launch.
use sv08_mainline.Base.{
  ◌/◌, String, Bool, true, false, ◌&&◌, ◌||◌, not, Option, none, some, List, [], ◌∷◌, ◌++◌, Result,
  ok, err, value_error, key_error, os_error, power_loss, str_eq, if◌then◌else◌, leb, length, any,
}
use sv08_mainline.Base.Exec.{Exec, lift, query, require_not, pure, raise, ◌>>=◌, ◌>>◌}
use sv08_mainline.Base.Lists.{set_first}
use sv08_mainline.Jobs.{Row, queued, interrupted, blocking, is_queued, is_hex_of, limit, Plan}
use sv08_mainline.Jobs.Validation.{plan_eq, validate_plan}
use sv08_mainline.Jobs.Public.{Reader, Public, public}
use sv08_mainline.Jobs.History.{History, is_migrated, active_rows, all_rows, total_limit}
use sv08_mainline.Jobs.Ledger.{Ledger, Service, save, observe, find_row}

-- What `submit` is told: the reader's context, whether the controller is the host's and makes the
-- same plan again, whether shutdown is still open, and the revision of the state under its lock.
pub record Submission : Type 0 where
  pub reader : Reader
  pub controller_agrees : Bool
  pub running_open : Result (Unit {0})
  pub state_revision : String

unfoldable pub unlaunched : Row → Row
unlaunched row = record row {
  phase = interrupted;
  message = "Worker launch was not acknowledged. Reconciliation is required; no automatic retry.";
}

-- `next(...)` of an identity that must be there
abbrev pub found : Option Row → Result Row
found none = err (key_error "StopIteration")
found (some row) = ok row

abbrev pub or_unknown : Option Row → Result Row
or_unknown none = err (value_error "Unknown image receipt")
or_unknown (some row) = ok row

-- `Jobs.row`
abbrev pub row_of : String → List Row → Result Row
row_of identity rows =
    if is_hex_of 32 identity
    then or_unknown (find_row identity rows)
    else err (value_error "Invalid image receipt identity")

abbrev pub interfere : (Ledger → Ledger) → Exec Ledger (Unit {0})
interfere others l = (ok tt, others l)

module _ (service : Service) where
  -- the rows of the ledger allow a new identity
  unfoldable pub require_admissible : History → Bool → Exec Ledger (Unit {0})
  require_admissible h fenced = do
    require_not (not (is_migrated h) && fenced)
        "Interrupted history migration requires explicit reviewed resume before new identities"
    require_not (leb limit (length (active_rows h)) || leb total_limit (length (all_rows h)))
        "Image job history is full; reviewed maintenance is required. No receipts were removed."
    require_not (any blocking (all_rows h)) "An image job is pending or requires reconciliation"

  -- a retry of an identity, or none
  pub retried : Plan → Option Row → Result (Option Row)
  retried plan none = ok none
  retried plan (some row) =
      if plan_eq row.plan plan
      then ok (some row)
      else err (value_error "Retry identity was used for a different review")

  pub queued_row : Submission → String → Plan → Row
  queued_row s identity plan = record {
    id = identity;
    plan = plan;
    boot_id = s.reader.boot_id;
    phase = queued;
    message =
        "Queued for the independent image worker. Never resubmit with a new identity if the outcome is unknown.";
    queued_at = s.reader.now / 1000;
    disposition = none;
  }

  unfoldable pub enqueue :
      Submission → String → Plan → History → Option Row → Exec Ledger (Unit {0})
  unfolding require_admissible queued_row
  enqueue s identity plan h (some row) = pure tt
  enqueue s identity plan h none = do
    l ← query ok
    require_admissible h l.fenced
    save service (active_rows h ++ queued_row s identity plan ∷ [])
        (some (service.storage.revision h)) false

  -- the first section: a known identity ends the call, and a full or blocked ledger refuses it
  pub check_known : History → Option Row → Exec Ledger (Option Row)
  unfolding require_admissible
  check_known h (some row) = pure (some row)
  check_known h none = do l ← query ok; require_admissible h l.fenced; pure none

  check_identity : String → Plan → Exec Ledger (Option Row)
  unfolding observe retried check_known
  check_identity identity plan = do
    h ← observe service
    known ← lift (retried plan (find_row identity (all_rows h)))
    check_known h known

  -- the section under the state lock and the ledger lock
  unfoldable pub queue : Submission → String → Plan → Exec Ledger (Option Row)
  unfolding observe retried enqueue
  queue s identity plan = do
    lift s.running_open
    require_not (not (str_eq s.state_revision plan.revision))
        "System state changed. Refresh and review again."
    h ← observe service
    known ← lift (retried plan (find_row identity (all_rows h)))
    enqueue s identity plan h known
    pure known

  unfoldable pub interrupt_unlaunched : History → String → Row → Exec Ledger (Unit {0})
  unfolding unlaunched
  interrupt_unlaunched h identity row =
      if is_queued row.phase
      then save service (set_first (λ (r : Row). str_eq r.id identity) unlaunched (active_rows h))
          (some (service.storage.revision h)) true
      else pure tt

  -- the section after `launcher` raised
  unfoldable pub record_lost_launch : String → Exec Ledger (Unit {0})
  unfolding observe interrupt_unlaunched
  record_lost_launch identity = do
    h ← observe service
    row ← lift (found (find_row identity (active_rows h)))
    interrupt_unlaunched h identity row

  launch_ended : String → Result (Unit {0}) → Exec Ledger (Unit {0})
  unfolding record_lost_launch
  launch_ended identity (ok _) = pure tt
  launch_ended identity (err power_loss) = raise power_loss
  launch_ended identity (err (value_error m)) = raise (value_error m)
  launch_ended identity (err (key_error m)) = raise (key_error m)
  launch_ended identity (err (os_error m)) = record_lost_launch identity

  shown_row : Reader → String → Exec Ledger Public
  unfolding observe
  shown_row reader identity = do
    h ← observe service
    row ← lift (found (find_row identity (all_rows h)))
    pure (public reader row)

  -- After the queueing: an identity that was queued meanwhile ends the call.
  launch_queued :
      Submission → (Ledger → Ledger) → Result (Unit {0}) → String → Option Row → Exec Ledger Public
  unfolding shown_row launch_ended
  launch_queued s others launched identity (some row) = pure (public s.reader row)
  launch_queued s others launched identity none = do
    interfere others
    launch_ended identity launched
    interfere others
    shown_row s.reader identity

  pub submit_new :
      Submission
      → (Ledger → Ledger)
      → Result (Unit {0})
      → String
      → Plan
      → Option Row
      → Exec Ledger Public
  unfolding queue launch_queued
  submit_new s others launched identity plan (some row) = pure (public s.reader row)
  submit_new s others launched identity plan none = do
    require_not (not s.controller_agrees) "System state changed. Refresh and review again."
    interfere others
    known ← queue s identity plan
    launch_queued s others launched identity known

  -- `Jobs.submit`, with what other holders of the lock do between its sections and the end of the
  -- launch
  unfoldable pub submit :
      Submission → (Ledger → Ledger) → Result (Unit {0}) → String → Plan → Exec Ledger Public
  unfolding check_identity submit_new
  submit s others launched identity plan = do
    require_not (not (is_hex_of 32 identity)) "Invalid image retry identity"
    lift (validate_plan plan)
    known ← check_identity identity plan
    submit_new s others launched identity plan known

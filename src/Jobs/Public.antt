-- ===== src/Jobs/Public.antt =====
-- `Jobs.public` (runtime/sv08_admin_jobs.py): how a receipt is shown.
use sv08_mainline.Base.{
  ℕ, ◌*◌, ◌-◌, String, Bool, not, Option, none, some, str_eq, if◌then◌else◌, ltb,
}
use sv08_mainline.Jobs.{Row, Phase, queued, running, interrupted, succeeded, refused, Disposition}

-- What a reader of the ledger sees: the boot, the monotonic clock in milliseconds, and whether a
-- worker holds its lock.
pub record Reader : Type 0 where
  pub boot_id : String
  pub now : ℕ
  pub worker_alive : Bool

-- a receipt as it is shown; `reviewed` is the evidence's digest of a disposition
pub record Public : Type 0 where
  pub id : String
  pub phase : Phase
  pub message : String
  pub action : String
  pub reviewed : Option String

-- `time.monotonic() - row['queued_at'] > QUEUE_SECONDS`
abbrev pub is_expired : ℕ → ℕ → Bool
is_expired now queued_at = ltb (30 * 1000) (now - queued_at * 1000)

shown : Row → Phase → String → Public
shown row phase message = record {
  id = row.id;
  phase = phase;
  message = message;
  action = row.plan.action;
  reviewed = none;
}

-- a receipt without a disposition, by its phase
public_as : Reader → Row → Phase → Public
unfolding shown
public_as reader row succeeded = shown row succeeded row.message
public_as reader row refused = shown row refused row.message
public_as reader row interrupted =
    if not (str_eq row.boot_id reader.boot_id)
    then shown row interrupted
        "Boot changed. Reconciliation is required; this operation will not be replayed."
    else shown row interrupted row.message
public_as reader row queued =
    if not (str_eq row.boot_id reader.boot_id)
    then shown row interrupted
        "Boot changed. Reconciliation is required; this operation will not be replayed."
    else (if is_expired reader.now row.queued_at
        then shown row interrupted
            "Worker did not start within 30 seconds. Reconciliation is required; the expired job cannot execute."
        else shown row queued row.message)
public_as reader row running =
    if not (str_eq row.boot_id reader.boot_id)
    then shown row interrupted
        "Boot changed. Reconciliation is required; this operation will not be replayed."
    else (if reader.worker_alive
        then shown row running row.message
        else shown row interrupted
            "Worker exited without a durable result. Reconciliation is required.")

public_reviewed : Reader → Row → Option Disposition → Public
unfolding public_as
public_reviewed reader row none = public_as reader row row.phase
public_reviewed reader row (some d) = record {
  id = row.id;
  phase = interrupted;
  message = "Outcome unknown. Administrative review retained; no replay or success was inferred.";
  action = row.plan.action;
  reviewed = some d.evidence_sha256;
}

-- `Jobs.public`
unfoldable pub public : Reader → Row → Public
unfolding public_reviewed
public reader row = public_reviewed reader row row.disposition

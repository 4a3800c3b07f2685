-- ===== src/Jobs/Resolution.antt =====
-- runtime/sv08_admin_resolution.py: the durable disposition of an unknown outcome. The evidence is
-- what the platform observed, as the text that is digested; the locks of the state and of the writer
-- that the call holds meanwhile are not in the ledger.
use sv08_mainline.Base.{
  String, Bool, true, false, ◌&&◌, ◌||◌, not, Option, none, some, Result, ok, err, value_error,
  str_eq, if◌then◌else◌,
}
use sv08_mainline.Base.Exec.{Exec, lift, query, require_not, pure, ◌>>=◌, ◌>>◌}
use sv08_mainline.Base.Lists.{set_first}
use sv08_mainline.Jobs.{
  Row, Phase, queued, running, interrupted, succeeded, refused, Disposition, is_queued,
}
use sv08_mainline.Jobs.History.{History, active_rows, all_rows}
use sv08_mainline.Jobs.Ledger.{Ledger, Service, worker_idle, save, observe, find_row}
use sv08_mainline.Jobs.Submit.{found, row_of}
use sv08_mainline.Jobs.Public.{Reader, is_expired}

-- the reviewed plan: `kind`, `id` and `evidence_sha256`
pub record Review : Type 0 where
  pub kind : String
  pub id : String
  pub evidence_sha256 : String

is_interrupted : Phase → Bool
is_interrupted interrupted = true
is_interrupted queued = false
is_interrupted running = false
is_interrupted succeeded = false
is_interrupted refused = false

-- `reviewable`
unfoldable pub reviewable : Reader → Row → Bool
unfolding is_interrupted
reviewable reader row =
    is_interrupted row.phase
    || not (str_eq row.boot_id reader.boot_id)
    || is_queued row.phase && is_expired reader.now row.queued_at

unfoldable pub reviewed : Review → String → Row → Row
reviewed review evidence row = record row {
  disposition = some (record {
    outcome = "unknown";
    kind = review.kind;
    id = review.id;
    evidence_sha256 = review.evidence_sha256;
    evidence = evidence;
  });
}

review_differs : Disposition → Review → Bool
review_differs d review =
    not (str_eq d.kind review.kind)
    || not (str_eq d.id review.id)
    || not (str_eq d.evidence_sha256 review.evidence_sha256)

-- what a retained disposition makes of the call: it ends it, or it refuses another review
unfoldable pub retained : Review → Option Disposition → Result Bool
unfolding review_differs
retained review none = ok false
retained review (some d) =
    if review_differs d review
    then err (value_error "This receipt was retained with different review evidence")
    else ok true

module _ (service : Service) where
  unfoldable pub publish_review :
      Reader → Review → String → History → Row → Bool → Exec Ledger (Unit {0})
  unfolding reviewable reviewed
  publish_review reader review evidence h row true = pure tt
  publish_review reader review evidence h row false = do
    require_not (not (reviewable reader row)) "Image receipt changed during review"
    save service
        (set_first (λ (r : Row). str_eq r.id review.id) (reviewed review evidence) (active_rows h))
        (some (service.storage.revision h)) true

  -- the section that publishes
  unfoldable pub retain : Reader → Review → String → Exec Ledger (Unit {0})
  unfolding observe publish_review retained
  retain reader review evidence = do
    h ← observe service
    row ← lift (found (find_row review.id (active_rows h)))
    known ← lift (retained review row.disposition)
    publish_review reader review evidence h row known

  unfoldable pub observe_again : Reader → Review → Result String → Bool → Exec Ledger (Unit {0})
  unfolding retain
  observe_again reader review observed true = pure tt
  observe_again reader review observed false = do
    evidence ← lift observed
    require_not (not (str_eq (service.codec.evidence_sha256 evidence) review.evidence_sha256))
        "Image evidence changed. Inspect the outcome again."
    retain reader review evidence

  unfoldable pub check_retained : Review → Exec Ledger Bool
  unfolding observe retained
  check_retained review = do
    h ← observe service
    row ← lift (row_of review.id (all_rows h))
    lift (retained review row.disposition)

  unfoldable pub admit : Reader → Review → Result String → Bool → Exec Ledger (Unit {0})
  unfolding observe observe_again retained worker_idle
  admit reader review observed true = pure tt
  admit reader review observed false = do
    l ← query ok
    lift (worker_idle l.worker)
    h ← observe service
    row ← lift (found (find_row review.id (active_rows h)))
    known ← lift (retained review row.disposition)
    observe_again reader review observed known

  -- `apply`, which the worker lock and the state lock keep from every other writer
  unfoldable pub dispose : Reader → Review → Result String → Exec Ledger (Unit {0})
  unfolding check_retained admit
  dispose reader review observed = do
    require_not (not (str_eq review.kind "retain-unknown-v1"))
        "Inspect the unknown image outcome before retaining it"
    known ← check_retained review
    admit reader review observed known

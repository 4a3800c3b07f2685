-- ===== src/Jobs/Ledger.antt =====
-- The ledger under its lock: `Jobs.save` (runtime/sv08_admin_jobs.py) and `publish` of `History`
-- (runtime/sv08_admin_history.py).
use sv08_mainline.Base.{
  ℕ, zero, suc, String, Bool, true, false, ◌&&◌, ◌||◌, not, Option, none, some, List, [], ◌∷◌, ◌++◌,
  Result, ok, err, os_error, power_loss, is_some, str_eq, if◌then◌else◌, leb, ◌==◌, any,
}
use sv08_mainline.Base.Exec.{Exec, lift, query, require_not, pure, ◌>>=◌, ◌>>◌}
use sv08_mainline.Base.Lists.{mem_text, first}
use sv08_mainline.Jobs.{
  Row, Phase, queued, running, interrupted, succeeded, refused, Codec, is_terminal, Disposition,
  has_disposition,
}
use sv08_mainline.Jobs.Validation.{validate_rows, plan_eq}
use sv08_mainline.Jobs.History.{
  History, legacy, manifest, Manifest, Maintenance, Maintaining, migrate, rollover, is_migrated,
  active_rows, archive_batches, all_rows, identities, generation_limit, view, Storage,
}

-- The worker that holds the worker lock: with a receipt that it revalidates, or with one whose plan
-- it handed to the controller.
pub data Worker : Type 0 where
  idle : Worker
  preparing applying : Row → Worker

-- The ledger file and the compatibility fence; the worker; and the identities whose plan was handed
-- to the controller, the last one first. `power` is the number of writes that still go through.
pub record Ledger : Type 0 where
  pub history : History
  pub fenced : Bool
  pub worker : Worker
  pub applied : List String
  pub power : ℕ

-- everything that the ledger's owner is told
pub record Service : Type 0 where
  pub codec : Codec
  pub storage : Storage

abbrev pub write_at : (Ledger → Ledger) → Ledger → ℕ → Result (Unit {0}) × Ledger
write_at f l zero = (err power_loss, l)
write_at f l (suc n) = (ok tt, f (record l { power = n }))

-- an atomic replacement of a file or creation of a link
unfoldable pub write : (Ledger → Ledger) → Exec Ledger (Unit {0})
write f l = write_at f l l.power

abbrev pub find_row : String → List Row → Option Row
find_row id rows = first (λ (r : Row). str_eq r.id id) rows

same_phase : Phase → Phase → Bool
same_phase queued queued = true
same_phase running running = true
same_phase interrupted interrupted = true
same_phase succeeded succeeded = true
same_phase refused refused = true
same_phase _ _ = false

disposition_eq : Option Disposition → Option Disposition → Bool
disposition_eq none none = true
disposition_eq none (some _) = false
disposition_eq (some _) none = false
disposition_eq (some a) (some b) =
    str_eq a.outcome b.outcome
    && str_eq a.kind b.kind
    && str_eq a.id b.id
    && str_eq a.evidence_sha256 b.evidence_sha256
    && str_eq a.evidence b.evidence

-- the identity and the plan of a receipt are changed
origin_differs : Row → Row → Bool
origin_differs a b =
    not (str_eq a.id b.id)
    || not (plan_eq a.plan b.plan)
    || not (str_eq a.boot_id b.boot_id)
    || not (a.queued_at == b.queued_at)

-- `row != old`
row_differs : Row → Row → Bool
unfolding origin_differs same_phase disposition_eq
row_differs a b =
    origin_differs a b
    || not (same_phase a.phase b.phase)
    || not (str_eq a.message b.message)
    || not (disposition_eq a.disposition b.disposition)

is_settled : Row → Bool
is_settled r = has_disposition r.disposition || is_terminal r.phase

changes_old : Row → Option Row → Bool
unfolding origin_differs row_differs is_settled
changes_old row none = false
changes_old row (some old) = origin_differs row old || (is_settled old && row_differs row old)

pub changes_settled : List Row → List Row → Bool
unfolding changes_old
changes_settled active rows = any (λ (r : Row). changes_old r (find_row r.id active)) rows

-- an active identity is missing in the new rows
pub forgets : List Row → List Row → Bool
forgets active rows = any (λ id. not (mem_text id (identities rows))) (identities active)

-- `any(row['id'] in archived for row in rows)`
pub revives : History → List Row → Bool
revives h rows =
    any
      (λ id.
        mem_text id (identities (all_rows h)) && not (mem_text id (identities (active_rows h))))
      (identities rows)

-- the archives that a publication commits over what was committed
unfoldable pub archives_of : History → Maintaining → List (List Row)
archives_of h migrate = archive_batches h
archives_of h rollover = archive_batches h ++ active_rows h ∷ []

pub next_generation : History → ℕ
next_generation (legacy _) = 1
next_generation (manifest m) = suc m.generation

pub parent_of : Service → History → Option String
parent_of service (legacy _) = none
parent_of service (manifest m) = some (service.storage.revision (manifest m))

unfoldable pub next_manifest : Service → History → Maintenance → List Row → Manifest
unfolding archives_of next_generation parent_of
next_manifest service h plan rows = record {
  generation = next_generation h;
  parent_revision = parent_of service h;
  archives = archives_of h plan.operation;
  active = rows;
  maintenance =
      some (record { plan = plan; archive_sha256 = service.codec.rows_sha256 (active_rows h) });
}

-- `worker.lock`, which is not waited for
unfoldable pub worker_idle : Worker → Result (Unit {0})
worker_idle idle = ok tt
worker_idle (preparing _) = err (os_error "worker.lock")
worker_idle (applying _) = err (os_error "worker.lock")

module _ (service : Service) where
  unfoldable pub observe : Exec Ledger History
  observe = query (λ l. view service.codec l.fenced l.history)

  unfoldable pub replace_manifest : Manifest → Exec Ledger (Unit {0})
  replace_manifest m = do
    l ← query ok
    require_not (not l.fenced) "Missing history compatibility fence"
    require_not (leb generation_limit m.generation) "History generation bound reached"
    write (λ l. record l { history = manifest m })

  -- the fence of a migration, before the manifest that needs it
  unfoldable pub fence : History → Exec Ledger (Unit {0})
  fence (manifest m) = pure tt
  fence (legacy rows) = do
    l ← query ok
    if l.fenced then pure tt else write (λ l. record l { fenced = true })

  unfoldable pub commit : History → List Row → Option Maintenance → Exec Ledger (Unit {0})
  unfolding replace_manifest fence next_manifest
  commit (legacy old) rows none = write (λ l. record l { history = legacy rows })
  commit (manifest m) rows none = replace_manifest (record m {
    generation = suc m.generation;
    parent_revision = some (service.storage.revision (manifest m));
    active = rows;
  })
  commit h rows (some plan) = do fence h; replace_manifest (next_manifest service h plan rows)

  -- `History.publish`
  unfoldable pub publish : History → List Row → Option Maintenance → Bool → Exec Ledger (Unit {0})
  unfolding observe commit
  publish observed rows plan result = do
    lift (validate_rows service.codec rows)
    current ← observe
    require_not
        (not (str_eq (service.storage.revision current) (service.storage.revision observed)))
        "Image history changed; review again"
    lift (service.storage.room rows result)
    commit observed rows plan

  pub expects : Option String → History → Bool
  expects none h = true
  expects (some revision) h = str_eq revision (service.storage.revision h)

  -- `Jobs.save`
  unfoldable pub save : List Row → Option String → Bool → Exec Ledger (Unit {0})
  unfolding observe publish expects forgets revives changes_settled
  save rows expected result = do
    h ← observe
    require_not (is_migrated h && not (is_some expected))
        "Active history saves require the observed revision"
    require_not (not (expects expected h)) "Image history changed"
    require_not (is_migrated h && forgets (active_rows h) rows)
        "Existing active receipt identities must be preserved"
    require_not (revives h rows) "Archived receipts are immutable"
    require_not (is_migrated h && changes_settled (active_rows h) rows)
        "Settled receipt and disposition are immutable"
    publish h rows none result

-- ===== src/Jobs/Running.antt =====
-- Whole calls of runtime/sv08_admin_jobs.py: a run of the worker is a history of steps, and a retry
-- of `submit` with a known identity begins nothing.
use sv08_mainline.Base.{String, ◌≡◌, refl, Option, Result, ok, err}
use sv08_mainline.Base.Exec.{then_do, query, ◌>>=◌, ◌>>◌}
use sv08_mainline.Jobs.{Row}
use sv08_mainline.Jobs.Ledger.{Ledger, Service, Worker, idle, preparing, applying}
use sv08_mainline.Jobs.Public.{Reader}
use sv08_mainline.Jobs.Work.{Attempt, prepared, start, attempt, perform, hand_over, released, work}
use sv08_mainline.Jobs.Once.{Reaches, here, later, starting, handing, refusing, concluding, dying}

module _ (service : Service) (l : Ledger) where
  performed :
      (a : Attempt) (v : Ledger)
      → Reaches service l v
      → Reaches service l (released (perform service a v.worker) v).1
  unfolding perform attempt ◌>>◌
  performed a v path = go v.worker refl
    where
      attempted :
          (row : Row) (p : Result (Unit {0}))
          → v.worker ≡ preparing row
          → prepared a row ≡ p
          → Reaches service l (released (attempt service a row p) v).1
      attempted row (ok tt) e q =
          later (later path (handing a row v e q))
            (concluding a.outcome row (hand_over row v).1 refl)
      attempted row (err x) e q = later path (refusing a row x v e q)

      go : (w : Worker) → v.worker ≡ w → Reaches service l (released (perform service a w) v).1
      go idle e = later path (dying v)
      go (applying row) e = later path (dying v)
      go (preparing row) e = attempted row (prepared a row) e refl

  -- A whole run of the worker, however it ends and at whatever write it is stopped, is a history of
  -- the steps: what holds of every history holds of it.
  pub work-Reaches :
      (reader : Reader) (identity : Option String) (a : Attempt)
      → l.worker ≡ idle
      → Reaches service l (work service reader identity a l).1
  unfolding work ◌>>=◌ ◌>>◌
  work-Reaches reader identity a e =
      go (start service reader identity l) (later (here l) (starting reader identity l e))
    where
      go :
          (x : Result (Unit {0}) × Ledger)
          → Reaches service l x.1
          → Reaches service l
              (record (then_do x.0 (λ _. query ok >>= λ v. perform service a v.worker) x.1).1 {
                worker = idle;
              })
      go (ok tt, v) path = performed a v path
      go (err x, v) path = later path (dying v)

-- ===== src/Jobs/Once.antt =====
-- Every history of the ledger of runtime/sv08_admin_jobs.py: the sections of its callers and of its
-- worker in any order, each with any answers of the rest of the system, stopped at any write, and a
-- worker that can die at any time. Each section holds the ledger lock, so it is one step.
use sv08_mainline.Base.{
  ℕ, ◌≤◌, String, ◌≡◌, refl, subst, ◌⊎◌, inl, inr, true, false, Option, List, [], ◌∷◌, Result, ok,
  err, Error, arith, str_eq, eq_iff, Bool-cases,
}
use sv08_mainline.Base.Exec.{always}
use sv08_mainline.Base.Lists.{Has, concat, first-Has, Has-append_right}
use sv08_mainline.Jobs.{Row, Plan}
use sv08_mainline.Jobs.History.{all_rows, active_rows, archive_batches, Maintenance}
use sv08_mainline.Jobs.Ledger.{Ledger, Service, Worker, idle, preparing, applying}
use sv08_mainline.Jobs.Upkeep.{apply}
use sv08_mainline.Jobs.Submit.{Submission, queue, record_lost_launch}
use sv08_mainline.Jobs.Public.{Reader}
use sv08_mainline.Jobs.Work.{
  Attempt, prepared, start, attempt, conclude_outcome, released, hand_over,
}
use sv08_mainline.Jobs.Resolution.{Review, dispose}
use sv08_mainline.Jobs.Retained.{Retained, Retains-refl, Retains-trans, Retains-at}
use sv08_mainline.Jobs.Maintaining.{apply-Unchanged, Unchanged}
use sv08_mainline.Jobs.Queueing.{
  Held, HeldRow, Advanced, queue-Advances, record_lost_launch-Advances,
}
use sv08_mainline.Jobs.Soundness.{
  handed, Once, Fresh, IsSound, Progress, progressed, Advanced-Progress, stays,
}
use sv08_mainline.Jobs.Starting.{start-Progress}
use sv08_mainline.Jobs.Ending.{concluding-Progress, refusing-Progress, dispose-Progress}

module _ (service : Service) where
  -- A section of the ledger lock, or what happens between two of them. Maintenance is a step while no
  -- worker holds its lock, since it takes that lock too.
  pub data Step : Ledger → Ledger → Type 0 where
    queueing :
        (s : Submission) (identity : String) (plan : Plan) (l : Ledger)
        → Step l (queue service s identity plan l).1
    unlaunching :
        (identity : String) (l : Ledger) → Step l (record_lost_launch service identity l).1
    starting :
        (reader : Reader) (identity : Option String) (l : Ledger)
        → l.worker ≡ idle
        → Step l (start service reader identity l).1
    handing :
        (a : Attempt) (row : Row) (l : Ledger)
        → l.worker ≡ preparing row
        → prepared a row ≡ ok tt
        → Step l (hand_over row l).1
    refusing :
        (a : Attempt) (row : Row) (e : Error) (l : Ledger)
        → l.worker ≡ preparing row
        → prepared a row ≡ err e
        → Step l (released (attempt service a row (err e)) l).1
    concluding :
        (outcome : Result String) (row : Row) (l : Ledger)
        → l.worker ≡ applying row
        → Step l (released (conclude_outcome service row outcome) l).1
    dying : (l : Ledger) → Step l (record l { worker = idle })
    disposing :
        (reader : Reader) (review : Review) (observed : Result String) (l : Ledger)
        → Step l (dispose service reader review observed l).1
    maintaining :
        (plan : Maintenance) (l : Ledger) → l.worker ≡ idle → Step l (apply service plan l).1
    powering : (n : ℕ) (l : Ledger) → Step l (record l { power = n })

  pub data Reaches : Ledger → Ledger → Type 0 where
    here : (l : Ledger) → Reaches l l
    later : {u v w : Ledger} → Reaches u v → Step v w → Reaches u w

Held-as : (w w' : Worker) (rows : List Row) → w ≡ w' → Held w rows → Held w' rows
Held-as w w' rows e h = subst (λ (x : Worker). Held x rows) e h

-- The plan of a receipt that was never handed over is handed over once.
hand_over-Progress :
    (l : Ledger) (row : Row)
    → IsSound l
    → l.worker ≡ preparing row
    → Progress l (record l { worker = applying row; applied = row.id ∷ l.applied })
hand_over-Progress l row s e = record {
  retains = Retains-refl (all_rows l.history);
  sound = record {
    once = λ id. go id (Bool-cases (str_eq row.id id)) (s.once id);
    held = h;
    fresh = tt;
  };
}
  where
    h : HeldRow row (active_rows l.history)
    h = Held-as l.worker (preparing row) (active_rows l.history) e s.held

    f : handed row.id l.applied ≡ 0
    f = subst (λ (x : Worker). Fresh x l.applied) e s.fresh

    there : Has row (all_rows l.history)
    there =
        Has-append_right (concat (archive_batches l.history)) (active_rows l.history) row
          (first-Has _ (active_rows l.history) h.0)

    go :
        (id : String)
        → (str_eq row.id id ≡ true) ⊎ (str_eq row.id id ≡ false)
        → Once id l.applied (all_rows l.history)
        → Once id (row.id ∷ l.applied) (all_rows l.history)
    go id (inl same) o =
        let i : row.id ≡ id = ground (arith, eq_iff row.id id) in
        let none_before : handed id l.applied ≡ 0 =
          subst (λ (x : String). handed x l.applied ≡ 0) i f in
        inr (ground (arith, none_before, same), (row, there, i, h.1))
    go id (inr other) (inl n) = inl (ground (arith, n, other))
    go id (inr other) (inr (n, b)) = inr (ground (arith, n, other), b)

Unchanged-Progress : (l l' : Ledger) → IsSound l → l.worker ≡ idle → Unchanged l l' → Progress l l'
Unchanged-Progress l l' s e k =
    progressed l l' s (rw k.rows_same (Retains-refl (all_rows l.history))) k.applied_same
      (rw (k.worker_same, e) tt) (rw (k.worker_same, e) tt)

module _ (service : Service) where
  pub Step-Progress : (v w : Ledger) → Step service v w → IsSound v → Progress v w
  Step-Progress v w (queueing r identity plan l) s =
      Advanced-Progress v _ s
        (always (Advanced v) _ (queue-Advances service v s.held r identity plan))
  Step-Progress v w (unlaunching identity l) s =
      Advanced-Progress v _ s
        (always (Advanced v) _ (record_lost_launch-Advances service v s.held identity))
  Step-Progress v w (starting reader identity l free) s =
      always (Progress v) _ (start-Progress service v s free reader identity)
  Step-Progress v w (handing a row l e p) s = hand_over-Progress v row s e
  Step-Progress v w (refusing a row x l e p) s =
      refusing-Progress service v s a row x
        (Held-as v.worker (preparing row) (active_rows v.history) e s.held)
  Step-Progress v w (concluding outcome row l e) s =
      concluding-Progress service v s row outcome
        (Held-as v.worker (applying row) (active_rows v.history) e s.held)
  Step-Progress v w (dying l) s = progressed v _ s (Retains-refl (all_rows v.history)) refl tt tt
  Step-Progress v w (disposing reader review observed l) s =
      always (Progress v) _ (dispose-Progress service v s reader review observed)
  Step-Progress v w (maintaining plan l free) s =
      Unchanged-Progress v _ s free (apply-Unchanged service plan v)
  Step-Progress v w (powering n l) s =
      progressed v _ s (Retains-refl (all_rows v.history)) refl s.held s.fresh

  Reaches-Progress : (u w : Ledger) → Reaches service u w → IsSound u → Progress u w
  Reaches-Progress u w (here v) s = stays u s
  Reaches-Progress u w (later {v = v} path step) s =
      let before : Progress u v = Reaches-Progress u v path s in
      let last : Progress v w = Step-Progress v w step before.sound in
      record {
        retains =
            Retains-trans (all_rows u.history) (all_rows v.history) (all_rows w.history)
              before.retains last.retains;
        sound = last.sound;
      }

  -- From a sound ledger, no receipt is ever lost: in every ledger that is reached, it stands with the
  -- same identity, plan, boot and time of queueing; an outcome or a disposition that it had is kept;
  -- and once it left the queue it is not queued again.
  pub Reaches-Retained :
      (u w : Ledger) (r : Row)
      → Reaches service u w
      → IsSound u
      → Has r (all_rows u.history)
      → Retained r (all_rows w.history)
  Reaches-Retained u w r path s m =
      Retains-at (all_rows u.history) (all_rows w.history) r (Reaches-Progress u w path s).retains m

unbegun : (l : Ledger) → l.worker ≡ idle → l.applied ≡ [] → IsSound l
unbegun l e a = record { once = λ id. inl (rw a refl); held = rw e tt; fresh = rw e tt }

-- From a ledger whose worker is idle and of which no plan was handed over yet, whatever its receipts
-- are: in every ledger that is reached, the plan of an identity was handed to the controller at most
-- once. No submission, retry, restart, death of a worker, disposition or maintenance replays a job.
pub Reaches-once :
    (service : Service) (u w : Ledger) (id : String)
    → Reaches service u w
    → u.worker ≡ idle
    → u.applied ≡ []
    → handed id w.applied ≤ 1
Reaches-once service u w id path e a =
    go ((Reaches-Progress service u w path (unbegun u e a)).sound.once id)
  where
    go : Once id w.applied (all_rows w.history) → handed id w.applied ≤ 1
    go (inl n) = omega (arith, n)
    go (inr (n, b)) = omega (arith, n)

-- ===== src/Jobs/Maintaining.antt =====
-- The reviewed maintenance of the receipts (runtime/sv08_admin_history.py) keeps every receipt as it
-- is, wherever it is stopped.
use sv08_mainline.Base.{◌≡◌, refl, ap, ◌∙◌, some, [], ◌∷◌, ◌++◌, Result}
use mathlib.Core.List.{append-nil}
use sv08_mainline.Base.Exec.{
  Outcome, at_then, at_pure, at_if, bind_read, then_read, bind-Reads, reads, weaken, always,
}
use sv08_mainline.Base.Lists.{concat, concat-snoc}
use sv08_mainline.Jobs.History.{
  History, legacy, manifest, Manifest, all_rows, active_rows, archive_batches, Maintenance,
  Maintaining, migrate, rollover,
}
use sv08_mainline.Jobs.Ledger.{
  Ledger, Service, publish, commit, replace_manifest, fence, next_manifest, archives_of,
}
use sv08_mainline.Jobs.Upkeep.{new_rows, completed}
use sv08_mainline.Jobs.Upkeep.{review, maintain, maintain_idle, apply}
use sv08_mainline.Jobs.Saving.{at_write, observe-Reads}

-- The receipts are the same and in the same order, and so are the worker and what it began.
pub record Unchanged (l l' : Ledger) : Type 0 where
  pub rows_same : all_rows l'.history ≡ all_rows l.history
  pub worker_same : l'.worker ≡ l.worker
  pub applied_same : l'.applied ≡ l.applied

pub unchanged : (l : Ledger) → Unchanged l l
unchanged l = record { rows_same = refl; worker_same = refl; applied_same = refl }

-- A batch that is archived stands before the new, empty one.
archived_rows :
    (h : History) (operation : Maintaining)
    → (concat (archives_of h operation) ++ new_rows operation h) ≡ all_rows h
unfolding archives_of new_rows
archived_rows h migrate = refl
archived_rows h rollover =
    append-nil (concat (archive_batches h ++ active_rows h ∷ []))
    ∙ concat-snoc (archive_batches h) (active_rows h)

module _ (service : Service) where
  abbrev Keeps : {A : Type 0} → Ledger → Result A × Ledger → Type 0
  Keeps l x = Outcome (λ _ l'. Unchanged l l') (Unchanged l) x

  replace_manifest-Keeps :
      (m : Manifest) (l u : Ledger)
      → Unchanged l u
      → all_rows (manifest m) ≡ all_rows l.history
      → Keeps l (replace_manifest service m u)
  unfolding replace_manifest
  replace_manifest-Keeps m l u k e = bind_read _ _ _ k λ _ _. then_read _ _ _ k λ _ _.
      then_read _ _ _ k λ _ _.
        at_write _ _ k (λ n. record {
          rows_same = e;
          worker_same = k.worker_same;
          applied_same = k.applied_same;
        })

  fence-Keeps : (h : History) (l : Ledger) → Keeps l (fence service h l)
  unfolding fence
  fence-Keeps (manifest m) l = at_pure _ _ (unchanged l)
  fence-Keeps (legacy rows) l = bind_read _ _ _ (unchanged l) λ v e.
      at_if v.fenced _ _ l (λ _. at_pure _ _ (unchanged l))
        (λ _.
          at_write _ _ (unchanged l)
            (λ n. record { rows_same = refl; worker_same = refl; applied_same = refl }))

  commit-Keeps :
      (h : History) (plan : Maintenance) (l : Ledger)
      → h ≡ l.history
      → Keeps l (commit service h (new_rows plan.operation h) (some plan) l)
  unfolding commit next_manifest
  commit-Keeps h plan l e = at_then _ _ _ (
      weaken (fence-Keeps h l)
        (λ _ u k. replace_manifest-Keeps _ l u k (archived_rows h plan.operation ∙ ap all_rows e))
        (λ _ k. k))

  maintain-Keeps : (plan : Maintenance) (l : Ledger) → Keeps l (maintain service plan l)
  unfolding maintain publish review
  maintain-Keeps plan l = bind-Reads _ _ _ (observe-Reads service l) (unchanged l) λ h o.
      bind-Reads {F = λ _. Unit {0}} _ _ _
        (then_read _ _ _ refl λ _ _.
          then_read _ _ _ refl
            λ _ _. then_read _ _ _ refl λ _ _. then_read _ _ _ refl λ _ _. reads _ _ λ _ _. tt)
        (unchanged l)
        λ reviewed _. then_read _ _ _ (unchanged l) λ _ _. then_read _ _ _ (unchanged l) λ _ _.
          bind-Reads _ _ _ (observe-Reads service l) (unchanged l) λ current _.
            then_read _ _ _ (unchanged l)
              λ _ _. then_read _ _ _ (unchanged l) λ _ _. commit-Keeps h plan l o.history_same

  -- A call of the maintenance, however it ends and at whatever write it is stopped, keeps the list of
  -- all receipts exactly: none is lost, changed or moved, also when 128 of them are archived.
  pub apply-Unchanged : (plan : Maintenance) (l : Ledger) → Unchanged l (apply service plan l).1
  unfolding apply maintain_idle
  apply-Unchanged plan l = always (Unchanged l) _ (
      then_read _ _ _ (unchanged l) λ _ _.
        bind-Reads _ _ _ (observe-Reads service l) (unchanged l) λ h o.
          at_if (completed h plan) _ _ l (λ _. at_pure _ _ (unchanged l))
            (λ _.
              bind_read _ _ _ (unchanged l)
                λ v e. then_read _ _ _ (unchanged l) λ _ _. maintain-Keeps plan l))

-- ===== src/Jobs/Saving.antt =====
-- How a save of runtime/sv08_admin_jobs.py ends: with the new receipts committed over the same
-- archives, or with nothing changed.
use sv08_mainline.Base.{ℕ, zero, suc, String, ◌≡◌, refl, Bool, true, Option, none, List, ok, arith}
use sv08_mainline.Base.Exec.{Outcome, Reads, Ends, bind_read, then_read, bind-Reads, reads}
use sv08_mainline.Base.Lists.{unique}
use sv08_mainline.Jobs.{Row, Codec}
use sv08_mainline.Jobs.Validation.{validate_rows}
use sv08_mainline.Jobs.History.{
  History, legacy, manifest, identities, all_rows, active_rows, archive_batches, view,
}
use sv08_mainline.Jobs.Ledger.{
  Ledger, Service, save, observe, write, write_at, publish, commit, replace_manifest,
}
use sv08_mainline.Jobs.Identities.{view-unique}

-- The receipts are committed, and nothing else is changed.
pub record Saved (codec : Codec) (rows : List Row) (l l' : Ledger) : Type 0 where
  pub active_new : active_rows l'.history ≡ rows
  pub archives_same : archive_batches l'.history ≡ archive_batches l.history
  pub accepted : validate_rows codec rows ≡ ok tt
  pub worker_same : l'.worker ≡ l.worker
  pub applied_same : l'.applied ≡ l.applied

module _ {Q : Unit {0} → Ledger → Type 0} {R : Ledger → Type 0} where
  pub at_write :
      (f : Ledger → Ledger) (l : Ledger)
      → R l
      → ((n : ℕ) → Q tt (f (record l { power = n })))
      → Outcome Q R (write f l)
  unfolding write
  at_write f l h k = record { holds = go l.power }
    where
      go : (n : ℕ) → Ends Q R (write_at f l n)
      go zero = h
      go (suc n) = k n

-- What a reader of the ledger learns: the history that is there, with distinct identities.
pub record Observed (l : Ledger) (h : History) : Type 0 where
  pub history_same : h ≡ l.history
  pub distinct : unique (identities (all_rows h)) ≡ true

module _ (service : Service) where
  pub observe-Reads : (l : Ledger) → Reads (Observed l) l (observe service l)
  unfolding observe
  observe-Reads l = reads _ _ λ h e. seen h e (view-unique service.codec l.fenced l.history h e)
    where
      seen :
          (h : History)
          → view service.codec l.fenced l.history ≡ ok h
          → (h ≡ l.history) × (unique (identities (all_rows l.history)) ≡ true)
          → Observed l h
      seen h e p = record { history_same = p.0; distinct = ground (arith, p.0, p.1) }

  commit-Saved :
      (h : History) (rows : List Row) (l : Ledger)
      → h ≡ l.history
      → validate_rows service.codec rows ≡ ok tt
      → Outcome
          (λ _ l'. Saved service.codec rows l l')
          (λ l'. l' ≡ l)
          (commit service h rows none l)
  unfolding commit replace_manifest
  commit-Saved (legacy old) rows l e v = at_write _ _ refl (λ n. record {
    active_new = refl;
    accepted = v;
    archives_same = ground (arith, e);
    worker_same = refl;
    applied_same = refl;
  })
  commit-Saved (manifest m) rows l e v = bind_read _ _ _ refl λ _ _. then_read _ _ _ refl λ _ _.
      then_read _ _ _ refl λ _ _. at_write _ _ refl (λ n. record {
        active_new = refl;
        accepted = v;
        archives_same = ground (arith, e);
        worker_same = refl;
        applied_same = refl;
      })

  publish-Saved :
      (h : History) (rows : List Row) (result : Bool) (l : Ledger)
      → h ≡ l.history
      → Outcome
          (λ _ l'. Saved service.codec rows l l')
          (λ l'. l' ≡ l)
          (publish service h rows none result l)
  unfolding publish
  publish-Saved h rows result l e = then_read _ _ _ refl λ _ v.
      bind-Reads _ _ _ (observe-Reads l) refl λ current _.
        then_read _ _ _ refl λ _ _. then_read _ _ _ refl λ _ _. commit-Saved h rows l e v

  -- A save commits the receipts, or it raises and leaves the ledger as it was.
  pub save-Saved :
      (rows : List Row) (expected : Option String) (result : Bool) (l : Ledger)
      → Outcome
          (λ _ l'. Saved service.codec rows l l')
          (λ l'. l' ≡ l)
          (save service rows expected result l)
  unfolding save
  save-Saved rows expected result l = bind-Reads _ _ _ (observe-Reads l) refl λ h o.
      then_read _ _ _ refl λ _ _. then_read _ _ _ refl λ _ _. then_read _ _ _ refl λ _ _.
        then_read _ _ _ refl
          λ _ _. then_read _ _ _ refl λ _ _. publish-Saved h rows result l o.history_same

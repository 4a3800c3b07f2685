-- ===== src/Jobs/Ending.antt =====
-- The durable end of a job (runtime/sv08_admin_jobs.py) and the disposition of an unknown outcome
-- (runtime/sv08_admin_resolution.py) keep the ledger sound.
use sv08_mainline.Base.{
  String, ◌≡◌, refl, sym, subst, ◌⊎◌, inl, inr, Bool, true, false, Option, none, some, List, Result,
  ok, err, Error, value_error, key_error, os_error, power_loss, arith, str_eq, take_chars,
}
use sv08_mainline.Base.Exec.{
  Outcome, at_pure, bind_read, then_read, bind-Reads, weaken, always, reads,
}
use sv08_mainline.Base.Lists.{set_first, set_first-Has}
use sv08_mainline.Jobs.{
  Row, Phase, Disposition, is_terminal, is_queued, succeeded, refused, interrupted,
}
use sv08_mainline.Jobs.History.{History, all_rows, active_rows}
use sv08_mainline.Jobs.Ledger.{
  Ledger, Service, Worker, idle, preparing, applying, find_row, worker_idle,
}
use sv08_mainline.Jobs.Submit.{found}
use sv08_mainline.Jobs.Public.{Reader}
use sv08_mainline.Jobs.Work.{Attempt, conclude, concluded, conclude_outcome, attempt, released}
use sv08_mainline.Jobs.Resolution.{
  Review, dispose, admit, check_retained, observe_again, retain, publish_review, retained, reviewed,
}
use sv08_mainline.Jobs.Retained.{Later, Retains, Retains-set_first}
use sv08_mainline.Jobs.Identities.{disposed_open}
use sv08_mainline.Jobs.Saving.{Saved, save-Saved, observe-Reads}
use sv08_mainline.Jobs.Queueing.{HeldRow, Saved-Retains}
use sv08_mainline.Jobs.Soundness.{IsSound, Progress, progressed, stays}
use sv08_mainline.Jobs.Starting.{concluded-Later}

found-some : (known : Option Row) (r : Row) → found known ≡ ok r → known ≡ some r
found-some none r e = cc
found-some (some q) r e = ground arith

-- A ledger that keeps its receipts and what was handed over, whatever the worker holds.
record Kept (l l' : Ledger) : Type 0 where
  kept_rows : Retains (all_rows l.history) (all_rows l'.history)
  kept_applied : l'.applied ≡ l.applied

module _ (service : Service) (l : Ledger) (s : IsSound l) where
  stays-Kept : Kept l l
  stays-Kept = record { kept_rows = (stays l s).retains; kept_applied = refl }

  Saved-Kept :
      (rows : List Row) (l' : Ledger)
      → Saved service.codec rows l l'
      → Retains (active_rows l.history) rows
      → Kept l l'
  Saved-Kept rows l' v r = record {
    kept_rows = Saved-Retains service.codec rows l l' v r;
    kept_applied = v.applied_same;
  }

  conclude-Kept :
      (row : Row) (phase : Phase) (message : String)
      → HeldRow row (active_rows l.history)
      → is_queued phase ≡ false
      → Outcome (λ _ l'. Kept l l') (Kept l) (conclude service row phase message l)
  unfolding conclude
  conclude-Kept row phase message h q = bind-Reads _ _ _ (observe-Reads service l) stays-Kept λ v o.
      bind_read _ _ _ stays-Kept λ _ _.
        weaken (save-Saved service _ _ true l)
          (λ _ l' k. Saved-Kept _ l' k (
            rw o.history_same (
              Retains-set_first _ (concluded phase message) (active_rows l.history) row h.0
                (concluded-Later row phase message h.2 q))))
          (λ l' e. subst (Kept l) (sym e) stays-Kept)

  conclude_outcome-Kept :
      (row : Row) (outcome : Result String)
      → HeldRow row (active_rows l.history)
      → Outcome (λ _ l'. Kept l l') (Kept l) (conclude_outcome service row outcome l)
  unfolding conclude_outcome
  conclude_outcome-Kept row (ok message) h =
      conclude-Kept row succeeded (take_chars 1000 message) h refl
  conclude_outcome-Kept row (err power_loss) h = record { holds = stays-Kept }
  conclude_outcome-Kept row (err (value_error m)) h = conclude-Kept row interrupted _ h refl
  conclude_outcome-Kept row (err (key_error m)) h = conclude-Kept row interrupted _ h refl
  conclude_outcome-Kept row (err (os_error m)) h = conclude-Kept row interrupted _ h refl

  refuse-Kept :
      (a : Attempt) (row : Row) (e : Error)
      → HeldRow row (active_rows l.history)
      → Outcome (λ _ l'. Kept l l') (Kept l) (attempt service a row (err e) l)
  unfolding attempt
  refuse-Kept a row power_loss h = record { holds = stays-Kept }
  refuse-Kept a row (value_error m) h = conclude-Kept row refused _ h refl
  refuse-Kept a row (key_error m) h = conclude-Kept row refused _ h refl
  refuse-Kept a row (os_error m) h = conclude-Kept row refused _ h refl

  -- the worker lock is given back
  released-Kept : (l' : Ledger) → Kept l l' → Progress l (record l' { worker = idle })
  released-Kept l' k = progressed l _ s k.kept_rows k.kept_applied tt tt

  pub concluding-Progress :
      (row : Row) (outcome : Result String)
      → HeldRow row (active_rows l.history)
      → Progress l (released (conclude_outcome service row outcome) l).1
  concluding-Progress row outcome h =
      released-Kept _ (always (Kept l) _ (conclude_outcome-Kept row outcome h))

  pub refusing-Progress :
      (a : Attempt) (row : Row) (e : Error)
      → HeldRow row (active_rows l.history)
      → Progress l (released (attempt service a row (err e)) l).1
  refusing-Progress a row e h = released-Kept _ (always (Kept l) _ (refuse-Kept a row e h))

-- A disposition is added only to a receipt that has none, and an outcome takes none.
reviewed-Later :
    (r : Row) (review : Review) (evidence : String)
    → r.disposition ≡ none
    → is_terminal (reviewed review evidence r).phase ≡ false
    → Later r (reviewed review evidence r)
unfolding reviewed
reviewed-Later r review evidence e h = record {
  id_same = refl;
  plan_same = refl;
  boot_same = refl;
  queued_same = refl;
  outcome_kept = inl h;
  disposition_kept = inl e;
  begun_kept = go (is_queued r.phase) refl;
}
  where
    go :
        (b : Bool)
        → is_queued r.phase ≡ b
        → (is_queued r.phase ≡ true) ⊎ (is_queued r.phase ≡ false)
    go true e = inl e
    go false e = inr e

retained-none : (review : Review) (d : Option Disposition) → retained review d ≡ ok false → d ≡ none
unfolding retained
retained-none review none h = refl
retained-none review (some d) h = ground arith

module _ (service : Service) (l : Ledger) (s : IsSound l) where
  abbrev Goes : {A : Type 0} → Result A × Ledger → Type 0
  Goes x = Outcome (λ _ l'. Progress l l') (Progress l) x

  publish_review-Progress :
      (reader : Reader) (review : Review) (evidence : String) (h : History) (row : Row)
      (known : Bool)
      → l.worker ≡ idle
      → h ≡ l.history
      → find_row review.id (active_rows h) ≡ some row
      → retained review row.disposition ≡ ok known
      → Goes (publish_review service reader review evidence h row known l)
  unfolding publish_review
  publish_review-Progress reader review evidence h row true free e f k = at_pure _ _ (stays l s)
  publish_review-Progress reader review evidence h row false free e f k =
      then_read _ _ _ (stays l s) λ _ _.
        weaken (save-Saved service _ _ true l)
          (λ _ l' v.
            progressed l l' s
              (Saved-Retains service.codec _ l l' v (
                rw (sym e) (
                  Retains-set_first _ (reviewed review evidence) (active_rows h) row f
                    (later l' v))))
              v.applied_same (rw (v.worker_same, free) tt) (rw (v.worker_same, free) tt))
          (λ l' e. subst (Progress l) (sym e) (stays l s))
    where
      later :
          (l' : Ledger)
          → Saved service.codec
              (set_first
                (λ (r : Row). str_eq r.id review.id)
                (reviewed review evidence)
                (active_rows h))
              l
              l'
          → Later row (reviewed review evidence row)
      later l' v = reviewed-Later row review evidence (retained-none review row.disposition k) (
          disposed_open service.codec _ (reviewed review evidence row) _ v.accepted
            (set_first-Has _ (reviewed review evidence) (active_rows h) f) refl)

  idle-worker : (w : Worker) → worker_idle w ≡ ok tt → w ≡ idle
  unfolding worker_idle
  idle-worker idle h = refl
  idle-worker (preparing r) h = cc
  idle-worker (applying r) h = cc

  retain-Progress :
      (reader : Reader) (review : Review) (evidence : String)
      → l.worker ≡ idle
      → Goes (retain service reader review evidence l)
  unfolding retain
  retain-Progress reader review evidence free =
      bind-Reads _ _ _ (observe-Reads service l) (stays l s) λ h o.
        bind_read _ _ _ (stays l s) λ row f. bind_read _ _ _ (stays l s) λ known k.
          publish_review-Progress reader review evidence h row known free o.history_same
            (found-some _ row f) k

  observe_again-Progress :
      (reader : Reader) (review : Review) (observed : Result String) (known : Bool)
      → l.worker ≡ idle
      → Goes (observe_again service reader review observed known l)
  unfolding observe_again
  observe_again-Progress reader review observed true free = at_pure _ _ (stays l s)
  observe_again-Progress reader review observed false free =
      bind_read _ _ _ (stays l s)
        λ evidence _. then_read _ _ _ (stays l s) λ _ _. retain-Progress reader review evidence free

  admit-Progress :
      (reader : Reader) (review : Review) (observed : Result String) (known : Bool)
      → Goes (admit service reader review observed known l)
  unfolding admit
  admit-Progress reader review observed true = at_pure _ _ (stays l s)
  admit-Progress reader review observed false = bind_read _ _ _ (stays l s) λ u e.
      then_read _ _ _ (stays l s) λ _ w.
        bind-Reads _ _ _ (observe-Reads service l) (stays l s) λ h o.
          bind_read _ _ _ (stays l s) λ row _. bind_read _ _ _ (stays l s) λ known _.
            observe_again-Progress reader review observed known (idle-worker l.worker (same u e w))
    where
      same :
          (u : Ledger) → ok l ≡ ok u → worker_idle u.worker ≡ ok tt → worker_idle l.worker ≡ ok tt
      same u e w =
          subst
            (λ (v : Result Ledger). elim v [
              | ok x ↦ worker_idle x.worker ≡ ok tt
              | err _ ↦ Unit {0}
            ])
            (sym e) w

  pub dispose-Progress :
      (reader : Reader) (review : Review) (observed : Result String)
      → Goes (dispose service reader review observed l)
  unfolding dispose check_retained
  dispose-Progress reader review observed = then_read _ _ _ (stays l s) λ _ _.
      bind-Reads {F = λ _. Unit {0}} _ _ _
        (bind-Reads _ _ _ (observe-Reads service l) refl
          λ h o. bind_read _ _ _ refl λ row _. reads _ _ λ _ _. tt)
        (stays l s) λ known _. admit-Progress reader review observed known

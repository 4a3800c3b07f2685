-- ===== src/Jobs/Queueing.antt =====
-- The sections of `Jobs.submit` (runtime/sv08_admin_jobs.py) keep every receipt, the receipt of the
-- worker as it is, and what was handed over.
use sv08_mainline.Base.{
  String, ◌≡◌, refl, sym, ◌∙◌, ◌≢◌, subst, inl, inr, Bool, true, false, Option, none, some, List,
  ◌++◌, Result, ok, arith, str_eq,
}
use sv08_mainline.Base.Exec.{
  Outcome, at_then, at_pure, at_read, at_if, bind_read, then_read, bind-Reads, weaken,
}
use sv08_mainline.Base.Lists.{concat, set_first}
use sv08_mainline.Jobs.{Row, Phase, Plan, Codec, is_terminal, is_queued}
use sv08_mainline.Jobs.History.{History, all_rows, active_rows, archive_batches}
use sv08_mainline.Jobs.Ledger.{Ledger, Service, Worker, idle, preparing, applying, find_row, save}
use sv08_mainline.Jobs.Submit.{
  Submission, queue, enqueue, record_lost_launch, interrupt_unlaunched, unlaunched, found,
  require_admissible,
}
use sv08_mainline.Jobs.Retained.{
  Later, Retains, Retains-refl, Retains-append, Retains-set_first, append-Retains,
}
use sv08_mainline.Jobs.Identities.{find-append, find-set_other}
use sv08_mainline.Jobs.Saving.{Saved, save-Saved, observe-Reads, Observed}

-- the receipt of a worker stands in the ledger as the worker left it, running
abbrev pub HeldRow : Row → List Row → Type 0
HeldRow r rows =
    (find_row r.id rows ≡ some r) × (is_queued r.phase ≡ false) × (is_terminal r.phase ≡ false)

abbrev pub Held : Worker → List Row → Type 0
Held idle rows = Unit {0}
Held (preparing r) rows = HeldRow r rows
Held (applying r) rows = HeldRow r rows

pub record Advanced (l l' : Ledger) : Type 0 where
  pub retains : Retains (all_rows l.history) (all_rows l'.history)
  pub held : Held l.worker (active_rows l'.history)
  pub worker_same : l'.worker ≡ l.worker
  pub applied_same : l'.applied ≡ l.applied

pub Saved-Retains :
    (codec : Codec) (rows : List Row) (l l' : Ledger)
    → Saved codec rows l l'
    → Retains (active_rows l.history) rows
    → Retains (all_rows l.history) (all_rows l'.history)
Saved-Retains codec rows l l' s h =
    rw (s.archives_same, s.active_new)
      (append-Retains (concat (archive_batches l.history)) (active_rows l.history) rows h)

pub stayed : (l : Ledger) → Held l.worker (active_rows l.history) → Advanced l l
stayed l h = record {
  retains = Retains-refl (all_rows l.history);
  held = h;
  worker_same = refl;
  applied_same = refl;
}

advanced :
    (codec : Codec) (rows : List Row) (l l' : Ledger)
    → Saved codec rows l l'
    → Retains (active_rows l.history) rows
    → Held l.worker rows
    → Advanced l l'
advanced codec rows l l' s r h = record {
  retains = Saved-Retains codec rows l l' s r;
  held = rw s.active_new h;
  worker_same = s.worker_same;
  applied_same = s.applied_same;
}

abbrev pub Advances : {A : Type 0} → Ledger → Result A × Ledger → Type 0
Advances l x = Outcome (λ _ l'. Advanced l l') (Advanced l) x

-- A save of receipts that keeps what the ledger has.
pub save-Advances :
    (service : Service) (rows : List Row) (expected : Option String) (result : Bool) (l : Ledger)
    → Held l.worker (active_rows l.history)
    → Retains (active_rows l.history) rows
    → Held l.worker rows
    → Advances l (save service rows expected result l)
save-Advances service rows expected result l h r k =
    weaken (save-Saved service rows expected result l)
      (λ _ l' s. advanced service.codec rows l l' s r k)
      (λ l' e. subst (Advanced l) (sym e) (stayed l h))

Held-append : (w : Worker) (xs ys : List Row) → Held w xs → Held w (xs ++ ys)
Held-append idle xs ys h = tt
Held-append (preparing r) xs ys h = (find-append r.id xs ys r h.0, h.1, h.2)
Held-append (applying r) xs ys h = (find-append r.id xs ys r h.0, h.1, h.2)

-- a change of a queued receipt is not one of the worker's
HeldRow-set_first :
    (id : String) (r q : Row) (xs : List Row)
    → find_row id xs ≡ some q
    → is_queued q.phase ≡ true
    → HeldRow r xs
    → HeldRow r (set_first (λ (x : Row). str_eq x.id id) unlaunched xs)
unfolding unlaunched
HeldRow-set_first id r q xs f e h =
    (find-set_other id r.id unlaunched xs (λ x. refl) ne ∙ h.0, h.1, h.2)
  where
    ne : id ≢ r.id
    ne same = cc (sym (subst (λ (x : String). find_row x xs ≡ some q) same f) ∙ h.0, e, h.1)

Held-set_first :
    (w : Worker) (id : String) (q : Row) (xs : List Row)
    → find_row id xs ≡ some q
    → is_queued q.phase ≡ true
    → Held w xs
    → Held w (set_first (λ (x : Row). str_eq x.id id) unlaunched xs)
Held-set_first idle id q xs f e h = tt
Held-set_first (preparing r) id q xs f e h = HeldRow-set_first id r q xs f e h
Held-set_first (applying r) id q xs f e h = HeldRow-set_first id r q xs f e h

unlaunched-Later : (r : Row) → is_queued r.phase ≡ true → Later r (unlaunched r)
unfolding unlaunched
unlaunched-Later r h = record {
  id_same = refl;
  plan_same = refl;
  boot_same = refl;
  queued_same = refl;
  outcome_kept = inl (ended r.phase h);
  disposition_kept = inr refl;
  begun_kept = inl h;
}
  where
    ended : (p : Phase) → is_queued p ≡ true → is_terminal p ≡ false
    ended p h = ground arith

module _ (service : Service) (l : Ledger) (h : Held l.worker (active_rows l.history)) where
  enqueue-Advances :
      (s : Submission) (identity : String) (plan : Plan) (v : History) (known : Option Row)
      → Observed l v
      → Advances l (enqueue service s identity plan v known l)
  unfolding enqueue require_admissible
  enqueue-Advances s identity plan v (some row) o = at_pure _ _ (stayed l h)
  enqueue-Advances s identity plan v none o = bind_read _ _ _ (stayed l h) λ u e. at_then _ _ _ (
      then_read _ _ _ (stayed l h) λ _ _. then_read _ _ _ (stayed l h) λ _ _.
        at_read _ _ (stayed l h) λ _ _.
          save-Advances service _ _ false l h
            (rw o.history_same (Retains-append (active_rows l.history) _))
            (rw o.history_same (Held-append l.worker (active_rows l.history) _ h)))

  pub queue-Advances :
      (s : Submission) (identity : String) (plan : Plan)
      → Advances l (queue service s identity plan l)
  unfolding queue
  queue-Advances s identity plan = then_read _ _ _ (stayed l h) λ _ _.
      then_read _ _ _ (stayed l h) λ _ _.
        bind-Reads _ _ _ (observe-Reads service l) (stayed l h) λ v o.
          bind_read _ _ _ (stayed l h) λ known _. at_then _ _ _ (
            weaken (enqueue-Advances s identity plan v known o) (λ _ u k. at_pure _ _ k) (λ _ k. k))

  pub record_lost_launch-Advances :
      (identity : String) → Advances l (record_lost_launch service identity l)
  unfolding record_lost_launch interrupt_unlaunched
  record_lost_launch-Advances identity =
      bind-Reads _ _ _ (observe-Reads service l) (stayed l h) λ v o.
        bind_read _ _ _ (stayed l h) λ row e.
          at_if (is_queued row.phase) _ _ l
            (λ q.
              let f : find_row identity (active_rows l.history) ≡ some row =
                there (find_row identity (active_rows v))
                  (find_row identity (active_rows l.history)) row (rw o.history_same) e in
              save-Advances service _ _ true l h
                (rw o.history_same (
                  Retains-set_first _ unlaunched (active_rows l.history) row f
                    (unlaunched-Later row q)))
                (rw o.history_same
                  (Held-set_first l.worker identity row (active_rows l.history) f q h)))
            (λ _. at_pure _ _ (stayed l h))
    where
      there : (a b : Option Row) (r : Row) → b ≡ a → found a ≡ ok r → b ≡ some r
      there none b r e h = cc
      there (some q) b r e h = ground arith

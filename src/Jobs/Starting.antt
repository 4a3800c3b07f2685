-- ===== src/Jobs/Starting.antt =====
-- The claim of a receipt by `Jobs.work` (runtime/sv08_admin_jobs.py), and its durable end.
use sv08_mainline.Base.{
  String, ◌≡◌, refl, sym, subst, inl, inr, Bool, true, false, not, ◌||◌, Option, none, some, List,
  Result, arith, str_eq,
}
use sv08_mainline.Base.Exec.{Outcome, at_then, at_pure, at_if, bind-Reads, weaken}
use sv08_mainline.Base.Lists.{Has, concat, first, set_first, first-Has, Has-append_right, unique}
use sv08_mainline.Jobs.{Row, Phase, is_terminal, is_queued, blocking}
use sv08_mainline.Jobs.History.{History, all_rows, active_rows, archive_batches, identities}
use sv08_mainline.Jobs.Ledger.{Ledger, Service, idle, preparing}
use sv08_mainline.Jobs.Public.{Reader, is_expired}
use sv08_mainline.Jobs.Work.{
  start, claim, claim_present, started, stale, concluded, is_other, is_missing,
}
use sv08_mainline.Jobs.Retained.{Later, Retains-set_first}
use sv08_mainline.Jobs.Identities.{find-set_first, unique-same, unique-append_right}
use sv08_mainline.Jobs.Saving.{Saved, save-Saved, observe-Reads, Observed}
use sv08_mainline.Jobs.Queueing.{Held, Saved-Retains}
use sv08_mainline.Jobs.Soundness.{handed, Once, Fresh, IsSound, Progress, progressed, stays}

started-Later : (r : Row) → is_queued r.phase ≡ true → Later r (started r)
unfolding started
started-Later r h = record {
  id_same = refl;
  plan_same = refl;
  boot_same = refl;
  queued_same = refl;
  outcome_kept = inl (open_phase r.phase h);
  disposition_kept = inr refl;
  begun_kept = inl h;
}
  where
    open_phase : (p : Phase) → is_queued p ≡ true → is_terminal p ≡ false
    open_phase p h = ground arith

stale-Later : (r : Row) → is_queued r.phase ≡ true → Later r (stale r)
unfolding stale
stale-Later r h = record {
  id_same = refl;
  plan_same = refl;
  boot_same = refl;
  queued_same = refl;
  outcome_kept = inl (open_phase r.phase h);
  disposition_kept = inr refl;
  begun_kept = inl h;
}
  where
    open_phase : (p : Phase) → is_queued p ≡ true → is_terminal p ≡ false
    open_phase p h = ground arith

pub concluded-Later :
    (r : Row) (phase : Phase) (message : String)
    → is_terminal r.phase ≡ false
    → is_queued phase ≡ false
    → Later r (concluded phase message r)
unfolding concluded
concluded-Later r phase message h q = record {
  id_same = refl;
  plan_same = refl;
  boot_same = refl;
  queued_same = refl;
  outcome_kept = inl h;
  disposition_kept = inr refl;
  begun_kept = inr q;
}

-- A queued receipt was never handed over.
queued-fresh :
    (row : Row) (applied : List String) (rows : List Row)
    → unique (identities rows) ≡ true
    → Has row rows
    → is_queued row.phase ≡ true
    → Once row.id applied rows
    → handed row.id applied ≡ 0
queued-fresh row applied rows u m q (inl n) = n
queued-fresh row applied rows u m q (inr (n, (r, k, e, b))) =
    let same : r ≡ row = unique-same rows r row u k m e in
    cc (subst (λ (x : Row). is_queued x.phase ≡ false) same b)

module _ (service : Service) (l : Ledger) (s : IsSound l) (free : l.worker ≡ idle) where
  abbrev Goes : {A : Type 0} → Result A × Ledger → Type 0
  Goes x = Outcome (λ _ l'. Progress l l') (Progress l) x

  idle-Held : (l' : Ledger) → l'.worker ≡ l.worker → Held l'.worker (active_rows l'.history)
  idle-Held l' e = rw (e, free) tt

  idle-Fresh : (l' : Ledger) → l'.worker ≡ l.worker → Fresh l'.worker l.applied
  idle-Fresh l' e = rw (e, free) tt

  taken :
      (l' : Ledger) (row : Row)
      → Saved service.codec (set_first blocking started (active_rows l.history)) l l'
      → unique (identities (all_rows l.history)) ≡ true
      → first blocking (active_rows l.history) ≡ some row
      → is_queued row.phase ≡ true
      → Progress l (record l' { worker = preparing (started row) })
  unfolding started
  taken l' row v u f q =
      progressed l _ s
        (Saved-Retains service.codec _ l l' v
          (Retains-set_first blocking started (active_rows l.history) row f (started-Later row q)))
        v.applied_same
        (rw v.active_new (
          find-set_first blocking started (active_rows l.history) row
              (unique-append_right (concat (archive_batches l.history)) (active_rows l.history) u) f
              refl,
          refl,
          refl,
        ))
        (queued-fresh row l.applied (all_rows l.history) u
          (Has-append_right (concat (archive_batches l.history)) (active_rows l.history) row
            (first-Has blocking (active_rows l.history) f))
          q (s.once row.id))

  claim-Progress :
      (reader : Reader) (identity : Option String) (known : Option Row)
      → unique (identities (all_rows l.history)) ≡ true
      → first blocking (active_rows l.history) ≡ known
      → Goes (claim service reader identity l.history known l)
  unfolding claim
  claim-Progress reader identity none u f = at_pure _ _ (stays l s)
  claim-Progress reader identity (some row) u f =
      at_if (not (is_queued row.phase) || is_other identity row) _ _ l
        (λ _. at_pure _ _ (stays l s))
        (λ k.
          let q : is_queued row.phase ≡ true = ground arith in
          at_if (not (str_eq row.boot_id reader.boot_id) || is_expired reader.now row.queued_at) _ _
            l
            (λ _.
              weaken (save-Saved service _ _ true l)
                (λ _ l' v.
                  progressed l l' s
                    (Saved-Retains service.codec _ l l' v (
                      Retains-set_first blocking stale (active_rows l.history) row f
                        (stale-Later row q)))
                    v.applied_same (idle-Held l' v.worker_same) (idle-Fresh l' v.worker_same))
                (λ l' e. subst (Progress l) (sym e) (stays l s)))
            (λ _. at_then _ _ _ (
              weaken (save-Saved service _ _ true l) (λ _ l' v. at_pure _ _ (taken l' row v u f q))
                (λ l' e. subst (Progress l) (sym e) (stays l s)))))

  pub start-Progress :
      (reader : Reader) (identity : Option String) → Goes (start service reader identity l)
  unfolding start claim_present
  start-Progress reader identity =
      bind-Reads _ _ _ (observe-Reads service l) (stays l s)
        λ h o. go h (is_missing identity (active_rows h)) o
    where
      go :
          (h : History) (b : Bool)
          → Observed l h
          → Goes (claim_present service reader identity h b l)
      go h true o = at_pure _ _ (stays l s)
      go h false o =
          subst
            (λ (v : History).
              Goes (claim service reader identity v (first blocking (active_rows v)) l))
            (sym o.history_same)
            (claim-Progress reader identity _
              (subst (λ (v : History). unique (identities (all_rows v)) ≡ true) o.history_same
                o.distinct)
              refl)

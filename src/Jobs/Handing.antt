-- ===== src/Jobs/Handing.antt =====
-- A whole call of `Jobs.work` (runtime/sv08_admin_jobs.py): which plan it hands to the controller, and
-- what the ledger then holds.
use sv08_mainline.Base.{
  String, ◌≡◌, refl, sym, subst, ap, ◌∙◌, ◌⊎◌, inl, inr, Bool, true, false, not, ◌||◌, Option, none,
  some, List, ◌∷◌, Result, ok, err, Error, value_error, key_error, os_error, power_loss, arith,
  str_eq, take_chars,
}
use sv08_mainline.Base.Exec.{
  Outcome, at_then, at_pure, at_if, bind_read, bind-Reads, weaken, always, query, ◌>>◌, ◌>>=◌,
  then_do,
}
use sv08_mainline.Base.Lists.{first, set_first}
use sv08_mainline.Jobs.{Row, Phase, is_queued, blocking, succeeded, interrupted, refused}
use sv08_mainline.Jobs.History.{History, active_rows}
use sv08_mainline.Jobs.Ledger.{Ledger, Service, Worker, idle, preparing}
use sv08_mainline.Jobs.Public.{Reader, is_expired}
use sv08_mainline.Jobs.Work.{
  Attempt, start, claim, claim_present, started, concluded, is_other, is_missing, prepared,
  conclude, conclude_outcome, attempt, perform, work, hand_over, released,
}
use sv08_mainline.Jobs.Saving.{save-Saved, observe-Reads, Observed}

module _ (reader : Reader) (identity : Option String) (a : Attempt) (l : Ledger) where
  -- The receipt that a call may execute: the first that blocks, queued in this boot and in time, of
  -- the identity that is asked for, and with a review that still holds.
  pub record IsClaimable (row : Row) : Type 0 where
    pub is_first : first blocking (active_rows l.history) ≡ some row
    pub queued : is_queued row.phase ≡ true
    pub asked : is_other identity row ≡ false
    pub same_boot : str_eq row.boot_id reader.boot_id ≡ true
    pub in_time : is_expired reader.now row.queued_at ≡ false

  -- the receipts with this one running
  abbrev pub running_rows : List Row
  running_rows = set_first blocking started (active_rows l.history)

  -- The receipt of this identity is running, or has an end.
  abbrev pub IsBegun : String → Ledger → Type 0
  IsBegun id l' =
      (active_rows l'.history ≡ running_rows)
      ⊎ ((phase : Phase) × (message : String) × (is_queued phase ≡ false)
          × (active_rows l'.history
              ≡ set_first (λ (r : Row). str_eq r.id id) (concluded phase message) running_rows))

  pub record Executed (row : Row) (l' : Ledger) : Type 0 where
    pub claimable : IsClaimable row
    pub revalidated : prepared a (started row) ≡ ok tt
    pub handed_over : l'.applied ≡ row.id ∷ l.applied
    pub begun : IsBegun row.id l'

  abbrev pub Worked : Ledger → Type 0
  Worked l' = (l'.applied ≡ l.applied) ⊎ ((row : Row) × Executed row l')

  abbrev Claimed : Ledger → Type 0
  Claimed v =
      (v.applied ≡ l.applied)
      × ((v.worker ≡ idle)
          ⊎ ((row : Row) × IsClaimable row
              × (v.worker ≡ preparing (started row))
              × (active_rows v.history ≡ running_rows)))

  module _ (service : Service) (free : l.worker ≡ idle) where
    abbrev Claims : {A : Type 0} → Result A × Ledger → Type 0
    Claims x = Outcome (λ _ v. Claimed v) (λ v. v.applied ≡ l.applied) x

    claim-Claimed :
        (known : Option Row)
        → first blocking (active_rows l.history) ≡ known
        → Claims (claim service reader identity l.history known l)
    unfolding claim
    claim-Claimed none f = at_pure _ _ (refl, inl free)
    claim-Claimed (some row) f =
        at_if (not (is_queued row.phase) || is_other identity row) _ _ l
          (λ _. at_pure _ _ (refl, inl free))
          (λ k.
            at_if (not (str_eq row.boot_id reader.boot_id) || is_expired reader.now row.queued_at) _
              _ l
              (λ _.
                weaken (save-Saved service _ _ true l)
                  (λ _ v s.
                    (s.applied_same, inl (subst (λ (x : Worker). v.worker ≡ x) free s.worker_same)))
                  (λ v e. rw e refl))
              (λ t. at_then _ _ _ (
                weaken (save-Saved service _ _ true l)
                  (λ _ v s. at_pure _ _ (
                    s.applied_same,
                    inr (
                      row,
                      record {
                        is_first = f;
                        queued = ground arith;
                        asked = ground arith;
                        same_boot = ground arith;
                        in_time = ground arith;
                      },
                      refl,
                      s.active_new,
                    ),
                  ))
                  (λ v e. rw e refl))))

    start-Claimed : Claims (start service reader identity l)
    unfolding start claim_present
    start-Claimed =
        bind-Reads _ _ _ (observe-Reads service l) refl
          λ h o. go h (is_missing identity (active_rows h)) o
      where
        go :
            (h : History) (b : Bool)
            → Observed l h
            → Claims (claim_present service reader identity h b l)
        go h true o = at_pure _ _ (refl, inl free)
        go h false o =
            subst
              (λ (v : History).
                Claims (claim service reader identity v (first blocking (active_rows v)) l))
              (sym o.history_same) (claim-Claimed _ refl)

  module _ (service : Service) where
    -- an end is committed, or the ledger is as it was
    abbrev Concluded : Row → Ledger → Ledger → Type 0
    Concluded row v v' =
        (v'.applied ≡ v.applied)
        × ((active_rows v'.history ≡ active_rows v.history)
            ⊎ ((phase : Phase) × (message : String) × (is_queued phase ≡ false)
                × (active_rows v'.history
                    ≡ set_first (λ (r : Row). str_eq r.id row.id) (concluded phase message)
                        (active_rows v.history))))

    conclude-Concluded :
        (row : Row) (phase : Phase) (message : String) (v : Ledger)
        → is_queued phase ≡ false
        → Outcome
            (λ _ v'. Concluded row v v')
            (Concluded row v)
            (conclude service row phase message v)
    unfolding conclude
    conclude-Concluded row phase message v q =
        bind-Reads _ _ _ (observe-Reads service v) (refl, inl refl)
          λ h o.
            bind_read _ _ _ (refl, inl refl)
              λ _ _.
                weaken (save-Saved service _ _ true v)
                  (λ _ v' s.
                    (s.applied_same, inr (phase, message, q, rw (sym o.history_same) s.active_new)))
                  (λ v' e. rw e (refl, inl refl))

    conclude_outcome-Concluded :
        (row : Row) (outcome : Result String) (v : Ledger)
        → Outcome
            (λ _ v'. Concluded row v v')
            (Concluded row v)
            (conclude_outcome service row outcome v)
    unfolding conclude_outcome
    conclude_outcome-Concluded row (ok message) v =
        conclude-Concluded row succeeded (take_chars 1000 message) v refl
    conclude_outcome-Concluded row (err power_loss) v = record { holds = (refl, inl refl) }
    conclude_outcome-Concluded row (err (value_error m)) v =
        conclude-Concluded row interrupted _ v refl
    conclude_outcome-Concluded row (err (key_error m)) v =
        conclude-Concluded row interrupted _ v refl
    conclude_outcome-Concluded row (err (os_error m)) v =
        conclude-Concluded row interrupted _ v refl

    refuse-Concluded :
        (row : Row) (e : Error) (v : Ledger)
        → Outcome (λ _ v'. Concluded row v v') (Concluded row v) (attempt service a row (err e) v)
    unfolding attempt
    refuse-Concluded row power_loss v = record { holds = (refl, inl refl) }
    refuse-Concluded row (value_error m) v = conclude-Concluded row refused _ v refl
    refuse-Concluded row (key_error m) v = conclude-Concluded row refused _ v refl
    refuse-Concluded row (os_error m) v = conclude-Concluded row refused _ v refl

    begun :
        (row : Row) (v v' : Ledger)
        → active_rows v.history ≡ running_rows
        → Concluded row v v'
        → IsBegun row.id v'
    begun row v v' e (_, inl same) = inl (rw (same, e) refl)
    begun row v v' e (_, inr (phase, message, q, new)) = inr (phase, message, q, rw (new, e) refl)

    attempted-Worked :
        (row : Row) (v : Ledger) (p : Result (Unit {0}))
        → v.applied ≡ l.applied
        → IsClaimable row
        → active_rows v.history ≡ running_rows
        → prepared a (started row) ≡ p
        → Worked (attempt service a (started row) p v).1
    unfolding attempt ◌>>◌ started
    attempted-Worked row v (err e) kept c rows q =
        inl ((always (Concluded (started row) v) _ (refuse-Concluded (started row) e v)).0 ∙ kept)
    attempted-Worked row v (ok tt) kept c rows q =
        let given : Ledger = (hand_over (started row) v).1 in
        let done : Concluded (started row) given
            (conclude_outcome service (started row) a.outcome given).1 =
          always (Concluded (started row) given) _
            (conclude_outcome-Concluded (started row) a.outcome given) in
        inr (
          row,
          record {
            claimable = c;
            revalidated = q;
            handed_over = done.0 ∙ ap (λ ids. row.id ∷ ids) kept;
            begun =
                begun (started row) given (conclude_outcome service (started row) a.outcome given).1
                  rows done;
          },
        )

    performed-Worked : (v : Ledger) → Claimed v → Worked (perform service a v.worker v).1
    unfolding perform
    performed-Worked v (kept, inl e) =
        subst (λ (w : Worker). Worked (perform service a w v).1) (sym e) (inl kept)
    performed-Worked v (kept, inr (row, c, e, rows)) =
        subst (λ (w : Worker). Worked (perform service a w v).1) (sym e)
          (attempted-Worked row v (prepared a (started row)) kept c rows refl)

    released-Worked : (x : Result (Unit {0}) × Ledger) → Worked x.1 → Worked (released (λ _. x) l).1
    released-Worked x (inl e) = inl e
    released-Worked x (inr (row, e)) = inr (
      row,
      record {
        claimable = e.claimable;
        revalidated = e.revalidated;
        handed_over = e.handed_over;
        begun = e.begun;
      },
    )

    -- A call of the worker that holds the worker lock, however it ends and at whatever write it is
    -- stopped, hands over no plan, or that of one receipt: the first that blocks, which was queued in
    -- this boot and is in time, is of the identity that was asked for, and whose review still held. In
    -- that case the ledger holds the receipt as running, or with the end of its job.
    pub work-Worked : l.worker ≡ idle → Worked (work service reader identity a l).1
    unfolding work ◌>>=◌ ◌>>◌
    work-Worked free = go (start service reader identity l) (start-Claimed service free)
      where
        go :
            (x : Result (Unit {0}) × Ledger)
            → Outcome (λ _ v. Claimed v) (λ v. v.applied ≡ l.applied) x
            → Worked
                (record (then_do x.0 (λ _. query ok >>= λ v. perform service a v.worker) x.1).1 {
                  worker = idle;
                })
        go (ok tt, v) h =
            released-Worked (perform service a v.worker v) (performed-Worked v h.holds)
        go (err x, v) h = inl h.holds

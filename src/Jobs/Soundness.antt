-- ===== src/Jobs/Soundness.antt =====
-- The soundness of the ledger of runtime/sv08_admin_jobs.py: what the plans that were handed to the
-- controller, the receipts and the worker say of one another.
use sv08_mainline.Base.{ℕ, String, ◌≡◌, refl, ◌∙◌, ◌⊎◌, inl, inr, true, false, List, str_eq}
use sv08_mainline.Base.Lists.{Has, count_if}
use sv08_mainline.Jobs.{Row, is_queued}
use sv08_mainline.Jobs.History.{all_rows, active_rows}
use sv08_mainline.Jobs.Ledger.{Ledger, Worker, idle, preparing, applying}
use sv08_mainline.Jobs.Retained.{Retained, Retains, Retains-refl, Retains-at}
use sv08_mainline.Jobs.Queueing.{Held, Advanced}

-- how often the plan of an identity was handed to the controller
abbrev pub handed : String → List String → ℕ
handed id applied = count_if (λ (x : String). str_eq x id) applied

-- the receipt of an identity has left the queue
abbrev pub Begun : String → List Row → Type 0
Begun id rows = (r : Row) × Has r rows × (r.id ≡ id) × (is_queued r.phase ≡ false)

abbrev pub Once : String → List String → List Row → Type 0
Once id applied rows = (handed id applied ≡ 0) ⊎ ((handed id applied ≡ 1) × Begun id rows)

abbrev pub Fresh : Worker → List String → Type 0
Fresh idle applied = Unit {0}
Fresh (preparing r) applied = handed r.id applied ≡ 0
Fresh (applying r) applied = Unit {0}

-- No plan was handed over twice, one that was has left the queue, and the worker's receipt stands in
-- the ledger, not yet handed over while the worker revalidates it.
pub record IsSound (l : Ledger) : Type 0 where
  pub once : (id : String) → Once id l.applied (all_rows l.history)
  pub held : Held l.worker (active_rows l.history)
  pub fresh : Fresh l.worker l.applied

-- A sound ledger in which every receipt of the earlier one stands, later.
pub record Progress (l l' : Ledger) : Type 0 where
  pub retains : Retains (all_rows l.history) (all_rows l'.history)
  pub sound : IsSound l'

Begun-Retains : (id : String) (xs ys : List Row) → Retains xs ys → Begun id xs → Begun id ys
Begun-Retains id xs ys h (r, m, e, q) = go (Retains-at xs ys r h m)
  where
    left :
        (r' : Row)
        → (is_queued r.phase ≡ true) ⊎ (is_queued r'.phase ≡ false)
        → is_queued r'.phase ≡ false
    left r' (inl k) = cc
    left r' (inr k) = k

    go : Retained r ys → Begun id ys
    go (r', m', l) = (r', m', l.id_same ∙ e, left r' l.begun_kept)

pub Once-Retains :
    (id : String) (applied : List String) (xs ys : List Row)
    → Retains xs ys
    → Once id applied xs
    → Once id applied ys
Once-Retains id applied xs ys h (inl n) = inl n
Once-Retains id applied xs ys h (inr (n, b)) = inr (n, Begun-Retains id xs ys h b)

module _ (l l' : Ledger) (s : IsSound l) where
  pub progressed :
      Retains (all_rows l.history) (all_rows l'.history)
      → l'.applied ≡ l.applied
      → Held l'.worker (active_rows l'.history)
      → Fresh l'.worker l.applied
      → Progress l l'
  progressed r a h f = record {
    retains = r;
    sound = record {
      once = λ id.
          rw a (Once-Retains id l.applied (all_rows l.history) (all_rows l'.history) r (s.once id));
      held = h;
      fresh = rw a f;
    };
  }

  pub Advanced-Progress : Advanced l l' → Progress l l'
  Advanced-Progress a =
      progressed a.retains a.applied_same (rw a.worker_same a.held) (rw a.worker_same s.fresh)

pub stays : (l : Ledger) → IsSound l → Progress l l
stays l s = progressed l l s (Retains-refl (all_rows l.history)) refl s.held s.fresh

-- ===== src/Jobs/Upkeep.antt =====
-- `review`, `completed` and `apply` of `History` (runtime/sv08_admin_history.py): the reviewed
-- maintenance of the receipts.
use sv08_mainline.Base.{
  String, Bool, true, false, ◌&&◌, not, Option, none, some, List, [], ◌∷◌, ok, str_eq,
  if◌then◌else◌, leb, ◌==◌, length, any,
}
use sv08_mainline.Base.Exec.{Exec, lift, query, require_not, pure, ◌>>=◌, ◌>>◌}
use sv08_mainline.Jobs.{Row, blocking, limit}
use sv08_mainline.Jobs.History.{
  History, legacy, manifest, validate_maintenance, Token, Maintenance, Maintaining, migrate,
  rollover, is_migrated, active_rows, archive_batches, identities, archive_limit,
}
use sv08_mainline.Jobs.Ledger.{Ledger, Service, observe, publish, worker_idle}

same_operation : Maintaining → Maintaining → Bool
same_operation migrate migrate = true
same_operation migrate rollover = false
same_operation rollover migrate = false
same_operation rollover rollover = true

same_texts : List String → List String → Bool
same_texts [] [] = true
same_texts [] (_ ∷ _) = false
same_texts (_ ∷ _) [] = false
same_texts (a ∷ as') (b ∷ bs) = str_eq a b && same_texts as' bs

pub maintenance_eq : Maintenance → Maintenance → Bool
unfolding same_operation same_texts
maintenance_eq a b =
    same_operation a.operation b.operation && str_eq a.revision b.revision && same_texts a.ids b.ids

token_is : Option Token → Maintenance → Bool
unfolding maintenance_eq
token_is none plan = false
token_is (some token) plan = maintenance_eq token.plan plan

-- `History.completed`
pub completed : History → Maintenance → Bool
unfolding token_is
completed (legacy _) plan = false
completed (manifest m) plan = token_is m.maintenance plan

unfoldable pub new_rows : Maintaining → History → List Row
new_rows migrate h = active_rows h
new_rows rollover h = []

module _ (service : Service) where
  -- `History.review`
  unfoldable pub review : History → Exec Ledger Maintenance
  review h = do
    require_not (any blocking (active_rows h)) "Unresolved image work blocks history maintenance"
    require_not (is_migrated h && leb archive_limit (length (archive_batches h)))
        "Finite history archive ceiling reached; retained retries remain available, no eviction is offered"
    require_not (is_migrated h && not (length (active_rows h) == limit))
        "History maintenance needs a complete settled batch of 128 receipts"
    lift (service.storage.review_room h)
    pure (record {
      operation = if is_migrated h then rollover else migrate;
      revision = service.storage.revision h;
      ids = identities (active_rows h);
    })

  unfoldable pub maintain : Maintenance → Exec Ledger (Unit {0})
  unfolding observe review publish maintenance_eq new_rows
  maintain plan = do
    h ← observe service
    reviewed ← review h
    require_not (not (maintenance_eq reviewed plan))
        "Image history changed; review maintenance again"
    publish service h (new_rows plan.operation h) (some plan) false

  unfoldable pub maintain_idle : Maintenance → Exec Ledger (Unit {0})
  unfolding worker_idle maintain
  maintain_idle plan = do l ← query ok; lift (worker_idle l.worker); maintain plan

  -- `History.apply`
  unfoldable pub apply : Maintenance → Exec Ledger (Unit {0})
  unfolding observe completed maintain_idle validate_maintenance
  apply plan = do
    lift (validate_maintenance plan)
    h ← observe service
    if completed h plan then pure tt else maintain_idle plan

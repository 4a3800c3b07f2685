-- ===== src/Reboot.antt =====
-- runtime/sv08_auto_reboot.py: the one automatic restart into an armed automatic update.
pub mod Requests
pub mod Once
use sv08_mainline.Base.{
  ℕ, String, Bool, true, false, ◌&&◌, ◌||◌, not, Option, none, some, Result, ok, err, value_error,
  refuse_if, or_key_error, str_eq, if◌then◌else◌, codes, length, leb, ◌==◌,
}
use sv08_mainline.Base.Exec.{Exec, pure, lift, query, require_not, ◌>>=◌, ◌>>◌}
use sv08_mainline.Policy.{UpdatePolicy, effective, to_options}
use sv08_mainline.Registry.{Slot, slot_eq, State, Boot}
use sv08_mainline.Admission.{admit, check_source, policy_eq, is_true}
use sv08_mainline.Update.Interfaces.{Journal}
use sv08_mainline.Update.Journals.{is_settled, given_proof}
use sv08_mainline.Transaction.Checks.{is_armed}
use sv08_mainline.Restart.{require_restart}
use sv08_mainline.Restart.Receipts.{
  ReceiptState, ready, dispatching, queued, uncertain, suppressed, observed, retired, Receipt,
  Machine, Restarting, save_receipt, require_running, controlled_restart,
}

pub data Answer : Type 0 where
  reboot_retired reboot_observed awaiting_health reboot_queued reboot_uncertain reboot_suppressed :
      Answer

-- What `run` is told: the loaded journal and registry, the running context and `boot.json`, the
-- other admission checks, and what `controlled_restart` is told.
pub record Surroundings : Type 0 where
  pub journal : Result (Option Journal)
  pub registry : Result State
  pub boot : Boot
  pub boot_context : Option Boot
  pub jobs_idle : Result (Unit {0})
  pub context : Result (Unit {0})
  pub network_pending : Bool
  pub policy_revision : UpdatePolicy → String
  pub restarting : Restarting

-- `state in ('ready', 'suppressed', 'retired')`: before any dispatch
abbrev pub is_before : ReceiptState → Bool
is_before ready = true
is_before suppressed = true
is_before retired = true
is_before _ = false

-- `state in ('dispatching', 'queued', 'uncertain')`
abbrev pub is_dispatched : ReceiptState → Bool
is_dispatched dispatching = true
is_dispatched queued = true
is_dispatched uncertain = true
is_dispatched _ = false

abbrev is_observed : ReceiptState → Bool
is_observed observed = true
is_observed _ = false

abbrev is_queued : ReceiptState → Bool
is_queued queued = true
is_queued _ = false

abbrev is_short : String → Bool
is_short s = leb 1 (length (codes s)) && leb (length (codes s)) 80

-- the tests of `AutoReboot.load` that the types leave
abbrev receipt_valid : Receipt → Bool
receipt_valid r =
    is_short r.id
    && is_short r.boot_id
    && is_short r.release
    && is_short r.policy_revision
    && (length (codes r.shutdown_id) == 0 || length (codes r.shutdown_id) == 32)

unfoldable pub load_receipt : Option Receipt → Result (Option Receipt)
load_receipt none = ok none
load_receipt (some r) =
    if receipt_valid r then ok (some r) else err (value_error "Invalid automatic reboot receipt")

-- the transaction of this boot's receipt is settled, and nothing was dispatched
abbrev pub retires : Receipt → Option Journal → String → Bool
retires r none boot_id = false
retires r (some tx) boot_id =
    str_eq tx.id r.id && str_eq r.boot_id boot_id && is_settled tx.phase && is_before r.state

-- another transaction replaces a receipt that precedes a dispatch
abbrev pub replaces : Receipt → Option Journal → Bool
replaces r none = false
replaces r (some tx) = not (str_eq tx.id r.id) && is_before r.state

-- the observed receipt of an earlier boot does not block another transaction
abbrev pub forgets : Receipt → Option Journal → String → Bool
forgets r none boot_id = false
forgets r (some tx) boot_id =
    not (str_eq r.boot_id boot_id) && is_observed r.state && not (str_eq tx.id r.id)

-- the settled transaction of an earlier boot
abbrev observes : Receipt → Option Journal → Bool
observes r none = false
observes r (some tx) = str_eq tx.id r.id && is_settled tx.phase

abbrev restartable : Option Journal → Result Journal
restartable none = err (value_error "Automatic restart requires an armed automatic transaction")
restartable (some tx) =
    if is_armed tx.phase && tx.automatic
    then ok tx
    else err (value_error "Automatic restart requires an armed automatic transaction")

abbrev expected_receipt : Journal → Result Receipt
expected_receipt tx = elim tx.policy_revision [
  | none ↦ or_key_error none "policy_revision"
  | some revision ↦ ok (record {
    id = tx.id;
    boot_id = tx.boot_id;
    slot = tx.slot;
    release = tx.release;
    policy_revision = revision;
    state = ready;
    shutdown_id = "";
  })
]

abbrev receipt_differs : Option Receipt → Receipt → Bool
receipt_differs none e = false
receipt_differs (some r) e =
    not (str_eq r.id e.id)
    || not (str_eq r.boot_id e.boot_id)
    || not (slot_eq r.slot e.slot)
    || not (str_eq r.release e.release)
    || not (str_eq r.policy_revision e.policy_revision)

module _ (s : Surroundings) where
  abbrev boot_id : String
  boot_id = s.restarting.boot_id

  -- the fresh admission checks, and the restart
  unfoldable pub dispatch_restart : State → Journal → Receipt → Exec Machine Answer
  dispatch_restart state tx expected = do
    options ← lift (effective state.update_policy true)
    require_not (not (str_eq (s.policy_revision options) expected.policy_revision))
        "Automatic policy changed after staging; cancel or reconcile the transaction"
    admitted ← lift (or_key_error tx.update_policy "update_policy")
    require_not (not (policy_eq admitted options)) "Automatic restart lacks trusted admission proof"
    proof ← lift (or_key_error tx.admission_proof "admission_proof")
    require_not (not (is_true proof.signer_trusted))
        "Automatic restart lacks trusted admission proof"
    require_running boot_id
    lift (require_restart s.jobs_idle state (some tx) boot_id s.boot_context)
    lift (check_source state s.boot (some (to_options options)))
    lift s.context
    lift (admit proof state s.boot (some (to_options options)) true)
    require_not s.network_pending "Confirm or roll back network changes before restarting"
    save_receipt expected ready
    controlled_restart s.restarting expected
    pure reboot_queued

  -- no restart of this transaction was dispatched in this boot
  unfoldable pub begin : Option Receipt → Option Journal → Exec Machine Answer
  begin receipt journal = do
    tx ← lift (restartable journal)
    expected ← lift (expected_receipt tx)
    require_not (receipt_differs receipt expected)
        "Automatic reboot receipt differs from transaction; reconcile first"
    require_not (not (str_eq tx.boot_id boot_id)) "Automatic transaction belongs to another boot"
    state ← lift s.registry
    if not state.auto_update
        then (do save_receipt expected suppressed; pure reboot_suppressed)
        else dispatch_restart state tx expected

  -- the receipt of this run's predecessor decides
  unfoldable pub continue_receipt : Receipt → Option Journal → Exec Machine Answer
  continue_receipt r journal =
      if not (str_eq r.boot_id boot_id)
      then (if observes r journal
          then (do save_receipt r observed; pure reboot_observed)
          else pure awaiting_health)
      else (if is_dispatched r.state
          then pure (if is_queued r.state then reboot_queued else reboot_uncertain)
          else begin (some r) journal)

  unfoldable pub with_receipt : Option Receipt → Option Journal → Exec Machine Answer
  with_receipt none journal = begin none journal
  with_receipt (some r) journal =
      if retires r journal boot_id
      then (do require_running boot_id; save_receipt r retired; pure reboot_retired)
      else (if replaces r journal
          then (do require_running boot_id; begin none journal)
          else (if forgets r journal boot_id
              then begin none journal
              else continue_receipt r journal))

  -- `AutoReboot.run`
  unfoldable pub run : Exec Machine Answer
  run = do
    receipt ← query (λ m. load_receipt m.receipt)
    journal ← lift s.journal
    with_receipt receipt journal

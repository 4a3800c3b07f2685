-- ===== src/Lib.antt =====
-- Verification of the image update path of the SV08 host software: which bundle may replace the
-- running system, what a power loss or a failing backend at any point of an update leaves behind,
-- how the administrator's image jobs are queued and run at most once, and which disk layouts are
-- accepted.
--
-- The program keeps two image slots, A and B. Its durable records are the state registry
-- `state.json`, the update journal `update.json`, the state generations, and the U-Boot variables
-- `BOOT_ORDER` and `BOOT_A_LEFT`, `BOOT_B_LEFT`. An update is staged to the inactive slot, armed for
-- one trial boot, and confirmed by the target or cancelled by the source; after a reboot the
-- coordinator reconciles the journal with the registry and the boot selection.
--
-- Files:
--   Base            results, stateful code that may raise and the rules to reason about it, text
--   Policy          runtime/sv08_update_policy.py: DEFAULTS, effective
--   Admission       runtime/sv08_update_policy.py: admit, check_source
--   Registry        runtime/sv08_state.py: identifier, the records of state.json, Store.load
--   Bootloader      runtime/sv08_rauc_bootloader.py: the handler of RAUC's boot state mutations
--   Update          Interfaces: the durable world, the backend and the platform as the coordinator
--                   sees them; Journals: Transaction.load; Store: the registry's own operations;
--                   Generations and Boot: Store.prepare_boot
--   Rauc            runtime/sv08_rauc.py: disarm_target, restore_pre_disarm and the boot policy, as
--                   an implementation of the backend interface
--   Transaction     runtime/sv08_transaction.py: Stage, Activation (arm, confirm), Recovery (cancel,
--                   reconcile); Linked: the invariant; Rules: what the shared tests establish;
--                   Journey: all histories of the operations
--   Restart         runtime/sv08_restart.py: require_restart, and in Receipts the shutdown barrier and
--                   controlled_restart with the callbacks of the automatic restart
--   Reboot          runtime/sv08_auto_reboot.py: AutoReboot.run over the receipt of a restart
--   Jobs            runtime/sv08_admin_jobs.py: the receipts; Validation: what the ledger accepts;
--                   History, Ledger and Upkeep: runtime/sv08_admin_history.py and Jobs.save; Public
--                   and Summary: what is shown; Submit and Work: the two sides of the queue;
--                   Resolution: runtime/sv08_admin_resolution.py. Retained, Identities, Saving,
--                   Maintaining, Queueing, Soundness, Starting, Ending, Once, Running and Handing have the
--                   proofs
--   Barrier         runtime/sv08_admission.py: Admission, with intent of runtime/sv08_restart.py; Quiet
--                   and Restoring have the proofs
--   Gpt             runtime/sv08_gpt.py: the headers; Layout: the partitions and inspect. Regions,
--                   Inspecting and Bounds have the proofs
--   Budget          runtime/sv08_data_budget.py: rounded and check
--   Staging         runtime/sv08_staging.py: the files and their verification; Upload: receive;
--                   Cleanup: lease and discard; Chunks, Files, Finishing and Receiving have the
--                   proofs
--   Examples        one whole update, and runs of the operations
--
-- State and failure. An operation is a function from the world to a result and the world that it
-- leaves, so that what was written before an exception stays written. Python's exceptions are values.
-- `World.power` bounds the atomic file replacements that still go through, `Device.writes` the calls
-- of fw_setenv, `Machine.power` the replacements of the receipt and the barrier. They are arbitrary,
-- so that a run is interrupted at each of its writes for some value of them.
-- A `Backend` may fail at any call with any part of its work done. `Platform` holds what one call is
-- told by code that is only called: shutdown barrier, idle jobs, copy budget, writer guard, fresh
-- identities, whether the files of a generation are copied, the installed manifest and SHA-256
-- digests. No recursion needs fuel.
--
-- An image job goes through the ledger of receipts. `submit` and `work` hold the ledger lock in
-- sections only, so each section is a step of its own; `Ledger.applied` is the record of the model,
-- not of the program, of what reached `controller.apply`, and `Ledger.worker` is the worker lock. A
-- `Service` answers for JSON, SHA-256 and the room of the storage. A committed history stands for the
-- receipts that its files hold: `legacy` for a list, also for a missing file, `manifest` for the
-- snapshots. `Barrier.Host` is systemd, the request to Klipper and the lock file; its `close_lock`
-- does not fail. What `struct`, `zlib` and `uuid` read of a disk image is a field of `Gpt.Image`.
--
-- JSON type tests hold by the types of the fields. A file that is missing or a symbolic link is
-- out of the model, except the missing journal, as are the locks: each operation holds the state
-- lock throughout and is one step of a history. `expect_trial` is no step of a history, since
-- nothing calls it. `arm` reads the journal before it takes the lock; it is the same journal here.
--
-- Not modelled: the snapshot files of the history with their descriptors, the walk of the copy
-- budget, the files inside a generation, device and bundle inspection, the CRC test of the raw environment
-- copies, and the subsystems outside the update path.
pub mod Base
pub mod Policy
pub mod Registry
pub mod Admission
pub mod Bootloader
pub mod Update
pub mod Rauc
pub mod Transaction
pub mod Restart
pub mod Reboot
pub mod Barrier
pub mod Jobs
pub mod Gpt
pub mod Budget
pub mod Staging
pub mod Examples

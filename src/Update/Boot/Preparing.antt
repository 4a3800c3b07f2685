-- ===== src/Update/Boot/Preparing.antt =====
-- What `prepare_boot` leaves behind, however it ends, and which generation a boot runs on.
use sv08_mainline.Base.{
  ℕ, String, ◌≡◌, refl, sym, ◌⊎◌, inl, inr, Bool, false, not, ◌&&◌, Option, none, some, List, ok,
  arith,
}
use sv08_mainline.Base.Exec.{
  Outcome, bind_read, then_read, bind-Reads, at_bind, at_pure, weaken, always, returned,
}
use sv08_mainline.Registry.{
  Slot, slot_a, slot_b, SlotRecord, find_slot, put_slot, find_slot-put_slot, Pending, trial,
  is_writable, other_slot,
}
use sv08_mainline.Update.Interfaces.{World, Platform, then_durable}
use sv08_mainline.Update.Loading.{load-ok}
use sv08_mainline.Update.Generations.{generation_path, generation_name, trial_of, revised}
use sv08_mainline.Update.Boot.{
  Prepared, prepare_boot, run_boot, marked_customized, booted_registry, pending_after, failed_after,
}
use sv08_mainline.Update.Boot.Copying.{IsStored, IsExtended, Drawn, as_it_was}
use sv08_mainline.Update.Boot.Generation.{
  generation_path-ok, revised-ok, slot_record-Outcome, checked_revision-Reads,
}

find_put-other :
    (slot : Slot) (r : SlotRecord) (slots : List (Slot × SlotRecord))
    → find_slot (other_slot slot) (put_slot slot r slots) ≡ find_slot (other_slot slot) slots
find_put-other slot_a r slots = find_slot-put_slot slot_a slot_b r slots
find_put-other slot_b r slots = find_slot-put_slot slot_b slot_a r slots

find_put-same :
    (slot : Slot) (r : SlotRecord) (slots : List (Slot × SlotRecord))
    → find_slot slot (put_slot slot r slots) ≡ some r
find_put-same slot_a r slots = find_slot-put_slot slot_a slot_a r slots
find_put-same slot_b r slots = find_slot-put_slot slot_b slot_b r slots

module _ {E : Type 0} where
  -- What a boot of a slot leaves alone, however it ends. The pending trial is the one thing of the
  -- registry besides the slot's own record that it may change.
  pub record IsKept (slot : Slot) (g : String) (w w' : World E) : Type 0 where
    pub journal_same : w'.journal ≡ w.journal
    pub env_same : w'.env ≡ w.env
    pub drawn : Drawn g w.generations w'.generations
    pub other_kept :
        find_slot (other_slot slot) w'.registry.slots ≡ find_slot (other_slot slot) w.registry.slots
    pub mode_kept : w'.registry.requested_mode ≡ w.registry.requested_mode
    pub pending :
        (w'.registry.pending ≡ w.registry.pending)
        ⊎ ((started : Bool) × (w'.registry.pending ≡ pending_after started slot w.registry.pending))

  -- What a boot that was prepared runs on.
  pub record IsBooted (slot : Slot) (release : String) (w : World E) (b : Prepared) (w' : World E)
      : Type 0 where
    pub recorded :
        (r : SlotRecord) × (find_slot slot w'.registry.slots ≡ some r)
        × (r.release ≡ release)
        × (r.generation ≡ b.generation)
        × (r.customized ≡ b.customized)
    pub names : (b.slot ≡ slot) × (b.release ≡ release)
    pub stored : IsStored b.generation w'.generations
    pub mode : b.mode ≡ w.registry.requested_mode
    pub writable_customized : (is_writable b.mode && not b.customized) ≡ false
    pub is_trial : b.trial ≡ trial_of w.registry.pending slot release
    pub pending : w'.registry.pending ≡ pending_after b.trial slot w.registry.pending
    pub failed :
        w'.registry.last_failed_trial
        ≡ failed_after b.trial slot w.registry.pending w.registry.last_failed_trial

  as-IsKept : (slot : Slot) {g : String} {w w' : World E} → IsExtended g w w' → IsKept slot g w w'
  as-IsKept slot {w} {w'} e = record {
    journal_same = e.journal_same;
    env_same = e.env_same;
    drawn = e.drawn;
    other_kept = ground (arith, e.registry_same);
    mode_kept = ground (arith, e.registry_same);
    pending = inl (ground (arith, e.registry_same));
  }

  -- the world after the registry was saved
  abbrev booted_world : World E → World E → Bool → Slot → SlotRecord → ℕ → World E
  booted_world w w' started slot r n = record w' {
    registry = booted_registry w.registry started slot r;
    power = n;
  }

  saved-IsKept :
      (slot : Slot) (started : Bool) (r : SlotRecord) {g : String} (w w' : World E) (n : ℕ)
      → IsExtended g w w'
      → IsKept slot g w (booted_world w w' started slot r n)
  saved-IsKept slot started r w w' n e = record {
    journal_same = e.journal_same;
    env_same = e.env_same;
    drawn = e.drawn;
    other_kept = find_put-other slot r w.registry.slots;
    mode_kept = refl;
    pending = inr (started, refl);
  }

module _ {E : Type 0} (platform : Platform) where
  run_boot-Outcome :
      (slot : Slot) (release : String) (started : Bool) (r : SlotRecord) (installed : Option ℕ)
      (w w' : World E)
      → started ≡ trial_of w.registry.pending slot release
      → r.release ≡ release
      → IsExtended (generation_name release platform.fresh_id) w w'
      → Outcome
          (λ b w''.
            IsBooted slot release w b w''
            × IsKept slot (generation_name release platform.fresh_id) w w'')
          (IsKept slot (generation_name release platform.fresh_id) w)
          (run_boot platform w.registry slot release started r installed w')
  unfolding run_boot
  run_boot-Outcome slot release started r installed w w' hs hr e =
      let start : IsKept slot (generation_name release platform.fresh_id) w w' = as-IsKept slot e in
      bind_read _ _ _ start λ q hq. then_read _ _ _ start λ _ _. then_durable _ _ _ start λ n.
        bind_read _ _ _ (saved-IsKept slot started _ w w' n e)
          λ g hg. at_pure _ _ (booted q g n hq hg, saved-IsKept slot started _ w w' n e)
    where
      booted :
          (q : SlotRecord) (g : String) (n : ℕ)
          → revised platform.policy_revision started w.registry.pending w'.journal r installed
            ≡ ok q
          → generation_path (marked_customized w.registry q) w'.generations ≡ ok g
          → IsBooted slot release w
              (record {
                slot = slot;
                release = release;
                mode = w.registry.requested_mode;
                generation = g;
                trial = started;
                customized = (marked_customized w.registry q).customized;
              })
              (booted_world w w' started slot (marked_customized w.registry q) n)
      booted q g n hq hg =
          let rev = revised-ok _ started _ _ r installed q hq in
          let stored = generation_path-ok (marked_customized w.registry q) w'.generations g hg in
          record {
            names = (refl, refl);
            recorded = (
              marked_customized w.registry q,
              find_put-same slot _ w.registry.slots,
              ground (arith, rev.0, hr),
              sym stored.0,
              refl,
            );
            stored = ground (arith, stored.0, stored.1);
            mode = refl;
            writable_customized = ground arith;
            is_trial = hs;
            pending = refl;
            failed = refl;
          }

  prepare_boot-Outcome :
      (slot : Slot) (release : String) (schema : ℕ) (revision : Option ℕ) (w : World E)
      → Outcome
          (λ b w'.
            IsBooted slot release w b w'
            × IsKept slot (generation_name release platform.fresh_id) w w')
          (IsKept slot (generation_name release platform.fresh_id) w)
          (prepare_boot platform slot release schema revision w)
  unfolding prepare_boot
  prepare_boot-Outcome slot release schema revision w =
      let start : IsKept slot (generation_name release platform.fresh_id) w w =
        as-IsKept slot (as_it_was _ w) in
      bind_read _ _ _ start λ given hg.
        bind-Reads _ _ _ (checked_revision-Reads platform given w) start λ installed _.
          then_read _ _ _ start λ _ _. then_read _ _ _ start λ _ _.
            bind_read _ _ _ start λ state hs. rw (load-ok w.registry state hs) (
              then_read _ _ _ start λ _ _. at_bind _ _ _ (
                weaken (slot_record-Outcome platform w.registry slot _ release schema w)
                  (λ r w' e. run_boot-Outcome slot release _ r installed w w' refl e.0 e.1)
                  (λ w' e. as-IsKept slot e)))

  -- However a boot ends, at any write, the journal and the backend are as they were. The generations
  -- are as they were, or have one more, of the name that the boot draws; only if that name is taken
  -- they may have lost what stands there, and nothing else. The other slot's record and the requested
  -- mode are untouched, and the pending trial is as it was, or as a started or a fallen back trial
  -- leaves it.
  pub prepare_boot_safe :
      (slot : Slot) (release : String) (schema : ℕ) (revision : Option ℕ) (w : World E)
      → IsKept slot
          (generation_name release platform.fresh_id)
          w
          (prepare_boot platform slot release schema revision w).1
  prepare_boot_safe slot release schema revision w =
      always (IsKept slot (generation_name release platform.fresh_id) w) _
        (weaken (prepare_boot-Outcome slot release schema revision w) (λ _ _ h. h.1) (λ _ h. h))

  -- A boot that was prepared runs on a generation that is there and that the slot's record names,
  -- with the booted release and the requested mode, and is customized if that mode is writable. It
  -- is a trial exactly if the pending trial is of this slot and release; the registry then holds
  -- what becomes of the pending trial and of the last failed one.
  pub prepare_boot_returns :
      (slot : Slot) (release : String) (schema : ℕ) (revision : Option ℕ) (w : World E)
      (b : Prepared)
      → (prepare_boot platform slot release schema revision w).0 ≡ ok b
      → IsBooted slot release w b (prepare_boot platform slot release schema revision w).1
  prepare_boot_returns slot release schema revision w b e =
      (returned _ (prepare_boot-Outcome slot release schema revision w) e).0

  -- A prepared boot of the previous slot of a started trial, whose target is another slot, is no
  -- trial: the pending trial is cleared and remembered as failed.
  pub prepare_boot_falls_back :
      (slot : Slot) (release : String) (schema : ℕ) (revision : Option ℕ) (w : World E)
      (b : Prepared) (p : Pending)
      → (prepare_boot platform slot release schema revision w).0 ≡ ok b
      → w.registry.pending ≡ some p
      → p.phase ≡ trial
      → p.previous_slot ≡ slot
      → p.slot ≡ other_slot slot
      → (b.trial ≡ false)
        × ((prepare_boot platform slot release schema revision w).1.registry.pending ≡ none)
        × ((prepare_boot platform slot release schema revision w).1.registry.last_failed_trial
            ≡ some p)
  prepare_boot_falls_back slot release schema revision w b p e hp ht hv hs =
      go slot (prepare_boot_returns slot release schema revision w b e) hv hs
    where
      go :
          {w' : World E} (slot : Slot)
          → IsBooted slot release w b w'
          → p.previous_slot ≡ slot
          → p.slot ≡ other_slot slot
          → (b.trial ≡ false)
            × (w'.registry.pending ≡ none)
            × (w'.registry.last_failed_trial ≡ some p)
      go slot_a x hv hs = ground (arith, x.is_trial, x.pending, x.failed)
      go slot_b x hv hs = ground (arith, x.is_trial, x.pending, x.failed)

-- ===== src/Transaction/Journey.antt =====
-- Every history of the coordinator: its operations in any order, each with any answers of the rest
-- of the system, stopped at any write, with the machine started again and the boot environment
-- changed by the bootloader in between. The state lock makes each operation one step.
use sv08_mainline.Base.{
  ℕ, String, ◌≡◌, ◌⊎◌, inl, inr, Bool, true, false, Option, none, some, Result, arith, ◌&&◌, ◌||◌,
  List, str_eq, if◌then◌else◌,
}
use sv08_mainline.Policy.{Options}
use sv08_mainline.Registry.{Slot, Boot, Proof, Pending, Mode, is_trial, slot_eq}
use sv08_mainline.Update.Interfaces.{World, Journal, Backend, Platform}
use sv08_mainline.Update.Store.{policy}
use sv08_mainline.Update.Store.Policies.{policy_safe}
use sv08_mainline.Update.Boot.{prepare_boot, pending_after}
use sv08_mainline.Update.Boot.Copying.{IsStored, Drawn, without-IsStored}
use sv08_mainline.Update.Boot.Preparing.{prepare_boot_safe, IsKept}
use sv08_mainline.Update.Generations.{generation_name}
use sv08_mainline.Transaction.Linked.{IsConsistent, IsLinked}
use sv08_mainline.Transaction.Stage.{stage, stage_upload}
use sv08_mainline.Transaction.Stage.Durable.{
  IsRecoverable, stage-IsRecoverable, stage_upload-IsRecoverable,
}
use sv08_mainline.Transaction.Activation.{arm, confirm}
use sv08_mainline.Transaction.Activation.Durable.{arm-IsAnnounced}
use sv08_mainline.Transaction.Activation.Confirming.{confirm_safe}
use sv08_mainline.Transaction.Recovery.{cancel, reconcile}
use sv08_mainline.Transaction.Recovery.Cancelling.{cancel_safe}
use sv08_mainline.Transaction.Recovery.Reconciling.{reconcile_conservative}

module _ {E : Type 0} (backend : Backend E) where
  -- One call, or what happens between two calls.
  pub data Step : World E → World E → Type 0 where
    staging :
        (platform : Platform) (bundle : String) (proof : Proof) (boot : Boot) (automatic : Bool)
        (options : Option Options) (w : World E)
        → Step w (stage platform backend bundle proof boot automatic options w).1
    uploading :
        (platform : Platform) (lease : Result (String × Proof)) (boot : Boot) (automatic : Bool)
        (options : Option Options) (w : World E)
        → Step w (stage_upload platform backend lease boot automatic options w).1
    activating :
        (platform : Platform) (boot : Boot) (automatic : Bool) (w : World E)
        → Step w (arm platform backend boot automatic w).1
    cancelling :
        (platform : Platform) (boot : Boot) (w : World E)
        → Step w (cancel platform backend boot w).1
    reconciling :
        (platform : Platform) (boot : Boot) (w : World E)
        → Step w (reconcile platform backend boot w).1
    confirming :
        (platform : Platform) (health : Boot → Result Bool) (boot : Boot) (w : World E)
        → Step w (confirm platform backend health boot w).1
    booting :
        (platform : Platform) (slot : Slot) (release : String) (schema : ℕ) (revision : Option ℕ)
        (w : World E)
        → Step w (prepare_boot platform slot release schema revision w).1
    changing :
        (platform : Platform) (mode : Option Mode) (automatic : Option Bool)
        (options : Option Options) (w : World E)
        → Step w (policy platform mode automatic options w).1
    powering : (w : World E) (n : ℕ) → Step w (record w { power = n })
    selecting : (w : World E) (e : E) → Step w (record w { env = e })

  pub data Reaches : World E → World E → Type 0 where
    here : (w : World E) → Reaches w w
    later : {u v w : World E} → Reaches u v → Step v w → Reaches u w

-- A boot keeps the link between the pending trial and the journal.
pending_after-IsLinked :
    (started : Bool) (slot : Slot) (p : Option Pending) (j : Option Journal)
    → IsLinked p j
    → IsLinked (pending_after started slot p) j
pending_after-IsLinked started slot none j h = tt
pending_after-IsLinked started slot (some p) none h = absurd h
pending_after-IsLinked true slot (some p) (some tx) h = h
pending_after-IsLinked false slot (some p) (some tx) h =
    go (is_trial p.phase && slot_eq p.previous_slot slot)
  where
    go : (b : Bool) → IsLinked (if b then none else some p) (some tx)
    go true = tt
    go false = h

module _ {E : Type 0} {w w' : World E} where
  linked_as :
      IsConsistent w
      → w'.registry.pending ≡ w.registry.pending
      → w'.journal ≡ w.journal
      → IsConsistent w'
  linked_as c p j = record { linked = rw (p, j) c.linked }

  staged-IsConsistent :
      (platform : Platform) (backend : Backend E)
      → IsConsistent w
      → IsRecoverable platform backend w w'
      → IsConsistent w'
  staged-IsConsistent platform backend c r = go r.journal_kept
    where
      same : w'.registry.pending ≡ w.registry.pending
      same = ground (arith, r.registry_same)

      go : (w'.journal ≡ w.journal) ⊎ (w.registry.pending ≡ none) → IsConsistent w'
      go (inl j) = linked_as c same j
      go (inr p) = record { linked = rw (same, p) tt }

  booted-IsConsistent :
      (slot : Slot) (g : String) → IsConsistent w → IsKept slot g w w' → IsConsistent w'
  booted-IsConsistent slot g c k = go k.pending
    where
      go :
          (w'.registry.pending ≡ w.registry.pending)
            ⊎ ((started : Bool) × (w'.registry.pending
                  ≡ pending_after started slot w.registry.pending))
          → IsConsistent w'
      go (inl p) = linked_as c p k.journal_same
      go (inr (started, p)) = record {
        linked =
            rw (p, k.journal_same)
              (pending_after-IsLinked started slot w.registry.pending w.journal c.linked);
      }

module _ {E : Type 0} (backend : Backend E) where
  -- Every step keeps the durable records consistent: a pending trial is always the trial that the
  -- journal announces.
  pub Step-IsConsistent : (v w : World E) → Step backend v w → IsConsistent v → IsConsistent w
  Step-IsConsistent v w (staging platform bundle proof boot automatic options u) c =
      staged-IsConsistent platform backend c
        (stage-IsRecoverable platform backend bundle proof boot automatic options v)
  Step-IsConsistent v w (uploading platform lease boot automatic options u) c =
      staged-IsConsistent platform backend c
        (stage_upload-IsRecoverable platform backend lease boot automatic options v)
  Step-IsConsistent v w (activating platform boot automatic u) c =
      (arm-IsAnnounced platform backend boot automatic v c).consistent
  Step-IsConsistent v w (cancelling platform boot u) c =
      (cancel_safe platform backend boot v c).consistent
  Step-IsConsistent v w (reconciling platform boot u) c =
      (reconcile_conservative platform backend boot v c).consistent
  Step-IsConsistent v w (confirming platform health boot u) c =
      (confirm_safe platform backend health boot v c).consistent
  Step-IsConsistent v w (booting platform slot release schema revision u) c =
      booted-IsConsistent slot _ c (prepare_boot_safe platform slot release schema revision v)
  Step-IsConsistent v w (changing platform mode automatic options u) c =
      let h = policy_safe platform mode automatic options v in
      linked_as c h.system_same.pending h.journal_same
  Step-IsConsistent v w (powering u n) c = record { linked = c.linked }
  Step-IsConsistent v w (selecting u e) c = record { linked = c.linked }

  -- Every world that the operations reach from a consistent one is consistent, whatever they are
  -- told, wherever they are stopped, and whatever the bootloader does in between.
  pub Reaches-IsConsistent : (u w : World E) → Reaches backend u w → IsConsistent u → IsConsistent w
  Reaches-IsConsistent u w (here v) c = c
  Reaches-IsConsistent u w (later {v = v} path step) c =
      Step-IsConsistent v w step (Reaches-IsConsistent u v path c)

  -- what a step adds to the generations and may remove from them: the name that a boot draws
  abbrev draws : {v w : World E} → Step backend v w → String → Bool
  draws (booting platform slot release schema revision u) g =
      str_eq (generation_name release platform.fresh_id) g
  draws _ g = false

  -- a boot of the history draws this name for a new generation
  abbrev pub history_draws : {u w : World E} → Reaches backend u w → String → Bool
  history_draws (here v) g = false
  history_draws (later path step) g = draws step g || history_draws path g

  same-IsStored :
      (g : String) {before after : List String}
      → after ≡ before
      → IsStored g before
      → IsStored g after
  same-IsStored g e h = rw e h

  Drawn-IsStored :
      (x g : String) (before after : List String)
      → str_eq x g ≡ false
      → Drawn x before after
      → IsStored g before
      → IsStored g after
  Drawn-IsStored x g before after n (inl e) h = rw e h
  Drawn-IsStored x g before after n (inr (inl e)) h = rw e (ground (arith, h))
  Drawn-IsStored x g before after n (inr (inr (t, e))) h = rw e (without-IsStored g x before n h)

  Step-IsStored :
      (v w : World E) (g : String) (step : Step backend v w)
      → draws step g ≡ false
      → IsConsistent v
      → IsStored g v.generations
      → IsStored g w.generations
  Step-IsStored v w g (staging platform bundle proof boot automatic options u) n c =
      same-IsStored g
        (stage-IsRecoverable platform backend bundle proof boot automatic options
          v).generations_same
  Step-IsStored v w g (uploading platform lease boot automatic options u) n c =
      same-IsStored g
        (stage_upload-IsRecoverable platform backend lease boot automatic options
          v).generations_same
  Step-IsStored v w g (activating platform boot automatic u) n c =
      same-IsStored g (arm-IsAnnounced platform backend boot automatic v c).generations_same
  Step-IsStored v w g (cancelling platform boot u) n c =
      same-IsStored g (cancel_safe platform backend boot v c).generations_same
  Step-IsStored v w g (reconciling platform boot u) n c =
      same-IsStored g (reconcile_conservative platform backend boot v c).generations_same
  Step-IsStored v w g (confirming platform health boot u) n c =
      same-IsStored g (confirm_safe platform backend health boot v c).generations_same
  Step-IsStored v w g (booting platform slot release schema revision u) n c =
      Drawn-IsStored (generation_name release platform.fresh_id) g v.generations _ n
        (prepare_boot_safe platform slot release schema revision v).drawn
  Step-IsStored v w g (changing platform mode automatic options u) n c =
      same-IsStored g (policy_safe platform mode automatic options v).generations_same
  Step-IsStored v w g (powering u k) n c = λ h. h
  Step-IsStored v w g (selecting u e) n c = λ h. h

  -- A state generation is never lost to another one: in a consistent world that has it, whatever the
  -- operations do from there and wherever they are stopped, it is there, provided that no boot of the
  -- history draws its very name for a new generation.
  pub Reaches-IsStored :
      (u w : World E) (g : String) (path : Reaches backend u w)
      → history_draws path g ≡ false
      → IsConsistent u
      → IsStored g u.generations
      → IsStored g w.generations
  Reaches-IsStored u w g (here v) n c h = h
  Reaches-IsStored u w g (later {v = v} path step) n c h =
      Step-IsStored v w g step (ground arith) (Reaches-IsConsistent u v path c)
        (Reaches-IsStored u v g path (ground arith) c h)

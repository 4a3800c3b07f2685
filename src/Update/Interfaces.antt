-- ===== src/Update/Interfaces.antt =====
-- The journal of an update (`update.json`, runtime/sv08_transaction.py), the durable world that a
-- crash leaves behind, and the interfaces to the code that the coordinator calls.
use sv08_mainline.Base.{ℕ, zero, suc, String, Bool, Option, some, List, Result, ok, err, power_loss}
use sv08_mainline.Base.Exec.{Exec, Outcome, Ends, at_then, ◌>>◌}
use sv08_mainline.Policy.{UpdatePolicy}
use sv08_mainline.Registry.{Slot, State, Boot, Proof}
use sv08_mainline.Bootloader.{Environment}

pub data Phase : Type 0 where
  preparing installing staged arming armed confirming complete cancelled failed : Phase

-- `update.json`. `update_policy` and `admission_proof` are `none` in a journal of an older release.
pub record Journal : Type 0 where
  pub phase : Phase
  pub id : String
  pub slot : Slot
  pub previous_slot : Slot
  pub previous_release : String
  pub release : String
  pub bundle_sha256 : String
  pub boot_id : String
  pub previous_boot_policy : Environment
  pub automatic : Bool
  pub update_policy : Option UpdatePolicy
  pub policy_revision : Option String
  pub admission_proof : Option Proof
  pub release_revision : Option ℕ

-- The durable world: `state.json`, `update.json`, the generation directories and the backend's
-- boot environment and images. `power` is the number of atomic file replacements that still go
-- through before the machine stops; it is a parameter of every run.
pub record World (E : Type 0) : Type 0 where
  pub registry : State
  pub journal : Option Journal
  pub generations : List String
  pub env : E
  pub power : ℕ

-- The backend object, over its own state `E`. It may fail anywhere, with any part of its work done.
pub record Backend (E : Type 0) : Type 0 where
  pub validate_context : Boot → E → Result (Unit {0})
  pub validate_bundle : String → Proof → Slot → E → Result (Unit {0})
  pub primary : E → Result (Option Slot)
  pub good : Slot → E → Result Bool
  pub boot_policy : E → Result Environment
  pub disarm_target : Slot → Slot → Exec E (Unit {0})
  pub restore_pre_disarm : Environment → Slot → Slot → Exec E (Unit {0})
  pub install : String → Proof → Slot → Exec E (Unit {0})
  pub mark_active : Slot → Exec E (Unit {0})
  pub mark_bad : Slot → Exec E (Unit {0})
  pub mark_good : Slot → Exec E (Unit {0})

-- What the rest of the system answers during one call: the shutdown barrier (`require_running`),
-- pending image jobs (`require_jobs_idle`), the copy budget, the service barrier and the writer
-- lock (`admission`, `writer`), a fresh identity, the fingerprint of a generation and the copy of its
-- files, `fsync` of a directory, the installed release manifest, and the SHA-256 digest of a policy's canonical JSON.
pub record Platform : Type 0 where
  pub running : Result (Unit {0})
  pub jobs_idle : Result (Unit {0})
  pub copy_budget : Result (Unit {0})
  pub admission : Result (Unit {0})
  pub fresh_id : String
  pub fingerprint : Result (Unit {0})
  pub copied : Result (Unit {0})
  pub synced : Result (Unit {0})
  pub installed_revision : Result (Option ℕ)
  pub policy_revision : UpdatePolicy → String

module _ {E : Type 0} where
  abbrev pub durable_at : (World E → World E) → World E → ℕ → Result (Unit {0}) × World E
  durable_at f w zero = (err power_loss, w)
  durable_at f w (suc n) = (ok tt, f (record w { power = n }))

  -- An atomic replacement of a file: all of it or nothing.
  unfoldable pub durable : (World E → World E) → Exec (World E) (Unit {0})
  durable f w = durable_at f w w.power

  -- `Store.save`
  abbrev pub save_registry : State → Exec (World E) (Unit {0})
  save_registry s = durable (λ w. record w { registry = s })

  -- `Transaction.save`
  abbrev pub save_journal : Journal → Phase → Exec (World E) (Unit {0})
  save_journal tx phase = durable (λ w. record w { journal = some (record tx { phase = phase }) })

  -- a call of the backend
  unfoldable pub on_env : {A : Type 0} → Exec E A → Exec (World E) A
  on_env m w = let (r, e) = m w.env in (r, record w { env = e })

module _ {E : Type 0} {Q : Unit {0} → World E → Type 0} {R : World E → Type 0} where
  -- A replacement that the power loss prevents leaves the world alone.
  pub at_durable :
      (f : World E → World E) (w : World E)
      → R w
      → ((n : ℕ) → Q tt (f (record w { power = n })))
      → Outcome Q R (durable f w)
  unfolding durable
  at_durable f w h k = record { holds = go w.power }
    where
      go : (n : ℕ) → Ends Q R (durable_at f w n)
      go zero = h
      go (suc n) = k n

module _ {E A : Type 0} {Q : A → World E → Type 0} {R : World E → Type 0} where
  pub at_env :
      (m : Exec E A) (w : World E)
      → ((e : E) → R (record w { env = e }))
      → ((a : A) (e : E) → Q a (record w { env = e }))
      → Outcome Q R (on_env m w)
  unfolding on_env
  at_env m w h k = record { holds = go (m w.env) }
    where
      go : (x : Result A × E) → Ends Q R (x.0, record w { env = x.1 })
      go (ok a, e) = k a e
      go (err x, e) = h e

module _ {E B : Type 0} {Q : B → World E → Type 0} {R : World E → Type 0} where
  -- A write, and the rest of the block.
  pub then_durable :
      (f : World E → World E) (k : Exec (World E) B) (w : World E)
      → R w
      → ((n : ℕ) → Outcome Q R (k (f (record w { power = n }))))
      → Outcome Q R ((durable f >> k) w)
  then_durable f k w h l = at_then (durable f) k w (at_durable f w h l)

  pub then_env :
      (m : Exec E (Unit {0})) (k : Exec (World E) B) (w : World E)
      → ((e : E) → R (record w { env = e }))
      → ((e : E) → Outcome Q R (k (record w { env = e })))
      → Outcome Q R ((on_env m >> k) w)
  then_env m k w h l = at_then (on_env m) k w (at_env m w h (λ _. l))

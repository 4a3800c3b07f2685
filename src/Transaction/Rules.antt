-- ===== src/Transaction/Rules.antt =====
-- The statements that the methods of `Transaction` share: what each read establishes.
use sv08_mainline.Base.{String, ◌≡◌, refl, Bool, true, false, Option, none, some, Result, ok, arith}
use sv08_mainline.Base.Exec.{Reads, reads, bind_read, then_read, then-Reads}
use sv08_mainline.Policy.{Options, UpdatePolicy, to_options}
use sv08_mainline.Registry.{Slot, State, Boot}
use sv08_mainline.Admission.{check_source}
use sv08_mainline.Update.Interfaces.{World, Backend, Platform}
use sv08_mainline.Update.Loading.{load-ok}
use sv08_mainline.Transaction.Stage.{
  source_admitted, require_source, require_disarmed, jobs_idle_if,
}
use sv08_mainline.Transaction.Activation.{require_selected}
use sv08_mainline.Transaction.Checks.{primary_is}

pub primary_is-eq : (p : Option Slot) (s : Slot) → primary_is p s ≡ true → p ≡ some s
primary_is-eq none s h = cc
primary_is-eq (some p) s h = ground arith

module _ {E : Type 0} (platform : Platform) (backend : Backend E) where
  -- The backend selects this slot, and it is good.
  pub record IsSelected (slot : Slot) (e : E) : Type 0 where
    pub first : backend.primary e ≡ ok (some slot)
    pub attempts : backend.good slot e ≡ ok true

  -- The backend selects the source, and the target is not good.
  pub record IsDisarmed (source target : Slot) (e : E) : Type 0 where
    pub first : backend.primary e ≡ ok (some source)
    pub attempts : backend.good target e ≡ ok false

  pub require_selected-Reads :
      (slot : Slot) (message : String) (w : World E)
      → Reads (λ _. IsSelected slot w.env) w (require_selected platform backend slot message w)
  require_selected-Reads slot message w = bind_read _ _ _ refl λ p hp.
      then_read _ _ _ refl
        λ _ hs. bind_read _ _ _ refl λ g hg. reads _ _ λ _ hq. ground (arith, primary_is-eq p slot)

  pub require_disarmed-Reads :
      (source target : Slot) (message : String) (w : World E)
      → Reads
          (λ _. IsDisarmed source target w.env)
          w
          (require_disarmed platform backend source target message w)
  require_disarmed-Reads source target message w = bind_read _ _ _ refl λ p hp.
      then_read _ _ _ refl λ _ hs.
        bind_read _ _ _ refl λ g hg. reads _ _ λ _ hq. ground (arith, primary_is-eq p source)

  -- What `require_source` establishes.
  pub require_source-Reads :
      (state : State) (boot : Boot) (options : Option Options) (w : World E)
      → Reads
          (λ _.
            ((p : UpdatePolicy) × (check_source state boot options ≡ ok p))
            × (backend.validate_context boot w.env ≡ ok tt))
          w
          (require_source platform backend state boot options w)
  require_source-Reads state boot options w =
      then_read _ _ _ refl λ p hp. reads _ _ λ _ hv. ((p, hp), hv)

  jobs_idle_if-Reads :
      (automatic : Bool) (w : World E)
      → Reads (λ _. Unit {0}) w (jobs_idle_if platform backend automatic w)
  jobs_idle_if-Reads true w = reads _ _ λ _ _. tt
  jobs_idle_if-Reads false w = reads _ _ λ _ _. tt

  -- What `source_admitted` establishes for the block under its `with`.
  pub source_admitted-Reads :
      {A : Type 0} (boot : Boot) (automatic : Bool) (options : Option Options) (lease : Result A)
      (w : World E)
      → Reads
          (λ (x : State × A).
            (x.0 ≡ w.registry)
            × (lease ≡ ok x.1)
            × (backend.validate_context boot w.env ≡ ok tt)
            × (platform.running ≡ ok tt)
            × (automatic ≡ true → w.registry.auto_update ≡ true))
          w
          (source_admitted platform backend boot automatic options lease w)
  unfolding source_admitted
  source_admitted-Reads boot automatic options lease w = then_read _ _ _ refl λ _ running.
      bind_read _ _ _ refl λ state loaded. then_read _ _ _ refl λ _ enabled.
        bind_read _ _ _ refl λ policy hp.
          then-Reads _ _ _ (jobs_idle_if-Reads automatic w) refl λ _ _.
            bind_read _ _ _ refl λ leased hl. then_read _ _ _ refl λ _ ha.
              then-Reads _ _ _ (require_source-Reads state boot (some (to_options policy)) w) refl
                λ _ source. reads _ _ λ x hx.
                  let same : state ≡ w.registry = load-ok w.registry state loaded in
                  (ground arith, ground arith, source.1, ground arith, ground arith)

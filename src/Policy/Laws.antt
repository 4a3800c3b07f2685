-- ===== src/Policy/Laws.antt =====
-- `effective` of runtime/sv08_update_policy.py: what it gives.
use sv08_mainline.Base.{◌≡◌, refl, Bool, true, false, Option, none, ok, arith}
use sv08_mainline.Policy.{UpdatePolicy, effective, defaults, Options}

pub effective-defaults : (automatic : Bool) → effective none automatic ≡ ok defaults
unfolding effective
effective-defaults true = refl
effective-defaults false = refl

pub effective_automatic_trusted :
    (o : Option Options) (p : UpdatePolicy)
    → effective o true ≡ ok p
    → p.allow_untrusted_provenance ≡ false
unfolding effective
effective_automatic_trusted o p h = ground arith

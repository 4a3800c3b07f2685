-- ===== src/Base/Exec.antt =====
-- Code that changes a state and may raise: what was written before the exception stays written.
-- `Outcome Q R` is the reading of an end of such code: `Q` if it returned, `R` if it raised. The
-- rules below take a block apart from its first statement on, so that every write of it is a goal.
use Prim.Native.String.{String}
use mathlib.Core.Path.{◌≡◌, refl, sym, subst}
use mathlib.Core.Bool.{Bool, true, false}
use sv08_mainline.Base.Tests.{if◌then◌else◌}
use sv08_mainline.Base.Outcome.{Error, Result, ok, err, value_error}

abbrev pub Exec : Type 0 → Type 0 → Type 0
Exec S A = S → Result A × S

module _ {S A : Type 0} where
  abbrev pub pure : A → Exec S A
  pure a s = (ok a, s)

  abbrev pub raise : Error → Exec S A
  raise e s = (err e, s)

  -- a computation that does not read the state
  abbrev pub lift : Result A → Exec S A
  lift r s = (r, s)

  -- a computation that reads the state
  abbrev pub query : (S → Result A) → Exec S A
  query f s = (f s, s)

module _ {S : Type 0} where
  -- `if b: raise ValueError(message)`
  abbrev pub require_not : Bool → String → Exec S (Unit {0})
  require_not b m s = (if b then err (value_error m) else ok tt, s)

module _ {S A B : Type 0} where
  abbrev pub then_do : Result A → (A → Exec S B) → Exec S B
  then_do (ok a) f s = f a s
  then_do (err e) f s = (err e, s)

  infixl 5 ◌>>=◌ ◌>>◌
  unfoldable pub ◌>>=◌ : Exec S A → (A → Exec S B) → Exec S B
  ◌>>=◌ m f s = let (r, s') = m s in then_do r f s'

  unfoldable pub ◌>>◌ : Exec S A → Exec S B → Exec S B
  ◌>>◌ m k s = let (r, s') = m s in then_do r (λ _. k) s'

module _ {S A : Type 0} where
  abbrev pub Ends : (A → S → Type 0) → (S → Type 0) → Result A × S → Type 0
  Ends Q R (ok a, s) = Q a s
  Ends Q R (err e, s) = R s

pub record Outcome {S A : Type 0} (Q : A → S → Type 0) (R : S → Type 0) (x : Result A × S)
    : Type 0 where
  pub holds : Ends Q R x

module _ {S A B : Type 0} {Q : B → S → Type 0} {R : S → Type 0} where
  pub at_bind :
      (m : Exec S A) (f : A → Exec S B) (s : S)
      → Outcome (λ a s'. Outcome Q R (f a s')) R (m s)
      → Outcome Q R ((m >>= f) s)
  unfolding ◌>>=◌
  at_bind m f s h = record { holds = go (m s) h.holds }
    where
      go :
          (x : Result A × S)
          → Ends (λ a s'. Outcome Q R (f a s')) R x
          → Ends Q R (then_do x.0 f x.1)
      go (ok a, s') h = h.holds
      go (err e, s') h = h

  pub at_then :
      (m : Exec S A) (k : Exec S B) (s : S)
      → Outcome (λ _ s'. Outcome Q R (k s')) R (m s)
      → Outcome Q R ((m >> k) s)
  unfolding ◌>>◌
  at_then m k s h = record { holds = go (m s) h.holds }
    where
      go :
          (x : Result A × S)
          → Ends (λ _ s'. Outcome Q R (k s')) R x
          → Ends Q R (then_do x.0 (λ _. k) x.1)
      go (ok a, s') h = h.holds
      go (err e, s') h = h

module _ {S A : Type 0} {Q : A → S → Type 0} {R : S → Type 0} where
  -- `lift`, `query`, `pure`, `raise`, `require_not`: the state stays as it is.
  pub at_read : (r : Result A) (s : S) → R s → ((a : A) → r ≡ ok a → Q a s) → Outcome Q R (r, s)
  at_read (ok a) s h k = record { holds = k a refl }
  at_read (err e) s h k = record { holds = h }

  pub at_pure : (a : A) (s : S) → Q a s → Outcome Q R (ok a, s)
  at_pure a s h = record { holds = h }

  -- Any code at all, of which only the state that it leaves is known.
  pub at_end :
      (x : Result A × S) → R x.1 → ((a : A) (s : S) → x ≡ (ok a, s) → R s → Q a s) → Outcome Q R x
  at_end (ok a, s) h k = record { holds = k a s refl h }
  at_end (err e, s) h k = record { holds = h }

  pub at_if :
      (b : Bool) (m n : Exec S A) (s : S)
      → (b ≡ true → Outcome Q R (m s))
      → (b ≡ false → Outcome Q R (n s))
      → Outcome Q R ((if b then m else n) s)
  at_if true m n s h k = h refl
  at_if false m n s h k = k refl

  -- A weaker reading of the same end.
  pub weaken :
      {Q' : A → S → Type 0} {R' : S → Type 0} {x : Result A × S}
      → Outcome Q' R' x
      → ((a : A) (s : S) → Q' a s → Q a s)
      → ((s : S) → R' s → R s)
      → Outcome Q R x
  weaken {Q'} {R'} {x = y} h q r = record { holds = go y h.holds }
    where
      go : (x : Result A × S) → Ends Q' R' x → Ends Q R x
      go (ok a, s) h = q a s h
      go (err e, s) h = r s h

module _ {S A : Type 0} where
  -- What holds of the state however the code ends.
  pub always : (P : S → Type 0) (x : Result A × S) → Outcome (λ _ s. P s) P x → P x.1
  always P x h = go x h.holds
    where
      go : (x : Result A × S) → Ends (λ _ s. P s) P x → P x.1
      go (ok a, s) h = h
      go (err e, s) h = h

  -- What holds of a result that was returned.
  pub returned :
      {Q : A → S → Type 0} {R : S → Type 0} (x : Result A × S) {a : A}
      → Outcome Q R x
      → x.0 ≡ ok a
      → Q a x.1
  returned {Q} {R} x {a} h e = go x h.holds e
    where
      go : (x : Result A × S) → Ends Q R x → x.0 ≡ ok a → Q a x.1
      go (ok b, s) h e = subst (λ (r : Result A). Ends Q R (r, s)) e h
      go (err x, s) h e = cc

module _ {S A B : Type 0} {Q : B → S → Type 0} {R : S → Type 0} where
  -- A statement that only reads, and the rest of the block.
  pub bind_read :
      (g : S → Result A) (f : A → Exec S B) (s : S)
      → R s
      → ((a : A) → g s ≡ ok a → Outcome Q R (f a s))
      → Outcome Q R ((query g >>= f) s)
  bind_read g f s h k = at_bind (query g) f s (at_read (g s) s h k)

  pub then_read :
      (g : S → Result A) (k : Exec S B) (s : S)
      → R s
      → ((a : A) → g s ≡ ok a → Outcome Q R (k s))
      → Outcome Q R ((query g >> k) s)
  then_read g k s h l = at_then (query g) k s (at_read (g s) s h l)

module _ {S A : Type 0} where
  -- The code changes nothing, and what it returns satisfies `F`.
  abbrev pub Reads : (A → Type 0) → S → Result A × S → Type 0
  Reads F s = Outcome (λ a s'. (s' ≡ s) × F a) (λ s'. s' ≡ s)

  pub reads :
      {F : A → Type 0} (r : Result A) (s : S) → ((a : A) → r ≡ ok a → F a) → Reads F s (r, s)
  reads r s k = at_read r s refl (λ a e. (refl, k a e))

module _ {S A B : Type 0} {Q : B → S → Type 0} {R : S → Type 0} where
  pub bind-Reads :
      {F : A → Type 0} (m : Exec S A) (f : A → Exec S B) (s : S)
      → Reads F s (m s)
      → R s
      → ((a : A) → F a → Outcome Q R (f a s))
      → Outcome Q R ((m >>= f) s)
  bind-Reads m f s h r k = at_bind m f s (
      weaken h (λ a s' e. subst (λ (t : S). Outcome Q R (f a t)) (sym e.0) (k a e.1))
        (λ s' e. subst R (sym e) r))

  pub then-Reads :
      {F : A → Type 0} (m : Exec S A) (k : Exec S B) (s : S)
      → Reads F s (m s)
      → R s
      → ((a : A) → F a → Outcome Q R (k s))
      → Outcome Q R ((m >> k) s)
  then-Reads m k s h r l = at_then m k s (
      weaken h (λ a s' e. subst (λ (t : S). Outcome Q R (k t)) (sym e.0) (l a e.1))
        (λ s' e. subst R (sym e) r))

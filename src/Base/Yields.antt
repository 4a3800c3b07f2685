-- ===== src/Base/Yields.antt =====
-- What a fallible block returns: `Yields Q r` says `Q` of the value, if there is one. The rules take
-- a block apart, and keep that each step before returned. The sequencing of `Outcome` computes
-- wherever it stands; the one here is shut, so that the rules find the steps.
use mathlib.Core.Path.{◌≡◌, refl, subst}
use sv08_mainline.Base.Outcome.{Result, ok, err}

module _ {A : Type 0} where
  pub Yields : (A → Type 0) → Result A → Type 0
  Yields Q (ok a) = Q a
  Yields Q (err e) = Unit {0}

  pub yield_value : (Q : A → Type 0) (a : A) → Q a → Yields Q (ok a)
  unfolding Yields
  yield_value Q a h = h

  pub yielded : (Q : A → Type 0) (r : Result A) {a : A} → Yields Q r → r ≡ ok a → Q a
  unfolding Yields
  yielded Q (ok b) h e = subst (λ (r : Result A). Yields Q r) e h
  yielded Q (err x) h e = cc

module _ {A B : Type 0} where
  infixl 5 ◌>>=◌ ◌>>◌
  unfoldable pub ◌>>=◌ : Result A → (A → Result B) → Result B
  ok value >>= rest = rest value
  err raised >>= rest = err raised

  unfoldable pub ◌>>◌ : Result A → Result B → Result B
  ok value >> rest = rest
  err raised >> rest = err raised

  pub first_step :
      (Q : B → Type 0) (r : Result A) (rest : A → Result B)
      → ((a : A) → r ≡ ok a → Yields Q (rest a))
      → Yields Q (r >>= rest)
  unfolding Yields ◌>>=◌
  first_step Q (ok a) rest h = h a refl
  first_step Q (err e) rest h = tt

  pub check_step :
      (Q : B → Type 0) (r : Result A) (rest : Result B)
      → ((a : A) → r ≡ ok a → Yields Q rest)
      → Yields Q (r >> rest)
  unfolding Yields ◌>>◌
  check_step Q (ok a) rest h = h a refl
  check_step Q (err e) rest h = tt

-- ===== src/Base/Outcome.antt =====
-- Python's exceptions as values. `power_loss` is no exception of the program: the machine stops at
-- a write, which no handler of the program sees.
use Prim.Native.String.{String}
use mathlib.Core.Bool.{Bool, true, false}
use mathlib.Core.Option.{Option, none, some}

pub data Error : Type 0 where
  value_error key_error os_error : String → Error
  power_loss : Error

pub data Result {ℓ} (A : Type ℓ) : Type ℓ where
  ok : A → Result A
  err : Error → Result A

module _ {A B : Type 0} where
  infixl 5 ◌>>=◌ ◌>>◌
  -- an exception leaves the block
  abbrev pub ◌>>=◌ : Result A → (A → Result B) → Result B
  err raised >>= rest = err raised
  ok value >>= rest = rest value

  abbrev pub ◌>>◌ : Result A → Result B → Result B
  err raised >> rest = err raised
  ok value >> rest = rest

-- `if c: raise ValueError(message)`
abbrev pub refuse_if : Bool → String → Result (Unit {0})
refuse_if true m = err (value_error m)
refuse_if false m = ok tt

-- `d[k]`, which raises `KeyError`
abbrev pub or_key_error {ℓ} : {A : Type ℓ} → Option A → String → Result A
or_key_error none m = err (key_error m)
or_key_error (some a) m = ok a

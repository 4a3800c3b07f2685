-- ===== src/Bootloader.antt =====
-- runtime/sv08_rauc_bootloader.py: the custom RAUC backend over the redundant U-Boot variables.
-- `BOOT_ORDER` is the list of slots that its text splits into, a counter is its number. The
-- environment is read by `fw_printenv` and changed one variable at a time by `fw_setenv`; `writes`
-- is the number of its calls that still succeed before one fails or the power is lost.
mod Steps
pub mod Commands
use sv08_mainline.Base.{
  ℕ, zero, suc, String, Bool, true, false, ◌&&◌, ◌||◌, not, Option, none, some, List, [], ◌∷◌,
  Result, ok, err, value_error, os_error, if◌then◌else◌, ◌==◌, leb, any,
}
use sv08_mainline.Base.Exec.{Exec, pure, lift, query, require_not, ◌>>=◌, ◌>>◌}
use sv08_mainline.Registry.{Slot, slot_a, slot_b, slot_eq}

pub record Environment : Type 0 where
  pub order : List Slot
  pub a_left : ℕ
  pub b_left : ℕ

-- `values['BOOT_'+slot+'_LEFT']`
abbrev pub left : Slot → Environment → ℕ
left slot_a e = e.a_left
left slot_b e = e.b_left

abbrev pub with_left : Slot → ℕ → Environment → Environment
with_left slot_a n e = record e { a_left = n }
with_left slot_b n e = record e { b_left = n }

-- `values['BOOT_ORDER'] in ORDER_VALUES`
abbrev pub is_order : List Slot → Bool
is_order (s ∷ []) = true
is_order (s ∷ t ∷ []) = not (slot_eq s t)
is_order _ = false

-- the tests of `validate_environment` on the order and the counters
unfoldable pub environment_valid : Environment → Bool
environment_valid e = is_order e.order && leb e.a_left 3 && leb e.b_left 3

-- `slot in values['BOOT_ORDER'].split()`
abbrev pub in_order : Slot → List Slot → Bool
in_order s order = any (slot_eq s) order

-- `[name for name in order if name != slot]`
abbrev pub without : Slot → List Slot → List Slot
without s [] = []
without s (t ∷ rest) = if slot_eq s t then without s rest else t ∷ without s rest

-- the loop of `primary`
first_with_attempts : List Slot → Environment → Option Slot
first_with_attempts [] e = none
first_with_attempts (s ∷ rest) e = if left s e == 0 then first_with_attempts rest e else some s

unfoldable pub primary : Environment → Option Slot
unfolding first_with_attempts
primary e = first_with_attempts e.order e

-- the result of `primary`, which raises where no slot has attempts
abbrev bootable : Environment → Result Slot
bootable e = elim (primary e) [
  | none ↦ err (value_error "No bootable primary slot is configured")
  | some p ↦ ok p
]

unfoldable pub slot_good : Environment → Slot → Bool
slot_good e s = in_order s e.order && not (left s e == 0)

unfoldable pub disabled : Environment → Slot → Bool
disabled e s = not (in_order s e.order) && left s e == 0

pub data Action : Type 0 where
  install set_primary set_good set_bad : Action

abbrev pub action_eq : Action → Action → Bool
action_eq install install = true
action_eq set_primary set_primary = true
action_eq set_good set_good = true
action_eq set_bad set_bad = true
action_eq _ _ = false

-- The operation marker that the coordinator leaves for the handler.
pub record Operation : Type 0 where
  pub action : Action
  pub slot : Slot

-- The variables, and the calls of `fw_setenv` that still succeed.
pub record Device : Type 0 where
  pub environment : Environment
  pub writes : ℕ

abbrev write_failed : Result (Unit {0})
write_failed = err (os_error "fw_setenv")

abbrev pub write_at : (Environment → Environment) → Device → ℕ → Result (Unit {0}) × Device
write_at f d zero = (write_failed, d)
write_at f d (suc n) = (ok tt, record { environment = f d.environment; writes = n })

-- `set_value`
abbrev pub write : (Environment → Environment) → Exec Device (Unit {0})
write f d = write_at f d d.writes

-- `read_environment`, with the validation of what it reads
abbrev read : Exec Device Environment
read d = (
  if environment_valid d.environment
      then ok d.environment
      else err (value_error "Unrecognized SV08 redundant boot environment"),
  d,
)

-- `context['action'] == action and context['slot'] == slot`
abbrev allows : Option Operation → Action → Slot → Bool
allows none action slot = false
allows (some c) action slot = action_eq c.action action && slot_eq c.slot slot

abbrev is_empty : List Slot → Bool
is_empty [] = true
is_empty (_ ∷ _) = false

abbrev pub primary_is : Environment → Slot → Bool
primary_is e s = elim (primary e) [ none ↦ false | some p ↦ slot_eq p s ]

-- equality of two orders
abbrev pub order_eq : List Slot → List Slot → Bool
order_eq [] [] = true
order_eq (s ∷ xs) (t ∷ ys) = slot_eq s t && order_eq xs ys
order_eq _ _ = false

pub set_good_state : Option Operation → Slot → Exec Device (Unit {0})
unfolding ◌>>=◌ ◌>>◌
set_good_state context slot = do
  require_not (not (allows context set_good slot))
      "Good-state changes require the validated confirmation transaction"
  write (with_left slot 3)
  after ← read
  require_not (not (left slot after == 3)) "U-Boot did not confirm the selected slot"

write_order_if : Bool → List Slot → Exec Device (Unit {0})
write_order_if true order = write (λ e. record e { order = order })
write_order_if false order = pure tt

write_left_if : Bool → Slot → ℕ → Exec Device (Unit {0})
write_left_if true slot n = write (with_left slot n)
write_left_if false slot n = pure tt

-- the part of `set-state SLOT bad` below the marker tests
unfoldable pub disarm : Environment → Slot → Exec Device (Unit {0})
unfolding ◌>>=◌ ◌>>◌ write_order_if write_left_if environment_valid primary slot_good
disarm values slot = do
  require_not (is_empty (without slot values.order))
      "Refusing to disarm the only configured boot slot"
  write_order_if (not (order_eq values.order (without slot values.order)))
      (without slot values.order)
  write_left_if (not (left slot values == 0)) slot 0
  after ← read
  require_not (slot_good after slot) "U-Boot did not disarm the target"
  first ← lift (bootable after)
  require_not (slot_eq first slot) "U-Boot did not disarm the target"

-- `set-state SLOT bad` during an installation changes nothing
refuse_install : Environment → Slot → Slot → Exec Device (Unit {0})
refuse_install values source slot =
    require_not
      (slot_eq source slot || not (disabled values slot) || not (primary_is values source))
      "Refusing RAUC slot write unless its inactive target is disabled and source remains selected"

pub set_bad_state : Environment → Option Operation → Slot → Slot → Exec Device (Unit {0})
unfolding ◌>>=◌ ◌>>◌ refuse_install
set_bad_state values context source slot =
    if allows context install slot then refuse_install values source slot else (do
      require_not (not (allows context set_bad slot))
          "Bad-state changes require a validated cancel/fallback transaction"
      disarm values slot)

pub select : Environment → Option Operation → Slot → Exec Device (Unit {0})
unfolding ◌>>=◌ ◌>>◌
select values context slot = do
  require_not (not (allows context set_primary slot))
      "Primary changes require the validated arm transaction"
  write (with_left slot 3)
  write (λ e. record e { order = slot ∷ without slot values.order })
  after ← read
  require_not (not (primary_is after slot) || not (slot_good after slot))
      "U-Boot did not select the requested primary slot"

pub data Command : Type 0 where
  get_primary get_current : Command
  get_state : Slot → Command
  mark_state_good mark_state_bad : Slot → Command
  choose_primary : Slot → Command
  unsupported : Command

pub data Reply : Type 0 where
  slot_name : Slot → Reply
  state_good state_bad nothing : Reply

dispatch : Environment → Option Operation → Slot → Command → Exec Device Reply
unfolding ◌>>=◌ ◌>>◌ set_good_state set_bad_state select
dispatch values context source get_primary = (do p ← lift (bootable values); pure (slot_name p))
dispatch values context source get_current = pure (slot_name source)
dispatch values context source (get_state slot) =
    pure (if slot_good values slot then state_good else state_bad)
dispatch values context source (mark_state_good slot) = do set_good_state context slot; pure nothing
dispatch values context source (mark_state_bad slot) = do
  set_bad_state values context source slot
  pure nothing
dispatch values context source (choose_primary slot) = do select values context slot; pure nothing
dispatch values context source unsupported =
    lift (err (value_error "Unsupported RAUC custom bootloader command"))

-- `handle`, for a caller that is root. `copies_verified` is the outcome of
-- `verify_environment_copies`.
unfoldable pub handle : Result (Unit {0}) → Option Operation → Slot → Command → Exec Device Reply
unfolding dispatch environment_valid primary slot_good disabled
handle copies_verified context source command = do
  lift copies_verified
  values ← read
  dispatch values context source command

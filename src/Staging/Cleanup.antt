-- ===== src/Staging/Cleanup.antt =====
-- `lease` and `discard` of runtime/sv08_staging.py.
use sv08_mainline.Base.{
  ℕ, zero, suc, String, Bool, true, false, ◌||◌, not, Option, none, some, List, [], ◌∷◌, Result, ok,
  err, value_error, os_error, if◌then◌else◌, ◌==◌, codes, is_hex,
}
use sv08_mainline.Base.Exec.{Exec, lift, query, require_not, pure, ◌>>=◌, ◌>>◌}
use sv08_mainline.Registry.{Proof}
use sv08_mainline.Staging.{
  or_os_error, sync, File, Directory, Intake, file_of, without, path, verify_entry, update,
}

-- `Staging.lease`
pub lease : Intake → String → Exec Directory (String × Proof)
unfolding verify_entry
lease intake digest = do
  name ← lift (path digest)
  d ← query ok
  proof ← lift (verify_entry intake (file_of name d.files) digest)
  pure (name, proof)

-- the rest after a fixed text, and after `n` hexadecimal digits
after_text : List ℕ → List ℕ → Option (List ℕ)
after_text [] cs = some cs
after_text (p ∷ ps) [] = none
after_text (p ∷ ps) (c ∷ cs) = if p == c then after_text ps cs else none

after_hex : ℕ → List ℕ → Option (List ℕ)
after_hex zero cs = some cs
after_hex (suc n) [] = none
after_hex (suc n) (c ∷ cs) = if is_hex c then after_hex n cs else none

ends : Option (List ℕ) → Bool
ends none = false
ends (some []) = true
ends (some (_ ∷ _)) = false

then_text : List ℕ → Option (List ℕ) → Option (List ℕ)
then_text text none = none
then_text text (some cs) = after_text text cs

then_hex : ℕ → Option (List ℕ) → Option (List ℕ)
then_hex n none = none
then_hex n (some cs) = after_hex n cs

is_managed : String → Bool
unfolding ends then_text then_hex
is_managed name =
    ends (then_text (codes ".raucb") (after_hex 64 (codes name)))
    || ends (then_hex 32 (after_text (codes ".partial-") (codes name)))

discardable : Intake → Option File → Result (Unit {0})
discardable intake none = err (os_error "lstat")
discardable intake (some f) =
    if not f.is_regular
      || not (f.owner == intake.owner_uid)
      || not (f.links == 1)
      || not (f.mode == 256 || f.mode == 384)
    then err (value_error "Refusing cleanup of an unexpected upload object")
    else ok tt

-- `Staging.discard`, with the answer of `can_discard`
pub discard : Intake → String → Result Bool → Exec Directory (Unit {0})
unfolding is_managed discardable without
discard intake name can_discard = do
  require_not (not (is_managed name)) "Not a managed upload filename"
  d ← query ok
  lift (discardable intake (file_of name d.files))
  allowed ← lift can_discard
  require_not (not allowed) "Transaction reconciliation has not authorized cleanup"
  lift (or_os_error intake.unlink_error)
  update (without name)
  sync intake.cleaned_error

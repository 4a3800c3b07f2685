-- ===== src/Staging/Files.antt =====
-- The names of a staging directory (runtime/sv08_staging.py), and the changes of one file in it.
use sv08_mainline.Base.{
  ℕ, zero, suc, String, ◌≡◌, ◌≢◌, refl, ap, Bool, false, not, none, some, List, [], ◌∷◌, ◌++◌, ok,
  arith, eq_iff, append_text, any, codes, is_hex,
}
use Prim.Native.Char.{code}
use sv08_mainline.Base.Exec.{Outcome, Ends}
use sv08_mainline.Staging.{
  File, Directory, Intake, named, file_of, without, change, path, update, change_at,
}
use sv08_mainline.Staging.Upload.{partial_name}

module _ (name : String) where
  pub file_of-append :
      (fs : List (String × File)) (f : File)
      → file_of name fs ≡ none
      → file_of name (fs ++ (name, f) ∷ []) ≡ some f
  file_of-append [] f h = ground (arith, eq_iff name name)
  file_of-append ((n, g) ∷ fs) f h = ground (arith, file_of-append fs f)

  pub file_of-append_other :
      (fs : List (String × File)) (other : String) (f : File)
      → file_of name fs ≡ none
      → other ≢ name
      → file_of name (fs ++ (other, f) ∷ []) ≡ none
  file_of-append_other [] other f h ne = ground (arith, eq_iff other name, ne)
  file_of-append_other ((n, g) ∷ fs) other f h ne =
      ground (arith, file_of-append_other fs other f, ne)

  pub without-append :
      (fs : List (String × File)) (f : File)
      → file_of name fs ≡ none
      → without name (fs ++ (name, f) ∷ []) ≡ fs
  unfolding without
  without-append [] f h = ground (arith, eq_iff name name)
  without-append ((n, g) ∷ fs) f h = ground (arith, without-append fs f)

  pub change-append :
      (k : String → File → String × File) (fs : List (String × File)) (f : File)
      → file_of name fs ≡ none
      → change name k (fs ++ (name, f) ∷ []) ≡ fs ++ k name f ∷ []
  unfolding change
  change-append k [] f h = ground (arith, eq_iff name name)
  change-append k ((n, g) ∷ fs) f h = ground (arith, change-append k fs f)

module _ {Q : Unit {0} → Directory → Type 0} {R : Directory → Type 0} where
  pub at_update :
      (g : List (String × File) → List (String × File)) (d : Directory)
      → R d
      → ((n : ℕ) → Q tt (record { files = g d.files; power = n }))
      → Outcome Q R (update g d)
  unfolding update
  at_update g d h k = record { holds = go d.power }
    where
      go : (n : ℕ) → Ends Q R (change_at g d n)
      go zero = h
      go (suc n) = k n

-- The name of a digest does not begin like that of a partial upload.
pub path-ne_partial :
    (intake : Intake) (destination actual : String)
    → path actual ≡ ok destination
    → destination ≢ partial_name intake
unfolding path partial_name
path-ne_partial intake destination String.[] h = cc
path-ne_partial intake destination (String.◌∷◌ c s) h = λ e. go (is_hex (code c)) refl h e
  where
    go :
        (b : Bool)
        → is_hex (code c) ≡ b
        → path (String.◌∷◌ c s) ≡ ok destination
        → destination ≡ partial_name intake
        → ⊥
    go b k h e =
        let same : append_text (String.◌∷◌ c s) ".raucb" ≡ destination = ground (arith, h) in
        let first_code : code c ≡ b'.' = cc in ground (arith, h, first_code)

pub only_lock :
    (name : String) (fs : List (String × File))
    → ".lock" ≢ name
    → any (λ f. not (named ".lock" f)) fs ≡ false
    → file_of name fs ≡ none
only_lock name [] ne h = refl
only_lock name ((n, f) ∷ fs) ne h =
    ground (arith, eq_iff n ".lock", eq_iff n name, ne, only_lock name fs ne)

pub lock-ne_partial : (intake : Intake) → ".lock" ≢ partial_name intake
unfolding partial_name
lock-ne_partial intake e = cc (ap codes e)

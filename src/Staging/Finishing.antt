-- ===== src/Staging/Finishing.antt =====
-- What the directory holds after a receipt of runtime/sv08_staging.py, and the cleanup of `finally`.
use sv08_mainline.Base.{
  ℕ, zero, suc, String, ◌≡◌, ◌≢◌, refl, ◌⊎◌, inl, inr, Option, none, some, List, [], ◌∷◌, ◌++◌,
  Result, ok, err, Error, value_error, key_error, os_error, power_loss, length,
}
use sv08_mainline.Base.Exec.{then_do, ◌>>=◌, ◌>>◌, lift}
use sv08_mainline.Registry.{Proof}
use sv08_mainline.Staging.{
  File, Directory, Intake, file_of, without, path, update, change_at, finish, sync, sync_at,
}
use sv08_mainline.Staging.Upload.{partial_name, unlink_if, unlink_partial, clean_up}
use sv08_mainline.Staging.Files.{file_of-append, file_of-append_other, without-append}

module _ (intake : Intake) (size : ℕ) (digest : Option String) (before : List (String × File)) where
  -- The directory with one more file: the whole upload, read-only and verified, under its digest.
  pub record Published (result : String × Proof) (files : List (String × File)) : Type 0 where
    pub file : File
    pub files_new : files ≡ before ++ (result.0, file) ∷ []
    pub complete : length file.bytes ≡ size
    pub protected : file.mode ≡ 256
    pub addressed : path (intake.sha256 file.bytes) ≡ ok result.0
    pub verified : intake.verify file ≡ ok result.1

  -- the directory as it was, or with a partial upload
  abbrev pub Partial : List (String × File) → Type 0
  Partial files =
      (files ≡ before) ⊎ ((f : File) × (files ≡ before ++ (partial_name intake, f) ∷ []))

  abbrev pub IsPublished : List (String × File) → Type 0
  IsPublished files = (result : String × Proof) × Published result files

  -- What the directory holds when the body of the `try` ends: an `fsync` that fails, or a stop,
  -- leaves what was published.
  abbrev pub Written : Result (String × Proof) × Directory → Type 0
  Written (ok result, d) = Published result d.files
  Written (err (value_error m), d) = Partial d.files
  Written (err (key_error m), d) = Partial d.files
  Written (err (os_error m), d) = Partial d.files ⊎ IsPublished d.files
  Written (err power_loss, d) = Partial d.files ⊎ IsPublished d.files

  -- What it holds when the receipt ends. A partial upload outlives an exception only if it could not
  -- be unlinked.
  abbrev pub Received : Result (String × Proof) × Directory → Type 0
  Received (ok result, d) = Published result d.files
  Received (err (value_error m), d) = d.files ≡ before
  Received (err (key_error m), d) = d.files ≡ before
  Received (err (os_error m), d) =
      (d.files ≡ before) ⊎ (IsPublished d.files ⊎ ((intake.unlink_error ≢ none) × Partial d.files))
  Received (err power_loss, d) = Partial d.files ⊎ IsPublished d.files

module _ (intake : Intake) (size : ℕ) (digest : Option String) (before : List (String × File))
    (free : file_of (partial_name intake) before ≡ none) where
  clean_up-none :
      (d : Directory)
      → file_of (partial_name intake) d.files ≡ none
      → clean_up intake d ≡ sync intake.cleaned_error d
  unfolding clean_up unlink_partial unlink_if ◌>>=◌ ◌>>◌
  clean_up-none d h = rw h refl

  -- the unlink, then the `fsync`
  abbrev unlinked : Option String → Directory → Result (Unit {0}) × Directory
  unlinked none d = update (without (partial_name intake)) d
  unlinked (some m) d = (err (os_error m), d)

  unlink_partial-some :
      (u : Option String) (d : Directory) (f : File)
      → intake.unlink_error ≡ u
      → file_of (partial_name intake) d.files ≡ some f
      → unlink_partial intake d ≡ unlinked u d
  unfolding unlink_partial unlink_if ◌>>=◌ ◌>>◌
  unlink_partial-some none d f e h = rw (h, e) refl
  unlink_partial-some (some m) d f e h = rw (h, e) refl

  -- the cleanup takes a partial upload away, unless it fails or the machine stops
  abbrev Cleaned : Result (Unit {0}) × Directory → Type 0
  Cleaned (ok _, d) = d.files ≡ before
  Cleaned (err (value_error m), d) = ⊥
  Cleaned (err (key_error m), d) = ⊥
  Cleaned (err (os_error m), d) =
      (d.files ≡ before)
      ⊎ ((intake.unlink_error ≢ none) × Partial intake size digest before d.files)
  Cleaned (err power_loss, d) = Partial intake size digest before d.files

  sync-Cleaned :
      (failure : Option String) (d : Directory) → d.files ≡ before → Cleaned (sync failure d)
  unfolding sync
  sync-Cleaned failure d e = go failure d.power
    where
      go : (failure : Option String) (n : ℕ) → Cleaned (sync_at failure d n)
      go failure zero = inl e
      go none (suc n) = e
      go (some m) (suc n) = inl e

  unlinked-Cleaned :
      (u : Option String) (d : Directory) (f : File)
      → intake.unlink_error ≡ u
      → d.files ≡ before ++ (partial_name intake, f) ∷ []
      → Cleaned (then_do (unlinked u d).0 (λ _. sync intake.cleaned_error) (unlinked u d).1)
  unfolding update
  unlinked-Cleaned (some m) d f u e = inr ((λ n. cc), inr (f, e))
  unlinked-Cleaned none d f u e = go d.power
    where
      go :
          (n : ℕ)
          → Cleaned (
              then_do
                (change_at (without (partial_name intake)) d n).0
                (λ _. sync intake.cleaned_error)
                (change_at (without (partial_name intake)) d n).1)
      go zero = inr (f, e)
      go (suc n) =
          sync-Cleaned intake.cleaned_error _
            (rw e (without-append (partial_name intake) before f free))

  clean_up-Cleaned :
      (d : Directory) → Partial intake size digest before d.files → Cleaned (clean_up intake d)
  unfolding clean_up ◌>>◌
  clean_up-Cleaned d (inl e) =
      rw (clean_up-none d (rw e free)) (sync-Cleaned intake.cleaned_error d e)
  clean_up-Cleaned d (inr (f, e)) =
      rw
        (unlink_partial-some intake.unlink_error d f refl
          (rw e (file_of-append (partial_name intake) before f free)))
        (unlinked-Cleaned intake.unlink_error d f refl e)

  raised-Received :
      (e : Error) (x : Result (Unit {0}) × Directory)
      → e ≢ power_loss
      → Cleaned x
      → Received intake size digest before (then_do x.0 (λ _. lift (err e)) x.1)
  raised-Received (value_error m) (ok u, d) ne c = c
  raised-Received (key_error m) (ok u, d) ne c = c
  raised-Received (os_error m) (ok u, d) ne c = inl c
  raised-Received power_loss (ok u, d) ne c = absurd (ne refl)
  raised-Received e (err (value_error m), d) ne c = absurd c
  raised-Received e (err (key_error m), d) ne c = absurd c
  raised-Received e (err (os_error m), d) ne (inl c) = inl c
  raised-Received e (err (os_error m), d) ne (inr c) = inr (inr c)
  raised-Received e (err power_loss, d) ne c = inl c

  -- a published upload outlives the cleanup
  returned-Received :
      (failure : Option String) (result : String × Proof) (d : Directory)
      → Published intake size digest before result d.files
      → Received intake size digest before
          (then_do (sync failure d).0 (λ _. lift (ok result)) (sync failure d).1)
  unfolding sync
  returned-Received failure result d p = go failure d.power
    where
      go :
          (failure : Option String) (n : ℕ)
          → Received intake size digest before
              (then_do (sync_at failure d n).0 (λ _. lift (ok result)) (sync_at failure d n).1)
      go failure zero = inr (result, p)
      go none (suc n) = p
      go (some m) (suc n) = inr (inl (result, p))

  failed-Received :
      (failure : Option String) (result : String × Proof) (x : String) (d : Directory)
      → Published intake size digest before result d.files
      → Received intake size digest before
          (then_do (sync failure d).0 (λ _. lift (err (os_error x))) (sync failure d).1)
  unfolding sync
  failed-Received failure result x d p = go failure d.power
    where
      go :
          (failure : Option String) (n : ℕ)
          → Received intake size digest before (
              then_do
                (sync_at failure d n).0
                (λ _. lift (err (os_error x)))
                (sync_at failure d n).1)
      go failure zero = inr (result, p)
      go none (suc n) = inr (inl (result, p))
      go (some m) (suc n) = inr (inl (result, p))

  module _
      (other : (destination actual : String)
        → path actual ≡ ok destination
        → destination ≢ partial_name intake) where
    clean_up-Published :
        (result : String × Proof) (d : Directory)
        → Published intake size digest before result d.files
        → clean_up intake d ≡ sync intake.cleaned_error d
    clean_up-Published result d p = clean_up-none d (
        rw p.files_new (
          file_of-append_other (partial_name intake) before result.0 p.file free
            (other result.0 (intake.sha256 p.file.bytes) p.addressed)))

    pub finish-Received :
        (x : Result (String × Proof) × Directory)
        → Written intake size digest before x
        → Received intake size digest before (finish x.0 (clean_up intake) x.1)
    unfolding ◌>>◌
    finish-Received (ok result, d) p =
        rw (clean_up-Published result d p) (returned-Received intake.cleaned_error result d p)
    finish-Received (err power_loss, d) h = h
    finish-Received (err (value_error m), d) h =
        raised-Received (value_error m) (clean_up intake d) (λ e. cc) (clean_up-Cleaned d h)
    finish-Received (err (key_error m), d) h =
        raised-Received (key_error m) (clean_up intake d) (λ e. cc) (clean_up-Cleaned d h)
    finish-Received (err (os_error m), d) (inl h) =
        raised-Received (os_error m) (clean_up intake d) (λ e. cc) (clean_up-Cleaned d h)
    finish-Received (err (os_error m), d) (inr (result, p)) =
        rw (clean_up-Published result d p) (failed-Received intake.cleaned_error result m d p)

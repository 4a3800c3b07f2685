-- ===== src/Staging/Upload.antt =====
-- `receive` of runtime/sv08_staging.py: an upload is read to its declared length, made read-only,
-- verified and given its final name, or it is taken away again.
use sv08_mainline.Base.{
  ℕ, ◌+◌, ◌-◌, ◌*◌, ◌/◌, String, Bool, true, false, ◌||◌, not, Option, none, some, List, [], ◌∷◌,
  ◌++◌, Result, ok, err, os_error, str_eq, ltb, ◌==◌, any, append_text,
}
use sv08_mainline.Base.Exec.{Exec, lift, query, require_not, pure, ◌>>=◌, ◌>>◌}
use sv08_mainline.Registry.{Proof}
use sv08_mainline.Budget.{Filesystem, block_of}
use sv08_mainline.Budget
use sv08_mainline.Staging.{
  File, Directory, Intake, Answer, named, file_of, without, change, path, receive_chunks, is_ended,
  verify_entry, update, ensuring, sync, or_os_error,
}

unfoldable pub partial_name : Intake → String
partial_name intake = append_text ".partial-" intake.fresh_id

-- `Staging.preflight`
unfoldable pub preflight : Intake → ℕ → Exec Directory (Unit {0})
preflight intake size = do
  require_not (size == 0 || ltb intake.max_bytes size) "Upload exceeds the bundle budget"
  d ← query ok
  require_not (any (λ f. not (named ".lock" f)) d.files)
      "Resolve existing staged or interrupted uploads first"
  let block = block_of intake.filesystem
  let allocated = (size + block - 1) / block * block
  _ ← lift (
      Budget.check intake.floor allocated 2 false (allocated + intake.reserve_bytes) (130 + 64)
        intake.filesystem)
  pure tt

-- a new name, as `O_EXCL` and `RENAME_NOREPLACE` want it
unfoldable pub absent : String → Option File → Result (Unit {0})
absent call none = ok tt
absent call (some _) = err (os_error call)

unfoldable pub digest_differs : Option String → String → Bool
digest_differs none actual = false
digest_differs (some digest) actual = not (str_eq actual digest)

unfoldable pub empty_file : Intake → File
empty_file intake = record {
  is_regular = true;
  owner = intake.owner_uid;
  links = 1;
  mode = 384;
  bytes = [];
}

unfoldable pub with_bytes : List ℕ → String → File → String × File
with_bytes bytes name f = (name, record f { bytes = bytes })

unfoldable pub read_only : String → File → String × File
read_only name f = (name, record f { mode = 256 })

unfoldable pub renamed : String → String → File → String × File
renamed destination name f = (destination, f)

-- the verified partial file gets its final name
unfoldable pub publish : Intake → Option String → List ℕ → Exec Directory (String × Proof)
unfolding absent verify_entry digest_differs partial_name
publish intake digest received = do
  let temporary = partial_name intake
  let actual = intake.sha256 received
  require_not (digest_differs digest actual) "Upload checksum mismatch"
  d ← query ok
  proof ← lift (verify_entry intake (file_of temporary d.files) actual)
  destination ← lift (path actual)
  lift (absent "renameat2" (file_of destination d.files))
  update (change temporary (renamed destination))
  pure (destination, proof)

-- the body of the `try` of `receive_locked`, up to the publication
unfoldable pub receive_file :
    Intake → List Answer → ℕ → Option String → Exec Directory (String × Proof)
unfolding absent publish empty_file is_ended partial_name
receive_file intake stream size digest = do
  let temporary = partial_name intake
  d ← query ok
  lift (absent "open" (file_of temporary d.files))
  update (λ files. files ++ (temporary, empty_file intake) ∷ [])
  received ← lift (receive_chunks size stream [])
  require_not (not (is_ended received.1)) "Upload exceeds its declared length"
  update (change temporary (with_bytes received.0))
  update (change temporary read_only)
  publish intake digest received.0

-- the body of the `try` of `receive_locked`
unfoldable pub receive_into :
    Intake → List Answer → ℕ → Option String → Exec Directory (String × Proof)
unfolding receive_file
receive_into intake stream size digest = do
  result ← receive_file intake stream size digest
  sync intake.published_error
  pure result

unfoldable pub unlink_if : Intake → String → Option File → Exec Directory (Unit {0})
unfolding without
unlink_if intake name none = pure tt
unlink_if intake name (some _) = do lift (or_os_error intake.unlink_error); update (without name)

-- `temporary.unlink(missing_ok=True)`
unfoldable pub unlink_partial : Intake → Exec Directory (Unit {0})
unfolding unlink_if partial_name
unlink_partial intake = do
  d ← query ok
  unlink_if intake (partial_name intake) (file_of (partial_name intake) d.files)

-- the `finally` of `receive_locked`
unfoldable pub clean_up : Intake → Exec Directory (Unit {0})
unfolding unlink_partial
clean_up intake = do unlink_partial intake; sync intake.cleaned_error

unfoldable pub receive_locked :
    Intake → List Answer → ℕ → Option String → Exec Directory (String × Proof)
unfolding preflight receive_into clean_up
receive_locked intake stream size digest = do
  preflight intake size
  ensuring (receive_into intake stream size digest) (clean_up intake)

pub receive : Intake → List Answer → ℕ → String → Exec Directory (String × Proof)
unfolding receive_locked
receive intake stream size digest = do
  _ ← lift (path digest)
  receive_locked intake stream size (some digest)

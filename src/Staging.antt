-- ===== src/Staging.antt =====
-- runtime/sv08_staging.py: the private intake of bundles. The staging directory is the list of its
-- files. The directory's `fsync` may fail or be cut off by a stop, and what it makes durable is not
-- told apart from what is only written; the upload lease and the owners of the ancestors are not in
-- the model.

pub mod Upload
pub mod Cleanup
pub mod Chunks
pub mod Files
pub mod Finishing
pub mod Receiving
use sv08_mainline.Base.{
  ℕ, zero, suc, ◌+◌, ◌-◌, ◌*◌, ◌/◌, String, Bool, true, false, ◌&&◌, ◌||◌, not, Option, none, some,
  List, [], ◌∷◌, ◌++◌, map, Result, ok, err, Error, value_error, key_error, os_error, power_loss,
  str_eq, if◌then◌else◌, ltb, ◌==◌, length, any, append_text, codes, all_codes, is_hex, take_chars,
}
use sv08_mainline.Base.Exec.{Exec, lift, query, require_not, pure, ◌>>=◌, ◌>>◌}
use sv08_mainline.Base.Outcome
use sv08_mainline.Registry.{Proof}
use sv08_mainline.Budget.{Filesystem, block_of}
use sv08_mainline.Budget

pub record File : Type 0 where
  pub is_regular : Bool
  pub owner : ℕ
  pub links : ℕ
  pub mode : ℕ
  pub bytes : List ℕ

-- The staging directory, and the changes of it that still go through.
pub record Directory : Type 0 where
  pub files : List (String × File)
  pub power : ℕ

-- the limits of a `Staging`, and what it is told: SHA-256, the verification of a file, the
-- filesystem, a fresh name for a partial upload, and the failures of the calls that end a receipt:
-- `fsync` of the directory after the publication, `unlink`, and `fsync` after it
pub record Intake : Type 0 where
  pub max_bytes : ℕ
  pub reserve_bytes : ℕ
  pub floor : ℕ
  pub owner_uid : ℕ
  pub sha256 : List ℕ → String
  pub verify : File → Result Proof
  pub filesystem : Filesystem
  pub fresh_id : String
  pub published_error : Option String
  pub unlink_error : Option String
  pub cleaned_error : Option String

-- an answer of `stream.read`: bytes, or no bytes object
pub data Answer : Type 0 where
  chunk : List ℕ → Answer
  invalid : Answer

abbrev pub named : String → String × File → Bool
named name f = str_eq f.0 name

abbrev pub file_of : String → List (String × File) → Option File
file_of name [] = none
file_of name ((n, f) ∷ fs) = if str_eq n name then some f else file_of name fs

unfoldable pub without : String → List (String × File) → List (String × File)
without name [] = []
without name ((n, f) ∷ fs) = if str_eq n name then without name fs else (n, f) ∷ without name fs

-- a change of the file of a name
unfoldable pub change :
    String → (String → File → String × File) → List (String × File) → List (String × File)
change name g [] = []
change name g ((n, f) ∷ fs) = if str_eq n name then g n f ∷ fs else (n, f) ∷ change name g fs

-- `Staging.path`
unfoldable pub path : String → Result String
path digest =
    if all_codes is_hex (codes digest) && length (codes digest) == 64
    then ok (append_text digest ".raucb")
    else err (value_error "Expected a complete SHA-256 digest")

-- the loop of `receive_locked`: the bytes of the upload and what is left of the stream
unfoldable pub receive_chunks : ℕ → List Answer → List ℕ → Result (List ℕ × List Answer)
receive_chunks zero stream received = ok (received, stream)
receive_chunks (suc remaining) [] received = err (value_error "Truncated or invalid upload stream")
receive_chunks (suc remaining) (invalid ∷ stream) received =
    err (value_error "Truncated or invalid upload stream")
receive_chunks (suc remaining) (chunk [] ∷ stream) received =
    err (value_error "Truncated or invalid upload stream")
receive_chunks (suc remaining) (chunk (b ∷ bs) ∷ stream) received =
    let rest = receive_chunks (remaining - length bs) stream (received ++ b ∷ bs) in
    if ltb remaining (length bs)
    then err (value_error "Truncated or invalid upload stream")
    else rest

-- `stream.read(1) != b''`
unfoldable pub is_ended : List Answer → Bool
is_ended [] = true
is_ended (chunk [] ∷ _) = true
is_ended (chunk (_ ∷ _) ∷ _) = false
is_ended (invalid ∷ _) = false

-- `Staging.verify_file`
unfoldable pub verify_entry : Intake → Option File → String → Result Proof
verify_entry intake none digest = err (os_error "lstat")
verify_entry intake (some f) digest =
    Outcome.◌>>◌
      (if not f.is_regular
          || not (f.owner == intake.owner_uid)
          || not (f.links == 1)
          || not (f.mode == 256)
          || length f.bytes == 0
          || ltb intake.max_bytes (length f.bytes)
        then err (value_error "Invalid staged bundle ownership, mode or size")
        else ok tt)
      (Outcome.◌>>=◌ (intake.verify f) (λ proof.
        if str_eq proof.bundle_sha256 digest
        then ok proof
        else err (value_error "Authenticated file digest differs from the uploaded digest")))

abbrev pub change_at :
    (List (String × File) → List (String × File)) → Directory → ℕ → Result (Unit {0}) × Directory
change_at g d zero = (err power_loss, d)
change_at g d (suc n) = (ok tt, record { files = g d.files; power = n })

-- an atomic change of the directory or of a file
unfoldable pub update : (List (String × File) → List (String × File)) → Exec Directory (Unit {0})
update g d = change_at g d d.power

-- a call that may fail
abbrev pub or_os_error : Option String → Result (Unit {0})
or_os_error none = ok tt
or_os_error (some m) = err (os_error m)

abbrev pub sync_at : Option String → Directory → ℕ → Result (Unit {0}) × Directory
sync_at failure d zero = (err power_loss, d)
sync_at failure d (suc n) = (or_os_error failure, record d { power = n })

-- `Staging.sync`
unfoldable pub sync : Option String → Exec Directory (Unit {0})
sync failure d = sync_at failure d d.power

-- `try: body; finally: cleanup`: the cleanup runs unless the machine stopped, and its exception is
-- the one that leaves
abbrev pub finish : {A : Type 0} → Result A → Exec Directory (Unit {0}) → Exec Directory A
finish (err power_loss) cleanup d = (err power_loss, d)
finish (ok a) cleanup d = (cleanup >> pure a) d
finish (err (value_error m)) cleanup d = (cleanup >> lift (err (value_error m))) d
finish (err (key_error m)) cleanup d = (cleanup >> lift (err (key_error m))) d
finish (err (os_error m)) cleanup d = (cleanup >> lift (err (os_error m))) d

unfoldable pub ensuring :
    {A : Type 0} → Exec Directory A → Exec Directory (Unit {0}) → Exec Directory A
ensuring body cleanup d = let (r, d') = body d in finish r cleanup d'

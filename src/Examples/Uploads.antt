-- ===== src/Examples/Uploads.antt =====
-- The receipt of a small upload, and an admitted allocation, at which the theorems are applied.
use sv08_mainline.Base.{
  ℕ, ◌+◌, ◌*◌, ◌≤◌, String, ◌≡◌, refl, true, false, if◌then◌else◌, none, some, List, [], ◌∷◌, ◌++◌,
  ok, length, arith,
}
use sv08_mainline.Base.Exec.{◌>>=◌, ◌>>◌}
use sv08_mainline.Budget.{
  rounded, check, Filesystem, Requirement, block_of, batch_bytes, metadata_bytes, history_inodes,
}
use sv08_mainline.Budget.Reserve.{check-reserve}
use sv08_mainline.Staging.{
  File, Directory, Intake, Answer, chunk, receive_chunks, update, path, ensuring, change, sync,
}
use sv08_mainline.Staging.Upload.{receive_locked, with_bytes, read_only, renamed}
use sv08_mainline.Staging.Chunks.{stream_bytes, receive_chunks_returns}
use sv08_mainline.Staging.Finishing.{Received}
use sv08_mainline.Staging.Receiving.{receive_locked-Received}

abbrev filesystem : Filesystem
filesystem = record { frsize = 4096; bsize = 4096; bavail = 1000000; favail = 100000 }

abbrev floor : ℕ
floor = 805306368

abbrev required : Requirement
required = record { required_bytes = 811864064; required_inodes = 66; headroom_bytes = 6553600 }

test_check : check floor 5 2 false 0 0 filesystem ≡ ok required
unfolding check rounded
test_check = refl

check-reserve_example :
    (rounded 5 (block_of filesystem)
        + floor
        + (if false then 0 else 2 * batch_bytes + metadata_bytes)
      ≤ filesystem.bavail * block_of filesystem)
    × (2 + history_inodes ≤ filesystem.favail)
    × (0 + required.headroom_bytes ≤ filesystem.bavail * block_of filesystem)
check-reserve_example =
    check-reserve floor 5 2 false 0 0 filesystem required (omega arith) test_check

abbrev digest : String
digest = "0123456789abcdef0123456789abcdef0123456789abcdef0123456789abcdef"

abbrev intake : Intake
intake = record {
  max_bytes = 1000;
  reserve_bytes = floor;
  floor = floor;
  owner_uid = 0;
  sha256 = λ bytes. digest;
  verify = λ f. ok (record {
    release = "two";
    bundle_sha256 = digest;
    release_revision = none;
    signer_trusted = some true;
    update_policy = none;
  });
  filesystem = filesystem;
  fresh_id = "0123456789abcdef0123456789abcdef";
  published_error = none;
  unlink_error = none;
  cleaned_error = none;
}

abbrev stream : List Answer
stream = chunk (1 ∷ 2 ∷ []) ∷ chunk (3 ∷ []) ∷ []

abbrev empty_directory : Directory
empty_directory = record { files = []; power = 9 }

abbrev received_file : File
received_file = record {
  is_regular = true;
  owner = 0;
  links = 1;
  mode = 256;
  bytes = 1 ∷ 2 ∷ 3 ∷ [];
}

test_chunks : receive_chunks 3 stream [] ≡ ok (1 ∷ 2 ∷ 3 ∷ [], [])
unfolding receive_chunks
test_chunks = refl

receive_chunks_returns_example :
    (length {A = ℕ} (1 ∷ 2 ∷ 3 ∷ []) ≡ length {A = ℕ} [] + 3)
    × ((1 ∷ 2 ∷ 3 ∷ []) ++ [] ≡ [] ++ stream_bytes stream)
receive_chunks_returns_example = receive_chunks_returns 3 stream [] (1 ∷ 2 ∷ 3 ∷ [], []) test_chunks

test_receive : (receive_locked intake stream 3 (some digest) empty_directory).1 ≡ record {
  files =
      ("0123456789abcdef0123456789abcdef0123456789abcdef0123456789abcdef.raucb", received_file)
      ∷ [];
  power = 3;
}
unfolding receive_locked ensuring update sync receive_chunks path check rounded change with_bytes
    read_only renamed ◌>>=◌ ◌>>◌
test_receive = refl

receive_locked-Received_example :
    Received intake 3
      (some digest)
      []
      (receive_locked intake stream 3 (some digest) empty_directory)
receive_locked-Received_example =
    receive_locked-Received intake stream 3 (some digest) empty_directory

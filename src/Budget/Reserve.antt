-- ===== src/Budget/Reserve.antt =====
-- What an allocation that runtime/sv08_data_budget.py admits leaves.
use sv08_mainline.Base.{
  ℕ, ◌+◌, ◌-◌, ◌*◌, ◌≤◌, ◌<◌, ◌≡◌, Bool, true, false, ok, arith, if◌then◌else◌,
}
use native.Mathlib.Nat.{div-add-mod', mod-lt}
use sv08_mainline.Budget.{
  rounded, check, Filesystem, Requirement, block_of, batch_bytes, metadata_bytes, history_inodes,
}

-- Rounding gives the least multiple of the block that holds the value.
pub rounded_bounds :
    (value block : ℕ)
    → 0 < block
    → (value ≤ rounded value block) × (rounded value block < value + block)
unfolding rounded
rounded_bounds value block h =
    omega (arith, div-add-mod' (value + block - 1) block, mod-lt (value + block - 1) {m = block} h)

-- An admitted allocation of `delta` bytes, in whole blocks, leaves the reserve of the data
-- filesystem; unless it publishes the result of a job, it also leaves room for two whole receipt
-- files and the metadata of the history. It leaves the inodes of the history in any case.
pub check-reserve :
    (floor delta inodes : ℕ) (result : Bool) (byte_floor inode_floor : ℕ) (fs : Filesystem)
    (r : Requirement)
    → 0 < block_of fs
    → check floor delta inodes result byte_floor inode_floor fs ≡ ok r
    → (rounded delta (block_of fs)
          + floor
          + (if result then 0 else 2 * batch_bytes + metadata_bytes)
        ≤ fs.bavail * block_of fs)
      × (inodes + history_inodes ≤ fs.favail)
      × (byte_floor + r.headroom_bytes ≤ fs.bavail * block_of fs)
unfolding check
check-reserve floor delta inodes true byte_floor inode_floor fs r b h = ground arith
check-reserve floor delta inodes false byte_floor inode_floor fs r b h = ground (
  arith,
  rounded_bounds batch_bytes (block_of fs) b,
  rounded_bounds metadata_bytes (block_of fs) b,
)

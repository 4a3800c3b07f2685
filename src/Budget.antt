-- ===== src/Budget.antt =====
-- runtime/sv08_data_budget.py: how much of the data filesystem an allocation may take. Paths, owners
-- and the allocation lock are not in the model; the filesystem answers with its numbers.
pub mod Reserve
use sv08_mainline.Base.{
  ℕ, ◌+◌, ◌-◌, ◌*◌, ◌/◌, max, Bool, ◌||◌, Result, ok, refuse_if, if◌then◌else◌, ltb, ◌==◌,
}
use sv08_mainline.Base.Outcome.{◌>>◌}

abbrev pub mib : ℕ
mib = 1024 * 1024

abbrev pub batch_bytes : ℕ
batch_bytes = 2752512

abbrev pub metadata_bytes : ℕ
metadata_bytes = mib

abbrev pub history_inodes : ℕ
history_inodes = 64

unfoldable pub rounded : ℕ → ℕ → ℕ
rounded value block = (value + block - 1) / block * block

-- `Budget.floor`
pub floor_of : ℕ → ℕ → ℕ → ℕ
floor_of state_reserve copy_limit staging_reserve = max (state_reserve + copy_limit) staging_reserve

-- what `statvfs` answers
pub record Filesystem : Type 0 where
  pub frsize : ℕ
  pub bsize : ℕ
  pub bavail : ℕ
  pub favail : ℕ

pub record Requirement : Type 0 where
  pub required_bytes : ℕ
  pub required_inodes : ℕ
  pub headroom_bytes : ℕ

-- `fs.f_frsize or fs.f_bsize`
abbrev pub block_of : Filesystem → ℕ
block_of fs = if fs.frsize == 0 then fs.bsize else fs.frsize

-- `Budget.check`
unfoldable pub check : ℕ → ℕ → ℕ → Bool → ℕ → ℕ → Filesystem → Result Requirement
check floor delta inodes result byte_floor inode_floor fs =
    let block = block_of fs in
    let headroom : ℕ =
      (if result then 0 else 2 * rounded batch_bytes block + rounded metadata_bytes block) in
    let need = max byte_floor (floor + rounded delta block) + headroom in
    let inode_need = max inode_floor (inodes + history_inodes) in
    refuse_if (ltb (fs.bavail * block) need || ltb fs.favail inode_need)
      "Insufficient shared data space or inodes; history and user data retained"
    >> ok
        (record { required_bytes = need; required_inodes = inode_need; headroom_bytes = headroom })

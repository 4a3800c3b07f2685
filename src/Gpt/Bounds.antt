-- ===== src/Gpt/Bounds.antt =====
-- Where the partitions lie that runtime/sv08_gpt.py accepts.
use sv08_mainline.Base.{◌+◌, ◌-◌, ◌*◌, ◌/◌, ◌%◌, ◌≤◌, ◌<◌, ◌≡◌, List, [], ◌∷◌}
use sv08_mainline.Base.Yields.{Yields}
use sv08_mainline.Gpt.{sector, Region, Header, Image, Inspection, Report}

-- A nonempty region of whole sectors in the range that a header gives to partitions.
pub record IsUsable (h : Header) (r : Region) : Type 0 where
  pub aligned : r.begin % sector ≡ 0
  pub after_first : h.first * sector ≤ r.begin
  pub nonempty : r.begin < r.limit
  pub before_last : r.limit ≤ (h.last + 1) * sector

abbrev pub AllUsable : Header → List Region → Type 0
AllUsable h [] = Unit {0}
AllUsable h (r ∷ rs) = IsUsable h r × AllUsable h rs

module _ (image : Image) (options : Inspection) where
  -- the header by which the entries are checked, and where its partitions lie
  abbrev pub backup_of : Report → Header
  backup_of r = image.header (r.image_bytes / sector - 1)

  abbrev Inside : Report → Type 0
  Inside r =
      AllUsable (backup_of r) r.partitions
      × ((backup_of r).last + 1) * sector ≤ r.image_bytes - sector
      × r.spl_reserved.limit < r.image_bytes

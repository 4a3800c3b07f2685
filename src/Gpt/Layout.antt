-- ===== src/Gpt/Layout.antt =====
-- The rest of `inspect` (runtime/sv08_gpt.py): the partitions, the sorted regions, the environments,
-- and the whole audit.
use sv08_mainline.Base.{
  ℕ, ◌+◌, ◌-◌, ◌*◌, ◌/◌, ◌%◌, max, Bool, true, false, ◌&&◌, ◌||◌, not, List, [], ◌∷◌, ◌++◌, Result,
  ok, refuse_if, str_eq, if◌then◌else◌, ltb, leb, ◌==◌, any,
}
use Prim.Native.Nat.{min}
use sv08_mainline.Base.Yields.{◌>>=◌, ◌>>◌}
use sv08_mainline.Gpt.{
  Entries, Entry, Header, Image, Inspection, PartitionRecord, Region, Report, array_region,
  check_header, footprint, geometry_differs, read_array, sector, sector_region,
}

unfoldable pub entry_region : Entry → Region
entry_region e = record { begin = e.start * sector; limit = (e.stop + 1) * sector }

-- an entry that is used, before the others
unfoldable pub check_used :
    Header
    → ℕ
    → Entry
    → Result (List Region × List PartitionRecord)
    → Result (List Region × List PartitionRecord)
unfolding entry_region
check_used h number e rest = do
  refuse_if (ltb e.start h.first || ltb e.stop e.start || ltb h.last e.stop)
      "Partition outside usable sectors"
  others ← rest
  ok (
    entry_region e ∷ others.0,
    record {
      number = number;
      name = e.name;
      partuuid = e.partuuid;
      offset_bytes = e.start * sector;
      size_bytes = (e.stop - e.start + 1) * sector;
    }
        ∷ others.1,
  )

-- the loop over the entries, each with its number
unfoldable pub check_entries : Header → ℕ → List Entry → Result (List Region × List PartitionRecord)
unfolding check_used
check_entries h number [] = ok ([], [])
check_entries h number (e ∷ es) =
    let rest = check_entries h (number + 1) es in
    if e.unused then rest else check_used h number e rest

-- `sorted` on pairs
unfoldable pub leb_region : Region → Region → Bool
leb_region a b = ltb a.begin b.begin || (a.begin == b.begin && leb a.limit b.limit)

unfoldable pub insert_region : Region → List Region → List Region
unfolding leb_region
insert_region r [] = r ∷ []
insert_region r (s ∷ rs) = if leb_region r s then r ∷ s ∷ rs else s ∷ insert_region r rs

unfoldable pub sort_regions : List Region → List Region
unfolding insert_region
sort_regions [] = []
sort_regions (r ∷ rs) = insert_region r (sort_regions rs)

-- `max(a.begin, b.begin) < min(a.limit, b.limit)`
abbrev pub overlaps : Region → Region → Bool
overlaps a b = ltb (max a.begin b.begin) (min a.limit b.limit)

unfoldable pub neighbours_overlap : List Region → Bool
neighbours_overlap [] = false
neighbours_overlap (a ∷ []) = false
neighbours_overlap (a ∷ b ∷ rs) = ltb b.begin a.limit || neighbours_overlap (b ∷ rs)

-- the first partition lies before the end of a region, or there is no partition
crosses_first : Region → List Region → Bool
crosses_first region [] = true
crosses_first region (p ∷ ps) = any (λ (q : Region). ltb q.begin region.limit) (p ∷ ps)

-- the loop over the environments, with those that were accepted
unfoldable pub check_environments :
    List Region → List Region → Region → List (ℕ × ℕ) → List Region → Result (List Region)
unfolding crosses_first
check_environments partitions occupied spl [] environments = ok environments
check_environments partitions occupied spl ((offset, size) ∷ rest) environments = do
  refuse_if (size == 0 || not (offset % sector == 0) || not (size % sector == 0))
      "Environment regions must use positive aligned byte lengths"
  let region : Region = record { begin = offset; limit = offset + size }
  refuse_if (crosses_first region partitions) "Environment must fit before the first partition"
  refuse_if (any (overlaps region) (occupied ++ spl ∷ environments))
      "Environment overlaps GPT, SPL, a partition or another copy"
  check_environments partitions occupied spl rest (environments ++ region ∷ [])

unfoldable pub metadata : ℕ → Header → Header → List Region
unfolding sector_region array_region
metadata size primary backup =
    sector_region 0
    ∷ sector_region 1
    ∷ array_region primary
    ∷ sector_region (size / sector - 1)
    ∷ array_region backup
    ∷ []

-- what is checked after both headers are read
unfoldable pub check_layout : ℕ → Inspection → Header → Header → Entries → Result Report
unfolding check_entries sort_regions neighbours_overlap check_environments metadata
check_layout size options primary backup array = do
  found ← check_entries backup 1 array.entries
  let occupied = sort_regions (metadata size primary backup ++ found.0)
  refuse_if (any (overlaps options.spl) occupied) "SPL reservation overlaps GPT or a partition"
  refuse_if (neighbours_overlap occupied) "Overlapping metadata/partitions"
  environments ← check_environments found.0 occupied options.spl options.environments []
  ok (record {
    image_bytes = size;
    disk_guid = primary.disk_guid;
    partitions = found.0;
    records = found.1;
    spl_reserved = options.spl;
    environments = environments;
  })

unfoldable pub inspect : Image → Inspection → Result Report
unfolding footprint check_header read_array geometry_differs check_layout
inspect image options = do
  size ← footprint image options
  let spl = options.spl
  refuse_if
      (not (size % sector == 0)
        || ltb spl.begin 1024
        || leb spl.limit spl.begin
        || leb size spl.limit)
      "Invalid image or SPL reservation"
  let primary = image.header 1
  check_header size 1 primary
  first_array ← read_array image primary
  let backup = image.header (size / sector - 1)
  check_header size (size / sector - 1) backup
  second_array ← read_array image backup
  refuse_if (geometry_differs primary backup) "GPT headers disagree on geometry/identity"
  refuse_if (not (str_eq first_array.raw second_array.raw)) "GPT arrays disagree"
  check_layout size options primary backup second_array

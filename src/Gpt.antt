-- ===== src/Gpt.antt =====
-- runtime/sv08_gpt.py: the audit of a disk image's GPT against the SPL and the environments. What
-- `struct`, `zlib` and `uuid` read of the bytes is a field of the image; offsets and lengths are
-- natural numbers. Here are the footprint and the two headers with their arrays; `Gpt.Layout` has the
-- partitions and the audit.
pub mod Regions
pub mod Inspecting
pub mod Bounds
pub mod Layout
use sv08_mainline.Base.{
  ℕ, ◌+◌, ◌-◌, ◌*◌, ◌/◌, ◌%◌, max, String, Bool, true, false, ◌&&◌, ◌||◌, not, Option, none, some,
  List, [], ◌∷◌, ◌++◌, map, Result, ok, refuse_if, str_eq, if◌then◌else◌, ltb, leb, ◌==◌, any,
  length,
}
use Prim.Native.Nat.{bit_and, min}
use sv08_mainline.Base.Yields.{◌>>=◌, ◌>>◌}

abbrev pub sector : ℕ
sector = 512

-- bytes from `begin` up to, and without, `limit`
pub record Region : Type 0 where
  pub begin : ℕ
  pub limit : ℕ

pub record Entry : Type 0 where
  pub unused : Bool
  pub partuuid : String
  pub start : ℕ
  pub stop : ℕ
  pub name : String

-- the bytes of a partition array as they were read, their number and checksum, and their entries
pub record Entries : Type 0 where
  pub raw : String
  pub read_bytes : ℕ
  pub crc : ℕ
  pub entries : List Entry

pub record Header : Type 0 where
  pub signed : Bool
  pub length : ℕ
  pub crc : ℕ
  pub computed_crc : ℕ
  pub current : ℕ
  pub other : ℕ
  pub first : ℕ
  pub last : ℕ
  pub disk_guid : String
  pub table : ℕ
  pub count : ℕ
  pub entry_size : ℕ
  pub entries_crc : ℕ

-- the file: what `stat` says of it, the header in a sector, and the array at an offset
pub record Image : Type 0 where
  pub is_regular : Bool
  pub is_block : Bool
  pub is_symlink : Bool
  pub bytes : ℕ
  pub header : ℕ → Header
  pub array : ℕ → ℕ → Entries

pub record Inspection : Type 0 where
  pub spl : Region
  pub environments : List (ℕ × ℕ)
  pub allow_block : Bool
  pub image_bytes : Option ℕ
  pub allow_regular_prefix : Bool

pub record PartitionRecord : Type 0 where
  pub number : ℕ
  pub name : String
  pub partuuid : String
  pub offset_bytes : ℕ
  pub size_bytes : ℕ

pub record Report : Type 0 where
  pub image_bytes : ℕ
  pub disk_guid : String
  pub partitions : List Region
  pub records : List PartitionRecord
  pub spl_reserved : Region
  pub environments : List Region

pub positive : Option ℕ → Bool
positive none = false
positive (some n) = ltb 0 n

or_zero : Option ℕ → ℕ
or_zero none = 0
or_zero (some n) = n

given : Option ℕ → Bool
given none = false
given (some _) = true

-- the footprint that is inspected
pub footprint : Image → Inspection → Result ℕ
unfolding positive or_zero given
footprint image options =
    if options.allow_block && options.allow_regular_prefix
    then refuse_if true "Choose one explicit inspection mode" >> ok 0
    else (if options.allow_block
        then refuse_if (not image.is_block || not (positive options.image_bytes))
            "Block inspection requires an explicit positive image footprint"
          >> ok (or_zero options.image_bytes)
        else (if options.allow_regular_prefix
            then refuse_if
                (not image.is_regular
                  || image.is_symlink
                  || not (positive options.image_bytes)
                  || ltb image.bytes (or_zero options.image_bytes))
                "Regular prefix inspection requires an exact footprint"
              >> ok (or_zero options.image_bytes)
            else refuse_if (not image.is_regular || image.is_symlink || given options.image_bytes)
                "Inspect only a regular image file"
              >> ok image.bytes))

-- the bytes of a header's partition array
pub array_region : Header → Region
array_region h = record {
  begin = h.table * sector;
  limit = h.table * sector + h.count * h.entry_size;
}

unfoldable pub check_header : ℕ → ℕ → Header → Result (Unit {0})
unfolding array_region
check_header size lba h = do
  refuse_if (not h.signed) "Missing GPT header"
  refuse_if (ltb h.length 92 || ltb sector h.length) "Invalid header length"
  refuse_if (not (h.computed_crc == h.crc)) "GPT header CRC mismatch"
  refuse_if (not (h.current == lba) || not (h.other == (if lba == 1 then size / sector - 1 else 1)))
      "GPT header location mismatch"
  refuse_if (ltb h.first 2 || ltb h.last h.first || leb (size / sector - 1) h.last)
      "Invalid usable sector bounds"
  refuse_if
      (ltb h.entry_size 128
        || not (bit_and h.entry_size (h.entry_size - 1) == 0)
        || ltb (16 * 1024 * 1024) (h.count * h.entry_size)
        || h.count == 0)
      "Invalid GPT entry dimensions"
  let array = array_region h
  refuse_if (ltb array.begin (2 * sector) || ltb (size - sector) array.limit)
      "GPT array outside disk"
  refuse_if
      (lba == 1 && ltb (h.first * sector) array.limit
        || not (lba == 1) && ltb array.begin ((h.last + 1) * sector))
      "GPT array overlaps usable sectors"

-- the array of a header, as long and with the checksum that the header says
pub read_array : Image → Header → Result Entries
unfolding array_region
read_array image h = do
  let entries = image.array (array_region h).begin (h.count * h.entry_size)
  refuse_if
      (not (entries.read_bytes == h.count * h.entry_size) || not (entries.crc == h.entries_crc))
      "GPT array CRC mismatch"
  ok entries

pub sector_region : ℕ → Region
sector_region lba = record { begin = lba * sector; limit = (lba + 1) * sector }

pub geometry_differs : Header → Header → Bool
geometry_differs a b =
    not (a.first == b.first)
    || not (a.last == b.last)
    || not (str_eq a.disk_guid b.disk_guid)
    || not (a.count == b.count)
    || not (a.entry_size == b.entry_size)

-- ===== src/Examples/Images.antt =====
-- A disk image with one partition, an SPL and an environment, at which the theorems on the layout
-- are applied.
use sv08_mainline.Base.{◌*◌, ◌≡◌, refl, true, false, none, [], ◌∷◌, ok, if◌then◌else◌, ◌==◌}
use sv08_mainline.Base.Yields.{◌>>=◌, ◌>>◌}
use sv08_mainline.Gpt.{Entry, Header, Image, Inspection, Report}
use sv08_mainline.Gpt.Layout.{inspect}
use sv08_mainline.Gpt.Regions.{AllApart}
use sv08_mainline.Gpt.Inspecting.{placed, inspect-disjoint}

abbrev primary_header : Header
primary_header = record {
  signed = true;
  length = 92;
  crc = 7;
  computed_crc = 7;
  current = 1;
  other = 8191;
  first = 4096;
  last = 8157;
  disk_guid = "disk";
  table = 2;
  count = 4;
  entry_size = 128;
  entries_crc = 5;
}

abbrev backup_header : Header
backup_header = record primary_header { current = 8191; other = 1; table = 8190 }

abbrev partition : Entry
partition = record { unused = false; partuuid = "root"; start = 4096; stop = 8000; name = "root" }

abbrev empty_entry : Entry
empty_entry = record partition { unused = true }

abbrev image : Image
image = record {
  is_regular = true;
  is_block = false;
  is_symlink = false;
  bytes = 8192 * 512;
  header = λ lba. if lba == 1 then primary_header else backup_header;
  array = λ offset size. record {
    raw = "entries";
    read_bytes = size;
    crc = 5;
    entries = partition ∷ empty_entry ∷ empty_entry ∷ empty_entry ∷ [];
  };
}

abbrev options : Inspection
options = record {
  spl = record { begin = 8192; limit = 1048576 };
  environments = (1048576, 65536) ∷ (1114112, 65536) ∷ [];
  allow_block = false;
  image_bytes = none;
  allow_regular_prefix = false;
}

abbrev report : Report
report = record {
  image_bytes = 8192 * 512;
  disk_guid = "disk";
  partitions = record { begin = 4096 * 512; limit = 8001 * 512 } ∷ [];
  records =
      record {
        number = 1;
        name = "root";
        partuuid = "root";
        offset_bytes = 4096 * 512;
        size_bytes = 3905 * 512;
      }
      ∷ [];
  spl_reserved = record { begin = 8192; limit = 1048576 };
  environments =
      record { begin = 1048576; limit = 1114112 }
      ∷ record { begin = 1114112; limit = 1179648 }
      ∷ [];
}

test_inspect : inspect image options ≡ ok report
unfolding inspect ◌>>=◌ ◌>>◌
test_inspect = refl

inspect-disjoint_example : AllApart (placed image report)
inspect-disjoint_example = inspect-disjoint image options report test_inspect

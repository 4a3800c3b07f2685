-- ===== src/Jobs.antt =====
-- runtime/sv08_admin_jobs.py: the receipts of the image operations. `Jobs.Validation` says what the
-- ledger accepts, `Jobs.Ledger` has `save`, `Jobs.Submit` and `Jobs.Work` are the two sides of the
-- queue, and `Jobs.Once` is about every history of them.
pub mod History
pub mod Ledger
pub mod Upkeep
pub mod Submit
pub mod Public
pub mod Summary
pub mod Work
pub mod Soundness
pub mod Starting
pub mod Ending
pub mod Once
pub mod Running
pub mod Handing
pub mod Queueing
pub mod Maintaining
pub mod Saving
pub mod Identities
pub mod Retained
pub mod Resolution
pub mod Validation
use sv08_mainline.Base.{
  ℕ, zero, suc, ◌+◌, ◌*◌, String, Bool, true, false, ◌&&◌, ◌||◌, not, Option, none, some, List, [],
  ◌∷◌, Result, ok, err, value_error, refuse_if, str_eq, if◌then◌else◌, ltb, leb, ◌==◌, codes,
  all_codes, is_hex, length, any, map,
}
use sv08_mainline.Base.Outcome.{◌>>=◌, ◌>>◌}
use sv08_mainline.Base.Lists.{first, count_if, mem_text}
use sv08_mainline.Policy.{Options, OptionValue, flag, other, effective}

pub data Phase : Type 0 where
  queued running interrupted succeeded refused : Phase

-- the arguments of an image action: its fields, of which `digest` and `options` are known
pub record Arguments : Type 0 where
  pub digest : Option String
  pub options : Option Options
  pub unexpected : Bool

pub record Plan : Type 0 where
  pub action : String
  pub arguments : Arguments
  pub revision : String
  pub title : String
  pub effect : String
  pub preserves_user_data : Bool

-- Retained review evidence of an unknown outcome. `evidence` is its canonical JSON text.
pub record Disposition : Type 0 where
  pub outcome : String
  pub kind : String
  pub id : String
  pub evidence_sha256 : String
  pub evidence : String

-- a receipt of `jobs.json`
pub record Row : Type 0 where
  pub id : String
  pub plan : Plan
  pub boot_id : String
  pub phase : Phase
  pub message : String
  pub queued_at : ℕ
  pub disposition : Option Disposition

-- JSON and SHA-256, which the program takes from its language's library: `revision` of a receipt
-- without its disposition, `revision` of a text of evidence, the digest that the evidence names, and
-- the sizes of the two texts of a ledger, and the digest of a snapshot of receipts.
pub record Codec : Type 0 where
  pub original_sha256 : Row → String
  pub evidence_sha256 : String → String
  pub named_original : String → Option String
  pub text_bytes : String → ℕ
  pub rows_bytes : List Row → ℕ
  pub rows_sha256 : List Row → String

abbrev pub limit : ℕ
limit = 128

abbrev pub receipt_bytes : ℕ
receipt_bytes = 512 * 1024

abbrev pub max_evidence_bytes : ℕ
max_evidence_bytes = 16 * 1024

abbrev pub max_bytes : ℕ
max_bytes = receipt_bytes + limit * (max_evidence_bytes + 1024)

abbrev pub is_image_action : String → Bool
is_image_action a = str_eq a "image.stage" || str_eq a "image.arm" || str_eq a "image.cancel"

-- `row['phase'] in TERMINAL`
abbrev pub is_terminal : Phase → Bool
is_terminal succeeded = true
is_terminal refused = true
is_terminal queued = false
is_terminal running = false
is_terminal interrupted = false

abbrev pub is_queued : Phase → Bool
is_queued queued = true
is_queued running = false
is_queued interrupted = false
is_queued succeeded = false
is_queued refused = false

abbrev pub has_disposition : Option Disposition → Bool
has_disposition none = false
has_disposition (some _) = true

-- `Jobs.blocking`
abbrev pub blocking : Row → Bool
blocking r = not (is_terminal r.phase) && not (has_disposition r.disposition)

-- `re.fullmatch('[0-9a-f]{n}', text)`
abbrev pub is_hex_of : ℕ → String → Bool
is_hex_of n text = all_codes is_hex (codes text) && length (codes text) == n

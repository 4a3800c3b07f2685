-- ===== src/Jobs/History.antt =====
-- The committed receipts and what `History.view` (runtime/sv08_admin_history.py) accepts of them. A
-- committed history stands here as the receipts that its files hold.
use sv08_mainline.Base.{
  ℕ, String, Bool, true, false, ◌||◌, not, Option, List, [], ◌∷◌, ◌++◌, map, Result, ok, refuse_if,
  err, value_error, str_eq, ◌&&◌, none, some, if◌then◌else◌, ltb, leb, ◌==◌, length, any,
}
use sv08_mainline.Base.Outcome.{◌>>◌}
use sv08_mainline.Base.Lists.{concat, unique, mem_text}
use sv08_mainline.Jobs.{Row, Codec, blocking, is_hex_of}
use sv08_mainline.Jobs.Validation.{validate_rows}

pub data Maintaining : Type 0 where
  migrate rollover : Maintaining

-- a reviewed maintenance plan
pub record Maintenance : Type 0 where
  pub operation : Maintaining
  pub revision : String
  pub ids : List String

-- the last maintenance, and the digest of the receipts that it archived or took over
pub record Token : Type 0 where
  pub plan : Maintenance
  pub archive_sha256 : String

pub record Manifest : Type 0 where
  pub generation : ℕ
  pub parent_revision : Option String
  pub archives : List (List Row)
  pub active : List Row
  pub maintenance : Option Token

-- `jobs.json`: the list of the first format, or the manifest of the second with its snapshots.
pub data History : Type 0 where
  legacy : List Row → History
  manifest : Manifest → History

abbrev pub is_migrated : History → Bool
is_migrated (legacy _) = false
is_migrated (manifest _) = true

-- `view['active']`
abbrev pub active_rows : History → List Row
active_rows (legacy rows) = rows
active_rows (manifest m) = m.active

abbrev pub archive_batches : History → List (List Row)
archive_batches (legacy rows) = []
archive_batches (manifest m) = m.archives

-- `view['rows']`
abbrev pub all_rows : History → List Row
all_rows h = concat (archive_batches h) ++ active_rows h

abbrev pub identities : List Row → List String
identities rows = map (λ (r : Row). r.id) rows

-- `digest` of the committed value, and the answers of the allocation budget to a publication and to
-- a review.
pub record Storage : Type 0 where
  pub revision : History → String
  pub room : List Row → Bool → Result (Unit {0})
  pub review_room : History → Result (Unit {0})

abbrev pub archive_limit : ℕ
archive_limit = 8

abbrev pub total_limit : ℕ
total_limit = 1152

-- 2 ^ 63
abbrev pub generation_limit : ℕ
generation_limit = 9223372036854775808

-- `validate_plan` of sv08_admin_history.py
unfoldable pub validate_maintenance : Maintenance → Result (Unit {0})
validate_maintenance plan =
    if not (is_hex_of 64 plan.revision)
      || ltb 128 (length plan.ids)
      || not (unique plan.ids)
      || any (λ id. not (is_hex_of 32 id)) plan.ids
    then err (value_error "Review image history maintenance first")
    else ok tt

-- a first generation has no parent, any other one has the revision of its parent
abbrev pub parent_differs : ℕ → Option String → Bool
parent_differs generation none = not (generation == 1)
parent_differs generation (some revision) = generation == 1 || not (is_hex_of 64 revision)

check_token : Option Token → Result (Unit {0})
unfolding validate_maintenance
check_token none = ok tt
check_token (some token) = do
  validate_maintenance token.plan
  refuse_if (not (is_hex_of 64 token.archive_sha256)) "Invalid maintenance hash"

is_rollover : Maintaining → Bool
is_rollover migrate = false
is_rollover rollover = true

module _ (codec : Codec) where
  check_committed : Option Token → List (List Row) → List Row → Result (Unit {0})
  unfolding is_rollover
  check_committed none archives rows = ok tt
  check_committed (some token) archives rows = do
    refuse_if (any (λ id. not (mem_text id (identities rows))) token.plan.ids)
        "Maintenance identities missing from committed history"
    refuse_if
        (is_rollover token.plan.operation
          && not (
              any (λ (batch : List Row). str_eq (codec.rows_sha256 batch) token.archive_sha256)
                archives))
        "Maintenance archive is not committed"

  pub check_archives : List (List Row) → Result (Unit {0})
  check_archives [] = ok tt
  check_archives (batch ∷ batches) = do
    validate_rows codec batch
    refuse_if (not (length batch == 128) || any blocking batch) "Unsettled archive"
    check_archives batches

  pub check_manifest : Bool → Manifest → Result (Unit {0})
  unfolding check_archives check_token check_committed
  check_manifest fenced m = do
    refuse_if
        (ltb m.generation 1
          || leb generation_limit m.generation
          || parent_differs m.generation m.parent_revision
          || ltb archive_limit (length m.archives))
        "Unsupported or corrupt image history manifest"
    refuse_if (not fenced) "Missing history compatibility fence"
    check_token m.maintenance
    check_archives m.archives
    validate_rows codec m.active
    let rows = all_rows (manifest m)
    refuse_if (ltb total_limit (length rows) || not (unique (identities rows)))
        "Duplicate or excessive retained identities"
    check_committed m.maintenance m.archives rows

  -- `History.view`, told whether the compatibility fence is there
  unfoldable pub view : Bool → History → Result History
  unfolding check_manifest
  view fenced (legacy rows) = do validate_rows codec rows; ok (legacy rows)
  view fenced (manifest m) = do check_manifest fenced m; ok (manifest m)

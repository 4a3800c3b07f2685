-- ===== src/Jobs/Validation.antt =====
-- What the ledger of runtime/sv08_admin_jobs.py accepts of a reviewed plan and of its receipts, with
-- `validate_arguments` for the image actions (runtime/sv08_admin.py), and equality of plans.
use sv08_mainline.Base.{
  String, Bool, true, false, ◌&&◌, ◌||◌, not, Option, none, some, List, [], ◌∷◌, Result, ok, err,
  value_error, refuse_if, str_eq, if◌then◌else◌, ltb, ◌==◌, length, map,
}
use sv08_mainline.Base.Outcome.{◌>>=◌, ◌>>◌}
use sv08_mainline.Base.Lists.{count_if, mem_text}
use sv08_mainline.Policy.{Options, OptionValue, flag, other, effective}
use sv08_mainline.Jobs.{
  Arguments, Codec, Disposition, Plan, Row, blocking, is_hex_of, is_image_action, is_terminal,
  limit, max_bytes, max_evidence_bytes, receipt_bytes,
}

-- `ACTIONS[action]`
action_title : String → String
action_title a =
    if str_eq a "image.stage"
    then "Stage image"
    else (if str_eq a "image.arm" then "Use staged image next boot" else "Cancel pending update")

action_effect : String → String
action_effect a =
    if str_eq a "image.stage"
    then "Verify and install the uploaded release into the inactive OS slot. Keep the running slot and user data."
    else (if str_eq a "image.arm"
        then "Select the staged release for the next normal boot. Do not restart the printer now."
        else "Keep the current release selected. Preserve the uploaded image and state generations.")

-- `validate_arguments` for an image action
validate_digest : Option String → Result (Unit {0})
validate_digest none = err (value_error "Unexpected operation fields")
validate_digest (some digest) =
    refuse_if (not (is_hex_of 64 digest)) "Choose a valid item from the displayed list"

validate_options : Option Options → Result (Unit {0})
validate_options none = ok tt
validate_options (some options) = do p ← effective (some options) false; ok tt

present : {A : Type 0} → Option A → Bool
present none = false
present (some _) = true

stage_arguments : Arguments → Result (Unit {0})
unfolding validate_digest validate_options
stage_arguments arguments = do
  validate_options arguments.options
  refuse_if arguments.unexpected "Unexpected operation fields"
  validate_digest arguments.digest

validate_arguments : String → Arguments → Result (Unit {0})
unfolding stage_arguments present
validate_arguments action arguments =
    if str_eq action "image.stage"
    then stage_arguments arguments
    else refuse_if (present arguments.digest || present arguments.options || arguments.unexpected)
        "Unexpected operation fields"

-- `Jobs.validate_plan`
unfoldable pub validate_plan : Plan → Result (Unit {0})
unfolding validate_arguments action_title action_effect
validate_plan plan = do
  refuse_if (not (is_image_action plan.action)) "Review an image operation first"
  validate_arguments plan.action plan.arguments
  refuse_if
      (not (str_eq plan.title (action_title plan.action))
        || not (str_eq plan.effect (action_effect plan.action))
        || not plan.preserves_user_data
        || not (is_hex_of 64 plan.revision))
      "Invalid reviewed image operation"

module _ (codec : Codec) where
  names_original : Option String → String → Bool
  names_original none original = false
  names_original (some sha) original = str_eq sha original

  -- `Jobs.validate_disposition`
  unfoldable pub validate_disposition : Row → Option Disposition → Result (Unit {0})
  unfolding names_original
  validate_disposition row none = ok tt
  validate_disposition row (some d) =
      refuse_if
        (is_terminal row.phase
          || not (str_eq d.outcome "unknown")
          || not (names_original (codec.named_original d.evidence) (codec.original_sha256 row))
          || not (str_eq d.kind "retain-unknown-v1")
          || not (str_eq d.id row.id)
          || not (str_eq d.evidence_sha256 (codec.evidence_sha256 d.evidence))
          || ltb max_evidence_bytes (codec.text_bytes d.evidence))
        "Corrupt or unbound image disposition evidence"

  -- the loop of `validate_rows`, with the identities that it has seen
  unfoldable pub check_rows : List String → List Row → Result (Unit {0})
  check_rows identities [] = ok tt
  check_rows identities (row ∷ rows) = do
    refuse_if (not (is_hex_of 32 row.id) || mem_text row.id identities) "Invalid image job receipt"
    validate_plan row.plan
    validate_disposition row row.disposition
    check_rows (row.id ∷ identities) rows

  without_disposition : Row → Row
  without_disposition r = record r { disposition = none }

  -- `Jobs.validate_rows`
  unfoldable pub validate_rows : List Row → Result (Unit {0})
  unfolding check_rows without_disposition
  validate_rows rows = do
    refuse_if (ltb limit (length rows)) "Invalid image job ledger"
    check_rows [] rows
    refuse_if (ltb 1 (count_if blocking rows)) "Conflicting image job receipts"
    refuse_if (ltb receipt_bytes (codec.rows_bytes (map without_disposition rows)))
        "Original image receipts exceed their bound"
    refuse_if (ltb max_bytes (codec.rows_bytes rows)) "Image job ledger exceeds its bound"

-- `a == b` of two options mappings and of two plans
value_of : String → Options → Option OptionValue
value_of k [] = none
value_of k ((j, v) ∷ rest) = if str_eq k j then some v else value_of k rest

same_flag : Bool → Option OptionValue → Bool
same_flag b none = false
same_flag b (some other) = false
same_flag true (some (flag c)) = c
same_flag false (some (flag c)) = not c

all_in : Options → Options → Bool
unfolding value_of same_flag
all_in [] o = true
all_in ((k, other) ∷ rest) o = false
all_in ((k, flag b) ∷ rest) o = same_flag b (value_of k o) && all_in rest o

options_eq : Option Options → Option Options → Bool
unfolding all_in
options_eq none none = true
options_eq none (some _) = false
options_eq (some _) none = false
options_eq (some a) (some b) = length a == length b && all_in a b

digest_eq : Option String → Option String → Bool
digest_eq none none = true
digest_eq none (some _) = false
digest_eq (some _) none = false
digest_eq (some a) (some b) = str_eq a b

unfoldable pub plan_eq : Plan → Plan → Bool
unfolding options_eq digest_eq
plan_eq a b =
    str_eq a.action b.action
    && digest_eq a.arguments.digest b.arguments.digest
    && options_eq a.arguments.options b.arguments.options
    && not a.arguments.unexpected
    && not b.arguments.unexpected
    && str_eq a.revision b.revision
    && str_eq a.title b.title
    && str_eq a.effect b.effect
    && a.preserves_user_data
    && b.preserves_user_data

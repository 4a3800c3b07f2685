-- ===== src/Examples/Jobs.antt =====
-- An image job that is queued, claimed, handed over and concluded, and runs of the ledger at which
-- the theorems are applied.
use sv08_mainline.Base.{
  ◌*◌, ◌≤◌, String, ◌≡◌, refl, subst, inl, true, false, Option, none, some, [], ◌∷◌, Result, ok,
  length,
}
use sv08_mainline.Base.Exec.{◌>>=◌, ◌>>◌}
use sv08_mainline.Jobs.{Codec, Plan, Row, queued, running, succeeded}
use sv08_mainline.Jobs.Validation.{validate_rows, validate_plan, validate_disposition, plan_eq}
use sv08_mainline.Jobs.History.{legacy, manifest, Maintenance, migrate, view, all_rows}
use sv08_mainline.Jobs.Ledger.{
  Ledger, Service, idle, preparing, save, observe, publish, commit, write,
}
use sv08_mainline.Jobs.Upkeep.{apply}
use sv08_mainline.Jobs.Submit.{Submission, queue}
use sv08_mainline.Jobs.Public.{Reader}
use sv08_mainline.Jobs.Work.{Attempt, start, hand_over, released, conclude_outcome, work, prepared}
use sv08_mainline.Jobs.Retained.{Retained}
use sv08_mainline.Jobs.Soundness.{handed, IsSound}
use sv08_mainline.Jobs.Maintaining.{Unchanged, apply-Unchanged}
use sv08_mainline.Jobs.Once.{
  Reaches, here, later, queueing, starting, handing, concluding, Reaches-once, Reaches-Retained,
}
use sv08_mainline.Jobs.Handing.{Worked, work-Worked}

abbrev codec : Codec
codec = record {
  original_sha256 = λ r. r.id;
  evidence_sha256 = λ t. t;
  named_original = some;
  text_bytes = λ t. 100;
  rows_bytes = λ rows. length rows * 500;
  rows_sha256 = λ rows. "0123456789abcdef0123456789abcdef0123456789abcdef0123456789abcdef";
}

abbrev identity : String
identity = "0123456789abcdef0123456789abcdef"

abbrev revision : String
revision = "0123456789abcdef0123456789abcdef0123456789abcdef0123456789abcdef"

abbrev service : Service
service = record {
  codec = codec;
  storage = record {
    revision = λ h. revision;
    room = λ rows result. ok tt;
    review_room = λ h. ok tt;
  };
}

abbrev plan : Plan
plan = record {
  action = "image.arm";
  arguments = record { digest = none; options = none; unexpected = false };
  revision = revision;
  title = "Use staged image next boot";
  effect = "Select the staged release for the next normal boot. Do not restart the printer now.";
  preserves_user_data = true;
}

abbrev reader : Reader
reader = record { boot_id = "boot"; now = 5000; worker_alive = false }

abbrev submission : Submission
submission = record {
  reader = reader;
  controller_agrees = true;
  running_open = ok tt;
  state_revision = revision;
}

abbrev attempt_ok : Attempt
attempt_ok = record { controller = ok ("boot", true); replanned = ok plan; outcome = ok "Armed" }

abbrev unused : Ledger
unused = record { history = legacy []; fenced = false; worker = idle; applied = []; power = 9 }

abbrev waiting_row : Row
waiting_row = record {
  id = identity;
  plan = plan;
  boot_id = "boot";
  phase = queued;
  message =
      "Queued for the independent image worker. Never resubmit with a new identity if the outcome is unknown.";
  queued_at = 5;
  disposition = none;
}

abbrev running_row : Row
running_row = record waiting_row {
  phase = running;
  message = "Revalidating review and executing the image transaction.";
}

abbrev waiting : Ledger
waiting = record unused { history = legacy (waiting_row ∷ []); power = 8 }

abbrev claimed : Ledger
claimed = record unused {
  history = legacy (running_row ∷ []);
  worker = preparing running_row;
  power = 7;
}

abbrev concluded_ledger : Ledger
concluded_ledger = record unused {
  history = legacy (record running_row { phase = succeeded; message = "Armed" } ∷ []);
  applied = identity ∷ [];
  power = 6;
}

test_queue : queue service submission identity plan unused ≡ (ok none, waiting)
unfolding queue save observe publish commit write view validate_rows validate_plan
    validate_disposition ◌>>=◌ ◌>>◌
test_queue = refl

test_start : start service reader (some identity) waiting ≡ (ok tt, claimed)
unfolding start save observe publish commit write view validate_rows validate_plan
    validate_disposition ◌>>=◌ ◌>>◌
test_start = refl

test_work : work service reader (some identity) attempt_ok waiting ≡ (ok tt, concluded_ledger)
unfolding work start save observe publish commit write view validate_rows validate_plan
    validate_disposition plan_eq prepared ◌>>=◌ ◌>>◌
test_work = refl

agrees : prepared attempt_ok running_row ≡ ok tt
unfolding prepared plan_eq
agrees = refl

reached :
    Reaches service unused
      (released
        (conclude_outcome service running_row (ok "Armed"))
        (hand_over running_row claimed).1).1
reached =
    let first_path : Reaches service unused waiting =
      subst (λ (x : Result (Option Row) × Ledger). Reaches service unused x.1) test_queue
        (later (here unused) (queueing submission identity plan unused)) in
    let second_path : Reaches service unused claimed =
      subst (λ (x : Result (Unit {0}) × Ledger). Reaches service unused x.1) test_start
        (later first_path (starting reader (some identity) waiting refl)) in
    later (later second_path (handing attempt_ok running_row claimed refl agrees))
      (concluding (ok "Armed") running_row (hand_over running_row claimed).1 refl)

Reaches-once_example :
    handed identity
      (released
        (conclude_outcome service running_row (ok "Armed"))
        (hand_over running_row claimed).1).1.applied
    ≤ 1
Reaches-once_example =
    Reaches-once service unused
      (released (conclude_outcome service running_row (ok "Armed"))
        (hand_over running_row claimed).1).1
      identity reached refl refl

waiting-IsSound : IsSound waiting
waiting-IsSound = record { once = λ id. inl refl; held = tt; fresh = tt }

Reaches-Retained_example :
    Retained waiting_row (all_rows (start service reader (some identity) waiting).1.history)
Reaches-Retained_example =
    Reaches-Retained service waiting (start service reader (some identity) waiting).1 waiting_row
      (later (here waiting) (starting reader (some identity) waiting refl)) waiting-IsSound
      (inl refl)

work-Worked_example :
    Worked reader
      (some identity)
      attempt_ok
      waiting
      (work service reader (some identity) attempt_ok waiting).1
work-Worked_example = work-Worked reader (some identity) attempt_ok waiting service refl

abbrev migration : Maintenance
migration = record { operation = migrate; revision = revision; ids = identity ∷ [] }

test_migration : apply service migration concluded_ledger ≡ (
  ok tt,
  record concluded_ledger {
    history = manifest (record {
      generation = 1;
      archives = [];
      active = record running_row { phase = succeeded; message = "Armed" } ∷ [];
      parent_revision = none;
      maintenance = some (record { plan = migration; archive_sha256 = revision });
    });
    fenced = true;
    power = 4;
  },
)
unfolding apply save observe publish commit write view validate_rows validate_plan
    validate_disposition ◌>>=◌ ◌>>◌
test_migration = refl

apply-Unchanged_example : Unchanged concluded_ledger (apply service migration concluded_ledger).1
apply-Unchanged_example = apply-Unchanged service migration concluded_ledger

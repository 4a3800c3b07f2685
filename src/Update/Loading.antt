-- ===== src/Update/Loading.antt =====
-- What `load` and `load_journal` return is what was stored: they only check.
use sv08_mainline.Base.{String, ◌≡◌, Option, none, some, ok, arith}
use sv08_mainline.Policy.{UpdatePolicy}
use sv08_mainline.Registry.{State, load}
use sv08_mainline.Update.Interfaces.{Journal}
use sv08_mainline.Update.Journals.{load_journal}

pub load-ok : (s t : State) → load s ≡ ok t → t ≡ s
unfolding load
load-ok s t h = ground arith

pub load_journal-ok :
    (f : UpdatePolicy → String) (j k : Option Journal) → load_journal f j ≡ ok k → k ≡ j
unfolding load_journal
load_journal-ok f none k h = ground arith
load_journal-ok f (some tx) k h = ground arith

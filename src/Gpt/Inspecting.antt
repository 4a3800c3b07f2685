-- ===== src/Gpt/Inspecting.antt =====
-- What the audit of runtime/sv08_gpt.py shows of an image that it accepts.
use sv08_mainline.Base.{
  ℕ, ◌+◌, ◌-◌, ◌/◌, ◌≡◌, refl, Bool, true, false, List, [], ◌∷◌, ◌++◌, ok, refuse_if, String,
}
use sv08_mainline.Base.Yields.{Yields, yielded, yield_value, first_step, check_step}
use sv08_mainline.Gpt.{sector, Region, Entries, Image, Inspection, Report}
use sv08_mainline.Gpt.Layout.{sort_regions, metadata, check_environments, check_layout, inspect}
use sv08_mainline.Gpt.Regions.{
  ApartFrom, AllApart, any-ApartFrom, ApartFrom-append_left, ApartFrom-append_right,
  append-ApartFrom, AllApart-between, sort-ApartFrom, neighbours-AllApart,
}

-- everything that the layout places: the environments, the SPL, the metadata and the partitions
abbrev pub placed : Image → Report → List Region
placed image r =
    r.environments
    ++ r.spl_reserved
      ∷ (metadata r.image_bytes (image.header 1) (image.header (r.image_bytes / sector - 1))
          ++ r.partitions)

ok-refuse : (b : Bool) (m : String) (a : Unit {0}) → refuse_if b m ≡ ok a → b ≡ false
ok-refuse true m a h = cc
ok-refuse false m a h = refl

check_environments-AllApart :
    (partitions occupied : List Region) (spl : Region) (rest : List (ℕ × ℕ))
    (environments : List Region)
    → AllApart (environments ++ spl ∷ occupied)
    → Yields
        (λ es. AllApart (es ++ spl ∷ occupied))
        (check_environments partitions (sort_regions occupied) spl rest environments)
unfolding check_environments
check_environments-AllApart partitions occupied spl [] environments h = yield_value _ environments h
check_environments-AllApart partitions occupied spl ((offset, size) ∷ rest) environments h =
    let region : Region = record { begin = offset; limit = offset + size } in
    let Q : List Region → Type 0 = λ es. AllApart (es ++ spl ∷ occupied) in
    check_step Q _ _ λ _ _. check_step Q _ _ λ _ _. check_step Q _ _ λ a e.
      let f : ApartFrom region (sort_regions occupied ++ spl ∷ environments) =
        any-ApartFrom region _ (ok-refuse _ _ a e) in
      let g : ApartFrom region (spl ∷ environments) =
        ApartFrom-append_right region (sort_regions occupied) _ f in
      check_environments-AllApart partitions occupied spl rest (environments ++ region ∷ []) (
        AllApart-between environments (spl ∷ occupied) region h (
          append-ApartFrom region environments (spl ∷ occupied) g.1
            (g.0, sort-ApartFrom region occupied (ApartFrom-append_left region _ _ f))))

module _ (image : Image) (options : Inspection) where
  abbrev Placed : Report → Type 0
  Placed r = AllApart (placed image r)

  check_layout-AllApart :
      (size : ℕ) (array : Entries)
      → Yields Placed
          (check_layout size options (image.header 1) (image.header (size / sector - 1)) array)
  unfolding check_layout
  check_layout-AllApart size array = first_step Placed _ _ λ found _. check_step Placed _ _ λ a e.
      check_step Placed _ _ λ b k.
        let all : List Region =
          metadata size (image.header 1) (image.header (size / sector - 1)) ++ found.0 in
        let start : AllApart (options.spl ∷ all) = (
          sort-ApartFrom options.spl all
              (any-ApartFrom options.spl (sort_regions all) (ok-refuse _ _ a e)),
          neighbours-AllApart all (ok-refuse _ _ b k),
        ) in
        first_step Placed _ _ λ es q. yield_value Placed _ (
          yielded (λ (es : List Region). AllApart (es ++ options.spl ∷ all)) _
            (check_environments-AllApart found.0 all options.spl options.environments [] start) q)

  inspect-AllApart : Yields Placed (inspect image options)
  unfolding inspect
  inspect-AllApart = first_step Placed _ _ λ size _. check_step Placed _ _ λ _ _.
      check_step Placed _ _ λ _ _. first_step Placed _ _ λ _ _. check_step Placed _ _ λ _ _.
        first_step Placed _ _ λ array _.
          check_step Placed _ _ λ _ _. check_step Placed _ _ λ _ _. check_layout-AllApart size array

-- In an image that the audit accepts, no byte belongs to two of these: the environments, the SPL, the
-- protective MBR, the two GPT headers, the two partition arrays and the partitions.
pub inspect-disjoint :
    (image : Image) (options : Inspection) (report : Report)
    → inspect image options ≡ ok report
    → AllApart (placed image report)
inspect-disjoint image options report h =
    yielded (λ (r : Report). AllApart (placed image r)) _ (inspect-AllApart image options) h

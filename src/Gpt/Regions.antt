-- ===== src/Gpt/Regions.antt =====
-- Regions of a disk that share no byte, and what the two overlap tests of runtime/sv08_gpt.py show:
-- that of a pair, and that of the neighbours in a sorted list.
use sv08_mainline.Base.{
  ℕ, ◌≤◌, ◌≡◌, inl, inr, Bool, true, false, ◌&&◌, List, [], ◌∷◌, ◌++◌, arith, ltb, leb, any,
  Bool-cases, if◌then◌else◌,
}
use sv08_mainline.Gpt.{Region}
use sv08_mainline.Gpt.Layout.{overlaps, insert_region, sort_regions, neighbours_overlap, leb_region}

abbrev pub inside : ℕ → Region → Bool
inside x r = leb r.begin x && ltb x r.limit

-- no byte stands in both
abbrev pub Apart : Region → Region → Type 0
Apart a b = (x : ℕ) → (inside x a && inside x b) ≡ false

abbrev pub ApartFrom : Region → List Region → Type 0
ApartFrom a [] = Unit {0}
ApartFrom a (b ∷ bs) = Apart a b × ApartFrom a bs

-- each two regions of the list share no byte
abbrev pub AllApart : List Region → Type 0
AllApart [] = Unit {0}
AllApart (a ∷ as') = ApartFrom a as' × AllApart as'

Apart-sym : (a b : Region) → Apart a b → Apart b a
Apart-sym a b h x = ground (arith, h x)

overlaps-Apart : (a b : Region) → overlaps a b ≡ false → Apart a b
overlaps-Apart a b h x = ground (arith, h)

before-Apart : (a b : Region) → a.limit ≤ b.begin → Apart a b
before-Apart a b h x = ground arith

pub any-ApartFrom : (a : Region) (bs : List Region) → any (overlaps a) bs ≡ false → ApartFrom a bs
any-ApartFrom a [] h = tt
any-ApartFrom a (b ∷ bs) h = (overlaps-Apart a b (ground arith), any-ApartFrom a bs (ground arith))

pub ApartFrom-append_left :
    (a : Region) (xs ys : List Region) → ApartFrom a (xs ++ ys) → ApartFrom a xs
ApartFrom-append_left a [] ys h = tt
ApartFrom-append_left a (x ∷ xs) ys h = (h.0, ApartFrom-append_left a xs ys h.1)

pub ApartFrom-append_right :
    (a : Region) (xs ys : List Region) → ApartFrom a (xs ++ ys) → ApartFrom a ys
ApartFrom-append_right a [] ys h = h
ApartFrom-append_right a (x ∷ xs) ys h = ApartFrom-append_right a xs ys h.1

pub append-ApartFrom :
    (a : Region) (xs ys : List Region) → ApartFrom a xs → ApartFrom a ys → ApartFrom a (xs ++ ys)
append-ApartFrom a [] ys h k = k
append-ApartFrom a (x ∷ xs) ys h k = (h.0, append-ApartFrom a xs ys h.1 k)

-- A region that is apart from all may be put between them.
pub AllApart-between :
    (xs ys : List Region) (r : Region)
    → AllApart (xs ++ ys)
    → ApartFrom r (xs ++ ys)
    → AllApart ((xs ++ r ∷ []) ++ ys)
AllApart-between [] ys r h k = (k, h)
AllApart-between (x ∷ xs) ys r h k = (
  append-ApartFrom x (xs ++ r ∷ []) ys
      (append-ApartFrom x xs (r ∷ []) (ApartFrom-append_left x xs ys h.0) (Apart-sym r x k.0, tt))
      (ApartFrom-append_right x xs ys h.0),
  AllApart-between xs ys r h.1 k.1,
)

-- every region begins at `n` or later
abbrev Above : ℕ → List Region → Type 0
Above n [] = Unit {0}
Above n (r ∷ rs) = (n ≤ r.begin) × Above n rs

abbrev IsSorted : List Region → Type 0
IsSorted [] = Unit {0}
IsSorted (r ∷ rs) = Above r.begin rs × IsSorted rs

Above-le : (m n : ℕ) (rs : List Region) → m ≤ n → Above n rs → Above m rs
Above-le m n [] h k = tt
Above-le m n (r ∷ rs) h k = (omega (arith, k.0), Above-le m n rs h k.1)

insert-Above :
    (n : ℕ) (r : Region) (rs : List Region)
    → n ≤ r.begin
    → Above n rs
    → Above n (insert_region r rs)
unfolding insert_region
insert-Above n r [] h k = (h, tt)
insert-Above n r (s ∷ rs) h k = elim (Bool-cases (leb_region r s)) [
  | inl e ↦ rw e (h, k)
  | inr e ↦ rw e (k.0, insert-Above n r rs h k.1)
]

insert-IsSorted : (r : Region) (rs : List Region) → IsSorted rs → IsSorted (insert_region r rs)
unfolding insert_region leb_region
insert-IsSorted r [] h = (tt, tt)
insert-IsSorted r (s ∷ rs) h = elim (Bool-cases (leb_region r s)) [
  | inl e ↦
      rw e (let q : r.begin ≤ s.begin = ground arith in ((q, Above-le r.begin s.begin rs q h.0), h))
  | inr e ↦ rw e (insert-Above s.begin r rs (ground arith) h.0, insert-IsSorted r rs h.1)
]

sort-IsSorted : (rs : List Region) → IsSorted (sort_regions rs)
unfolding sort_regions
sort-IsSorted [] = tt
sort-IsSorted (r ∷ rs) = insert-IsSorted r (sort_regions rs) (sort-IsSorted rs)

Above-ApartFrom : (a : Region) (bs : List Region) → Above a.limit bs → ApartFrom a bs
Above-ApartFrom a [] h = tt
Above-ApartFrom a (b ∷ bs) h = (before-Apart a b h.0, Above-ApartFrom a bs h.1)

-- In a sorted list, neighbours that do not overlap are enough.
IsSorted-AllApart : (rs : List Region) → IsSorted rs → neighbours_overlap rs ≡ false → AllApart rs
unfolding neighbours_overlap
IsSorted-AllApart [] s h = tt
IsSorted-AllApart (a ∷ []) s h = (tt, tt)
IsSorted-AllApart (a ∷ b ∷ rs) s h =
    let q : a.limit ≤ b.begin = ground arith in
    (
      (before-Apart a b q, Above-ApartFrom a rs (Above-le a.limit b.begin rs q s.1.0)),
      IsSorted-AllApart (b ∷ rs) s.1 (ground arith),
    )

-- What holds of the sorted list holds of the list.
insert-ApartFrom :
    (a r : Region) (rs : List Region)
    → ApartFrom a (insert_region r rs)
    → Apart a r × ApartFrom a rs
unfolding insert_region
insert-ApartFrom a r [] h = (h.0, tt)
insert-ApartFrom a r (s ∷ rs) h = go (leb_region r s) h (insert-ApartFrom a r rs)
  where
    go :
        (b : Bool)
        → ApartFrom a (if b then r ∷ s ∷ rs else s ∷ insert_region r rs)
        → (ApartFrom a (insert_region r rs) → Apart a r × ApartFrom a rs)
        → Apart a r × ApartFrom a (s ∷ rs)
    go true h k = (h.0, h.1)
    go false h k = ((k h.1).0, (h.0, (k h.1).1))

insert-AllApart :
    (r : Region) (rs : List Region) → AllApart (insert_region r rs) → ApartFrom r rs × AllApart rs
unfolding insert_region
insert-AllApart r [] h = (tt, tt)
insert-AllApart r (s ∷ rs) h = go (leb_region r s) h (insert-AllApart r rs)
  where
    go :
        (b : Bool)
        → AllApart (if b then r ∷ s ∷ rs else s ∷ insert_region r rs)
        → (AllApart (insert_region r rs) → ApartFrom r rs × AllApart rs)
        → ApartFrom r (s ∷ rs) × AllApart (s ∷ rs)
    go true h k = (h.0, h.1)
    go false h k =
        let i : Apart s r × ApartFrom s rs = insert-ApartFrom s r rs h.0 in
        ((Apart-sym s r i.0, (k h.1).0), (i.1, (k h.1).1))

pub sort-ApartFrom :
    (a : Region) (rs : List Region) → ApartFrom a (sort_regions rs) → ApartFrom a rs
unfolding sort_regions
sort-ApartFrom a [] h = tt
sort-ApartFrom a (r ∷ rs) h =
    let i : Apart a r × ApartFrom a (sort_regions rs) = insert-ApartFrom a r (sort_regions rs) h in
    (i.0, sort-ApartFrom a rs i.1)

sort-AllApart : (rs : List Region) → AllApart (sort_regions rs) → AllApart rs
unfolding sort_regions
sort-AllApart [] h = tt
sort-AllApart (r ∷ rs) h =
    let i : ApartFrom r (sort_regions rs) × AllApart (sort_regions rs) =
      insert-AllApart r (sort_regions rs) h in
    (sort-ApartFrom r rs i.0, sort-AllApart rs i.1)

-- The test of the neighbours in the sorted list finds every two regions that share a byte.
pub neighbours-AllApart :
    (rs : List Region) → neighbours_overlap (sort_regions rs) ≡ false → AllApart rs
neighbours-AllApart rs h =
    sort-AllApart rs (IsSorted-AllApart (sort_regions rs) (sort-IsSorted rs) h)

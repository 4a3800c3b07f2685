-- ===== src/Jobs/Identities.antt =====
-- What an accepted history of runtime/sv08_admin_jobs.py and runtime/sv08_admin_history.py says of
-- its identities, and where a receipt is found by its identity.
use sv08_mainline.Base.{
  String, ◌≡◌, refl, sym, ap, ◌∙◌, subst, inl, inr, Bool, true, false, ◌||◌, some, ◌≢◌, List, [],
  ◌∷◌, ◌++◌, arith, str_eq, eq_iff, if◌then◌else◌, ok,
}
use sv08_mainline.Base.Lists.{Has, first, set_first, first-Has, mem_text, unique}
use sv08_mainline.Jobs.{Disposition, is_terminal, Row, Codec}
use sv08_mainline.Jobs.Validation.{check_rows, validate_rows, validate_disposition}
use sv08_mainline.Jobs.History.{History, legacy, manifest, identities, all_rows, view}
use sv08_mainline.Jobs.Ledger.{find_row}

pub mem-identities : (x : Row) (xs : List Row) → Has x xs → mem_text x.id (identities xs) ≡ true
mem-identities x [] h = absurd h
mem-identities x (y ∷ ys) (inl e) =
    subst (λ (q : Row). (str_eq q.id y.id || mem_text q.id (identities ys)) ≡ true) e
      (ground (arith, eq_iff y.id y.id))
mem-identities x (y ∷ ys) (inr h) = ground (arith, mem-identities x ys h)

-- with distinct identities, a receipt is known by its identity
pub unique-same :
    (xs : List Row) (a b : Row)
    → unique (identities xs) ≡ true
    → Has a xs
    → Has b xs
    → a.id ≡ b.id
    → a ≡ b
unique-same [] a b u m n e = absurd m
unique-same (x ∷ xs) a b u (inl p) (inl q) e = sym p ∙ q
unique-same (x ∷ xs) a b u (inl p) (inr n) e =
    let i : x.id ≡ b.id = ap (λ (r : Row). r.id) p ∙ e in
    absurd (ground (arith, i, mem-identities b xs n))
unique-same (x ∷ xs) a b u (inr m) (inl q) e =
    let i : x.id ≡ a.id = ap (λ (r : Row). r.id) q ∙ sym e in
    absurd (ground (arith, i, mem-identities a xs m))
unique-same (x ∷ xs) a b u (inr m) (inr n) e = unique-same xs a b (ground arith) m n e

pub unique-append_right :
    (xs ys : List Row) → unique (identities (xs ++ ys)) ≡ true → unique (identities ys) ≡ true
unique-append_right [] ys h = h
unique-append_right (x ∷ xs) ys h = unique-append_right xs ys (ground arith)

module _ (codec : Codec) where
  -- the loop of `validate_rows` accepts no identity that it has seen
  check_rows-fresh :
      (seen : List String) (rows : List Row) (x : String)
      → check_rows codec seen rows ≡ ok tt
      → mem_text x seen ≡ true
      → mem_text x (identities rows) ≡ false
  unfolding check_rows
  check_rows-fresh seen [] x h m = refl
  check_rows-fresh seen (r ∷ rs) x h m =
      ground (arith, check_rows-fresh (r.id ∷ seen) rs x, eq_iff x r.id)

  check_rows-unique :
      (seen : List String) (rows : List Row)
      → check_rows codec seen rows ≡ ok tt
      → unique (identities rows) ≡ true
  unfolding check_rows
  check_rows-unique seen [] h = refl
  check_rows-unique seen (r ∷ rs) h = ground (
    arith,
    check_rows-unique (r.id ∷ seen) rs,
    check_rows-fresh (r.id ∷ seen) rs r.id,
    eq_iff r.id r.id,
  )

  validate_rows-unique :
      (rows : List Row) → validate_rows codec rows ≡ ok tt → unique (identities rows) ≡ true
  unfolding validate_rows
  validate_rows-unique rows h = ground (arith, check_rows-unique [] rows)

  -- an accepted history is the one that is there, and its identities are distinct
  pub view-unique :
      (fenced : Bool) (h h' : History)
      → view codec fenced h ≡ ok h'
      → (h' ≡ h) × (unique (identities (all_rows h)) ≡ true)
  unfolding view
  view-unique fenced (legacy rows) h' e = ground (arith, validate_rows-unique rows)
  view-unique fenced (manifest m) h' e = ground arith

-- an accepted receipt with a disposition has no outcome
check_rows-disposed :
    (codec : Codec) (seen : List String) (rows : List Row) (r : Row) (d : Disposition)
    → check_rows codec seen rows ≡ ok tt
    → Has r rows
    → r.disposition ≡ some d
    → is_terminal r.phase ≡ false
unfolding check_rows validate_disposition
check_rows-disposed codec seen [] r d h m e = absurd m
check_rows-disposed codec seen (x ∷ xs) r d h (inl p) e =
    subst (λ (q : Row). is_terminal q.phase ≡ false) p
      (first_open (subst (λ (q : Row). q.disposition ≡ some d) (sym p) e))
  where
    first_open : x.disposition ≡ some d → is_terminal x.phase ≡ false
    first_open e = ground (arith, h, e)
check_rows-disposed codec seen (x ∷ xs) r d h (inr m) e =
    check_rows-disposed codec (x.id ∷ seen) xs r d (ground arith) m e

pub disposed_open :
    (codec : Codec) (rows : List Row) (r : Row) (d : Disposition)
    → validate_rows codec rows ≡ ok tt
    → Has r rows
    → r.disposition ≡ some d
    → is_terminal r.phase ≡ false
unfolding validate_rows
disposed_open codec rows r d h m e = check_rows-disposed codec [] rows r d (ground arith) m e

pub find-append :
    (id : String) (xs ys : List Row) (r : Row)
    → find_row id xs ≡ some r
    → find_row id (xs ++ ys) ≡ some r
find-append id [] ys r h = cc
find-append id (x ∷ xs) ys r h = ground (arith, find-append id xs ys r)

-- A receipt with another identity is found as before.
pub find-set_other :
    (a b : String) (f : Row → Row) (xs : List Row)
    → ((r : Row) → (f r).id ≡ r.id)
    → a ≢ b
    → find_row b (set_first (λ (r : Row). str_eq r.id a) f xs) ≡ find_row b xs
find-set_other a b f [] k ne = refl
find-set_other a b f (x ∷ xs) k ne =
    ground
      (arith, find-set_other a b f xs k, k x, ne, eq_iff x.id a, eq_iff x.id b, eq_iff (f x).id b)

-- The receipt that was changed is found by its identity.
pub find-set_first :
    (p : Row → Bool) (f : Row → Row) (xs : List Row) (r : Row)
    → unique (identities xs) ≡ true
    → first p xs ≡ some r
    → (f r).id ≡ r.id
    → find_row r.id (set_first p f xs) ≡ some (f r)
find-set_first p f [] r u h e = cc
find-set_first p f (x ∷ xs) r u h e =
    go (p x) refl h (λ k. find-set_first p f xs r (ground arith) k e)
      (λ k. mem-identities r xs (first-Has p xs k))
  where
    go :
        (b : Bool)
        → p x ≡ b
        → (if b then some x else first p xs) ≡ some r
        → (first p xs ≡ some r → find_row r.id (set_first p f xs) ≡ some (f r))
        → (first p xs ≡ some r → mem_text r.id (identities xs) ≡ true)
        → find_row r.id (if b then f x ∷ xs else x ∷ set_first p f xs) ≡ some (f r)
    go true q h k m =
        let g : r ≡ x = cc in
        subst (λ (y : Row). find_row r.id (f y ∷ xs) ≡ some (f r)) g
          (ground (arith, e, eq_iff (f r).id r.id))
    go false q h k m = ground (arith, k h, m h, u, eq_iff x.id r.id)

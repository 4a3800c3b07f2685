-- ===== src/Jobs/Retained.antt =====
-- How a receipt of runtime/sv08_admin_jobs.py may change, and which changes of the list of receipts
-- keep every one of them.
use sv08_mainline.Base.{
  ◌≡◌, refl, sym, ◌∙◌, subst, ◌⊎◌, inl, inr, Bool, true, false, none, some, List, [], ◌∷◌, ◌++◌,
  if◌then◌else◌,
}
use sv08_mainline.Base.Lists.{Has, first, set_first, Has-append_left, Has-append_right, Has-split}
use sv08_mainline.Jobs.{Row, is_terminal, is_queued}

-- `r'` is the receipt `r`, later: its identity, plan, boot and time are the same, an outcome or a
-- disposition that it had is kept, and it was not queued again.
pub record Later (r r' : Row) : Type 0 where
  pub id_same : r'.id ≡ r.id
  pub plan_same : r'.plan ≡ r.plan
  pub boot_same : r'.boot_id ≡ r.boot_id
  pub queued_same : r'.queued_at ≡ r.queued_at
  pub outcome_kept : (is_terminal r.phase ≡ false) ⊎ (r' ≡ r)
  pub disposition_kept : (r.disposition ≡ none) ⊎ (r'.disposition ≡ r.disposition)
  pub begun_kept : (is_queued r.phase ≡ true) ⊎ (is_queued r'.phase ≡ false)

abbrev pub Retained : Row → List Row → Type 0
Retained r rows = (r' : Row) × Has r' rows × Later r r'

-- every receipt of the first list stands in the second, later
abbrev pub Retains : List Row → List Row → Type 0
Retains [] rows = Unit {0}
Retains (r ∷ rs) rows = Retained r rows × Retains rs rows

pub Later-refl : (r : Row) → Later r r
Later-refl r = record {
  id_same = refl;
  plan_same = refl;
  boot_same = refl;
  queued_same = refl;
  outcome_kept = inr refl;
  disposition_kept = inr refl;
  begun_kept = go (is_queued r.phase) refl;
}
  where
    go :
        (b : Bool)
        → is_queued r.phase ≡ b
        → (is_queued r.phase ≡ true) ⊎ (is_queued r.phase ≡ false)
    go true e = inl e
    go false e = inr e

pub Later-trans : (a b c : Row) → Later a b → Later b c → Later a c
Later-trans a b c h k = record {
  id_same = k.id_same ∙ h.id_same;
  plan_same = k.plan_same ∙ h.plan_same;
  boot_same = k.boot_same ∙ h.boot_same;
  queued_same = k.queued_same ∙ h.queued_same;
  outcome_kept = outcome h.outcome_kept k.outcome_kept;
  disposition_kept = disposed h.disposition_kept k.disposition_kept;
  begun_kept = begun h.begun_kept k.begun_kept;
}
  where
    outcome :
        (is_terminal a.phase ≡ false) ⊎ (b ≡ a)
        → (is_terminal b.phase ≡ false) ⊎ (c ≡ b)
        → (is_terminal a.phase ≡ false) ⊎ (c ≡ a)
    outcome (inl h) k = inl h
    outcome (inr e) (inl k) = inl (subst (λ (r : Row). is_terminal r.phase ≡ false) e k)
    outcome (inr e) (inr k) = inr (k ∙ e)

    disposed :
        (a.disposition ≡ none) ⊎ (b.disposition ≡ a.disposition)
        → (b.disposition ≡ none) ⊎ (c.disposition ≡ b.disposition)
        → (a.disposition ≡ none) ⊎ (c.disposition ≡ a.disposition)
    disposed (inl h) k = inl h
    disposed (inr e) (inl k) = inl (sym e ∙ k)
    disposed (inr e) (inr k) = inr (k ∙ e)

    begun :
        (is_queued a.phase ≡ true) ⊎ (is_queued b.phase ≡ false)
        → (is_queued b.phase ≡ true) ⊎ (is_queued c.phase ≡ false)
        → (is_queued a.phase ≡ true) ⊎ (is_queued c.phase ≡ false)
    begun (inl h) k = inl h
    begun (inr e) (inl k) = cc (sym e ∙ k)
    begun (inr e) (inr k) = inr k

pub Retains-at : (xs ys : List Row) (r : Row) → Retains xs ys → Has r xs → Retained r ys
Retains-at [] ys r h m = absurd m
Retains-at (x ∷ xs) ys r h (inl e) = subst (λ (q : Row). Retained q ys) e h.0
Retains-at (x ∷ xs) ys r h (inr m) = Retains-at xs ys r h.1 m

pub Retains-each : (xs ys : List Row) → ((r : Row) → Has r xs → Retained r ys) → Retains xs ys
Retains-each [] ys h = tt
Retains-each (x ∷ xs) ys h = (h x (inl refl), Retains-each xs ys (λ r m. h r (inr m)))

pub Retains-refl : (xs : List Row) → Retains xs xs
Retains-refl xs = Retains-each xs xs (λ r m. (r, m, Later-refl r))

pub Retains-trans : (xs ys zs : List Row) → Retains xs ys → Retains ys zs → Retains xs zs
Retains-trans xs ys zs h k = Retains-each xs zs (λ r m. go r (Retains-at xs ys r h m))
  where
    go : (r : Row) → Retained r ys → Retained r zs
    go r (r', m, l) = further r r' l (Retains-at ys zs r' k m)
      where
        further : (r r' : Row) → Later r r' → Retained r' zs → Retained r zs
        further r r' l (q, n, l') = (q, n, Later-trans r r' q l l')

-- a longer list keeps more
pub Retains-append : (xs ys : List Row) → Retains xs (xs ++ ys)
Retains-append xs ys =
    Retains-each xs (xs ++ ys) (λ r m. (r, Has-append_left xs ys r m, Later-refl r))

-- what stands before the change is kept too
pub append-Retains : (ws xs ys : List Row) → Retains xs ys → Retains (ws ++ xs) (ws ++ ys)
append-Retains ws xs ys h = Retains-each (ws ++ xs) (ws ++ ys) (λ r m. go r (Has-split ws xs r m))
  where
    moved : (r : Row) → Retained r ys → Retained r (ws ++ ys)
    moved r (r', m, l) = (r', Has-append_right ws ys r' m, l)

    go : (r : Row) → Has r ws ⊎ Has r xs → Retained r (ws ++ ys)
    go r (inl m) = (r, Has-append_left ws ys r m, Later-refl r)
    go r (inr m) = moved r (Retains-at xs ys r h m)

-- A change of one receipt keeps all, if it makes that receipt a later one.
pub Retains-set_first :
    (p : Row → Bool) (f : Row → Row) (xs : List Row) (r : Row)
    → first p xs ≡ some r
    → Later r (f r)
    → Retains xs (set_first p f xs)
Retains-set_first p f [] r h l = tt
Retains-set_first p f (x ∷ xs) r h l = go (p x) h (Retains-set_first p f xs r)
  where
    skip : (q : Row) (ys : List Row) → Retained q ys → Retained q (x ∷ ys)
    skip q ys (q', m, k) = (q', inr m, k)

    go :
        (b : Bool)
        → (if b then some x else first p xs) ≡ some r
        → (first p xs ≡ some r → Later r (f r) → Retains xs (set_first p f xs))
        → Retains (x ∷ xs) (if b then f x ∷ xs else x ∷ set_first p f xs)
    go true h k =
        let e : r ≡ x = cc in
        (
          (f x, inl refl, subst (λ (q : Row). Later q (f q)) e l),
          Retains-each xs (f x ∷ xs) (λ q m. (q, inr m, Later-refl q)),
        )
    go false h k = (
      (x, inl refl, Later-refl x),
      Retains-each xs (x ∷ set_first p f xs)
          (λ q m. skip q (set_first p f xs) (Retains-at xs (set_first p f xs) q (k h l) m)),
    )

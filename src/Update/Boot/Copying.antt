-- ===== src/Update/Boot/Copying.antt =====
-- The new generation of `prepare_boot` while it is copied, and the cleanup of a copy that failed.
use sv08_mainline.Base.{
  ℕ, String, ◌≡◌, refl, subst, ap, List, [], false, Result, err, Error, value_error, key_error,
  os_error, power_loss, ◌⊎◌, inl, inr, true, ◌∷◌, ok, arith, str_eq, eq_iff,
}
use sv08_mainline.Base.Exec.{
  raise, ◌>>◌, Outcome, at_read, at_then, at_if, then_read, at_pure, weaken,
}
use sv08_mainline.Update.Interfaces.{World, Platform, at_durable}
use sv08_mainline.Update.Generations.{is_stored, without}
use sv08_mainline.Update.Boot.{make_directory, snapshot, remove_target, or_remove, copy_or_remove}

-- the directory of a generation is there
abbrev pub IsStored : String → List String → Type 0
IsStored g generations = is_stored g generations ≡ true

without-absent : (g : String) (gs : List String) → is_stored g gs ≡ false → without g gs ≡ gs
without-absent g [] h = refl
without-absent g (x ∷ gs) h = ground (arith, without-absent g gs)

without-added : (g : String) (gs : List String) → is_stored g gs ≡ false → without g (g ∷ gs) ≡ gs
without-added g gs h = ground (arith, eq_iff g g, without-absent g gs h)

pub without-IsStored :
    (g x : String) (gs : List String)
    → str_eq x g ≡ false
    → IsStored g gs
    → IsStored g (without x gs)
without-IsStored g x [] n h = h
without-IsStored g x (y ∷ gs) n h =
    ground (arith, without-IsStored g x gs n, eq_iff x g, eq_iff g y, eq_iff x y)

-- What a boot that draws a name for a new generation does to the generations: nothing, one more of
-- that name, or, if the name is taken, the removal of what stands there.
abbrev pub Drawn : String → List String → List String → Type 0
Drawn g before after =
    (after ≡ before) ⊎ ((after ≡ g ∷ before) ⊎ (IsStored g before × (after ≡ without g before)))

module _ {E : Type 0} where
  -- Before the registry is saved, a boot changes the generations alone.
  pub record IsExtended (g : String) (w w' : World E) : Type 0 where
    pub registry_same : w'.registry ≡ w.registry
    pub journal_same : w'.journal ≡ w.journal
    pub env_same : w'.env ≡ w.env
    pub drawn : Drawn g w.generations w'.generations

  pub as_it_was : (g : String) (w : World E) → IsExtended g w w
  as_it_was g w = record {
    registry_same = refl;
    journal_same = refl;
    env_same = refl;
    drawn = inl refl;
  }

  -- while a generation is copied
  abbrev pub IsCopying : String → World E → World E → Type 0
  IsCopying g w v =
      (v.registry ≡ w.registry)
      × (v.journal ≡ w.journal)
      × (v.env ≡ w.env)
      × ((v.generations ≡ w.generations)
          ⊎ ((is_stored g w.generations ≡ false) × (v.generations ≡ g ∷ w.generations)))

  pub powered :
      (g : String) (w v : World E) (n : ℕ)
      → IsExtended g w v
      → IsExtended g w (record v { power = n })
  powered g w v n e = record {
    registry_same = e.registry_same;
    journal_same = e.journal_same;
    env_same = e.env_same;
    drawn = e.drawn;
  }

  pub copying-IsExtended : (g : String) (w v : World E) → IsCopying g w v → IsExtended g w v
  copying-IsExtended g w v (r, j, e, inl same) = record {
    registry_same = r;
    journal_same = j;
    env_same = e;
    drawn = inl same;
  }
  copying-IsExtended g w v (r, j, e, inr (fresh, more)) = record {
    registry_same = r;
    journal_same = j;
    env_same = e;
    drawn = inr (inl more);
  }

  removed-Drawn :
      (g : String) (w v : World E)
      → IsStored g v.generations
      → IsCopying g w v
      → Drawn g w.generations (without g v.generations)
  removed-Drawn g w v h (r, j, e, inl same) =
      inr (inr (subst (IsStored g) same h, ap (without g) same))
  removed-Drawn g w v h (r, j, e, inr (fresh, more)) =
      inl (rw more (without-added g w.generations fresh))

module _ {E : Type 0} (platform : Platform) where
  pub make_directory-Outcome :
      (g : String) (w : World E)
      → Outcome (λ _ v. IsCopying g w v) (IsCopying g w) (make_directory platform g w)
  unfolding make_directory
  make_directory-Outcome g w =
      then_read _ _ _ (refl, refl, refl, inl refl)
        λ _ q.
          at_durable _ _ (refl, refl, refl, inl refl)
            (λ n. (refl, refl, refl, inr (ground (arith, q), refl)))

  snapshot-Outcome :
      (g : String) (w : World E)
      → Outcome (λ _ v. IsCopying g w v) (IsCopying g w) (snapshot platform g w)
  unfolding snapshot
  snapshot-Outcome g w =
      then_read _ _ _ (refl, refl, refl, inl refl)
        λ _ _.
          at_then _ _ _
            (weaken (make_directory-Outcome g w) (λ _ v h. at_read _ _ h (λ _ _. h)) (λ _ h. h))

  remove_target-Outcome :
      (g : String) (w v : World E)
      → IsCopying g w v
      → Outcome {A = Unit {0}}
          (λ _ u. IsExtended g w u)
          (IsExtended g w)
          (remove_target platform g v)
  unfolding remove_target
  remove_target-Outcome g w v h =
      at_if (is_stored g v.generations) _ _ _
        (λ there. at_durable _ _ (copying-IsExtended g w v h) (λ n. record {
          registry_same = h.0;
          journal_same = h.1;
          env_same = h.2;
          drawn = removed-Drawn g w v there h;
        }))
        (λ gone. at_pure _ _ (copying-IsExtended g w v h))

  pub copy_or_remove-Outcome :
      (g : String) (w : World E)
      → Outcome (λ _ v. IsExtended g w v) (IsExtended g w) (copy_or_remove platform g w)
  unfolding copy_or_remove
  copy_or_remove-Outcome g w = go (snapshot platform g w) (snapshot-Outcome g w)
    where
      removed :
          (x : Error) (v : World E)
          → IsCopying g w v
          → Outcome {A = Unit {0}}
              (λ _ u. IsExtended g w u)
              (IsExtended g w)
              ((remove_target platform g >> raise x) v)
      removed x v h = at_then _ _ _ (
          weaken (remove_target-Outcome g w v h) (λ _ u e. at_read (err x) u e (λ _ _. e))
            (λ _ e. e))

      go :
          (x : Result (Unit {0}) × World E)
          → Outcome (λ _ v. IsCopying g w v) (IsCopying g w) x
          → Outcome (λ _ v. IsExtended g w v) (IsExtended g w) (or_remove platform g x)
      go (ok _, v) h = at_pure _ _ (copying-IsExtended g w v h.holds)
      go (err power_loss, v) h = record { holds = copying-IsExtended g w v h.holds }
      go (err (value_error m), v) h = removed (value_error m) v h.holds
      go (err (key_error m), v) h = removed (key_error m) v h.holds
      go (err (os_error m), v) h = removed (os_error m) v h.holds

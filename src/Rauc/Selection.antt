-- ===== src/Rauc/Selection.antt =====
-- Which slot an environment selects while one slot's counter and place change.
use sv08_mainline.Base.{ℕ, ◌≡◌, refl, sym, subst, true, false, some, List, [], ◌∷◌, ok, arith}
use sv08_mainline.Registry.{Slot, slot_a, slot_b, slot_eq}
use sv08_mainline.Bootloader.{
  Environment, environment_valid, primary, left, with_left, order_eq, without,
}
use sv08_mainline.Rauc.{Rauc, environment_eq, disarmed, boot_policy}

pub order_eq-eq : (o p : List Slot) → order_eq o p ≡ true → o ≡ p
order_eq-eq [] [] h = refl
order_eq-eq [] (y ∷ p) h = cc
order_eq-eq (x ∷ o) [] h = cc
order_eq-eq (slot_a ∷ o) (slot_a ∷ p) h = ground (arith, order_eq-eq o p)
order_eq-eq (slot_b ∷ o) (slot_b ∷ p) h = ground (arith, order_eq-eq o p)
order_eq-eq (slot_a ∷ o) (slot_b ∷ p) h = cc
order_eq-eq (slot_b ∷ o) (slot_a ∷ p) h = cc

pub environment_eq-eq : (e f : Environment) → environment_eq e f ≡ true → e ≡ f
environment_eq-eq e f h = ground (arith, order_eq-eq e.order f.order)

-- A slot that is selected stays selected while another slot's counter and place change.
disarmed-primary :
    (target source : Slot) (o : List Slot) (a b x y : ℕ)
    → slot_eq target source ≡ false
    → environment_valid (record { order = o; a_left = a; b_left = b }) ≡ true
    → primary (record { order = o; a_left = a; b_left = b }) ≡ some source
    → left source (record { order = o; a_left = x; b_left = y })
      ≡ left source (record { order = o; a_left = a; b_left = b })
    → primary (record { order = without target o; a_left = x; b_left = y }) ≡ some source
unfolding environment_valid primary
disarmed-primary target source [] a b x y ne v p l = ground arith
disarmed-primary target source (s ∷ []) a b x y ne v p l = ground arith
disarmed-primary target source (s ∷ t ∷ []) a b x y ne v p l = ground arith
disarmed-primary target source (s ∷ t ∷ u ∷ r) a b x y ne v p l = ground arith

-- What the restoration keeps of the environment that it finds.
pub record IsPartial (previous : Environment) (target source : Slot) (e : Environment)
    : Type 0 where
  pub order : e.order ≡ without target previous.order
  pub attempts : left source e ≡ left source previous

pub disarmed-IsPartial :
    (previous : Environment) (target source : Slot)
    → slot_eq target source ≡ false
    → IsPartial previous target source (disarmed target previous)
disarmed-IsPartial previous slot_a slot_a h = cc
disarmed-IsPartial previous slot_a slot_b h = record { order = refl; attempts = refl }
disarmed-IsPartial previous slot_b slot_a h = record { order = refl; attempts = refl }
disarmed-IsPartial previous slot_b slot_b h = cc

pub with_left-IsPartial :
    (previous : Environment) (target source s : Slot) (e : Environment)
    → IsPartial previous target source e
    → IsPartial previous target source (with_left s (left s previous) e)
with_left-IsPartial previous target slot_a slot_a e h = record { order = h.order; attempts = refl }
with_left-IsPartial previous target slot_a slot_b e h = record {
  order = h.order;
  attempts = h.attempts;
}
with_left-IsPartial previous target slot_b slot_a e h = record {
  order = h.order;
  attempts = h.attempts;
}
with_left-IsPartial previous target slot_b slot_b e h = record { order = h.order; attempts = refl }

pub partial-primary :
    (previous : Environment) (target source : Slot) (e : Environment)
    → slot_eq target source ≡ false
    → environment_valid previous ≡ true
    → primary previous ≡ some source
    → IsPartial previous target source e
    → primary e ≡ some source
partial-primary previous target source e ne v p h =
    subst (λ (o : List Slot). primary (record e { order = o }) ≡ some source) (sym h.order)
      (disarmed-primary target source previous.order previous.a_left previous.b_left e.a_left
        e.b_left ne v p (attempts_left source e h.attempts))
  where
    attempts_left :
        (s : Slot) (e : Environment)
        → left s e ≡ left s previous
        → left s (record { order = previous.order; a_left = e.a_left; b_left = e.b_left })
          ≡ left s previous
    attempts_left slot_a e h = h
    attempts_left slot_b e h = h

pub boot_policy-ok :
    (rauc : Rauc) (e f : Environment)
    → boot_policy rauc e ≡ ok f
    → (f ≡ e) × (environment_valid e ≡ true)
unfolding boot_policy
boot_policy-ok rauc e f h = ground arith

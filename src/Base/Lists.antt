-- ===== src/Base/Lists.antt =====
-- Membership, Python's set and search idioms on lists, and their laws.
use sv08_mainline.Base.Tests.{if◌then◌else◌, any, length}
use Prim.Native.Nat.{ℕ, ◌+◌}
use Prim.Native.String.{String}
use mathlib.Core.Path.{◌≡◌, refl, sym, subst}
use mathlib.Core.Logic.{◌⊎◌, inl, inr}
use mathlib.Core.Bool.{Bool, true, false, not, ◌&&◌, ◌||◌}
use mathlib.Core.Option.{Option, none, some}
use mathlib.Core.List.{List, [], ◌∷◌, ◌++◌, append-nil, append_assoc}
use native.Mathlib.Omega.{arith}
use sv08_mainline.Base.Text.{str_eq}

module _ {A : Type 0} where
  -- `x` stands in the list.
  abbrev pub Has : A → List A → Type 0
  Has x [] = ⊥
  Has x (y ∷ ys) = (y ≡ x) ⊎ Has x ys

  -- `next((x for x in xs if p(x)), None)`
  abbrev pub first : (A → Bool) → List A → Option A
  first p [] = none
  first p (x ∷ xs) = if p x then some x else first p xs

  -- a change of the first element that satisfies the test
  abbrev pub set_first : (A → Bool) → (A → A) → List A → List A
  set_first p f [] = []
  set_first p f (x ∷ xs) = if p x then f x ∷ xs else x ∷ set_first p f xs

  -- `sum(p(x) for x in xs)`
  abbrev pub count_if : (A → Bool) → List A → ℕ
  count_if p [] = 0
  count_if p (x ∷ xs) = (if p x then 1 else 0) + count_if p xs

  abbrev pub concat : List (List A) → List A
  concat [] = []
  concat (xs ∷ xss) = xs ++ concat xss

  pub first-Has : (p : A → Bool) (xs : List A) {x : A} → first p xs ≡ some x → Has x xs
  first-Has p [] h = cc
  first-Has p (y ∷ ys) {x} h = go (p y) h (first-Has p ys)
    where
      go :
          (b : Bool)
          → (if b then some y else first p ys) ≡ some x
          → (first p ys ≡ some x → Has x ys)
          → Has x (y ∷ ys)
      go true h k = inl (cc)
      go false h k = inr (k h)

  pub set_first-Has :
      (p : A → Bool) (f : A → A) (xs : List A) {x : A}
      → first p xs ≡ some x
      → Has (f x) (set_first p f xs)
  set_first-Has p f [] h = cc
  set_first-Has p f (y ∷ ys) {x} h = go (p y) h (set_first-Has p f ys)
    where
      go :
          (b : Bool)
          → (if b then some y else first p ys) ≡ some x
          → (first p ys ≡ some x → Has (f x) (set_first p f ys))
          → Has (f x) (if b then f y ∷ ys else y ∷ set_first p f ys)
      go true h k = inl (cc)
      go false h k = inr (k h)

  pub first-true : (p : A → Bool) (xs : List A) {x : A} → first p xs ≡ some x → p x ≡ true
  first-true p [] h = cc
  first-true p (y ∷ ys) {x} h = go (p y) refl h (first-true p ys)
    where
      go :
          (b : Bool)
          → p y ≡ b
          → (if b then some y else first p ys) ≡ some x
          → (first p ys ≡ some x → p x ≡ true)
          → p x ≡ true
      go true e h k = subst (λ z. p z ≡ true) (cc) e
      go false e h k = k h

  pub Has-append_right : (xs ys : List A) (x : A) → Has x ys → Has x (xs ++ ys)
  Has-append_right [] ys x h = h
  Has-append_right (y ∷ xs) ys x h = inr (Has-append_right xs ys x h)

  pub Has-append_left : (xs ys : List A) (x : A) → Has x xs → Has x (xs ++ ys)
  Has-append_left [] ys x h = absurd h
  Has-append_left (y ∷ xs) ys x (inl e) = inl e
  Has-append_left (y ∷ xs) ys x (inr h) = inr (Has-append_left xs ys x h)

  pub Has-split : (xs ys : List A) (x : A) → Has x (xs ++ ys) → Has x xs ⊎ Has x ys
  Has-split [] ys x h = inr h
  Has-split (y ∷ xs) ys x (inl e) = inl (inl e)
  Has-split (y ∷ xs) ys x (inr h) = go (Has-split xs ys x h)
    where
      go : Has x xs ⊎ Has x ys → Has x (y ∷ xs) ⊎ Has x ys
      go (inl h) = inl (inr h)
      go (inr h) = inr h

  pub any-append : (p : A → Bool) (xs ys : List A) → any p (xs ++ ys) ≡ (any p xs || any p ys)
  any-append p [] ys = refl
  any-append p (x ∷ xs) ys = ground (arith, any-append p xs ys)

  pub length-append : (xs ys : List A) → length (xs ++ ys) ≡ length xs + length ys
  length-append [] ys = omega arith
  length-append (x ∷ xs) ys = omega (arith, length-append xs ys)

  pub concat-snoc : (xss : List (List A)) (ys : List A) → concat (xss ++ ys ∷ []) ≡ concat xss ++ ys
  concat-snoc [] ys = append-nil ys
  concat-snoc (xs ∷ xss) ys = rw (concat-snoc xss ys) (sym (append_assoc xs (concat xss) ys))

-- `x in xs` for texts
abbrev pub mem_text : String → List String → Bool
mem_text x xs = any (λ y. str_eq x y) xs

-- `len(set(xs)) == len(xs)`
abbrev pub unique : List String → Bool
unique [] = true
unique (x ∷ xs) = not (mem_text x xs) && unique xs

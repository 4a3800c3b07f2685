-- ===== src/Policy/Requests.antt =====
-- What `effective` of runtime/sv08_update_policy.py makes of a request.
use sv08_mainline.Base.{
  String, ◌≡◌, refl, sym, subst, ◌⊎◌, inl, inr, Bool, true, false, not, ◌&&◌, Option, none, some,
  [], ◌∷◌, ok, arith, any, str_eq, eq_iff, if◌then◌else◌, Bool-cases,
}
use sv08_mainline.Policy.{
  UpdatePolicy, Options, OptionValue, flag, other, effective, merged, chosen, is_flag,
  is_default_key, defaults,
}

-- `options.get(key)`
abbrev pub given : String → Options → Option OptionValue
given k [] = none
given k ((j, v) ∷ rest) = if str_eq k j then some v else given k rest

-- `policy.get(key)`
abbrev pub option_of : UpdatePolicy → String → Option Bool
option_of p k =
    if str_eq k "check_compatibility"
    then some p.check_compatibility
    else if str_eq k "check_customization"
    then some p.check_customization
    else if str_eq k "check_version"
    then some p.check_version
    else if str_eq k "allow_downgrade"
    then some p.allow_downgrade
    else if str_eq k "allow_untrusted_provenance"
    then some p.allow_untrusted_provenance
    else none

-- An option that is not given has its default; one that is given is a Boolean, and has its value.
abbrev pub Agrees : Option OptionValue → Option Bool → Option Bool → Type 0
Agrees none default result = result ≡ default
Agrees (some (flag b)) default result = result ≡ some b
Agrees (some other) default result = ⊥

chosen-Agrees :
    (k : String) (d : Bool) (o : Options)
    → any (λ (e : String × OptionValue). not (is_flag e.1)) o ≡ false
    → Agrees (given k o) (some d) (some (chosen k d o))
unfolding chosen is_flag
chosen-Agrees k d [] h = refl
chosen-Agrees k d ((j, flag b) ∷ rest) h = go (str_eq k j) (chosen-Agrees k d rest (ground arith))
  where
    go :
        (c : Bool)
        → Agrees (given k rest) (some d) (some (chosen k d rest))
        → Agrees
            (if c then some (flag b) else given k rest)
            (some d)
            (some (if c then b else chosen k d rest))
    go true r = refl
    go false r = r
chosen-Agrees k d ((j, other) ∷ rest) h = cc

given-key :
    (k : String) (o : Options)
    → any (λ (e : String × OptionValue). not (is_default_key e.0)) o ≡ false
    → is_default_key k ≡ false
    → given k o ≡ none
given-key k [] h n = refl
given-key k ((j, v) ∷ rest) h n =
    go (Bool-cases (str_eq k j)) (ground arith) (given-key k rest (ground arith) n)
  where
    go :
        (str_eq k j ≡ true) ⊎ (str_eq k j ≡ false)
        → is_default_key j ≡ true
        → given k rest ≡ none
        → (if str_eq k j then some v else given k rest) ≡ none
    go (inl e) d r =
        let same : k ≡ j = (eq_iff k j).0 e in
        cc (subst (λ (x : String). is_default_key x ≡ false) same n)
    go (inr e) d r = rw e r

-- one test of `option_of`
tested :
    (o : Options) (k name : String) (d m : Bool) (d' m' : Option Bool)
    → Agrees (given name o) (some d) (some m)
    → (str_eq k name ≡ false → Agrees (given k o) d' m')
    → Agrees
        (given k o)
        (if str_eq k name then some d else d')
        (if str_eq k name then some m else m')
tested o k name d m d' m' h rest = go (Bool-cases (str_eq k name))
  where
    go :
        (str_eq k name ≡ true) ⊎ (str_eq k name ≡ false)
        → Agrees
            (given k o)
            (if str_eq k name then some d else d')
            (if str_eq k name then some m else m')
    go (inl e) =
        rw e (
          subst (λ (x : String). Agrees (given x o) (some d) (some m)) (sym ((eq_iff k name).0 e))
            h)
    go (inr e) = rw e (rest e)

merged-Agrees :
    (o : Options) (k : String)
    → any (λ (e : String × OptionValue). not (is_default_key e.0)) o ≡ false
    → any (λ (e : String × OptionValue). not (is_flag e.1)) o ≡ false
    → Agrees (given k o) (option_of defaults k) (option_of (merged o) k)
unfolding merged is_default_key
merged-Agrees o k names flags =
    tested o k _ _ _ _ _ (chosen-Agrees "check_compatibility" true o flags) λ a.
      tested o k _ _ _ _ _ (chosen-Agrees "check_customization" true o flags) λ b.
        tested o k _ _ _ _ _ (chosen-Agrees "check_version" true o flags) λ c.
          tested o k _ _ _ _ _ (chosen-Agrees "allow_downgrade" false o flags) λ d.
            tested o k _ _ _ _ _ (chosen-Agrees "allow_untrusted_provenance" false o flags)
              λ e. rw (given-key k o names (rw (a, b, c, d, e) refl)) refl

-- In a policy that is made of a request, every option that the request gives is one of the five and
-- has the Boolean value given, every other one has its default, and an automatic operation has no
-- provenance exception.
pub effective-Agrees :
    (o : Options) (automatic : Bool) (p : UpdatePolicy)
    → effective (some o) automatic ≡ ok p
    → ((k : String) → Agrees (given k o) (option_of defaults k) (option_of p k))
      × ((automatic && p.allow_untrusted_provenance) ≡ false)
unfolding effective
effective-Agrees o automatic p h =
    let made : merged o ≡ p = ground arith in
    (
      λ k.
          subst (λ (x : UpdatePolicy). Agrees (given k o) (option_of defaults k) (option_of x k))
            made (merged-Agrees o k (ground arith) (ground arith)),
      ground arith,
    )

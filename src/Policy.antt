-- ===== src/Policy.antt =====
-- runtime/sv08_update_policy.py: which image an update may install. `check_source` and `admit`
-- read the registry and the running context, whose types stand in `Registry`.
pub mod Laws
pub mod Requests
use sv08_mainline.Base.{
  String, Bool, true, false, ◌&&◌, Option, none, some, List, [], ◌∷◌, Result, ok, refuse_if, any,
  str_eq, if◌then◌else◌, not, ◌||◌,
}
use sv08_mainline.Base.Outcome.{◌>>=◌, ◌>>◌}

-- A value of an options mapping: `type(value) is bool`, or anything else.
pub data OptionValue : Type 0 where
  flag : Bool → OptionValue
  other : OptionValue

-- A mapping in insertion order; a later duplicate of a key cannot be there.
abbrev pub Options : Type 0
Options = List (String × OptionValue)

-- `DEFAULTS` with the options put over it.
pub record UpdatePolicy : Type 0 where
  pub check_compatibility : Bool
  pub check_customization : Bool
  pub check_version : Bool
  pub allow_downgrade : Bool
  pub allow_untrusted_provenance : Bool

abbrev pub defaults : UpdatePolicy
defaults = record {
  check_compatibility = true;
  check_customization = true;
  check_version = true;
  allow_downgrade = false;
  allow_untrusted_provenance = false;
}

-- `key in DEFAULTS`
is_default_key : String → Bool
is_default_key k =
    str_eq k "check_compatibility"
    || str_eq k "check_customization"
    || str_eq k "check_version"
    || str_eq k "allow_downgrade"
    || str_eq k "allow_untrusted_provenance"

is_flag : OptionValue → Bool
is_flag (flag _) = true
is_flag other = false

-- the value under a key of `dict(DEFAULTS, **options)`
chosen : String → Bool → Options → Bool
chosen k d [] = d
chosen k d ((j, flag b) ∷ rest) = if str_eq k j then b else chosen k d rest
chosen k d ((j, other) ∷ rest) = chosen k d rest

merged : Options → UpdatePolicy
unfolding chosen
merged o = record {
  check_compatibility = chosen "check_compatibility" true o;
  check_customization = chosen "check_customization" true o;
  check_version = chosen "check_version" true o;
  allow_downgrade = chosen "allow_downgrade" false o;
  allow_untrusted_provenance = chosen "allow_untrusted_provenance" false o;
}

given_options : Option Options → Options
given_options none = []
given_options (some o) = o

unfoldable pub effective : Option Options → Bool → Result UpdatePolicy
unfolding given_options merged is_default_key is_flag
effective options automatic = do
  let o = given_options options
  refuse_if (any (λ (e : String × OptionValue). not (is_default_key e.0)) o)
      "Unknown update policy option"
  refuse_if (any (λ (e : String × OptionValue). not (is_flag e.1)) o)
      "Update policy options must be booleans"
  let result = merged o
  refuse_if (automatic && result.allow_untrusted_provenance)
      "Automatic updates require trusted provenance"
  ok result

-- A policy is a mapping in the program, and so an argument of `effective`; here its entries are
-- written out.
abbrev pub to_options : UpdatePolicy → Options
to_options p =
    ("check_compatibility", flag p.check_compatibility)
    ∷ ("check_customization", flag p.check_customization)
    ∷ ("check_version", flag p.check_version)
    ∷ ("allow_downgrade", flag p.allow_downgrade)
    ∷ ("allow_untrusted_provenance", flag p.allow_untrusted_provenance)
    ∷ []

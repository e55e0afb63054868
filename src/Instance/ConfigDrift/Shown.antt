-- ===== src/Instance/ConfigDrift/Shown.antt =====
-- toPublicDrift and configDriftFor of packages/core/src/instance/reconcile.ts: what is shown of the
-- drift of a bot's configuration. A read of a file that throws is `none`.
pub mod Hidden
pub mod Withheld
use open_mcc_manager.Prelude.{
  ℕ, String, Bool, true, false, ◌||◌, Option, none, some, List, [], ◌∷◌, ◌++◌, map, codes, trim,
  if◌then◌else◌,
}
use open_mcc_manager.Instance.McConfig.{
  McConfigScalar, of_text, of_number, of_boolean, McConfigValue, scalar, range, scalars, Document,
}
use open_mcc_manager.Instance.ConfigDrift.{
  Text, ConfigDrift, managed, fixed, operator, of_section, unreadable, among, is_secret_key,
  compare_documents,
}

-- A text, or `String` of a count.
pub data Shown : Type 0 where
  as_text : Text → Shown
  as_count : ℕ → Shown

pub data ConfigDriftKind : Type 0 where
  on_managed on_fixed on_operator on_section on_unreadable : ConfigDriftKind

pub record ConfigDriftPublic : Type 0 where
  pub instance_id : String
  pub kind : ConfigDriftKind
  pub key : Text
  pub expected : Option Shown
  pub actual : Option Shown

abbrev pub withheld_value : Shown
withheld_value = as_text (codes "something else")

abbrev config_path_name : Text
config_path_name = codes "MinecraftClient.ini"

scalar_text : McConfigScalar → Text
scalar_text (of_text t) = t
scalar_text (of_number n) = n
scalar_text (of_boolean true) = codes "true"
scalar_text (of_boolean false) = codes "false"

joined_scalars : List McConfigScalar → Text
unfolding scalar_text
joined_scalars [] = []
joined_scalars (x ∷ []) = scalar_text x
joined_scalars (x ∷ y ∷ ys) = scalar_text x ++ codes ", " ++ joined_scalars (y ∷ ys)

pub format_config_value : McConfigValue → Text
unfolding joined_scalars scalar_text
format_config_value (scalars xs) = codes "[" ++ joined_scalars xs ++ codes "]"
format_config_value (range min max) = min ++ codes "-" ++ max
format_config_value (scalar x) = scalar_text x

-- The actual value of a drift of an expected value, withheld or shown.
shown_actual : Bool → Option McConfigValue → Option Shown
unfolding format_config_value
shown_actual withheld none = none
shown_actual true (some actual) = some withheld_value
shown_actual false (some actual) = some (as_text (format_config_value actual))

module _ (operator_keys : List Text) (id : String) where
  abbrev pub is_withheld : Text → Bool
  is_withheld key = is_secret_key key || among operator_keys key

  abbrev about_value :
      ConfigDriftKind → Text → McConfigValue → Option McConfigValue → ConfigDriftPublic
  about_value kind key expected actual = record {
    instance_id = id;
    kind = kind;
    key = key;
    expected = some (as_text (format_config_value expected));
    actual = shown_actual (is_withheld key) actual;
  }

  pub to_public_drift : ConfigDrift → ConfigDriftPublic
  unfolding format_config_value shown_actual is_secret_key
  to_public_drift (of_section section entries) = record {
    instance_id = id;
    kind = on_section;
    key = section;
    expected = some (as_text (codes "empty"));
    actual = some (as_count entries);
  }
  to_public_drift (unreadable key) = record {
    instance_id = id;
    kind = on_unreadable;
    key = key;
    expected = none;
    actual = none;
  }
  to_public_drift (operator key expected actual) = record {
    instance_id = id;
    kind = on_operator;
    key = key;
    expected = some (as_text (format_config_value expected));
    actual = none;
  }
  to_public_drift (managed key expected actual) = about_value on_managed key expected actual
  to_public_drift (fixed key expected actual) = about_value on_fixed key expected actual

  no_config : ConfigDriftPublic
  no_config = record {
    instance_id = id;
    kind = on_managed;
    key = config_path_name;
    expected = some (as_text (codes "a config file"));
    actual = none;
  }

  unreadable_config : ConfigDriftPublic
  unreadable_config = record {
    instance_id = id;
    kind = on_unreadable;
    key = config_path_name;
    expected = none;
    actual = none;
  }

module _ (is_word : ℕ → Bool) (operator_keys : List Text) (parse : Text → Option Document) where
  compared : String → Option Document → Option Document → List ConfigDriftPublic
  unfolding compare_documents to_public_drift unreadable_config
  compared id (some expected) (some actual) =
      map (to_public_drift operator_keys id)
        (compare_documents is_word operator_keys expected actual)
  compared id _ _ = unreadable_config operator_keys id ∷ []

  if_there : Text → String → Text → Text → List ConfigDriftPublic
  unfolding compared no_config
  if_there [] id want actual = no_config operator_keys id ∷ []
  if_there (_ ∷ _) id want actual = compared id (parse want) (parse actual)

  before :
      List ConfigDriftPublic → Option (List ConfigDriftPublic) → Option (List ConfigDriftPublic)
  before first none = none
  before first (some rest) = some (first ++ rest)

  of_instance :
      String
      → Option Text
      → Option Text
      → Option (List ConfigDriftPublic)
      → Option (List ConfigDriftPublic)
  unfolding if_there before
  of_instance id none read rest = rest
  of_instance id (some want) none rest = none
  of_instance id (some want) (some actual) rest =
      before (if_there (trim actual) id want actual) rest

  pub config_drift_for :
      (String → Option Text)
      → List String
      → (String → Option Text)
      → Option (List ConfigDriftPublic)
  unfolding of_instance
  config_drift_for read [] expected_configs = some []
  config_drift_for read (id ∷ instances) expected_configs =
      of_instance id (expected_configs id) (read id)
        (config_drift_for read instances expected_configs)

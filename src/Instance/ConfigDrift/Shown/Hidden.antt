-- ===== src/Instance/ConfigDrift/Shown/Hidden.antt =====
-- The drift of one key, as it is shown, without the value of a private key.
use open_mcc_manager.Prelude.{
  ℕ, ◌≡◌, ◌⊎◌, refl, ap, inl, inr, String, Bool, true, ◌||◌, Bool-cases, Option, none, some, List,
  [], ◌∷◌, ◌++◌, map,
}
use open_mcc_manager.Instance.McConfig.{McConfigValue, KeyReading, absent, unread, value_read}
use open_mcc_manager.Instance.ConfigDrift.{
  Text, ConfigDrift, among, fixed_config_keys, same_config_value, unsafe_expansion, is_secret_key,
  differing, key_drift,
}
use open_mcc_manager.Instance.ConfigDrift.Readings.{value_in}
use open_mcc_manager.Instance.ConfigDrift.Shown.{
  ConfigDriftKind, ConfigDriftPublic, shown_actual, about_value, to_public_drift,
}

pub map-append {ℓ κ} :
    {A : Type ℓ} {B : Type κ} (f : A → B) (xs ys : List A) → map f (xs ++ ys) ≡ map f xs ++ map f ys
map-append f [] ys = refl
map-append f (x ∷ xs) ys = ap (λ rest. f x ∷ rest) (map-append f xs ys)

abbrev pub is_same : Option McConfigValue → McConfigValue → Bool
is_same none have = true
is_same (some want) have = same_config_value want (some have)

module _ (is_word : ℕ → Bool) (operator_keys : List Text) (id : String) where
  abbrev pub shown : List ConfigDrift → List ConfigDriftPublic
  shown = map (to_public_drift operator_keys id)

  -- Two values of a key, each the same as the expected one or each not, and each with a variable
  -- that the client would expand or each without.
  abbrev pub AreHidden : Text → Option McConfigValue → KeyReading → KeyReading → Type 0
  AreHidden key want (value_read a) (value_read b) =
      (is_same want a ≡ is_same want b)
      × (unsafe_expansion is_word key (some a) ≡ unsafe_expansion is_word key (some b))
  AreHidden key want _ _ = ⊥

  -- The password, or a setting of the operator.
  abbrev pub is_private : Text → Bool
  is_private key = is_secret_key key || among operator_keys key

  -- Of a private key, two such values; of any other key, the same.
  abbrev pub AreAlike : Text → Option McConfigValue → KeyReading → KeyReading → Type 0
  AreAlike key want a b = (a ≡ b) ⊎ ((is_private key ≡ true) × AreHidden key want a b)

  about_value-hidden :
      (kind : ConfigDriftKind) (key : Text) (want a b : McConfigValue)
      → is_private key ≡ true
      → about_value operator_keys id kind key want (some a)
        ≡ about_value operator_keys id kind key want (some b)
  unfolding shown_actual
  about_value-hidden kind key want a b withheld = rw withheld refl

  differing-hidden :
      (key : Text) (want a b : McConfigValue)
      → is_private key ≡ true
      → unsafe_expansion is_word key (some a) ≡ unsafe_expansion is_word key (some b)
      → to_public_drift operator_keys id (differing is_word operator_keys key want (some a))
        ≡ to_public_drift operator_keys id (differing is_word operator_keys key want (some b))
  unfolding differing to_public_drift
  differing-hidden key want a b withheld expands =
      elim (Bool-cases (unsafe_expansion is_word key (some b))) [
        | inl expanded ↦
            rw (expands, expanded)
              (about_value-hidden ConfigDriftKind.on_fixed key want a b withheld)
        | inr plain ↦
            rw (expands, plain)
              (elim (Bool-cases (among operator_keys key)) [
                | inl operated ↦ rw operated refl
                | inr other ↦ rw other (elim (Bool-cases (among fixed_config_keys key)) [
                  | inl is_fixed ↦
                      rw is_fixed
                        (about_value-hidden ConfigDriftKind.on_fixed key want a b withheld)
                  | inr plain_key ↦
                      rw plain_key
                        (about_value-hidden ConfigDriftKind.on_managed key want a b withheld)
                ])
              ])
      ]

  key_drift-hidden :
      (key : Text) (want : Option McConfigValue) (a b : KeyReading)
      → is_private key ≡ true
      → AreHidden key want a b
      → shown (key_drift is_word operator_keys key want (value_in a))
        ≡ shown (key_drift is_word operator_keys key want (value_in b))
  unfolding key_drift
  key_drift-hidden key want absent b withheld hidden = elim hidden [ ]
  key_drift-hidden key want unread b withheld hidden = elim hidden [ ]
  key_drift-hidden key want (value_read a) absent withheld hidden = elim hidden [ ]
  key_drift-hidden key want (value_read a) unread withheld hidden = elim hidden [ ]
  key_drift-hidden key none (value_read a) (value_read b) withheld hidden = refl
  key_drift-hidden key (some want) (value_read a) (value_read b) withheld (same, expands) =
      rw same (elim (Bool-cases (same_config_value want (some b))) [
        | inl equal ↦ rw equal refl
        | inr differs ↦ rw differs (
            ap (λ (d : ConfigDriftPublic). d ∷ []) (differing-hidden key want a b withheld expands))
      ])

  pub key_drift-alike :
      (key : Text) (want : Option McConfigValue) (a b : KeyReading)
      → AreAlike key want a b
      → shown (key_drift is_word operator_keys key want (value_in a))
        ≡ shown (key_drift is_word operator_keys key want (value_in b))
  key_drift-alike key want a b (inl same) =
      ap (λ (r : KeyReading). shown (key_drift is_word operator_keys key want (value_in r))) same
  key_drift-alike key want a b (inr (withheld, hidden)) =
      key_drift-hidden key want a b withheld hidden

-- ===== src/Instance/ConfigDrift/Complete.antt =====
-- When nothing is found to differ.
use open_mcc_manager.Prelude.{
  ℕ, ◌≡◌, refl, sym, ◌∙◌, inl, inr, Bool, true, false, not, ◌&&◌, Bool-cases, Option, none, some,
  List, [], ◌∷◌, ◌++◌, some_of, every, ltb, arith,
}
use open_mcc_manager.Instance.McConfig.{
  McConfigValue, scalar, range, scalars, Document, KeyReading, absent, unread, value_read, read_key,
  note_key, read_mcc_config_keys, section_entries, value_of,
}
use open_mcc_manager.Instance.ConfigDrift.{
  Text, ConfigDrift, unreadable, among, same_config_value, all_keys, key_drift, value_drift,
  is_about, add_unreadable, section_drift, sections_drift, compare_documents,
  emptied_config_sections,
}
use open_mcc_manager.Instance.ConfigDrift.Readings.{
  value_in, is_unread, value_of-read, text_eq_self,
}

abbrev pub is_nil {ℓ} : {A : Type ℓ} → List A → Bool
is_nil [] = true
is_nil (_ ∷ _) = false

is_nil-append {ℓ} : {A : Type ℓ} (xs ys : List A) → is_nil (xs ++ ys) ≡ is_nil xs && is_nil ys
is_nil-append [] ys = refl
is_nil-append (x ∷ xs) ys = refl

-- Whether a document's key is as the expected document has it.
abbrev pub key_agrees : KeyReading → KeyReading → Bool
key_agrees _ unread = false
key_agrees (value_read want) (value_read have) = same_config_value want (some have)
key_agrees (value_read want) absent = false
key_agrees _ _ = true

abbrev pub is_emptied : Option ℕ → Bool
is_emptied none = true
is_emptied (some entries) = not (ltb 0 entries)

every-weaken :
    (key : Text) (keys xs : List Text)
    → every (among keys) xs ≡ true
    → every (among (key ∷ keys)) xs ≡ true
every-weaken key keys [] all_among = refl
every-weaken key keys (x ∷ xs) all_among =
    ground (arith, all_among, every-weaken key keys xs (ground (arith, all_among)))

pub among_self : (keys : List Text) → every (among keys) keys ≡ true
among_self [] = refl
among_self (key ∷ keys) =
    ground (arith, text_eq_self key, every-weaken key keys keys (among_self keys))

value_agrees : Option McConfigValue → Option McConfigValue → Bool
value_agrees none have = true
value_agrees (some want) have = same_config_value want have

same-none : (want : McConfigValue) → same_config_value want none ≡ false
unfolding same_config_value
same-none (scalar want) = refl
same-none (range min max) = refl
same-none (scalars want) = refl

agrees_split :
    (want have : KeyReading)
    → value_agrees (value_in want) (value_in have) && not (is_unread have) ≡ key_agrees want have
unfolding value_agrees same_config_value
agrees_split want unread = ground arith
agrees_split absent absent = refl
agrees_split absent (value_read have) = refl
agrees_split unread absent = refl
agrees_split unread (value_read have) = refl
agrees_split (value_read want) absent = rw (same-none want) refl
agrees_split (value_read want) (value_read have) = ground arith

unreadable-among :
    (document : Document) (keys xs : List Text)
    → every (among keys) xs ≡ true
    → every (among keys) (read_mcc_config_keys document xs).unreadable ≡ true
unfolding read_mcc_config_keys note_key
unreadable-among document keys [] all_among = refl
unreadable-among document keys (x ∷ xs) all_among =
    noted (read_key document x) (ground (arith, all_among))
      (unreadable-among document keys xs (ground (arith, all_among)))
  where
    noted :
        (r : KeyReading)
        → among keys x ≡ true
        → every (among keys) (read_mcc_config_keys document xs).unreadable ≡ true
        → every (among keys) (note_key x r (read_mcc_config_keys document xs)).unreadable ≡ true
    noted absent here rest = rest
    noted unread here rest = rw here rest
    noted (value_read value) here rest = rest

is_nil-unreadable :
    (document : Document) (keys : List Text)
    → is_nil (read_mcc_config_keys document keys).unreadable
      ≡ every (λ key. not (is_unread (read_key document key))) keys
unfolding read_mcc_config_keys note_key
is_nil-unreadable document [] = refl
is_nil-unreadable document (key ∷ keys) =
    noted (read_key document key) (is_nil-unreadable document keys)
  where
    noted :
        (r : KeyReading) {b : Bool}
        → is_nil (read_mcc_config_keys document keys).unreadable ≡ b
        → is_nil (note_key key r (read_mcc_config_keys document keys)).unreadable
          ≡ not (is_unread r) && b
    noted absent rest = rest
    noted unread rest = refl
    noted (value_read value) rest = rest

module _ (is_word : ℕ → Bool) (operator_keys : List Text) where
  is_nil-add :
      (unread_keys : List Text) (drift : List ConfigDrift)
      → every (among (all_keys is_word operator_keys)) unread_keys ≡ true
      → is_nil (add_unreadable is_word operator_keys unread_keys drift)
        ≡ is_nil drift && is_nil unread_keys
  unfolding add_unreadable
  is_nil-add [] drift all_among = ground arith
  is_nil-add (key ∷ keys) drift all_among =
      let here : among (all_keys is_word operator_keys) key ≡ true = ground (arith, all_among) in
      let rest : every (among (all_keys is_word operator_keys)) keys ≡ true =
        ground (arith, all_among) in
      rw here (elim (Bool-cases (some_of (is_about is_word operator_keys key) drift)) [
        | inl known ↦ rw known (is_nil-add keys drift rest ∙ some-is_nil drift known)
        | inr new ↦ rw new (is_nil-add keys (drift ++ unreadable key ∷ []) rest ∙ longer drift)
      ])
    where
      longer :
          (xs : List ConfigDrift)
          → is_nil (xs ++ unreadable key ∷ []) && is_nil keys ≡ is_nil xs && false
      longer [] = refl
      longer (x ∷ xs) = refl

      some-is_nil :
          (xs : List ConfigDrift)
          → some_of (is_about is_word operator_keys key) xs ≡ true
          → is_nil xs && is_nil keys ≡ is_nil xs && false
      some-is_nil [] known = cc
      some-is_nil (x ∷ xs) known = refl

  is_nil-key_drift :
      (key : Text) (want have : Option McConfigValue)
      → is_nil (key_drift is_word operator_keys key want have) ≡ value_agrees want have
  unfolding key_drift value_agrees
  is_nil-key_drift key none have = refl
  is_nil-key_drift key (some want) have = ground arith

  is_nil-value_drift :
      (expected actual : Document) (keys xs : List Text)
      → every (among keys) xs ≡ true
      → is_nil (
          value_drift is_word operator_keys
            (read_mcc_config_keys expected keys)
            (read_mcc_config_keys actual keys)
            xs)
        ≡ every
            (λ key.
              value_agrees (value_in (read_key expected key)) (value_in (read_key actual key)))
            xs
  unfolding value_drift
  is_nil-value_drift expected actual keys [] all_among = refl
  is_nil-value_drift expected actual keys (x ∷ xs) all_among =
      let here : among keys x ≡ true = ground (arith, all_among) in
      let rest : every (among keys) xs ≡ true = ground (arith, all_among) in
      let want = value_of x (read_mcc_config_keys expected keys).values in
      let have = value_of x (read_mcc_config_keys actual keys).values in
      is_nil-append (key_drift is_word operator_keys x want have) (
        value_drift is_word operator_keys (read_mcc_config_keys expected keys)
          (read_mcc_config_keys actual keys) xs)
      ∙ rw
          (
            is_nil-key_drift x want have,
            value_of-read expected x keys,
            value_of-read actual x keys,
            is_nil-value_drift expected actual keys xs rest,
            here,
          )
          refl

  is_nil-section_drift :
      (section : Text) (entries : Option ℕ)
      → is_nil (section_drift is_word operator_keys section entries) ≡ is_emptied entries
  unfolding section_drift
  is_nil-section_drift section none = refl
  is_nil-section_drift section (some entries) = ground arith

  is_nil-sections_drift :
      (actual : Document) (sections : List Text)
      → is_nil (sections_drift is_word operator_keys actual sections)
        ≡ every (λ section. is_emptied (section_entries actual section)) sections
  unfolding sections_drift
  is_nil-sections_drift actual [] = refl
  is_nil-sections_drift actual (section ∷ sections) =
      is_nil-append (section_drift is_word operator_keys section (section_entries actual section))
        (sections_drift is_word operator_keys actual sections)
      ∙ rw
          (
            is_nil-section_drift section (section_entries actual section),
            is_nil-sections_drift actual sections,
          )
          refl

  every-key_agrees :
      (expected actual : Document) (keys : List Text)
      → every
            (λ key.
              value_agrees (value_in (read_key expected key)) (value_in (read_key actual key)))
            keys
          && every (λ key. not (is_unread (read_key actual key))) keys
        ≡ every (λ key. key_agrees (read_key expected key) (read_key actual key)) keys
  every-key_agrees expected actual [] = refl
  every-key_agrees expected actual (key ∷ keys) =
      rw
        (
          sym (agrees_split (read_key expected key) (read_key actual key)),
          sym (every-key_agrees expected actual keys),
        )
        (ground arith)

  -- Nothing is found to differ just when every key that is looked at agrees and the sections that must
  -- be empty are: a key agrees when the bot's document can be read there and, if the expected document
  -- has a value of the key, has the same value. So no difference in those keys is missed, and none is
  -- made up.
  pub compare_documents-is_nil :
      (expected actual : Document)
      → is_nil (compare_documents is_word operator_keys expected actual)
        ≡ every
            (λ key. key_agrees (read_key expected key) (read_key actual key))
            (all_keys is_word operator_keys)
          && every (λ section. is_emptied (section_entries actual section)) emptied_config_sections
  unfolding compare_documents
  compare_documents-is_nil expected actual =
      let keys = all_keys is_word operator_keys in
      let want = read_mcc_config_keys expected keys in
      let have = read_mcc_config_keys actual keys in
      let each = among_self keys in
      is_nil-append
        (add_unreadable is_word operator_keys have.unreadable
          (value_drift is_word operator_keys want have keys))
        (sections_drift is_word operator_keys actual emptied_config_sections)
      ∙ rw
          (
            is_nil-add have.unreadable (value_drift is_word operator_keys want have keys)
                (unreadable-among actual keys keys each),
            is_nil-value_drift expected actual keys keys each,
            is_nil-unreadable actual keys,
            every-key_agrees expected actual keys,
            is_nil-sections_drift actual emptied_config_sections,
          )
          refl

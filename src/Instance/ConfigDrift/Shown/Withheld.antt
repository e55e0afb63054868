-- ===== src/Instance/ConfigDrift/Shown/Withheld.antt =====
-- What the drift that is shown does not tell.
use open_mcc_manager.Prelude.{
  ℕ, ◌≡◌, refl, sym, ap, ◌∙◌, inl, inr, String, Bool, true, false, not, ◌||◌, Bool-cases, Option,
  List, [], ◌∷◌, ◌++◌, map, some_of, every, text_eq, arith, All,
}
use open_mcc_manager.Instance.McConfig.{
  McConfigValue, McConfigReading, Document, KeyReading, absent, unread, value_read, read_key,
  note_key, read_mcc_config_keys, section_entries,
}
use open_mcc_manager.Instance.ConfigDrift.{
  Text, ConfigDrift, managed, fixed, operator, of_section, unreadable, among, all_keys, key_drift,
  value_drift, is_about, add_unreadable, sections_drift, compare_documents, emptied_config_sections,
}
use open_mcc_manager.Instance.ConfigDrift.Readings.{value_in, value_of-read}
use open_mcc_manager.Instance.ConfigDrift.Complete.{among_self}
use open_mcc_manager.Instance.ConfigDrift.Shown.{on_section, ConfigDriftPublic, to_public_drift}
use open_mcc_manager.Instance.ConfigDrift.Shown.Hidden.{
  map-append, shown, AreAlike, key_drift-alike,
}

module _ (is_word : ℕ → Bool) (operator_keys : List Text) (id : String) where
  module _ (expected a b : Document) where
    abbrev pub AlikeAt : Text → Type 0
    AlikeAt key =
        AreAlike is_word operator_keys id key (value_in (read_key expected key)) (read_key a key)
          (read_key b key)

    value_drift-alike :
        (keys xs : List Text)
        → every (among keys) xs ≡ true
        → All AlikeAt xs
        → shown is_word operator_keys id (
            value_drift is_word operator_keys
              (read_mcc_config_keys expected keys)
              (read_mcc_config_keys a keys)
              xs)
          ≡ shown is_word operator_keys id (
              value_drift is_word operator_keys
                (read_mcc_config_keys expected keys)
                (read_mcc_config_keys b keys)
                xs)
    unfolding value_drift
    value_drift-alike keys [] all_among alike = refl
    value_drift-alike keys (x ∷ xs) all_among (first, others) =
        let here : among keys x ≡ true = ground (arith, all_among) in
        let rest : every (among keys) xs ≡ true = ground (arith, all_among) in
        rw (value_of-read expected x keys, value_of-read a x keys, value_of-read b x keys, here)
          (map-append (to_public_drift operator_keys id)
              (key_drift is_word operator_keys x (value_in (read_key expected x))
                (value_in (read_key a x)))
              _
            ∙ rw
                (
                  key_drift-alike is_word operator_keys id x (value_in (read_key expected x))
                      (read_key a x) (read_key b x) first,
                  value_drift-alike keys xs rest others,
                )
                (sym (
                  map-append (to_public_drift operator_keys id)
                    (key_drift is_word operator_keys x (value_in (read_key expected x))
                      (value_in (read_key b x)))
                    _)))

    note_key-alike :
        (key : Text) (want : Option McConfigValue) (r r' : KeyReading)
        (rest rest' : McConfigReading)
        → AreAlike is_word operator_keys id key want r r'
        → rest.unreadable ≡ rest'.unreadable
        → (note_key key r rest).unreadable ≡ (note_key key r' rest').unreadable
    unfolding note_key
    note_key-alike key want absent absent rest rest' alike same = same
    note_key-alike key want unread unread rest rest' alike same = ap (λ keys. key ∷ keys) same
    note_key-alike key want (value_read v) (value_read v') rest rest' alike same = same
    note_key-alike key want absent unread rest rest' alike same = elim alike [
      | inl e ↦ cc
      | inr h ↦ elim h.1 [ ]
    ]
    note_key-alike key want absent (value_read v) rest rest' alike same = elim alike [
      | inl e ↦ cc
      | inr h ↦ elim h.1 [ ]
    ]
    note_key-alike key want unread absent rest rest' alike same = elim alike [
      | inl e ↦ cc
      | inr h ↦ elim h.1 [ ]
    ]
    note_key-alike key want unread (value_read v) rest rest' alike same = elim alike [
      | inl e ↦ cc
      | inr h ↦ elim h.1 [ ]
    ]
    note_key-alike key want (value_read v) absent rest rest' alike same = elim alike [
      | inl e ↦ cc
      | inr h ↦ elim h.1 [ ]
    ]
    note_key-alike key want (value_read v) unread rest rest' alike same = elim alike [
      | inl e ↦ cc
      | inr h ↦ elim h.1 [ ]
    ]

    unreadable-alike :
        (xs : List Text)
        → All AlikeAt xs
        → (read_mcc_config_keys a xs).unreadable ≡ (read_mcc_config_keys b xs).unreadable
    unfolding read_mcc_config_keys
    unreadable-alike [] alike = refl
    unreadable-alike (x ∷ xs) (first, others) =
        note_key-alike x (value_in (read_key expected x)) (read_key a x) (read_key b x) _ _ first
          (unreadable-alike xs others)

  -- Of what is shown, what the loop over the unreadable keys looks at.
  is_shown_about : Text → ConfigDriftPublic → Bool
  is_shown_about key entry = elim entry.kind [ on_section ↦ false | _ ↦ text_eq entry.key key ]

  is_about-shown :
      (key : Text) (drift : List ConfigDrift)
      → some_of (is_about is_word operator_keys key) drift
        ≡ some_of (is_shown_about key) (shown is_word operator_keys id drift)
  unfolding to_public_drift is_shown_about
  is_about-shown key [] = refl
  is_about-shown key (managed other want have ∷ drift) = rw (is_about-shown key drift) refl
  is_about-shown key (fixed other want have ∷ drift) = rw (is_about-shown key drift) refl
  is_about-shown key (operator other want have ∷ drift) = rw (is_about-shown key drift) refl
  is_about-shown key (of_section section n ∷ drift) = rw (is_about-shown key drift) refl
  is_about-shown key (unreadable other ∷ drift) = rw (is_about-shown key drift) refl

  add_unreadable-alike :
      (keys : List Text) (drift drift' : List ConfigDrift)
      → shown is_word operator_keys id drift ≡ shown is_word operator_keys id drift'
      → shown is_word operator_keys id (add_unreadable is_word operator_keys keys drift)
        ≡ shown is_word operator_keys id (add_unreadable is_word operator_keys keys drift')
  unfolding add_unreadable
  add_unreadable-alike [] drift drift' same = same
  add_unreadable-alike (key ∷ keys) drift drift' same =
      let known : some_of (is_about is_word operator_keys key) drift
          ≡ some_of (is_about is_word operator_keys key) drift' =
        is_about-shown key drift
        ∙ ap (some_of (is_shown_about key)) same
        ∙ sym (is_about-shown key drift') in
      rw known
        (elim (Bool-cases (
          not (among (all_keys is_word operator_keys) key)
          || some_of (is_about is_word operator_keys key) drift')) [
            | inl skipped ↦ rw skipped (add_unreadable-alike keys drift drift' same)
            | inr added ↦ rw added (
                add_unreadable-alike keys (drift ++ unreadable key ∷ [])
                  (drift' ++ unreadable key ∷ [])
                  (map-append (to_public_drift operator_keys id) drift (unreadable key ∷ [])
                    ∙ ap
                        (λ (front : List ConfigDriftPublic).
                          front ++ to_public_drift operator_keys id (unreadable key) ∷ [])
                        same
                    ∙ sym (
                        map-append (to_public_drift operator_keys id) drift'
                          (unreadable key ∷ []))))
          ])

  sections_drift-alike :
      (a b : Document) (sections : List Text)
      → All (λ section. section_entries a section ≡ section_entries b section) sections
      → sections_drift is_word operator_keys a sections
        ≡ sections_drift is_word operator_keys b sections
  unfolding sections_drift
  sections_drift-alike a b [] same = refl
  sections_drift-alike a b (section ∷ sections) (first, others) =
      rw (first, sections_drift-alike a b sections others) refl

  -- What is shown of a bot's drift does not tell the value of a secret key or of a setting of the
  -- operator: two documents of the bot that differ only in such values, where each value is the
  -- expected one in both or in neither and has a variable to expand in both or in neither, show the
  -- same.
  pub compare_documents-AreShown :
      (expected a b : Document)
      → All (AlikeAt expected a b) (all_keys is_word operator_keys)
      → All
          (λ section. section_entries a section ≡ section_entries b section)
          emptied_config_sections
      → map (to_public_drift operator_keys id) (compare_documents is_word operator_keys expected a)
        ≡ map
            (to_public_drift operator_keys id)
            (compare_documents is_word operator_keys expected b)
  unfolding compare_documents
  compare_documents-AreShown expected a b alike sections =
      let keys = all_keys is_word operator_keys in
      let want = read_mcc_config_keys expected keys in
      map-append (to_public_drift operator_keys id)
        (add_unreadable is_word operator_keys (read_mcc_config_keys a keys).unreadable
          (value_drift is_word operator_keys want (read_mcc_config_keys a keys) keys))
        _
      ∙ rw
          (
            unreadable-alike expected a b keys alike,
            sections_drift-alike a b emptied_config_sections sections,
            add_unreadable-alike (read_mcc_config_keys b keys).unreadable
                (value_drift is_word operator_keys want (read_mcc_config_keys a keys) keys)
                (value_drift is_word operator_keys want (read_mcc_config_keys b keys) keys)
                (value_drift-alike expected a b keys keys (among_self keys) alike),
          )
          (sym (
            map-append (to_public_drift operator_keys id)
              (add_unreadable is_word operator_keys (read_mcc_config_keys b keys).unreadable
                (value_drift is_word operator_keys want (read_mcc_config_keys b keys) keys))
              _))

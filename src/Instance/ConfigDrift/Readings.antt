-- ===== src/Instance/ConfigDrift/Readings.antt =====
-- What a document was read to say of a key.
use open_mcc_manager.Prelude.{
  ◌≡◌, refl, sym, ◌∙◌, inl, inr, Bool, true, false, Bool-cases, Option, none, some, List, [], ◌∷◌,
  text_eq, if◌then◌else◌, arith,
}
use mathlib.Core.Path.{subst}
use open_mcc_manager.Instance.McConfig.{
  McConfigValue, McConfigReading, Document, KeyReading, absent, unread, value_read, read_key,
  note_key, read_mcc_config_keys, value_of,
}
use open_mcc_manager.Instance.ConfigDrift.{Text, among}

abbrev pub value_in : KeyReading → Option McConfigValue
value_in (value_read value) = some value
value_in _ = none

abbrev pub is_unread : KeyReading → Bool
is_unread unread = true
is_unread _ = false

pub text_eq_self : (t : Text) → text_eq t t ≡ true
text_eq_self [] = refl
text_eq_self (c ∷ t) = ground (arith, text_eq_self t)

text_eq-eq : (a b : Text) → text_eq a b ≡ true → a ≡ b
text_eq-eq [] [] e = refl
text_eq-eq [] (d ∷ ds) e = cc
text_eq-eq (c ∷ cs) [] e = cc
text_eq-eq (c ∷ cs) (d ∷ ds) e =
    let head : c ≡ d = ground (arith, e) in
    let tail : cs ≡ ds = text_eq-eq cs ds (ground (arith, e)) in cc

or_value : KeyReading → Option McConfigValue → Option McConfigValue
or_value (value_read value) rest = some value
or_value _ rest = rest

module _ (key other : Text) where
  value_of-same :
      (r : KeyReading) (rest : McConfigReading)
      → text_eq other key ≡ true
      → value_of key (note_key other r rest).values ≡ or_value r (value_of key rest.values)
  unfolding value_of note_key or_value
  value_of-same absent rest same = refl
  value_of-same unread rest same = refl
  value_of-same (value_read value) rest same = rw same refl

  value_of-apart :
      (r : KeyReading) (rest : McConfigReading)
      → text_eq other key ≡ false
      → value_of key (note_key other r rest).values ≡ value_of key rest.values
  unfolding value_of note_key
  value_of-apart absent rest apart = refl
  value_of-apart unread rest apart = refl
  value_of-apart (value_read value) rest apart = rw apart refl

  text_eq_sym : text_eq other key ≡ text_eq key other
  text_eq_sym = elim (Bool-cases (text_eq other key)) [
    | inl same ↦
        let e : other ≡ key = text_eq-eq other key same in
        same ∙ sym (subst (λ (k : Text). text_eq key k ≡ true) (sym e) (text_eq_self key))
    | inr apart ↦ elim (Bool-cases (text_eq key other)) [
      | inl same ↦
          let e : key ≡ other = text_eq-eq key other same in
          subst (λ (k : Text). text_eq other k ≡ text_eq k other) (sym e) refl
      | inr apart' ↦ apart ∙ sym apart'
    ]
  ]

or_value-none : (r : KeyReading) → or_value r none ≡ value_in r
unfolding or_value
or_value-none absent = refl
or_value-none unread = refl
or_value-none (value_read value) = refl

or_value_self : (r : KeyReading) → or_value r (value_in r) ≡ value_in r
unfolding or_value
or_value_self absent = refl
or_value_self unread = refl
or_value_self (value_read value) = refl

pub value_of-read :
    (document : Document) (key : Text) (keys : List Text)
    → value_of key (read_mcc_config_keys document keys).values
      ≡ (if among keys key then value_in (read_key document key) else none)
unfolding read_mcc_config_keys value_of
value_of-read document key [] = refl
value_of-read document key (other ∷ keys) = elim (Bool-cases (text_eq other key)) [
  | inl same ↦
      rw (sym (text_eq_sym key other), same)
        (value_of-same key other (read_key document other) (read_mcc_config_keys document keys) same
          ∙ rw (value_of-read document key keys) (
              subst
                (λ (k : Text).
                  or_value (read_key document k)
                    (if among keys key then value_in (read_key document key) else none)
                  ≡ value_in (read_key document key))
                (sym (text_eq-eq other key same))
                (elim (Bool-cases (among keys key)) [
                  | inl again ↦ rw again (or_value_self (read_key document key))
                  | inr last ↦ rw last (or_value-none (read_key document key))
                ])))
  | inr apart ↦
      rw (sym (text_eq_sym key other), apart)
        (value_of-apart key other (read_key document other) (read_mcc_config_keys document keys)
            apart
          ∙ value_of-read document key keys)
]

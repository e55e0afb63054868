-- ===== src/Instance/ConfigDrift/Tests.antt =====
-- A bot whose password is not the one that its document should have.
use open_mcc_manager.Prelude.{
  ℕ, ◌≡◌, refl, inl, inr, Bool, ◌&&◌, leb, List, [], ◌∷◌, map, every, codes, All, split_at,
}
use open_mcc_manager.Instance.McConfig.{
  Toml, text, table, Document, no_field, field, read_key, section_entries,
}
use open_mcc_manager.Instance.ConfigDrift.{
  Text, all_keys, compare_documents, emptied_config_sections, unsafe_expansion, same_config_value,
  is_secret_key,
}
use open_mcc_manager.Instance.ConfigDrift.Complete.{
  is_nil, key_agrees, is_emptied, compare_documents-is_nil,
}
use open_mcc_manager.Instance.ConfigDrift.Shown.{to_public_drift}
use open_mcc_manager.Instance.ConfigDrift.Shown.Withheld.{AlikeAt, compare_documents-AreShown}

abbrev in_table : Text → Toml → Document
in_table name value = field name value no_field

abbrev with_password : Text → Document
with_password password = in_table (codes "Main") (
    table (
      in_table (codes "General")
        (table (in_table (codes "Account") (table (in_table (codes "Password") (text password)))))))

abbrev ascii_letter : ℕ → Bool
ascii_letter c = leb b'a' c && leb c b'z'

abbrev settings : List Text
settings = codes "ChatBot.Alerts.Beep_Enabled" ∷ []

passwords_alike :
    All
      (AlikeAt ascii_letter settings "bot-1"
        (with_password [])
        (with_password (codes "hunter"))
        (with_password (codes "swordfish")))
      (all_keys ascii_letter settings)
unfolding all_keys read_key unsafe_expansion same_config_value is_secret_key split_at
passwords_alike = (
  inl refl,
  (
    inl refl,
    (
      inr (refl, (refl, refl)),
      (
        inl refl,
        (
          inl refl,
          (
            inl refl,
            (
              inl refl,
              (
                inl refl,
                (
                  inl refl,
                  (
                    inl refl,
                    (
                      inl refl,
                      (
                        inl refl,
                        (
                          inl refl,
                          (
                            inl refl,
                            (
                              inl refl,
                              (
                                inl refl,
                                (
                                  inl refl,
                                  (
                                    inl refl,
                                    (
                                      inl refl,
                                      (
                                        inl refl,
                                        (
                                          inl refl,
                                          (
                                            inl refl,
                                            (
                                              inl refl,
                                              (
                                                inl refl,
                                                (
                                                  inl refl,
                                                  (
                                                    inl refl,
                                                    (
                                                      inl refl,
                                                      (
                                                        inl refl,
                                                        (
                                                          inl refl,
                                                          (
                                                            inl refl,
                                                            (
                                                            inl refl,
                                                            (
                                                            inl refl,
                                                            (
                                                            inl refl,
                                                            (
                                                            inl refl,
                                                            (
                                                            inl refl,
                                                            (
                                                            inl refl,
                                                            (
                                                            inl refl,
                                                            (
                                                            inl refl,
                                                            (
                                                            inl refl,
                                                            (
                                                            inl refl,
                                                            (
                                                            inl refl,
                                                            (
                                                            inl refl,
                                                            (inl refl, (inl refl, (inl refl, tt))),
                                                            ),
                                                            ),
                                                            ),
                                                            ),
                                                            ),
                                                            ),
                                                            ),
                                                            ),
                                                            ),
                                                            ),
                                                            ),
                                                            ),
                                                          ),
                                                        ),
                                                      ),
                                                    ),
                                                  ),
                                                ),
                                              ),
                                            ),
                                          ),
                                        ),
                                      ),
                                    ),
                                  ),
                                ),
                              ),
                            ),
                          ),
                        ),
                      ),
                    ),
                  ),
                ),
              ),
            ),
          ),
        ),
      ),
    ),
  ),
)

compare_documents-AreShown_example :
    map
      (to_public_drift settings "bot-1")
      (compare_documents ascii_letter settings (with_password []) (with_password (codes "hunter")))
    ≡ map (to_public_drift settings "bot-1") (
        compare_documents ascii_letter settings
          (with_password [])
          (with_password (codes "swordfish")))
unfolding section_entries split_at
compare_documents-AreShown_example =
    compare_documents-AreShown ascii_letter settings "bot-1" (with_password [])
      (with_password (codes "hunter")) (with_password (codes "swordfish")) passwords_alike
      (refl, (refl, tt))

compare_documents-is_nil_example :
    is_nil
      (compare_documents ascii_letter settings (with_password []) (with_password (codes "hunter")))
    ≡ every
        (λ key.
          key_agrees
            (read_key (with_password []) key)
            (read_key (with_password (codes "hunter")) key))
        (all_keys ascii_letter settings)
      && every
          (λ section. is_emptied (section_entries (with_password (codes "hunter")) section))
          emptied_config_sections
compare_documents-is_nil_example =
    compare_documents-is_nil ascii_letter settings (with_password [])
      (with_password (codes "hunter"))

-- ===== src/Notification/Egress/Parse/Tests.antt =====
-- Addresses that are read from a text.
use open_mcc_manager.Prelude.{
  ◌≡◌, ◌⊎◌, refl, some, List, [], ◌∷◌, codes, split_at, split_at_pair, decimal, lower, length, ℕ,
}
use open_mcc_manager.Notification.Egress.Parse.{
  parse_address, parse_v4, parse_v6, hextets_of, halves_of, hextets_from, hextet_of, hexadecimal,
  zeros, hex_value,
}
use open_mcc_manager.Notification.Egress.Parse.Bytes.{AreBytes, parse_address-AreBytes}

abbrev home : List ℕ
home = 192 ∷ 168 ∷ 1 ∷ 20 ∷ []

bytes_of_address : AreBytes home × ((length home ≡ 4) ⊎ (length home ≡ 16))
unfolding parse_address parse_v4 split_at decimal
bytes_of_address = parse_address-AreBytes (λ text. 4) (codes "192.168.1.20") home refl

-- The notation of the ranges that are never allowed, as the code writes it.
never_ranges-read :
    (parse_v4 (codes "169.254.0.0") ≡ some (169 ∷ 254 ∷ 0 ∷ 0 ∷ []))
    × (parse_v6 (codes "fe80::")
        ≡ some (0xfe ∷ 0x80 ∷ 0 ∷ 0 ∷ 0 ∷ 0 ∷ 0 ∷ 0 ∷ 0 ∷ 0 ∷ 0 ∷ 0 ∷ 0 ∷ 0 ∷ 0 ∷ 0 ∷ []))
unfolding parse_v4 parse_v6 split_at decimal halves_of split_at_pair hextets_of hextets_from
    hextet_of lower hexadecimal zeros hex_value
never_ranges-read = (refl, refl)

-- ===== src/Notification/Egress/Parse/Bytes.antt =====
-- What is read as an address is 4 or 16 bytes.
use open_mcc_manager.Prelude.{
  ℕ, zero, suc, ◌*◌, ◌-◌, ◌<◌, ◌≡◌, ◌⊎◌, some, List, [], ◌∷◌, ◌++◌, arith, length, length-append,
  All, split_at, split_at_pair,
}
use open_mcc_manager.Notification.Egress.Parse.{
  byte_of, bytes_of, parse_v4, octets_of, zeros, halves_of, parse_v6, parse_address,
}

abbrev pub AreBytes : List ℕ → Type 0
AreBytes bytes = All (λ b. b < 256) bytes

byte_of-lt : (part : List ℕ) (b : ℕ) → byte_of part ≡ some b → b < 256
unfolding byte_of
byte_of-lt part b e = ground arith

bytes_of-AreBytes :
    (parts : List (List ℕ)) (bytes : List ℕ)
    → bytes_of parts ≡ some bytes
    → AreBytes bytes × (length bytes ≡ length parts)
unfolding bytes_of
bytes_of-AreBytes [] bytes e = ground arith
bytes_of-AreBytes (part ∷ parts) bytes e = grind (arith, byte_of-lt part, bytes_of-AreBytes parts)

parse_v4-AreBytes :
    (text bytes : List ℕ) → parse_v4 text ≡ some bytes → AreBytes bytes × (length bytes ≡ 4)
unfolding parse_v4
parse_v4-AreBytes text bytes e = ground (arith, bytes_of-AreBytes (split_at b'.' text) bytes)

octets_of-AreBytes : (groups : List ℕ) → AreBytes (octets_of groups)
unfolding octets_of
octets_of-AreBytes [] = tt
octets_of-AreBytes (g ∷ gs) = (omega arith, (omega arith, octets_of-AreBytes gs))

length-octets_of : (groups : List ℕ) → length (octets_of groups) ≡ 2 * length groups
unfolding octets_of
length-octets_of [] = omega arith
length-octets_of (g ∷ gs) = omega (arith, length-octets_of gs)

length-zeros : (n : ℕ) → length (zeros n) ≡ n
unfolding zeros
length-zeros zero = omega arith
length-zeros (suc n) = omega (arith, length-zeros n)

-- The gap fills eight groups up.
filled :
    (front back : List ℕ)
    → 0 < 8 - length front - length back
    → length (octets_of (front ++ zeros (8 - length front - length back) ++ back)) ≡ 16
filled front back h = simp (length-octets_of, length-append, length-zeros) (omega arith)

halves_of-AreBytes :
    (halves : List (List ℕ)) (bytes : List ℕ)
    → halves_of halves ≡ some bytes
    → AreBytes bytes × (length bytes ≡ 16)
unfolding halves_of
halves_of-AreBytes [] bytes e = cc
halves_of-AreBytes (only ∷ []) bytes e = grind (arith, octets_of-AreBytes, length-octets_of)
halves_of-AreBytes (head ∷ tail ∷ []) bytes e = grind (arith, octets_of-AreBytes, filled)
halves_of-AreBytes (a ∷ b ∷ c ∷ rest) bytes e = cc

-- Whatever text is read as an address gives bytes, and 4 or 16 of them: the lengths at which a
-- verdict tells the two kinds of address apart.
pub parse_address-AreBytes :
    (is_ip : List ℕ → ℕ) (text bytes : List ℕ)
    → parse_address is_ip text ≡ some bytes
    → AreBytes bytes × ((length bytes ≡ 4) ⊎ (length bytes ≡ 16))
unfolding parse_address parse_v6
parse_address-AreBytes is_ip text bytes e =
    ground (arith, parse_v4-AreBytes text bytes, halves_of-AreBytes (split_at_pair b':' text) bytes)

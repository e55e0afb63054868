-- ===== src/Notification/Egress/Prefix.antt =====
-- `within` compares the first bits of two addresses.
use Prim.Native.Nat.{bit_and}
use open_mcc_manager.Prelude.{
  ℕ, zero, suc, ◌-◌, ◌*◌, ◌/◌, ◌%◌, ◌^◌, ◌≤◌, ◌<◌, ◌≡◌, ◌↔◌, ◌⊎◌, refl, Bool, true, false, List, [],
  ◌∷◌, ◌++◌, ◌&&◌, arith, length, ◌==◌, min, All, inl, inr, if◌then◌else◌,
}
use open_mcc_manager.Notification.Egress.{mask, within_from, within}
use open_mcc_manager.Notification.Egress.Ranges.{Allowance}

-- The bits of a byte, the highest first.
abbrev pub byte_bits : ℕ → List ℕ
byte_bits b =
    b / 128 % 2
    ∷ b / 64 % 2
    ∷ b / 32 % 2
    ∷ b / 16 % 2
    ∷ b / 8 % 2
    ∷ b / 4 % 2
    ∷ b / 2 % 2
    ∷ b % 2
    ∷ []

abbrev pub bits_of : List ℕ → List ℕ
bits_of [] = []
bits_of (b ∷ bs) = byte_bits b ++ bits_of bs

-- Two lists have the same first `n` elements.
abbrev pub AgreeFor : ℕ → List ℕ → List ℕ → Type 0
AgreeFor zero xs ys = Unit
AgreeFor (suc n) [] [] = Unit
AgreeFor (suc n) [] (y ∷ ys) = ⊥
AgreeFor (suc n) (x ∷ xs) [] = ⊥
AgreeFor (suc n) (x ∷ xs) (y ∷ ys) = (x ≡ y) × AgreeFor n xs ys

abbrev pub IsByte : ℕ → Type 0
IsByte b = b < 256

-- A masked byte is the byte without its low bits.
holds_under : (ℕ → Bool) → ℕ → Bool
holds_under test zero = true
holds_under test (suc n) = holds_under test n && test n

holds_under-at :
    (test : ℕ → Bool) (n byte : ℕ) → byte < n → holds_under test n ≡ true → test byte ≡ true
unfolding holds_under
holds_under-at test zero byte below all = absurd (omega arith)
holds_under-at test (suc n) byte below all = ground (arith, holds_under-at test n byte)

-- Whether a mask leaves the byte without its low bits.
clears : ℕ → ℕ → Bool
clears w b = bit_and b (mask w) == b / 2 ^ (8 - w) * 2 ^ (8 - w)

mask_table : holds_under (λ w. holds_under (clears w) 256) 9 ≡ true
unfolding holds_under clears
mask_table = refl

masked : (w b : ℕ) → w ≤ 8 → b < 256 → bit_and b (mask w) ≡ b / 2 ^ (8 - w) * 2 ^ (8 - w)
unfolding clears
masked w b h k =
    let row = holds_under-at (λ w. holds_under (clears w) 256) 9 w (omega arith) mask_table in
    let cell = holds_under-at (clears w) 256 b k row in ground (arith, cell)

-- A full byte: the masked bytes are the same exactly when the bytes are.
byte_iff : (a b : ℕ) → a < 256 → b < 256 → (bit_and a (mask 8) ≡ bit_and b (mask 8)) ↔ (a ≡ b)
byte_iff a b h k = omega (arith, masked 8 a (omega arith) h, masked 8 b (omega arith) k)

-- Fewer than eight bits of a byte.
part_iff :
    (w a b : ℕ)
    → w < 8
    → a < 256
    → b < 256
    → ((bit_and a (mask w) == bit_and b (mask w)) ≡ true)
      ↔ (a / 2 ^ (8 - w) * 2 ^ (8 - w) ≡ b / 2 ^ (8 - w) * 2 ^ (8 - w))
part_iff w a b l h k = ground (arith, masked w a (omega arith) h, masked w b (omega arith) k)

module _ (a b : ℕ) (xs ys : List ℕ) (h : a < 256) (k : b < 256) where
  -- Up to seven bits lie in the first byte.
  first_byte_iff :
      (w : ℕ)
      → w < 8
      → (within_from w (a ∷ xs) (b ∷ ys) ≡ true) ↔ AgreeFor w (bits_of (a ∷ xs)) (bits_of (b ∷ ys))
  unfolding within_from
  first_byte_iff zero l = (λ _. tt, λ _. refl)
  first_byte_iff (suc zero) l = ground (arith, part_iff 1 a b (omega arith) h k)
  first_byte_iff (suc (suc zero)) l = ground (arith, part_iff 2 a b (omega arith) h k)
  first_byte_iff (suc (suc (suc zero))) l = ground (arith, part_iff 3 a b (omega arith) h k)
  first_byte_iff (suc (suc (suc (suc zero)))) l = ground (arith, part_iff 4 a b (omega arith) h k)
  first_byte_iff (suc (suc (suc (suc (suc zero))))) l =
      ground (arith, part_iff 5 a b (omega arith) h k)
  first_byte_iff (suc (suc (suc (suc (suc (suc zero)))))) l =
      ground (arith, part_iff 6 a b (omega arith) h k)
  first_byte_iff (suc (suc (suc (suc (suc (suc (suc zero))))))) l =
      ground (arith, part_iff 7 a b (omega arith) h k)
  first_byte_iff (suc (suc (suc (suc (suc (suc (suc (suc w)))))))) l = absurd (omega arith)

  -- Eight bits and more take the whole byte.
  whole_byte :
      (r : ℕ)
      → within_from (suc (suc (suc (suc (suc (suc (suc (suc r)))))))) (a ∷ xs) (b ∷ ys)
        ≡ (if a == b then within_from r xs ys else false)
  unfolding within_from
  whole_byte r =
      let width : min 8 (suc (suc (suc (suc (suc (suc (suc (suc r)))))))) ≡ 8 = omega arith in
      let left : (suc (suc (suc (suc (suc (suc (suc (suc r)))))))) - 8 ≡ r = omega arith in
      rw (width, left) (ground (arith, byte_iff a b h k))

abbrev AreBytes : List ℕ → Type 0
AreBytes xs = All (λ x. x < 256) xs

short_iff :
    (r : ℕ) (xs ys : List ℕ)
    → AreBytes xs
    → AreBytes ys
    → length xs ≡ length ys
    → r ≤ length xs * 8
    → r < 8
    → (within_from r xs ys ≡ true) ↔ AgreeFor r (bits_of xs) (bits_of ys)
unfolding within_from
short_iff zero [] ys hs ks e l p = (λ _. tt, λ _. refl)
short_iff (suc r) [] ys hs ks e l p = absurd (omega arith)
short_iff r (a ∷ xs) [] hs ks e l p = absurd (omega arith)
short_iff r (a ∷ xs) (b ∷ ys) (h, hs) (k, ks) e l p = first_byte_iff a b xs ys h k r p

within_from_iff :
    (r : ℕ) (xs ys : List ℕ)
    → AreBytes xs
    → AreBytes ys
    → length xs ≡ length ys
    → r ≤ length xs * 8
    → (within_from r xs ys ≡ true) ↔ AgreeFor r (bits_of xs) (bits_of ys)
within_from_iff (suc (suc (suc (suc (suc (suc (suc (suc r)))))))) (a ∷ xs) (b ∷ ys) (h, hs) (k, ks)
      e l =
    let ih = within_from_iff r xs ys hs ks (omega arith) (omega arith) in
    rw whole_byte (ground (arith, ih))
within_from_iff r xs ys hs ks e l = short_iff r xs ys hs ks e l (omega arith)

dec_and_fit :
    (bytes : List ℕ) (limit : Allowance)
    → ((length bytes ≡ length limit.bytes) × (limit.bits ≤ length limit.bytes * 8))
      ⊎ ¬ ((length bytes ≡ length limit.bytes) × (limit.bits ≤ length limit.bytes * 8))
dec_and_fit bytes limit = ground arith

within-fits :
    (bytes : List ℕ) (limit : Allowance)
    → within bytes limit ≡ true
    → (length bytes ≡ length limit.bytes) × (limit.bits ≤ length limit.bytes * 8)
unfolding within
within-fits bytes limit e = ground arith

-- An address of the limit's length is within it exactly when the two have the same first bits, as
-- many as the limit says; one of another length, or a limit of too many bits, never matches.
pub within_iff :
    (bytes : List ℕ) (limit : Allowance)
    → AreBytes bytes
    → AreBytes limit.bytes
    → (within bytes limit ≡ true) ↔ (
        (length bytes ≡ length limit.bytes)
        × (limit.bits ≤ length limit.bytes * 8)
        × AgreeFor limit.bits (bits_of bytes) (bits_of limit.bytes))
unfolding within
within_iff bytes limit h k = elim (dec_and_fit bytes limit) [
  | inl (e, l) ↦ ground (arith, within_from_iff limit.bits bytes limit.bytes h k e (omega arith))
  | inr n ↦ (λ e. absurd (n (within-fits bytes limit e)), λ t. absurd (n (t.0, t.1)))
]

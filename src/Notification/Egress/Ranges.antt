-- ===== src/Notification/Egress/Ranges.antt =====
-- The address ranges of packages/core/src/notification/egress.ts, as `range` reads them from
-- their notation.
use open_mcc_manager.Prelude.{ℕ, List, [], ◌∷◌}

-- `RejectionCategory`
pub data Category : Type 0 where
  loopback private reserved unreadable insecure credentials fragment parameters : Category

-- The texts that a refusal gives.
pub data Reason : Type 0 where
  points_back points_private points_reserved could_not_be_read : Reason
  not_a_web_address must_be_https no_credentials no_fragment : Reason
  not_a_server_address address_only : Reason

pub record Allowance : Type 0 where
  pub bytes : List ℕ
  pub bits : ℕ

pub record Range : Type 0 where
  pub allowance : Allowance
  pub reason : Reason
  pub category : Category

abbrev range : List ℕ → ℕ → Reason → Category → Range
range bytes bits reason category = record {
  allowance = record { bytes = bytes; bits = bits };
  reason = reason;
  category = category;
}

abbrev back : List ℕ → ℕ → Range
back bytes bits = range bytes bits points_back loopback

abbrev inside : List ℕ → ℕ → Range
inside bytes bits = range bytes bits points_private private

abbrev held : List ℕ → ℕ → Range
held bytes bits = range bytes bits points_reserved reserved

abbrev v4 : ℕ → ℕ → ℕ → ℕ → List ℕ
v4 a b c d = a ∷ b ∷ c ∷ d ∷ []

-- The first three pairs of bytes, an empty middle, and the last pair.
abbrev v6 : ℕ → ℕ → ℕ → ℕ → ℕ → ℕ → ℕ → ℕ → List ℕ
v6 a b c d e f y z = a ∷ b ∷ c ∷ d ∷ e ∷ f ∷ 0 ∷ 0 ∷ 0 ∷ 0 ∷ 0 ∷ 0 ∷ 0 ∷ 0 ∷ y ∷ z ∷ []

-- `NEVER_V4`
abbrev pub never_v4 : List Range
never_v4 =
    back (v4 0 0 0 0) 8
    ∷ held (v4 169 254 0 0) 16
    ∷ held (v4 224 0 0 0) 4
    ∷ held (v4 240 0 0 0) 4
    ∷ held (v4 100 100 100 100) 32
    ∷ held (v4 100 100 100 200) 32
    ∷ held (v4 192 0 0 192) 32
    ∷ []

-- `NEVER_V6`
abbrev pub never_v6 : List Range
never_v6 =
    back (v6 0 0 0 0 0 0 0 0) 128
    ∷ held (v6 0xff 0 0 0 0 0 0 0) 8
    ∷ held (v6 0xfe 0x80 0 0 0 0 0 0) 10
    ∷ held (v6 0xfd 0 0x0e 0xc2 0 0 0x02 0x54) 128
    ∷ []

-- `FORBIDDEN_V4`
abbrev pub forbidden_v4 : List Range
forbidden_v4 =
    inside (v4 10 0 0 0) 8
    ∷ inside (v4 100 64 0 0) 10
    ∷ back (v4 127 0 0 0) 8
    ∷ inside (v4 172 16 0 0) 12
    ∷ held (v4 192 0 0 0) 24
    ∷ held (v4 192 0 2 0) 24
    ∷ held (v4 192 88 99 0) 24
    ∷ inside (v4 192 168 0 0) 16
    ∷ held (v4 198 18 0 0) 15
    ∷ held (v4 198 51 100 0) 24
    ∷ held (v4 203 0 113 0) 24
    ∷ []

-- `GLOBAL_V6`
abbrev pub global_v6 : Range
global_v6 = held (v6 0x20 0 0 0 0 0 0 0) 3

-- `MAPPED_V4`
abbrev pub mapped_v4 : Range
mapped_v4 = held (0 ∷ 0 ∷ 0 ∷ 0 ∷ 0 ∷ 0 ∷ 0 ∷ 0 ∷ 0 ∷ 0 ∷ 0xff ∷ 0xff ∷ 0 ∷ 0 ∷ 0 ∷ 0 ∷ []) 96

-- `NON_GLOBAL_V6`
abbrev pub non_global_v6 : List Range
non_global_v6 =
    back (v6 0 0 0 0 0 0 0 1) 128
    ∷ inside (v6 0xfc 0 0 0 0 0 0 0) 7
    ∷ inside (v6 0xfe 0xc0 0 0 0 0 0 0) 10
    ∷ []

-- `FORBIDDEN_V6`
abbrev pub forbidden_v6 : List Range
forbidden_v6 =
    held (v6 0x20 0x01 0 0 0 0 0 0) 32
    ∷ held (v6 0x20 0x01 0 0x02 0 0 0 0) 48
    ∷ held (v6 0x20 0x01 0 0x10 0 0 0 0) 28
    ∷ held (v6 0x20 0x01 0 0x20 0 0 0 0) 28
    ∷ held (v6 0x20 0x01 0x0d 0xb8 0 0 0 0) 32
    ∷ held (v6 0x20 0x02 0 0 0 0 0 0) 16
    ∷ held (v6 0x3f 0xff 0 0 0 0 0 0) 20
    ∷ []

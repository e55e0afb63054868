-- ===== src/Notification/Egress/Parse.antt =====
-- Reading addresses: `parseV4`, `parseV6` and `allowanceOf` of
-- packages/core/src/notification/egress.ts, over texts as code points.
-- `is_ip` is `isIP` of node:net: 4, 6, or 0 for what is no address.
pub mod Bytes
mod Tests
use open_mcc_manager.Prelude.{
  ℕ, zero, suc, ◌+◌, ◌-◌, ◌*◌, ◌/◌, ◌%◌, Bool, ◌&&◌, ◌||◌, Option, none, some, List, [], ◌∷◌, ◌++◌,
  leb, ltb, ◌==◌, length, every, some_of, is_digit, decimal, lower, split_at, split_at_pair,
  if◌then◌else◌,
}
use open_mcc_manager.Notification.Egress.Ranges.{Allowance}

infixl 5 ◌>>=◌
abbrev ◌>>=◌ {ℓ κ} : {A : Type ℓ} {B : Type κ} → Option A → (A → Option B) → Option B
none >>= f = none
some a >>= f = f a

-- One part of a dotted address: `/^\d{1,3}$/`, and at most 255.
byte_of : List ℕ → Option ℕ
byte_of part =
    if leb 1 (length part) && leb (length part) 3 && every is_digit part
    then if ltb 255 (decimal 0 part) then none else some (decimal 0 part)
    else none

bytes_of : List (List ℕ) → Option (List ℕ)
bytes_of [] = some []
bytes_of (part ∷ parts) = do byte ← byte_of part; bytes ← bytes_of parts; some (byte ∷ bytes)

unfoldable pub parse_v4 : List ℕ → Option (List ℕ)
unfolding byte_of bytes_of
parse_v4 address =
    let parts = split_at b'.' address in if length parts == 4 then bytes_of parts else none

abbrev is_hex : ℕ → Bool
is_hex c = is_digit c || (leb b'a' (lower c) && leb (lower c) b'f')

hex_value : ℕ → ℕ
hex_value c = if is_digit c then c - b'0' else lower c - b'a' + 10

-- `Number.parseInt(group, 16)`, after the digits that make `n`.
hexadecimal : ℕ → List ℕ → ℕ
hexadecimal n [] = n
hexadecimal n (c ∷ cs) = hexadecimal (n * 16 + hex_value c) cs

-- `HEXTET`
hextet_of : List ℕ → Option ℕ
hextet_of group =
    if leb 1 (length group) && leb (length group) 4 && every is_hex group
    then some (hexadecimal 0 group)
    else none

-- `(a << 8) | b`, on bytes.
pair_up : List ℕ → Option (List ℕ)
pair_up (a ∷ b ∷ c ∷ d ∷ []) = some ((a * 256 + b) ∷ (c * 256 + d) ∷ [])
pair_up _ = none

-- The loop of `hextetsOf`: only the last group may be a dotted address.
hextets_from : List (List ℕ) → Option (List ℕ)
hextets_from [] = some []
hextets_from (group ∷ []) =
    if some_of (λ c. c == b'.') group
    then parse_v4 group >>= pair_up
    else hextet_of group >>= λ hextet. some (hextet ∷ [])
hextets_from (group ∷ g ∷ groups) = do
  hextet ← hextet_of group
  rest ← hextets_from (g ∷ groups)
  some (hextet ∷ rest)

hextets_of : List ℕ → Option (List ℕ)
hextets_of [] = some []
hextets_of (c ∷ cs) = hextets_from (split_at b':' (c ∷ cs))

octets_of : List ℕ → List ℕ
octets_of [] = []
octets_of (group ∷ groups) = group / 256 % 256 ∷ group % 256 ∷ octets_of groups

zeros : ℕ → List ℕ
zeros zero = []
zeros (suc n) = 0 ∷ zeros n

-- What stands before and behind `::` is read, and the gap is filled; without `::` all eight groups
-- must stand there.
halves_of : List (List ℕ) → Option (List ℕ)
halves_of (head ∷ tail ∷ []) = do
  front ← hextets_of head
  back ← hextets_of tail
  let gap = 8 - length front - length back
  if gap == 0 then none else some (octets_of (front ++ zeros gap ++ back))
halves_of (only ∷ []) = do
  groups ← hextets_of only
  if length groups == 8 then some (octets_of groups) else none
halves_of _ = none

pub parse_v6 : List ℕ → Option (List ℕ)
unfolding octets_of
parse_v6 address =
    if some_of (λ c. c == b'%') address then none else halves_of (split_at_pair b':' address)

-- `hostname.replace(/^\[|\]$/g, "")`
strip_open : List ℕ → List ℕ
strip_open [] = []
strip_open (c ∷ cs) = if c == b'[' then cs else c ∷ cs

strip_close : List ℕ → List ℕ
strip_close [] = []
strip_close (c ∷ []) = if c == b']' then [] else c ∷ []
strip_close (c ∷ d ∷ ds) = c ∷ strip_close (d ∷ ds)

unfoldable pub bare_hostname : List ℕ → List ℕ
unfolding strip_open strip_close
bare_hostname hostname = strip_close (strip_open hostname)

module _ (is_ip : List ℕ → ℕ) where
  unfoldable pub parse_address : List ℕ → Option (List ℕ)
  parse_address address =
      if is_ip address == 4
      then parse_v4 address
      else if is_ip address == 6
      then parse_v6 address
      else none

  -- `notation.indexOf("/")`, and what stands on its two sides.
  split_slash : List ℕ → List ℕ × Option (List ℕ)
  split_slash [] = ([], none)
  split_slash (c ∷ cs) =
      let (before, width) = split_slash cs in
      if c == b'/' then ([], some cs) else (c ∷ before, width)

  allowance_with : Option (List ℕ) → List ℕ → Option Allowance
  allowance_with none bytes = some (record { bytes = bytes; bits = length bytes * 8 })
  allowance_with (some width) bytes =
      if leb 1 (length width) && leb (length width) 3 && every is_digit width
      then if ltb (length bytes * 8) (decimal 0 width)
        then none
        else some (record { bytes = bytes; bits = decimal 0 width })
      else none

  pub allowance_of : List ℕ → Option Allowance
  unfolding split_slash allowance_with parse_address
  allowance_of notation =
      let (written, width) = split_slash notation in
      do bytes ← parse_address (bare_hostname written); allowance_with width bytes

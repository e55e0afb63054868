-- ===== src/Prelude/Tables.antt =====
-- Tables: lists whose places are names, with one place changed; and how often a number stands in
-- a list.
use Prim.Native.Nat.{ℕ, zero, suc, ◌+◌, ◌≤◌}
use mathlib.Core.Path.{◌≡◌, refl}
use mathlib.Core.Bool.{Bool, true, false}
use mathlib.Core.Option.{Option, none, some}
use mathlib.Core.List.{List, [], ◌∷◌, ◌++◌}
use native.Mathlib.Omega.{arith}
use open_mcc_manager.Prelude.Tests.{if◌then◌else◌, ◌==◌}
use open_mcc_manager.Prelude.Lists.{length}

abbrev pub bit : Bool → ℕ
bit true = 1
bit false = 0

module _ {ℓ} {A : Type ℓ} where
  unfoldable pub get_elem? : List A → ℕ → Option A
  get_elem? [] i = none
  get_elem? (x ∷ xs) zero = some x
  get_elem? (x ∷ xs) (suc i) = get_elem? xs i

  -- A change out of bounds changes nothing.
  unfoldable pub update_at : ℕ → (A → A) → List A → List A
  update_at i f [] = []
  update_at zero f (x ∷ xs) = f x ∷ xs
  update_at (suc i) f (x ∷ xs) = x ∷ update_at i f xs

  pub get_elem?-update_at :
      (i j : ℕ) (f : A → A) (xs : List A) {a : A}
      → get_elem? xs i ≡ some a
      → get_elem? (update_at i f xs) j ≡ (if i == j then some (f a) else get_elem? xs j)
  unfolding get_elem? update_at
  get_elem?-update_at i j f [] h = ground arith
  get_elem?-update_at zero zero f (x ∷ xs) h = ground arith
  get_elem?-update_at zero (suc j) f (x ∷ xs) h = ground arith
  get_elem?-update_at (suc i) zero f (x ∷ xs) h = ground arith
  get_elem?-update_at (suc i) (suc j) f (x ∷ xs) h = ground (arith, get_elem?-update_at i j f xs h)

  pub length-update_at : (i : ℕ) (f : A → A) (xs : List A) → length (update_at i f xs) ≡ length xs
  unfolding update_at
  length-update_at i f [] = refl
  length-update_at zero f (x ∷ xs) = refl
  length-update_at (suc i) f (x ∷ xs) = omega (arith, length-update_at i f xs)

  pub update_at-update_at :
      (i : ℕ) (f g : A → A) (xs : List A)
      → update_at i f (update_at i g xs) ≡ update_at i (λ a. f (g a)) xs
  unfolding update_at
  update_at-update_at i f g [] = refl
  update_at-update_at zero f g (x ∷ xs) = refl
  update_at-update_at (suc i) f g (x ∷ xs) = rw (update_at-update_at i f g xs)

  pub get_elem?-append_one :
      (xs : List A) (a : A) (j : ℕ)
      → get_elem? (xs ++ a ∷ []) j ≡ (if j == length xs then some a else get_elem? xs j)
  unfolding get_elem?
  get_elem?-append_one [] a zero = ground arith
  get_elem?-append_one [] a (suc j) = ground arith
  get_elem?-append_one (x ∷ xs) a zero = ground arith
  get_elem?-append_one (x ∷ xs) a (suc j) = ground (arith, get_elem?-append_one xs a j)

  pub get_elem?-none : (xs : List A) (j : ℕ) → length xs ≤ j → get_elem? xs j ≡ none
  unfolding get_elem?
  get_elem?-none [] j h = refl
  get_elem?-none (x ∷ xs) zero h = absurd (omega arith)
  get_elem?-none (x ∷ xs) (suc j) h = get_elem?-none xs j (omega arith)

  -- How many entries pass a test.
  unfoldable pub count_if : (A → Bool) → List A → ℕ
  count_if test [] = 0
  count_if test (x ∷ xs) = bit (test x) + count_if test xs

  pub count_if-update_at :
      (test : A → Bool) (i : ℕ) (f : A → A) (xs : List A) {a : A}
      → get_elem? xs i ≡ some a
      → count_if test (update_at i f xs) + bit (test a) ≡ count_if test xs + bit (test (f a))
  unfolding get_elem? update_at count_if
  count_if-update_at test i f [] h = ground arith
  count_if-update_at test zero f (x ∷ xs) h = ground arith
  count_if-update_at test (suc i) f (x ∷ xs) h = ground (arith, count_if-update_at test i f xs h)

  pub count_if-append_one :
      (test : A → Bool) (xs : List A) (a : A)
      → count_if test (xs ++ a ∷ []) ≡ count_if test xs + bit (test a)
  unfolding count_if
  count_if-append_one test [] a = omega arith
  count_if-append_one test (x ∷ xs) a = omega (arith, count_if-append_one test xs a)

  pub count_if-zero :
      (test : A → Bool) (xs : List A)
      → ((j : ℕ) (a : A) → get_elem? xs j ≡ some a → test a ≡ false)
      → count_if test xs ≡ 0
  unfolding get_elem? count_if
  count_if-zero test [] h = refl
  count_if-zero test (x ∷ xs) h =
      ground (arith, h 0 x refl, count_if-zero test xs (λ j a e. h (suc j) a e))

-- How often a number stands in a list.
unfoldable pub times_in : ℕ → List ℕ → ℕ
times_in a [] = 0
times_in a (x ∷ xs) = bit (x == a) + times_in a xs

pub times_in-append :
    (a : ℕ) (xs ys : List ℕ) → times_in a (xs ++ ys) ≡ times_in a xs + times_in a ys
unfolding times_in
times_in-append a [] ys = omega arith
times_in-append a (x ∷ xs) ys = omega (arith, times_in-append a xs ys)

pub times_in-nil : (xs : List ℕ) → ((a : ℕ) → times_in a xs ≡ 0) → xs ≡ []
unfolding times_in
times_in-nil [] h = refl
times_in-nil (x ∷ xs) h = ground (arith, h x)

-- ===== src/Prelude/Bits.antt =====
-- Laws of `&` and `|` at every width, from the recursion on binary digits that they stand for.
use Prim.Native.Nat.{min, max, digits, bit_and-bitwise, bit_or-bitwise}
use Prim.Native.Nat.{ℕ, zero, suc, ◌+◌, ◌*◌, ◌/◌, ◌%◌, ◌^◌, ◌≤◌, bit_and, bit_or}
use mathlib.Core.Path.{◌≡◌, refl}
use mathlib.Core.Bool.{true}
use mathlib.Core.Logic.{◌↔◌, ◌⊎◌, inl}
use janetland.Prelude.Tests.{◌==◌}
use native.Mathlib.Nat.{le_refl, pow-suc}
use native.Mathlib.Omega.{arith}

-- Two runs of the digit recursion agree as soon as both have fuel for the first word.
same_digits :
    (rest : ℕ → ℕ) (op : ℕ → ℕ → ℕ) (x : ℕ) (k l y : ℕ)
    → x ≤ k
    → x ≤ l
    → digits rest op k x y ≡ digits rest op l x y
same_digits rest op x zero zero y h j = refl
same_digits rest op zero zero (suc l) y h j = refl
same_digits rest op zero (suc k) zero y h j = refl
same_digits rest op zero (suc k) (suc l) y h j = refl
same_digits rest op (suc x) zero (suc l) y h j = absurd (omega arith)
same_digits rest op (suc x) (suc k) zero y h j = absurd (omega arith)
same_digits rest op (suc x) (suc k) (suc l) y h j =
    let half = suc x / 2 in
    let step = same_digits rest op half k l (y / 2) (omega arith) (omega arith) in rw step

-- The lowest digit of `&` is the minimum, that of `|` the maximum.
pub bit_and-digit : (x y : ℕ) → bit_and x y ≡ bit_and (x / 2) (y / 2) * 2 + min (x % 2) (y % 2)
bit_and-digit zero y = omega (arith, bit_and-bitwise 0 y, bit_and-bitwise 0 (y / 2))
bit_and-digit (suc x) y =
    let h =
      same_digits (λ d. zero) min (suc x / 2) x (suc x / 2) (y / 2) (omega arith) (omega arith) in
    omega (arith, bit_and-bitwise (suc x) y, bit_and-bitwise (suc x / 2) (y / 2), h)

pub bit_or-digit : (x y : ℕ) → bit_or x y ≡ bit_or (x / 2) (y / 2) * 2 + max (x % 2) (y % 2)
bit_or-digit zero y = omega (arith, bit_or-bitwise 0 y, bit_or-bitwise 0 (y / 2))
bit_or-digit (suc x) y =
    let h =
      same_digits (λ d. d) max (suc x / 2) x (suc x / 2) (y / 2) (omega arith) (omega arith) in
    omega (arith, bit_or-bitwise (suc x) y, bit_or-bitwise (suc x / 2) (y / 2), h)

-- What the digit recursion says of the two halves of a result.
half-bit_or :
    (x y : ℕ) → (bit_or x y / 2 ≡ bit_or (x / 2) (y / 2)) × (bit_or x y % 2 ≡ max (x % 2) (y % 2))
half-bit_or x y = omega (arith, bit_or-digit x y)

half-bit_and :
    (x y : ℕ)
    → (bit_and x y / 2 ≡ bit_and (x / 2) (y / 2)) × (bit_and x y % 2 ≡ min (x % 2) (y % 2))
half-bit_and x y = omega (arith, bit_and-digit x y)

-- Each law is proved below a bound that the first word's half meets one step earlier.
bit_and-zero_below : (n x : ℕ) → x ≤ n → bit_and x 0 ≡ 0
bit_and-zero_below zero zero h = refl
bit_and-zero_below zero (suc x) h = absurd (omega arith)
bit_and-zero_below (suc n) zero h = refl
bit_and-zero_below (suc n) (suc x) h =
    omega (arith, bit_and-digit (suc x) 0, bit_and-zero_below n (suc x / 2) (omega arith))

bit_or-zero_below : (n x : ℕ) → x ≤ n → bit_or x 0 ≡ x
bit_or-zero_below zero zero h = refl
bit_or-zero_below zero (suc x) h = absurd (omega arith)
bit_or-zero_below (suc n) zero h = refl
bit_or-zero_below (suc n) (suc x) h =
    omega (arith, bit_or-digit (suc x) 0, bit_or-zero_below n (suc x / 2) (omega arith))

pub bit_and-zero : (x : ℕ) → bit_and x 0 ≡ 0
bit_and-zero x = bit_and-zero_below x x (le_refl x)

pub bit_or-zero : (x : ℕ) → bit_or x 0 ≡ x
bit_or-zero x = bit_or-zero_below x x (le_refl x)

pub zero-bit_and : (x : ℕ) → bit_and 0 x ≡ 0
zero-bit_and x = bit_and-bitwise 0 x

pub zero-bit_or : (x : ℕ) → bit_or 0 x ≡ x
zero-bit_or x = bit_or-bitwise 0 x

bit_or_assoc_below : (n x y z : ℕ) → x ≤ n → bit_or (bit_or x y) z ≡ bit_or x (bit_or y z)
bit_or_assoc_below n zero y z h = rw (zero-bit_or y, zero-bit_or (bit_or y z))
bit_or_assoc_below zero (suc x) y z h = absurd (omega arith)
bit_or_assoc_below (suc n) (suc x) y z h = ground (
  arith,
  bit_or-digit (bit_or (suc x) y) z,
  bit_or-digit (suc x) (bit_or y z),
  half-bit_or (suc x) y,
  half-bit_or y z,
  bit_or_assoc_below n (suc x / 2) (y / 2) (z / 2) (omega arith),
)

pub bit_or_assoc : (x y z : ℕ) → bit_or (bit_or x y) z ≡ bit_or x (bit_or y z)
bit_or_assoc x y z = bit_or_assoc_below x x y z (le_refl x)

bit_or_comm_below : (n x y : ℕ) → x ≤ n → bit_or x y ≡ bit_or y x
bit_or_comm_below n zero y h = rw (zero-bit_or y, bit_or-zero y)
bit_or_comm_below zero (suc x) y h = absurd (omega arith)
bit_or_comm_below (suc n) (suc x) y h = omega (
  arith,
  bit_or-digit (suc x) y,
  bit_or-digit y (suc x),
  bit_or_comm_below n (suc x / 2) (y / 2) (omega arith),
)

pub bit_or_comm : (x y : ℕ) → bit_or x y ≡ bit_or y x
bit_or_comm x y = bit_or_comm_below x x y (le_refl x)

bit_or_idem_below : (n x : ℕ) → x ≤ n → bit_or x x ≡ x
bit_or_idem_below n zero h = refl
bit_or_idem_below zero (suc x) h = absurd (omega arith)
bit_or_idem_below (suc n) (suc x) h =
    omega (arith, bit_or-digit (suc x) (suc x), bit_or_idem_below n (suc x / 2) (omega arith))

pub bit_or_idem : (x : ℕ) → bit_or x x ≡ x
bit_or_idem x = bit_or_idem_below x x (le_refl x)

bit_and-bit_or_below :
    (n x y z : ℕ) → x ≤ n → bit_and x (bit_or y z) ≡ bit_or (bit_and x y) (bit_and x z)
bit_and-bit_or_below n zero y z h = rw (zero-bit_and (bit_or y z), zero-bit_and y, zero-bit_and z)
bit_and-bit_or_below zero (suc x) y z h = absurd (omega arith)
bit_and-bit_or_below (suc n) (suc x) y z h = ground (
  arith,
  bit_and-digit (suc x) (bit_or y z),
  bit_or-digit (bit_and (suc x) y) (bit_and (suc x) z),
  half-bit_or y z,
  half-bit_and (suc x) y,
  half-bit_and (suc x) z,
  bit_and-bit_or_below n (suc x / 2) (y / 2) (z / 2) (omega arith),
)

-- `&` distributes over `|`.
pub bit_and-bit_or : (x y z : ℕ) → bit_and x (bit_or y z) ≡ bit_or (bit_and x y) (bit_and x z)
bit_and-bit_or x y z = bit_and-bit_or_below x x y z (le_refl x)

-- A word that `&` with any other leaves whole or empties: one bit, or none.
abbrev pub IsOneBit : ℕ → Type 0
IsOneBit key = (flags : ℕ) → (bit_and flags key ≡ 0) ⊎ (bit_and flags key ≡ key)

pub zero-IsOneBit : IsOneBit 0
zero-IsOneBit flags = inl (bit_and-zero flags)

-- Every power of two is such a word.
pub pow-IsOneBit : (k : ℕ) → IsOneBit (2 ^ k)
pow-IsOneBit zero flags = omega (arith, bit_and-digit flags 1, bit_and-zero (flags / 2))
pow-IsOneBit (suc k) flags =
    ground (arith, pow-suc 2 k, bit_and-digit flags (2 ^ suc k), pow-IsOneBit k (flags / 2))

-- `!(argc & 0x01)`
pub argc_even : (n : ℕ) → (n % 2 ≡ 0) ↔ ((bit_and n 0x01 == 0) ≡ true)
argc_even n = ground (arith, bit_and-digit n 1, bit_and-zero (n / 2))

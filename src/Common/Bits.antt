-- ===== src/Common/Bits.antt =====
-- The bit operations read bit by bit, at every width.
use Prim.Native.Nat.{
  ℕ, zero, suc, ◌+◌, ◌-◌, ◌*◌, ◌/◌, ◌%◌, ◌^◌, ◌≤◌, ◌<◌, min, max, bit_and, bit_or, digits,
  bit_and-bitwise, bit_or-bitwise, bitwise,
}
use mathlib.Core.Path.{◌≡◌, refl}
use mathlib.Core.Bool.{false, ◌&&◌, ◌||◌, not}
use native.Mathlib.Omega.{arith}
use native.Mathlib.Nat.{pow-suc, one-le-pow}
use rv32imac_soc.Common.Tests.{◌==◌}
use rv32imac_soc.Common.Words.{is_set, bit}

-- The definition behind the native operations recurs on fuel; any fuel that is enough gives the
-- same word, so the lowest digit splits off.
module _ (rest : ℕ → ℕ) (join : ℕ → ℕ → ℕ) where
  agree : (x y k l : ℕ) → x ≤ l → x ≤ k → digits rest join k x y ≡ digits rest join l x y
  agree zero y zero zero hl hk = refl
  agree zero y (suc k) zero hl hk = refl
  agree zero y zero (suc l) hl hk = refl
  agree zero y (suc k) (suc l) hl hk = refl
  agree (suc x) y k zero hl hk = absurd (omega arith)
  agree (suc x) y zero (suc l) hl hk = absurd (omega arith)
  agree (suc x) y (suc k) (suc l) hl hk =
      let half = agree (suc x / 2) (y / 2) k l (omega arith) (omega arith) in omega arith

  split_digit :
      (x y : ℕ)
      → bitwise rest join (suc x) y
        ≡ bitwise rest join (suc x / 2) (y / 2) * 2 + join (suc x % 2) (y % 2)
  split_digit x y =
      let half = agree (suc x / 2) (y / 2) x (suc x / 2) (omega arith) (omega arith) in omega arith

pub bit_and-digit : (x y : ℕ) → bit_and x y ≡ bit_and (x / 2) (y / 2) * 2 + min (x % 2) (y % 2)
bit_and-digit zero y = omega (arith, bit_and-bitwise 0 (y / 2), bit_and-bitwise 0 y)
bit_and-digit (suc x) y =
    let whole = bit_and-bitwise (suc x) y in
    let halves = bit_and-bitwise (suc x / 2) (y / 2) in
    omega (arith, split_digit (λ rest. 0) min x y)

pub bit_or-digit : (x y : ℕ) → bit_or x y ≡ bit_or (x / 2) (y / 2) * 2 + max (x % 2) (y % 2)
bit_or-digit zero y = omega (arith, bit_or-bitwise 0 (y / 2), bit_or-bitwise 0 y)
bit_or-digit (suc x) y =
    let whole = bit_or-bitwise (suc x) y in
    let halves = bit_or-bitwise (suc x / 2) (y / 2) in
    omega (arith, split_digit (λ rest. rest) max x y)

pub is_set-and : (a b n : ℕ) → is_set (bit_and a b) n ≡ (is_set a n && is_set b n)
is_set-and a b zero = ground (arith, bit_and-digit a b)
is_set-and a b (suc n) =
    let half : bit_and a b / 2 ≡ bit_and (a / 2) (b / 2) = omega (arith, bit_and-digit a b) in
    rw half (is_set-and (a / 2) (b / 2) n)

pub is_set-or : (a b n : ℕ) → is_set (bit_or a b) n ≡ (is_set a n || is_set b n)
is_set-or a b zero = ground (arith, bit_or-digit a b)
is_set-or a b (suc n) =
    let half : bit_or a b / 2 ≡ bit_or (a / 2) (b / 2) = omega (arith, bit_or-digit a b) in
    rw half (is_set-or (a / 2) (b / 2) n)

pub is_set-zero : (n : ℕ) → is_set 0 n ≡ false
is_set-zero zero = refl
is_set-zero (suc n) = is_set-zero n

-- A word with one bit set.
pub is_set-bit : (i n : ℕ) → is_set (bit i) n ≡ (i == n)
is_set-bit zero zero = refl
is_set-bit zero (suc n) = ground (arith, is_set-zero n)
is_set-bit (suc i) zero = ground (arith, pow-suc 2 i)
is_set-bit (suc i) (suc n) =
    let half : bit (suc i) / 2 ≡ bit i = omega (arith, pow-suc 2 i) in
    rw half (ground (arith, is_set-bit i n))

-- The complement on k wires turns every one of them over.
pub is_set-not : (k w n : ℕ) → w < 2 ^ k → n < k → is_set (2 ^ k - 1 - w) n ≡ not (is_set w n)
is_set-not zero w n hw hn = absurd (omega arith)
is_set-not (suc k) w zero hw hn = ground (arith, pow-suc 2 k, one-le-pow k 2)
is_set-not (suc k) w (suc n) hw hn =
    let half : (2 ^ suc k - 1 - w) / 2 ≡ 2 ^ k - 1 - w / 2 = omega (arith, pow-suc 2 k) in
    rw half (is_set-not k (w / 2) n (omega (arith, pow-suc 2 k)) (omega arith))

bit_and-le_fuel : (k a b : ℕ) → a ≤ k → bit_and a b ≤ a
bit_and-le_fuel k zero b h = omega (arith, bit_and-bitwise 0 b)
bit_and-le_fuel zero (suc a) b h = absurd (omega arith)
bit_and-le_fuel (suc k) (suc a) b h =
    omega (arith, bit_and-digit (suc a) b, bit_and-le_fuel k (suc a / 2) (b / 2) (omega arith))

pub bit_and-le : (a b : ℕ) → bit_and a b ≤ a
bit_and-le a b = bit_and-le_fuel a a b (omega arith)

pub bit_or-lt : (k a b : ℕ) → a < 2 ^ k → b < 2 ^ k → bit_or a b < 2 ^ k
bit_or-lt zero zero zero ha hb = omega arith
bit_or-lt zero (suc a) b ha hb = absurd (omega arith)
bit_or-lt zero zero (suc b) ha hb = absurd (omega arith)
bit_or-lt (suc k) a b ha hb = omega (
  arith,
  pow-suc 2 k,
  bit_or-digit a b,
  bit_or-lt k (a / 2) (b / 2) (omega (arith, pow-suc 2 k)) (omega (arith, pow-suc 2 k)),
)

pub bit_lt : (k i : ℕ) → i < k → bit i < 2 ^ k
bit_lt zero i h = absurd (omega arith)
bit_lt (suc k) zero h = omega (arith, pow-suc 2 k, one-le-pow k 2)
bit_lt (suc k) (suc i) h = omega (arith, pow-suc 2 k, pow-suc 2 i, bit_lt k i (omega arith))

-- Two words of k bits with the same bits are one word.
pub word_ext :
    (k a b : ℕ) → a < 2 ^ k → b < 2 ^ k → ((n : ℕ) → n < k → is_set a n ≡ is_set b n) → a ≡ b
word_ext zero a b ha hb h = omega arith
word_ext (suc k) a b ha hb h =
    let halves : a / 2 ≡ b / 2 =
      word_ext k (a / 2) (b / 2) (omega (arith, pow-suc 2 k)) (omega (arith, pow-suc 2 k))
        (λ n p. h (suc n) (omega arith)) in
    ground (arith, h 0 (omega arith))

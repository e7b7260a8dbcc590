-- ===== src/Crc/Xor.antt =====
-- Exclusive or on numbers, digit by digit.
use ulppk.Base.{
  ℕ, zero, suc, ◌+◌, ◌*◌, ◌/◌, ◌%◌, ◌≤◌, ◌<◌, ◌≡◌, refl, sym, ap, ap₂, ◌∙◌, arith, u16,
}
use Prim.Native.Nat.{bit_xor, bitwise, differ, bit_xor-bitwise}
use ulppk.Crc.Digits.{bitwise_lowest}

differ_bits : (x y : ℕ) → x < 2 → y < 2 → differ x y ≡ (x + y) % 2
differ_bits zero y h k = omega arith
differ_bits (suc zero) zero h k = omega arith
differ_bits (suc zero) (suc zero) h k = omega arith
differ_bits (suc zero) (suc (suc y)) h k = absurd (omega arith)
differ_bits (suc (suc x)) y h k = absurd (omega arith)

pub zero-bit_xor : (y : ℕ) → bit_xor 0 y ≡ y
zero-bit_xor = bit_xor-bitwise 0

-- The lowest digits apart.
pub bit_xor_step : (a b : ℕ) → bit_xor a b ≡ bit_xor (a / 2) (b / 2) * 2 + (a % 2 + b % 2) % 2
bit_xor_step (suc x) y =
    let halved : bit_xor (suc x / 2) (y / 2) ≡ bitwise (λ d. d) differ (suc x / 2) (y / 2) =
      bit_xor-bitwise (suc x / 2) (y / 2) in
    let sum : differ (suc x % 2) (y % 2) ≡ (suc x % 2 + y % 2) % 2 =
      differ_bits (suc x % 2) (y % 2) (omega arith) (omega arith) in
    bit_xor-bitwise (suc x) y
    ∙ bitwise_lowest (λ d. d) differ x y
    ∙ ap₂ (λ rest d. rest * 2 + d) (sym halved) sum
bit_xor_step zero y = zero-bit_xor y ∙ omega (arith, zero-bit_xor (y / 2))

-- The laws, for numbers of at most `n` digits.
xor_comm_fuel : (n a b : ℕ) → a ≤ n → b ≤ n → bit_xor a b ≡ bit_xor b a
xor_comm_fuel zero zero zero p q = refl
xor_comm_fuel zero zero (suc b) p q = absurd (omega arith)
xor_comm_fuel zero (suc a) b p q = absurd (omega arith)
xor_comm_fuel (suc n) a b p q = omega (
  arith,
  bit_xor_step a b,
  bit_xor_step b a,
  xor_comm_fuel n (a / 2) (b / 2) (omega arith) (omega arith),
)

pub bit_xor_comm : (a b : ℕ) → bit_xor a b ≡ bit_xor b a
bit_xor_comm a b = xor_comm_fuel (a + b) a b (omega arith) (omega arith)

pub bit_xor-half : (a b : ℕ) → bit_xor a b / 2 ≡ bit_xor (a / 2) (b / 2)
bit_xor-half a b = omega (arith, bit_xor_step a b)

pub bit_xor-parity : (a b : ℕ) → bit_xor a b % 2 ≡ (a % 2 + b % 2) % 2
bit_xor-parity a b = omega (arith, bit_xor_step a b)

xor_assoc_fuel :
    (n a b c : ℕ) → a ≤ n → b ≤ n → c ≤ n → bit_xor (bit_xor a b) c ≡ bit_xor a (bit_xor b c)
xor_assoc_fuel zero zero zero zero p q r = refl
xor_assoc_fuel zero (suc a) b c p q r = absurd (omega arith)
xor_assoc_fuel zero zero (suc b) c p q r = absurd (omega arith)
xor_assoc_fuel zero zero zero (suc c) p q r = absurd (omega arith)
xor_assoc_fuel (suc n) a b c p q r =
    bit_xor_step (bit_xor a b) c
    ∙ ap (λ d. bit_xor d (c / 2) * 2 + (bit_xor a b % 2 + c % 2) % 2) (bit_xor-half a b)
    ∙ omega (
      arith,
      xor_assoc_fuel n (a / 2) (b / 2) (c / 2) (omega arith) (omega arith) (omega arith),
      bit_xor-parity a b,
      bit_xor-parity b c,
    )
    ∙ ap (λ d. bit_xor (a / 2) d * 2 + (a % 2 + bit_xor b c % 2) % 2) (sym (bit_xor-half b c))
    ∙ sym (bit_xor_step a (bit_xor b c))

pub bit_xor_assoc : (a b c : ℕ) → bit_xor (bit_xor a b) c ≡ bit_xor a (bit_xor b c)
bit_xor_assoc a b c = xor_assoc_fuel (a + b + c) a b c (omega arith) (omega arith) (omega arith)

-- Shifts and remainders by powers of two.
pub double-bit_xor : (a b : ℕ) → bit_xor (a * 2) (b * 2) ≡ bit_xor a b * 2
double-bit_xor a b =
    let ea : a * 2 / 2 ≡ a = omega arith in
    let eb : b * 2 / 2 ≡ b = omega arith in
    bit_xor_step (a * 2) (b * 2)
    ∙ ap (λ d. d * 2 + (a * 2 % 2 + b * 2 % 2) % 2) (ap₂ bit_xor ea eb)
    ∙ omega arith

pub bit_xor_self : (a : ℕ) → bit_xor a a ≡ 0
bit_xor_self a = self_fuel a a (omega arith)
  where
    self_fuel : (n a : ℕ) → a ≤ n → bit_xor a a ≡ 0
    self_fuel zero zero p = refl
    self_fuel zero (suc a) p = absurd (omega arith)
    self_fuel (suc n) a p = omega (arith, bit_xor_step a a, self_fuel n (a / 2) (omega arith))

-- All but the last `k` binary digits, and the last `k`.
abbrev pub halves : ℕ → ℕ → ℕ
halves zero a = a
halves (suc k) a = halves k (a / 2)

abbrev pub low : ℕ → ℕ → ℕ
low zero a = 0
low (suc k) a = low k (a / 2) * 2 + a % 2

pub halves-bit_xor : (k a b : ℕ) → halves k (bit_xor a b) ≡ bit_xor (halves k a) (halves k b)
halves-bit_xor zero a b = refl
halves-bit_xor (suc k) a b = ap (halves k) (bit_xor-half a b) ∙ halves-bit_xor k (a / 2) (b / 2)

pub low-bit_xor : (k a b : ℕ) → low k (bit_xor a b) ≡ bit_xor (low k a) (low k b)
low-bit_xor zero a b = refl
low-bit_xor (suc k) a b =
    let h : low k (bit_xor a b / 2) ≡ bit_xor (low k (a / 2)) (low k (b / 2)) =
      ap (low k) (bit_xor-half a b) ∙ low-bit_xor k (a / 2) (b / 2) in
    let ea : low (suc k) a / 2 ≡ low k (a / 2) = omega arith in
    let eb : low (suc k) b / 2 ≡ low k (b / 2) = omega arith in
    omega (
      arith,
      h,
      bit_xor-parity a b,
      bit_xor_step (low (suc k) a) (low (suc k) b),
      ap₂ bit_xor ea eb,
    )

-- Numbers of 16 bits.
pub low_sixteen : (a : ℕ) → low 16 a ≡ u16 a
low_sixteen a = omega arith

pub u16-bit_xor : (a b : ℕ) → u16 (bit_xor a b) ≡ bit_xor (u16 a) (u16 b)
u16-bit_xor a b =
    sym (low_sixteen (bit_xor a b))
    ∙ low-bit_xor 16 a b
    ∙ ap₂ bit_xor (low_sixteen a) (low_sixteen b)

pub bit_xor_swap : (a b c : ℕ) → bit_xor (bit_xor a b) c ≡ bit_xor (bit_xor a c) b
bit_xor_swap a b c =
    bit_xor_assoc a b c ∙ ap (bit_xor a) (bit_xor_comm b c) ∙ sym (bit_xor_assoc a c b)

pub bit_xor_cancel : (a b : ℕ) → bit_xor a (bit_xor a b) ≡ b
bit_xor_cancel a b =
    sym (bit_xor_assoc a a b) ∙ ap (λ d. bit_xor d b) (bit_xor_self a) ∙ zero-bit_xor b

pub bit_xor_interchange :
    (a b c d : ℕ) → bit_xor (bit_xor a b) (bit_xor c d) ≡ bit_xor (bit_xor a c) (bit_xor b d)
bit_xor_interchange a b c d =
    sym (bit_xor_assoc (bit_xor a b) c d)
    ∙ ap (λ e. bit_xor e d) (bit_xor_swap a b c)
    ∙ bit_xor_assoc (bit_xor a c) b d

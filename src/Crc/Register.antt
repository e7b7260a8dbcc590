-- ===== src/Crc/Register.antt =====
-- The register of ulppk/crc16ccitt.c as one bit after another goes through it.
use ulppk.Base.{
  min, ℕ, zero, suc, ◌+◌, ◌*◌, ◌/◌, ◌%◌, ◌<◌, ◌≡◌, refl, sym, ap, ap₂, ◌∙◌, arith, u16, ◌==◌,
  if◌then◌else◌, inl, inr, Bool-cases,
}
use Prim.Native.Nat.{bit_and, bit_xor, bit_and-bitwise}
use ulppk.Crc.Digits.{bitwise_lowest}
use ulppk.Crc.{shift_rounds, p_ccitt}
use ulppk.Crc.Xor.{
  bit_xor-half, bit_xor_comm, bit_xor_swap, bit_xor_interchange, double-bit_xor, u16-bit_xor,
  zero-bit_xor, low,
}

nothing-bit_and : (y : ℕ) → bit_and 0 y ≡ 0
nothing-bit_and = bit_and-bitwise 0

-- The lowest digits apart.
lowest-bit_and : (x y : ℕ) → bit_and x y ≡ bit_and (x / 2) (y / 2) * 2 + min (x % 2) (y % 2)
lowest-bit_and (suc x) y =
    bit_and-bitwise (suc x) y
    ∙ bitwise_lowest (λ d. 0) min x y
    ∙ ap (λ rest. rest * 2 + min (suc x % 2) (y % 2)) (sym (bit_and-bitwise (suc x / 2) (y / 2)))
lowest-bit_and zero y = nothing-bit_and y ∙ omega (arith, nothing-bit_and (y / 2))

-- The number whose one bit is at place `k`.
abbrev bit : ℕ → ℕ
bit zero = 1
bit (suc k) = bit k * 2

-- A number below the bit that is tested does not change the test.
bit_and-bit_xor : (k p w : ℕ) → w < bit k → bit_and (bit_xor p w) (bit k) ≡ bit_and p (bit k)
bit_and-bit_xor zero p w h =
    let e : w ≡ 0 = omega arith in
    ap (λ d. bit_and d 1) (ap (bit_xor p) e ∙ bit_xor_comm p 0 ∙ zero-bit_xor p)
bit_and-bit_xor (suc k) p w h =
    let half : bit k * 2 / 2 ≡ bit k = omega arith in
    let ih : bit_and (bit_xor p w / 2) (bit k * 2 / 2) ≡ bit_and (p / 2) (bit k * 2 / 2) =
      ap₂ bit_and (bit_xor-half p w) half
      ∙ bit_and-bit_xor k (p / 2) (w / 2) (omega arith)
      ∙ ap (bit_and (p / 2)) (sym half) in
    omega (arith, ih, lowest-bit_and (bit_xor p w) (bit k * 2), lowest-bit_and p (bit k * 2))

-- A byte is left alone by its mask.
ones : ℕ → ℕ
ones zero = 0
ones (suc k) = ones k * 2 + 1

bit_and-ones : (k c : ℕ) → bit_and (ones k) c ≡ low k c
unfolding ones
bit_and-ones zero c = nothing-bit_and c
bit_and-ones (suc k) c =
    let half : (ones k * 2 + 1) / 2 ≡ ones k = omega arith in
    let ih : bit_and ((ones k * 2 + 1) / 2) (c / 2) ≡ low k (c / 2) =
      ap (λ d. bit_and d (c / 2)) half ∙ bit_and-ones k (c / 2) in
    omega (arith, ih, lowest-bit_and (ones k * 2 + 1) c)

pub bit_and_byte : (c : ℕ) → c < 256 → bit_and 0x00FF c ≡ c
unfolding ones
bit_and_byte c h = bit_and-ones 8 c ∙ omega arith

-- One round of the loop, on the register alone and the bits that come in.
shift_round : ℕ → ℕ → ℕ
shift_round crc c =
    if bit_and (bit_xor crc c) 0x8000 == 0 then u16 (crc * 2) else u16 (bit_xor (crc * 2) p_ccitt)

shift_rounds-suc :
    (n crc c : ℕ) → shift_rounds (suc n) crc c ≡ shift_rounds n (shift_round crc c) (u16 (c * 2))
unfolding shift_rounds shift_round
shift_rounds-suc n crc c = refl

u16-double-bit_xor : (x y : ℕ) → u16 (bit_xor x y * 2) ≡ bit_xor (u16 (x * 2)) (u16 (y * 2))
u16-double-bit_xor x y = ap u16 (sym (double-bit_xor x y)) ∙ u16-bit_xor (x * 2) (y * 2)

-- A round is linear where the test is the same.
shift_round-bit_xor :
    (crc c y z : ℕ)
    → bit_xor y z < 0x8000
    → shift_round (bit_xor crc y) (bit_xor c z) ≡ bit_xor (shift_round crc c) (u16 (y * 2))
unfolding shift_round
shift_round-bit_xor crc c y z h =
    let test : bit_and (bit_xor (bit_xor crc y) (bit_xor c z)) 0x8000
        ≡ bit_and (bit_xor crc c) 0x8000 =
      ap (λ d. bit_and d 0x8000) (bit_xor_interchange crc y c z)
      ∙ bit_and-bit_xor 15 (bit_xor crc c) (bit_xor y z) h in
    elim (Bool-cases (bit_and (bit_xor crc c) 0x8000 == 0)) [
      | inl e ↦ rw (test, e) (u16-double-bit_xor crc y)
      | inr e ↦
          rw (test, e)
            (ap u16 (
                ap (λ d. bit_xor d p_ccitt) (sym (double-bit_xor crc y))
                ∙ bit_xor_swap (crc * 2) (y * 2) p_ccitt)
              ∙ u16-bit_xor (bit_xor (crc * 2) p_ccitt) (y * 2))
    ]

-- Eight shifts, and the sums of two numbers that stay below the top bit for `n` of them.
pub shifts : ℕ → ℕ → ℕ
shifts zero y = y
shifts (suc n) y = shifts n (u16 (y * 2))

pub FitsShifts : ℕ → ℕ → Type 0
FitsShifts zero w = Unit
FitsShifts (suc n) w = (w < 0x8000) × FitsShifts n (w * 2)

pub shift_rounds-bit_xor :
    (n crc c y z w : ℕ)
    → bit_xor y z ≡ w
    → FitsShifts n w
    → shift_rounds n (bit_xor crc y) (bit_xor c z) ≡ bit_xor (shift_rounds n crc c) (shifts n y)
unfolding shift_rounds FitsShifts shifts
shift_rounds-bit_xor zero crc c y z w e f = refl
shift_rounds-bit_xor (suc n) crc c y z w e (small, f) =
    let fits : bit_xor y z < 0x8000 = rw e small in
    let twice : bit_xor (u16 (y * 2)) (u16 (z * 2)) ≡ w * 2 =
      sym (u16-double-bit_xor y z) ∙ omega (arith, e) in
    shift_rounds-suc n (bit_xor crc y) (bit_xor c z)
    ∙ ap₂ (shift_rounds n) (shift_round-bit_xor crc c y z fits) (u16-double-bit_xor c z)
    ∙ shift_rounds-bit_xor n (shift_round crc c) (u16 (c * 2)) (u16 (y * 2)) (u16 (z * 2)) (w * 2)
        twice f
    ∙ ap (λ d. bit_xor d (shifts n (u16 (y * 2)))) (sym (shift_rounds-suc n crc c))

pub shifts_byte : (y : ℕ) → shifts 8 y ≡ u16 (y * 256)
unfolding shifts
shifts_byte y = omega arith

pub FitsShifts-byte : (w : ℕ) → w < 256 → FitsShifts 8 w
unfolding FitsShifts
FitsShifts-byte w h = (
  omega arith,
  (
    omega arith,
    (omega arith, (omega arith, (omega arith, (omega arith, (omega arith, (omega arith, tt)))))),
  ),
)

-- The register keeps to 16 bits.
shift_round_bound : (crc c : ℕ) → shift_round crc c < 0x10000
unfolding shift_round
shift_round_bound crc c = ground arith

pub shift_rounds_bound : (n crc c : ℕ) → crc < 0x10000 → shift_rounds n crc c < 0x10000
unfolding shift_rounds
shift_rounds_bound zero crc c h = h
shift_rounds_bound (suc n) crc c h =
    rw (shift_rounds-suc n crc c)
      (shift_rounds_bound n (shift_round crc c) (u16 (c * 2)) (shift_round_bound crc c))

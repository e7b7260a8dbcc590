-- ===== src/Crc/Digits.antt =====
-- Operations that go over two numbers binary digit by binary digit, the lowest one first.
use ulppk.Base.{ℕ, zero, suc, ◌+◌, ◌-◌, ◌*◌, ◌/◌, ◌%◌, ◌≤◌, ◌≡◌, refl, ap, ◌∙◌, arith}
use Prim.Native.Nat.{digits, bitwise}

module _ (last : ℕ → ℕ) (join : ℕ → ℕ → ℕ) where
  -- A number has no more digits than its value says, so that a further round changes nothing.
  spare_round :
      (rounds x y : ℕ)
      → x ≤ rounds
      → digits last join (suc rounds) x y ≡ digits last join rounds x y
  spare_round (suc rounds) (suc x) y h =
      ap (λ rest. rest * 2 + join (suc x % 2) (y % 2))
        (spare_round rounds (suc x / 2) (y / 2) (omega (arith, h)))
  spare_round (suc rounds) zero y h = refl
  spare_round zero zero y h = refl
  spare_round zero (suc x) y h = absurd (omega (arith, h))

  spare_rounds :
      (k x y rounds : ℕ) → rounds ≡ k + x → digits last join rounds x y ≡ bitwise last join x y
  spare_rounds zero x y rounds e = ap (λ r. digits last join r x y) (omega (arith, e))
  spare_rounds (suc k) x y zero e = absurd (omega (arith, e))
  spare_rounds (suc k) x y (suc r) e =
      spare_round r x y (omega (arith, e)) ∙ spare_rounds k x y r (omega (arith, e))

  -- The lowest digits apart.
  pub bitwise_lowest :
      (x y : ℕ)
      → bitwise last join (suc x) y
        ≡ bitwise last join (suc x / 2) (y / 2) * 2 + join (suc x % 2) (y % 2)
  bitwise_lowest x y =
      ap (λ rest. rest * 2 + join (suc x % 2) (y % 2))
        (spare_rounds (x - suc x / 2) (suc x / 2) (y / 2) x (omega arith))

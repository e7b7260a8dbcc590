-- ===== src/Dqacc/Window.antt =====
-- A run of slots round the end of the slot array, as a list: the last slot of the run first.
use ulppk.Base.{ℕ, zero, suc, ◌+◌, ◌-◌, ◌%◌, ◌<◌, ◌≡◌, refl, ap, ap₂, ◌∙◌, ◌≢◌, arith}
use ulppk.Base.{List, [], ◌∷◌, ◌++◌, length}
use native.Mathlib.Nat.{mod-add-mod, mod-eq_of_lt, mod-eq-sub-mod}
use native.Mathlib.Decide.{dec_lt}

module _ {ℓ} {A : Type ℓ} (slots : ℕ) where
  -- The contents of the `n` slots from `b` on, where `f` reads one.
  abbrev pub window : (ℕ → A) → ℕ → ℕ → List A
  window f b zero = []
  window f b (suc n) = f ((b + n) % slots) ∷ window f b n

  pub length-window : (f : ℕ → A) (b n : ℕ) → length (window f b n) ≡ n
  length-window f b zero = refl
  length-window f b (suc n) = ap suc (length-window f b n)

  -- Only the slots in the run matter.
  pub window_ext :
      (f g : ℕ → A) (b n : ℕ)
      → ((k : ℕ) → k < n → f ((b + k) % slots) ≡ g ((b + k) % slots))
      → window f b n ≡ window g b n
  window_ext f g b zero h = refl
  window_ext f g b (suc n) h =
      ap₂ ◌∷◌ (h n (omega arith)) (window_ext f g b n (λ k p. h k (omega arith)))

  -- An empty run may start anywhere.
  pub window_start : (f : ℕ → A) (b c n : ℕ) → (0 < n → b ≡ c) → window f b n ≡ window f c n
  window_start f b c zero h = refl
  window_start f b c (suc n) h = ap (λ i. window f i (suc n)) (h (omega arith))

  -- The first slot of a run is the last item of its list.
  pub window-first :
      (f : ℕ → A) (b n : ℕ)
      → window f b (suc n) ≡ window f ((b + 1) % slots) n ++ f (b % slots) ∷ []
  window-first f b zero = ap (λ k. f (k % slots) ∷ []) (omega arith)
  window-first f b (suc n) =
      ap₂ (λ k l. f k ∷ l) (rw mod-add-mod (ap (λ k. k % slots) (omega arith))) (window-first f b n)

-- Slots of one run are different.
pub add-mod-ne :
    {slots b j k : ℕ} → b < slots → j < k → k < slots → (b + j) % slots ≢ (b + k) % slots
add-mod-ne {slots} {b} {j} {k} hb hj hk = elim (dec_lt (b + j) slots) [
  | yes p ↦ elim (dec_lt (b + k) slots) [
    | yes q ↦ omega (arith, mod-eq_of_lt p, mod-eq_of_lt q)
    | no q ↦ omega (
      arith,
      mod-eq_of_lt p,
      mod-eq-sub-mod {n = b + k} {m = slots} (omega arith),
      mod-eq_of_lt {n = b + k - slots} {m = slots} (omega arith),
    )
  ]
  | no p ↦ omega (
    arith,
    mod-eq-sub-mod {n = b + j} {m = slots} (omega arith),
    mod-eq_of_lt {n = b + j - slots} {m = slots} (omega arith),
    mod-eq-sub-mod {n = b + k} {m = slots} (omega arith),
    mod-eq_of_lt {n = b + k - slots} {m = slots} (omega arith),
  )
]

-- One slot back and one on again.
pub back-forth : {slots b : ℕ} → b < slots → ((b + slots - 1) % slots + 1) % slots ≡ b
back-forth {slots} {b} h = rw mod-add-mod (
    ap (λ k. k % slots) (let e : b + slots - 1 + 1 ≡ b + slots = omega arith in e)
    ∙ mod-eq-sub-mod {n = b + slots} {m = slots} (omega arith)
    ∙ ap (λ k. k % slots) (let e : b + slots - slots ≡ b = omega arith in e)
    ∙ mod-eq_of_lt h)

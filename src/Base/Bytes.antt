-- ===== src/Base/Bytes.antt =====
-- Memory as a list of bytes, and `memcpy` between memories.
use Prim.Native.Nat.{ℕ, zero, suc, ◌+◌, ◌<◌, ◌≤◌}
use mathlib.Core.Path.{◌≡◌, refl, ap, ap₂, ◌∙◌, subst}
use mathlib.Core.Logic.{◌⊎◌, inl, inr}
use mathlib.Core.List.{List, [], ◌∷◌, ◌++◌}
use native.Mathlib.Omega.{arith}
use ulppk.Base.Lists.{length, get_or, set, length-set, get_or-set_self, get_or-set_ne}

-- The `n` bytes from offset `off` on. A byte outside the memory reads as 0.
abbrev pub peek : List ℕ → ℕ → ℕ → List ℕ
peek mem off zero = []
peek mem off (suc n) = get_or mem off 0 ∷ peek mem (suc off) n

-- Copies the bytes to offset `off`.
abbrev pub poke : List ℕ → ℕ → List ℕ → List ℕ
poke mem off [] = mem
poke mem off (b ∷ bs) = poke (set mem off b) (suc off) bs

pub length-peek : (mem : List ℕ) (off n : ℕ) → length (peek mem off n) ≡ n
length-peek mem off zero = refl
length-peek mem off (suc n) = ap suc (length-peek mem (suc off) n)

pub length-poke : (mem : List ℕ) (off : ℕ) (bs : List ℕ) → length (poke mem off bs) ≡ length mem
length-poke mem off [] = refl
length-poke mem off (b ∷ bs) = length-poke (set mem off b) (suc off) bs ∙ length-set mem off b

-- A byte outside the copied range stays.
pub get_or-poke_outside :
    (mem : List ℕ) (off i : ℕ) (bs : List ℕ)
    → (i < off) ⊎ (off + length bs ≤ i)
    → get_or (poke mem off bs) i 0 ≡ get_or mem i 0
get_or-poke_outside mem off i [] h = refl
get_or-poke_outside mem off i (b ∷ bs) h =
    get_or-poke_outside (set mem off b) (suc off) i bs (further h)
    ∙ get_or-set_ne mem off i b 0 (omega arith)
  where
    further : (i < off) ⊎ (off + suc (length bs) ≤ i) → (i < suc off) ⊎ (suc off + length bs ≤ i)
    further (inl p) = inl (omega arith)
    further (inr p) = inr (omega arith)

-- What was copied is read back.
pub peek-poke_self :
    (mem : List ℕ) (off : ℕ) (bs : List ℕ)
    → off + length bs ≤ length mem
    → peek (poke mem off bs) off (length bs) ≡ bs
peek-poke_self mem off [] h = refl
peek-poke_self mem off (b ∷ bs) h =
    ap₂ ◌∷◌
      (get_or-poke_outside (set mem off b) (suc off) off bs (inl (omega arith))
        ∙ get_or-set_self mem off b 0 (omega arith))
      (peek-poke_self (set mem off b) (suc off) bs (omega (arith, length-set mem off b)))

-- A range apart from the copied one reads as before.
pub peek-poke_apart :
    (mem : List ℕ) (off at n : ℕ) (bs : List ℕ)
    → (at + n ≤ off) ⊎ (off + length bs ≤ at)
    → peek (poke mem off bs) at n ≡ peek mem at n
peek-poke_apart mem off at zero bs h = refl
peek-poke_apart mem off at (suc n) bs h =
    ap₂ ◌∷◌ (get_or-poke_outside mem off at bs (first h))
      (peek-poke_apart mem off (suc at) n bs (rest h))
  where
    first : (at + suc n ≤ off) ⊎ (off + length bs ≤ at) → (at < off) ⊎ (off + length bs ≤ at)
    first (inl p) = inl (omega arith)
    first (inr p) = inr p

    rest :
        (at + suc n ≤ off) ⊎ (off + length bs ≤ at)
        → (suc at + n ≤ off) ⊎ (off + length bs ≤ suc at)
    rest (inl p) = inl (omega arith)
    rest (inr p) = inr (omega arith)

-- A memory of `n` bytes read whole is itself.
pub peek_all : (bs : List ℕ) → peek bs 0 (length bs) ≡ bs
peek_all bs = go bs [] 0 refl
  where
    skip : (pre : List ℕ) (b : ℕ) (bs : List ℕ) → get_or (pre ++ b ∷ bs) (length pre) 0 ≡ b
    skip [] b bs = refl
    skip (p ∷ pre) b bs = skip pre b bs

    regroup : (pre : List ℕ) (b : ℕ) (bs : List ℕ) → (pre ++ b ∷ []) ++ bs ≡ pre ++ b ∷ bs
    regroup [] b bs = refl
    regroup (p ∷ pre) b bs = ap (◌∷◌ p) (regroup pre b bs)

    longer : (pre : List ℕ) (b : ℕ) → length (pre ++ b ∷ []) ≡ suc (length pre)
    longer [] b = refl
    longer (p ∷ pre) b = ap suc (longer pre b)

    go : (bs pre : List ℕ) (k : ℕ) → length pre ≡ k → peek (pre ++ bs) k (length bs) ≡ bs
    go [] pre k e = refl
    go (b ∷ bs) pre k e = ap₂ ◌∷◌ (rw (← e) (skip pre b bs)) (
        subst (λ l. peek l (suc k) (length bs) ≡ bs) (regroup pre b bs)
          (go bs (pre ++ b ∷ []) (suc k) (longer pre b ∙ ap suc e)))

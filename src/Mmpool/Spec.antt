-- ===== src/Mmpool/Spec.antt =====
-- What a buffer pool promises, as lists of the buffers in the pool and out of it.
use ulppk.Base.{ℕ, zero, suc, ◌+◌, List, [], ◌∷◌, ◌++◌, Option, none, some}
use ulppk.Base.{◌==◌, if◌then◌else◌, length}

-- The calls of a client that have a result on every pool.
pub data Op : Type 0 where
  get : Op
  zap : Op

pub data Reply : Type 0 where
  got : Option ℕ → Reply
  zapped : ℕ → Reply

-- The buffers in the pool, and those out of it.
abbrev pub Buffers : Type 0
Buffers = List ℕ × List ℕ

unfoldable pub step : Buffers → Op → Reply × Buffers
step ([], out) get = (got none, ([], out))
step (x ∷ free, out) get = (got (some x), (free, out ++ x ∷ []))
step (free, out) zap = (zapped (length out), (free ++ out, []))

unfoldable pub run : Buffers → List Op → List Reply × Buffers
unfolding step
run b [] = ([], b)
run b (op ∷ ops) = let (r, b1) = step b op in let (rs, b2) = run b1 ops in (r ∷ rs, b2)

-- How often a buffer occurs.
unfoldable pub count : ℕ → List ℕ → ℕ
count i [] = 0
count i (x ∷ xs) = (if x == i then 1 else 0) + count i xs

-- The same in and out of the pool together.
abbrev pub occurs : ℕ → Buffers → ℕ
occurs i b = count i b.0 + count i b.1

-- The indexes below `n`.
unfoldable pub first : ℕ → List ℕ
first zero = []
first (suc n) = first n ++ n ∷ []

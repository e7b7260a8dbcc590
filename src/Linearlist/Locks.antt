-- ===== src/Linearlist/Locks.antt =====
-- Record numbers, pointers, and the ranges that record locks cover.
use ulppk.Base.{ℕ, ◌+◌, ◌<◌, ◌≤◌, ◌≡◌, ◌⊎◌}
use ulppk.Linearlist.{LockRequest, wrlck}

-- A byte that both requests cover.
pub Overlap : LockRequest → LockRequest → Type 0
Overlap r r' =
    (b : ℕ) × (r.l_start ≤ b)
    × (b < r.l_start + r.l_len)
    × (r'.l_start ≤ b)
    × (b < r'.l_start + r'.l_len)

-- Requests of two processes of which one has to wait for the other, by the documentation of `fcntl`:
-- they overlap, and one of them is for a write lock.
pub Excludes : LockRequest → LockRequest → Type 0
Excludes r r' = Overlap r r' × ((r.l_type ≡ wrlck) ⊎ (r'.l_type ≡ wrlck))

-- ===== src/Mmpool/Tests.antt =====
-- Runs of the pool, and the properties at a pool of three buffers.
use ulppk.Base.{ℕ, ◌+◌, ◌<◌, ◌≤◌, ◌≡◌, ◌↔◌, refl, arith, true, List, [], ◌∷◌, none, some, map}
use ulppk.Base.{length, ◌==◌, if◌then◌else◌}
use ulppk.Mmdeque.{le_value}
use ulppk.Dqacc.{dq_abd, dq_init_memmap}
use ulppk.Dqacc.Memory.{IsValid}
use ulppk.Dqacc.Refine.{contents}
use ulppk.Mmpool.Search.{indexes}
use ulppk.Mmpool.{
  mmpool_getbuff, mmpool_putbuff, mmpool_buffx2refp, Pool, mmpool_define_pool, file_len, bpmf_size,
}
use ulppk.Mmpool.Spec
use ulppk.Mmpool.Spec.{Op, get, zap, got, zapped, first, occurs}
use ulppk.Mmpool.Held.{IsPool, getbuff_some}
use ulppk.Mmpool.Run.{mmpool_putbuff_lem, step, run, pool_step_refines}
use ulppk.Mmpool.Setup.{mmpool_define_pool-IsPool, mmpool_define_pool-room, run-mmpool_define_pool}

abbrev pool : Pool
pool = mmpool_define_pool 512 7 4 3

in_pool : map le_value (contents pool.dq_inpool) ≡ 0 ∷ 1 ∷ 2 ∷ []
unfolding mmpool_define_pool dq_abd dq_init_memmap
in_pool = refl

abbrev script : List Op
script = get ∷ get ∷ zap ∷ get ∷ get ∷ get ∷ get ∷ zap ∷ []

script_replies :
    (Spec.run (first 3, []) script).0
    ≡ got (some 0)
      ∷ got (some 1)
      ∷ zapped 2
      ∷ got (some 2)
      ∷ got (some 0)
      ∷ got (some 1)
      ∷ got none
      ∷ zapped 3
      ∷ []
unfolding Spec.run first
script_replies = refl

pool_room : bpmf_size 3 + 112 ≤ file_len 512 (bpmf_size 3)
unfolding bpmf_size file_len
pool_room = omega arith

pool_slots : 312 ≤ file_len 512 (bpmf_size 3)
unfolding bpmf_size file_len
pool_slots = omega arith

pool-IsPool : IsPool pool (first 3, [])
pool-IsPool = mmpool_define_pool-IsPool 512 7 4 3 (omega arith) (omega arith) pool_slots

run-mmpool_define_pool_example :
    (p : Pool) × (run pool script ≡ some ((Spec.run (first 3, []) script).0, p))
    × (contents p.dq_inpool ≡ indexes (Spec.run (first 3, []) script).1.0)
    × (contents p.dq_outpool ≡ indexes (Spec.run (first 3, []) script).1.1)
    × (p.stats.remaining ≡ length (Spec.run (first 3, []) script).1.0)
    × ((i : ℕ) → i < 3 → occurs i (Spec.run (first 3, []) script).1 ≡ 1)
run-mmpool_define_pool_example =
    run-mmpool_define_pool 512 7 4 3 script (omega arith) (omega arith) pool_room

pool_step_refines_example :
    (p : Pool) × (step pool get ≡ some ((Spec.step (first 3, []) get).0, p))
    × IsPool p (Spec.step (first 3, []) get).1
    × (p.stats.capacity ≡ pool.stats.capacity)
pool_step_refines_example = pool_step_refines pool (first 3, []) get pool-IsPool

-- A pool with a buffer out.
abbrev one_out : Pool
one_out = (mmpool_getbuff pool).1

one_out-IsPool : IsPool one_out (1 ∷ 2 ∷ [], 0 ∷ [])
one_out-IsPool = (getbuff_some pool 0 (1 ∷ 2 ∷ []) [] (unfold first in pool-IsPool)).1

mmpool_putbuff_example :
    mmpool_putbuff one_out (mmpool_buffx2refp one_out 0)
    ≡ (if 1 == 0 then some (true, one_out) else none)
mmpool_putbuff_example = mmpool_putbuff_lem one_out (1 ∷ 2 ∷ []) (0 ∷ []) 0 one_out-IsPool

-- With 20 buffers on pages of 512 bytes the record and the slots take 472 bytes, which leaves 40.
mmpool_define_pool-room_example :
    IsValid (mmpool_define_pool 512 7 4 20).dq_outpool
    ↔ (bpmf_size 20 + 112 ≤ file_len 512 (bpmf_size 20))
mmpool_define_pool-room_example = mmpool_define_pool-room 512 7 4 20 (omega arith) (omega arith)

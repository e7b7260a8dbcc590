-- ===== src/Mmpool/Setup.antt =====
-- New pools.
use ulppk.Base.{ℕ, zero, suc, ◌+◌, ◌-◌, ◌*◌, ◌^◌, ◌<◌, ◌≤◌, ◌≡◌, refl, sym, ap, ◌∙◌, arith}
use ulppk.Base.{List, [], some, ◌↔◌}
use ulppk.Base.{ltb, if◌then◌else◌, length, length-replicate}
use mathlib.Core.Path.{subst}
use native.Mathlib.Nat.{mul_comm}
use ulppk.Dqacc.{dq_init_memmap}
use ulppk.Dqacc.Memory.{IsValid}
use ulppk.Dqacc.Init.{dq_init_memmap-IsValid}
use ulppk.Mmdeque.{zeroed}
use ulppk.Mmpool.{Pool, PoolStats, allocate_from, mmpool_define_pool, allocate_buffers}
use ulppk.Mmpool.{file_len, bpmf_size, bpcf_data_offset, new_bpmf, new_bpcf}
use ulppk.Dqacc.Refine.{contents}
use ulppk.Mmpool.Search.{indexes}
use ulppk.Mmpool.Spec
use ulppk.Mmpool.Spec.{Op, first, occurs, count}
use ulppk.Mmpool.Search.{IsQueue}
use ulppk.Mmpool.Allocate.{Partly, allocate_lem}
use ulppk.Mmpool.Held.{IsPool}
use ulppk.Mmpool.Conserve.{length-first, first_range, count-first, pool_run_refines}
use ulppk.Mmpool.Run.{run}

Partly-IsPool :
    (p : Pool) (cap : ℕ)
    → Partly p cap
    → p.stats.capacity ≡ cap
    → p.stats.remaining ≡ cap
    → IsQueue cap p.dq_outpool []
    → IsPool p (first cap, [])
Partly-IsPool p cap h c r q = record {
  inq = h.inq;
  outq = subst (λ n. IsQueue n p.dq_outpool []) (sym c) q;
  remaining = r ∙ sym (length-first cap);
  total = omega (arith, c, length-first cap);
  in_range = first_range cap p.stats.capacity (omega (arith, c));
  out_range = tt;
  refs = record {
    sized = h.refs.sized;
    room = h.room;
    numbered = λ i lt. h.refs.numbered i (omega (arith, c));
  };
}

module _ (pagesize bp_id size cap : ℕ) (pos : 0 < cap) (fit : cap < 2 ^ 16) where
  abbrev blank : Pool
  blank = new_bpmf pagesize bp_id size cap (new_bpcf size cap)

  abbrev len : ℕ
  len = file_len pagesize (bpmf_size cap)

  blank-inq : 264 + 16 * cap ≤ len → IsQueue cap blank.dq_inpool []
  unfolding new_bpmf
  blank-inq room =
      let (v, e) =
        dq_init_memmap-IsValid cap 8 (zeroed (len - 72)) pos fit 152 (omega arith)
          (omega (arith, length-replicate {A = ℕ} (len - 72) 0)) in
      record {
        valid = v;
        sized = (unfold dq_init_memmap in refl);
        slots = (unfold dq_init_memmap in refl);
        items = e;
      }

  blank-outq : 264 + 16 * cap ≤ len → IsQueue cap blank.dq_outpool []
  unfolding new_bpmf
  blank-outq room =
      let (v, e) =
        dq_init_memmap-IsValid cap 8 (zeroed (len - 112)) pos fit (152 + cap * 8) (omega arith)
          (omega (arith, length-replicate {A = ℕ} (len - 112) 0)) in
      record {
        valid = v;
        sized = (unfold dq_init_memmap in refl);
        slots = (unfold dq_init_memmap in refl);
        items = e;
      }

  blank-outq_room : IsValid blank.dq_outpool → 264 + 16 * cap ≤ len
  unfolding new_bpmf dq_init_memmap
  blank-outq_room v = omega (arith, v.room, length-replicate {A = ℕ} (len - 112) 0)

  blank-Partly : IsQueue cap blank.dq_inpool [] → Partly blank 0
  unfolding new_bpmf new_bpcf first
  blank-Partly q = record {
    inq = q;
    refs = record { sized = omega arith; numbered = λ i lt. absurd (omega arith) };
    room = omega (
      arith,
      length-replicate {A = ℕ} ((bpcf_data_offset + size) * cap) 0,
      mul_comm cap (bpcf_data_offset + size),
    );
  }

  made :
      IsQueue cap blank.dq_inpool []
      → let p = mmpool_define_pool pagesize bp_id size cap in
        Partly p cap × (p.stats ≡ blank.stats) × (p.dq_outpool ≡ blank.dq_outpool)
  made q =
      unfold mmpool_define_pool allocate_buffers new_bpmf in
      allocate_lem cap 0 blank (omega arith) (blank-Partly q)

  -- `mmpool_define_pool` with at least one and fewer than 2^16 buffers makes a pool with the
  -- invariant that has all of them in it, if the slots of the second deque lie in the file.
  pub mmpool_define_pool-IsPool :
      264 + 16 * cap ≤ len → IsPool (mmpool_define_pool pagesize bp_id size cap) (first cap, [])
  mmpool_define_pool-IsPool room =
      let (h, s, o) = made (blank-inq room) in
      Partly-IsPool (mmpool_define_pool pagesize bp_id size cap) cap h
        (ap (λ (t : PoolStats). t.capacity) s ∙ (unfold new_bpmf in refl))
        (ap (λ (t : PoolStats). t.remaining) s ∙ (unfold new_bpmf in refl))
        (subst (λ d. IsQueue cap d []) (sym o) (blank-outq room))

allocate_from-dq_outpool :
    (m n at : ℕ) (p : Pool) → (allocate_from m n at p).dq_outpool ≡ p.dq_outpool
unfolding allocate_from
allocate_from-dq_outpool zero n at p = refl
allocate_from-dq_outpool (suc m) n at p = allocate_from-dq_outpool m (n + 1) _ _

define-dq_outpool :
    (pagesize bp_id size cap : ℕ)
    → (mmpool_define_pool pagesize bp_id size cap).dq_outpool
      ≡ (new_bpmf pagesize bp_id size cap (new_bpcf size cap)).dq_outpool
define-dq_outpool pagesize bp_id size cap =
    unfold mmpool_define_pool allocate_buffers in
    allocate_from-dq_outpool cap 0 (24 + 0 * (24 + size))
      (new_bpmf pagesize bp_id size cap (new_bpcf size cap))

-- The second deque of a new pool is valid exactly if its slots lie in the file: the slots are placed
-- by their distance from the record, but found by that from the deque's header, 112 bytes on. So the
-- file must have as many bytes left over from the rounding to pages. The pool has at least one and
-- fewer than 2^16 buffers.
pub mmpool_define_pool-room :
    (pagesize bp_id size cap : ℕ)
    → 0 < cap
    → cap < 2 ^ 16
    → IsValid (mmpool_define_pool pagesize bp_id size cap).dq_outpool
      ↔ (bpmf_size cap + 112 ≤ file_len pagesize (bpmf_size cap))
unfolding bpmf_size
mmpool_define_pool-room pagesize bp_id size cap pos fit =
    let e = define-dq_outpool pagesize bp_id size cap in
    (
      λ v. omega (arith, blank-outq_room pagesize bp_id size cap pos fit (subst IsValid e v)),
      λ room.
          subst IsValid (sym e) (blank-outq pagesize bp_id size cap pos fit (omega arith)).valid,
    )

once_count : (i cap : ℕ) → i < cap → (if ltb i cap then 1 else 0) + count i [] ≡ 1
unfolding count
once_count i cap lt = ground arith

-- Every sequence of `mmpool_getbuff` and `mmpool_zap_pool` on a new pool of at least one and fewer
-- than 2^16 buffers, whose second deque lies in the file, returns, and replies as the two lists of
-- buffers do that start with all buffers in the pool. Afterwards the two deques of the pool hold the
-- indexes of the two lists, each buffer is once in one of the two, and the count of the remaining ones
-- is the length of the first. A zap has a round more than there are buffers out of the pool.
pub run-mmpool_define_pool :
    (pagesize bp_id size cap : ℕ) (ops : List Op)
    → 0 < cap
    → cap < 2 ^ 16
    → bpmf_size cap + 112 ≤ file_len pagesize (bpmf_size cap)
    → let (replies, b) = Spec.run (first cap, []) ops in
      (p : Pool) × (run (mmpool_define_pool pagesize bp_id size cap) ops ≡ some (replies, p))
      × (contents p.dq_inpool ≡ indexes b.0)
      × (contents p.dq_outpool ≡ indexes b.1)
      × (p.stats.remaining ≡ length b.0)
      × ((i : ℕ) → i < cap → occurs i b ≡ 1)
run-mmpool_define_pool pagesize bp_id size cap ops pos fit room =
    let p0 = mmpool_define_pool pagesize bp_id size cap in
    let h0 =
      mmpool_define_pool-IsPool pagesize bp_id size cap pos fit (unfold bpmf_size in omega arith) in
    let (p, e, h, kept) = pool_run_refines ops p0 (first cap, []) h0 in
    (p, e, h.inq.items, h.outq.items, h.remaining, λ i lt. kept i ∙ once i lt)
  where
    once : (i : ℕ) → i < cap → occurs i (first cap, []) ≡ 1
    once i lt = ap (λ n. n + count i []) (count-first i cap) ∙ once_count i cap lt

-- ===== src/Mmpool/Held.antt =====
-- The invariant of a pool, and `mmpool_getbuff` and `mmpool_putbuff` on a pool that has it.
use ulppk.Base.{ℕ, ◌+◌, ◌-◌, ◌*◌, ◌^◌, ◌<◌, ◌≤◌, ◌≡◌, refl, ap, ◌∙◌, arith}
use ulppk.Base.{true, List, [], ◌∷◌, ◌++◌, none, some}
use ulppk.Base.{length, length-append, peek, All, All-append}
use ulppk.Mmdeque.{le_bytes, le_value}
use ulppk.Linearlist.{RecordFile}
use ulppk.Mmpool.{
  Pool, finish_putbuff, mmpool_refp2buffx, mmpool_buffx2refp, mmpool_getbuff, mmpool_putbuff,
}
use ulppk.Mmpool.Spec.{Buffers}
use ulppk.Mmpool.Search.{
  IsQueue, push_index, pop_none, pop_index, value-le_bytes, search_deque_none, search_deque_some,
}

-- The contents file holds the references of `cap` buffers, each of which names its own index.
pub record HasRefs (cap max_data_size : ℕ) (f : RecordFile) : Type 0 where
  pub sized : f.rec_size ≡ 24 + max_data_size
  pub room : cap * f.rec_size ≤ length f.records
  pub numbered : (i : ℕ) → i < cap → peek f.records (i * f.rec_size + 8) 8 ≡ le_bytes 8 i

pub record IsPool (p : Pool) (b : Buffers) : Type 0 where
  pub inq : IsQueue p.stats.capacity p.dq_inpool b.0
  pub outq : IsQueue p.stats.capacity p.dq_outpool b.1
  pub remaining : p.stats.remaining ≡ length b.0
  pub total : length b.0 + length b.1 ≡ p.stats.capacity
  pub in_range : All (λ x. x < p.stats.capacity) b.0
  pub out_range : All (λ x. x < p.stats.capacity) b.1
  pub refs : HasRefs p.stats.capacity p.stats.max_data_size p.bpcf

pub IsPool-small : {p : Pool} {b : Buffers} → IsPool p b → p.stats.capacity < 2 ^ 16
IsPool-small {p} {b} h = omega (arith, h.inq.valid.slots_fit, h.inq.slots)

pub All-weaken : (cap n : ℕ) (xs : List ℕ) → cap ≤ n → All (λ x. x < cap) xs → All (λ x. x < n) xs
All-weaken cap n [] le h = tt
All-weaken cap n (x ∷ xs) le h = (omega arith, All-weaken cap n xs le h.1)

pub refp2buffx-buffx2refp :
    (p : Pool) (i : ℕ)
    → HasRefs p.stats.capacity p.stats.max_data_size p.bpcf
    → i < p.stats.capacity
    → i < 2 ^ 16
    → mmpool_refp2buffx p (mmpool_buffx2refp p i) ≡ i
unfolding mmpool_refp2buffx mmpool_buffx2refp
refp2buffx-buffx2refp p i h lt small =
    let e : 24 + i * p.bpcf.rec_size - 24 + 8 ≡ i * p.bpcf.rec_size + 8 = omega arith in
    ap (λ at. le_value (peek p.bpcf.records at 8)) e
    ∙ ap le_value (h.numbered i lt)
    ∙ value-le_bytes i small

-- An empty pool has no buffer to give and stays as it is.
pub getbuff_none :
    (p : Pool) (out : List ℕ)
    → IsPool p ([], out)
    → ((mmpool_getbuff p).0 ≡ none) × IsPool (mmpool_getbuff p).1 ([], out)
unfolding mmpool_getbuff
getbuff_none p out h =
    let (e, q) = pop_none h.inq in
    rw (e, mmpool_getbuff)
      (
        refl,
        record {
          inq = q;
          outq = h.outq;
          remaining = h.remaining;
          total = h.total;
          in_range = tt;
          out_range = h.out_range;
          refs = h.refs;
        },
      )

-- The first buffer in the pool is the one that is given out.
pub getbuff_some :
    (p : Pool) (x : ℕ) (free out : List ℕ)
    → IsPool p (x ∷ free, out)
    → ((mmpool_getbuff p).0 ≡ some (mmpool_buffx2refp p x))
      × IsPool (mmpool_getbuff p).1 (free, out ++ x ∷ [])
unfolding mmpool_getbuff
getbuff_some p x free out h =
    let (e, q) = pop_index x h.inq in
    rw (e, mmpool_getbuff)
      (
        ap (λ n. some (mmpool_buffx2refp p n))
            (value-le_bytes x (omega (arith, h.in_range.0, IsPool-small h))),
        record {
          inq = q;
          outq = push_index x h.outq (omega (arith, h.total));
          remaining = omega (arith, h.remaining, h.total, IsPool-small h);
          total = omega (arith, h.total, length-append out (x ∷ []));
          in_range = h.in_range.1;
          out_range =
              All-append (λ y. y < p.stats.capacity) out (x ∷ []) h.out_range (h.in_range.0, tt);
          refs = h.refs;
        },
      )

-- With no buffer out of the pool `mmpool_putbuff` refuses every buffer and changes nothing.
pub putbuff_none :
    (p : Pool) (i : ℕ) (free : List ℕ)
    → IsPool p (free, [])
    → mmpool_putbuff p (mmpool_buffx2refp p i) ≡ some (true, p)
unfolding mmpool_putbuff
putbuff_none p i free h =
    ap (finish_putbuff p (mmpool_refp2buffx p (mmpool_buffx2refp p i)))
      (search_deque_none (mmpool_refp2buffx p (mmpool_buffx2refp p i)) h.outq)

-- With a buffer out of the pool it has no result, whichever buffer is put back.
pub putbuff_some :
    (p : Pool) (i x : ℕ) (free out : List ℕ)
    → IsPool p (free, x ∷ out)
    → mmpool_putbuff p (mmpool_buffx2refp p i) ≡ none
unfolding mmpool_putbuff
putbuff_some p i x free out h =
    ap (finish_putbuff p (mmpool_refp2buffx p (mmpool_buffx2refp p i)))
      (search_deque_some x out (mmpool_refp2buffx p (mmpool_buffx2refp p i)) h.outq)

-- ===== src/Mmpool/Run.antt =====
-- Sequences of calls on one pool.
use ulppk.Base.{ℕ, suc, ◌+◌, ◌-◌, ◌≡◌, refl, ap, ◌∙◌, arith}
use ulppk.Base.{List, [], ◌∷◌, Option, none, some}
use ulppk.Base.{peek, length, true, false, ◌==◌, if◌then◌else◌, if-false, sym}
use mathlib.Core.Option
use ulppk.Mmdeque.{le_value}
use ulppk.Linearlist.{mmfor_header_size}
use ulppk.Mmpool.{Pool, mmpool_refp2buffx, mmpool_buffx2refp}
use ulppk.Mmpool.{mmpool_putbuff, mmpool_getbuff, mmpool_zap_pool}
use ulppk.Mmpool.Spec
use ulppk.Mmpool.Spec.{Buffers, Op, get, zap, Reply, got, zapped, count}
use ulppk.Mmpool.Held.{IsPool, IsPool-small, refp2buffx-buffx2refp}
use ulppk.Mmpool.Held.{getbuff_none, getbuff_some, putbuff_none, putbuff_some}
use ulppk.Mmpool.Search.{IsQueue-use}
use ulppk.Mmpool.Zap.{mmpool_zap_pool_lem}

-- One call by a client that knows buffers by the index in their reference. A zap has a round more
-- than there are buffers out of the pool; `none` is a call that does not return.
unfoldable pub step : Pool → Op → Option (Reply × Pool)
step p get =
    let (ptr, p1) = mmpool_getbuff p in some (got (Option.map (mmpool_refp2buffx p1) ptr), p1)
step p zap = elim (mmpool_zap_pool (suc p.dq_outpool.dquse) p) [
  | none ↦ none
  | some (n, p1) ↦ some (zapped n, p1)
]

-- The replies, and the pool after them.
abbrev pub then_reply : Reply → Option (List Reply × Pool) → Option (List Reply × Pool)
then_reply r none = none
then_reply r (some (rs, p)) = some (r ∷ rs, p)

unfoldable pub run : Pool → List Op → Option (List Reply × Pool)
unfolding step
run p [] = some ([], p)
run p (op ∷ ops) = elim (step p op) [ none ↦ none | some (r, p1) ↦ then_reply r (run p1 ops) ]

getbuff_keeps :
    (p : Pool)
    → ((mmpool_getbuff p).1.stats.capacity ≡ p.stats.capacity)
      × ((mmpool_getbuff p).1.bpcf ≡ p.bpcf)
unfolding mmpool_getbuff
getbuff_keeps p = (ground arith, ground arith)

-- The buffer that is given out has the first index in the pool.
got_index :
    (p : Pool) (x : ℕ) (free out : List ℕ)
    → IsPool p (x ∷ free, out)
    → mmpool_refp2buffx (mmpool_getbuff p).1 (mmpool_buffx2refp p x) ≡ x
got_index p x free out h =
    unfold mmpool_refp2buffx in
    ap (λ f. le_value (peek f.records (mmpool_buffx2refp p x - mmfor_header_size + 8) 8))
      (getbuff_keeps p).1
    ∙ refp2buffx-buffx2refp p x h.refs h.in_range.0 (omega (arith, h.in_range.0, IsPool-small h))

-- On a pool with the invariant `mmpool_getbuff`, and `mmpool_zap_pool` with a round more than there
-- are buffers out of the pool, return, reply as the two lists of buffers do, and leave the invariant,
-- for the lists as they are then.
pub pool_step_refines :
    (p : Pool) (b : Buffers) (op : Op)
    → IsPool p b
    → (p' : Pool) × (step p op ≡ some ((Spec.step b op).0, p'))
      × IsPool p' (Spec.step b op).1
      × (p'.stats.capacity ≡ p.stats.capacity)
unfolding step Spec.step
pool_step_refines p ([], out) get h =
    let (e, h') = getbuff_none p out h in ((mmpool_getbuff p).1, rw e refl, h', (getbuff_keeps p).0)
pool_step_refines p (x ∷ free, out) get h =
    let (e, h') = getbuff_some p x free out h in
    (
      (mmpool_getbuff p).1,
      rw e (ap (λ i. some (got (some i), (mmpool_getbuff p).1)) (got_index p x free out h)),
      h',
      (getbuff_keeps p).0,
    )
pool_step_refines p (free, out) zap h =
    let (p', e, h', c) =
      mmpool_zap_pool_lem out p free (suc p.dq_outpool.dquse) h
        (omega (arith, IsQueue-use h.outq)) in
    (p', rw (e, step) refl, h', c)

-- On a pool with the invariant `mmpool_putbuff` of any of its buffers refuses it and changes nothing
-- if no buffer is out of the pool. If there is one it has no result, whichever buffer it is for: the
-- search for the buffer writes past its variable.
pub mmpool_putbuff_lem :
    (p : Pool) (free out : List ℕ) (i : ℕ)
    → IsPool p (free, out)
    → mmpool_putbuff p (mmpool_buffx2refp p i) ≡ (if length out == 0 then some (true, p) else none)
mmpool_putbuff_lem p free [] i h = putbuff_none p i free h
mmpool_putbuff_lem p free (x ∷ out) i h =
    putbuff_some p i x free out h ∙ sym (if-false _ _ (suc-ne-zero (length out)))
  where
    suc-ne-zero : (n : ℕ) → (suc n == 0) ≡ false
    suc-ne-zero n = ground arith

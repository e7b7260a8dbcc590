-- ===== src/Mmpool/Zap.antt =====
-- `mmpool_zap_pool` on a pool with the invariant.
use ulppk.Base.{ℕ, zero, suc, ◌+◌, ◌-◌, ◌*◌, ◌<◌, ◌≤◌, ◌≡◌, refl, sym, ap, ◌∙◌, arith}
use ulppk.Base.{List, [], ◌∷◌, ◌++◌, some, append_assoc, append-nil}
use ulppk.Base.{length, length-append, poke, replicate, All-append, inl, inr}
use ulppk.Base.{◌⊎◌, length-replicate, length-poke, peek-poke_apart}
use mathlib.Core.Path.{subst}
use native.Mathlib.Decide.{ℕ_discrete}
use ulppk.Dqacc.{dq_rtd}
use ulppk.Dqacc.Memory.{slots_apart}
use ulppk.Mmdeque.{le_bytes, le_value}
use ulppk.Linearlist.{RecordFile, mmfor_header_size}
use ulppk.Mmpool.{
  Pool, put_back, mmpool_buffer_data, mmpool_buffx2refp, bpcf_data_offset, zap_from,
  mmpool_zap_pool, one_more,
}
use ulppk.Mmpool.Search.{push_index, pop_none, pop_index, value-le_bytes}
use ulppk.Mmpool.Held.{HasRefs, IsPool, IsPool-small}

-- Writing the data of one buffer leaves the references.
module _ (f : RecordFile) (cap size x at : ℕ) (h : HasRefs cap size f) where
  abbrev cleared : RecordFile
  cleared = record f { records = poke f.records at (replicate size 0) }

  cleared-HasRefs : at ≡ x * f.rec_size + 24 → HasRefs cap size cleared
  cleared-HasRefs e = record {
    sized = h.sized;
    room =
        subst (λ l. cap * f.rec_size ≤ l) (sym (length-poke f.records at (replicate size 0)))
          h.room;
    numbered = λ i lt.
        peek-poke_apart f.records at (i * f.rec_size + 8) 8 (replicate size 0) (apart i)
        ∙ h.numbered i lt;
  }
    where
      side :
          (i : ℕ)
          → (x * f.rec_size + f.rec_size ≤ i * f.rec_size)
            ⊎ (i * f.rec_size + f.rec_size ≤ x * f.rec_size)
          → (i * f.rec_size + 8 + 8 ≤ at)
            ⊎ (at + length {A = ℕ} (replicate size 0) ≤ i * f.rec_size + 8)
      side i (inl p) = inr (omega (arith, e, h.sized, length-replicate {A = ℕ} size 0))
      side i (inr p) = inl (omega (arith, e, h.sized))

      apart :
          (i : ℕ)
          → (i * f.rec_size + 8 + 8 ≤ at)
            ⊎ (at + length {A = ℕ} (replicate size 0) ≤ i * f.rec_size + 8)
      apart i = elim (ℕ_discrete i x) [
        | yes same ↦ inl (omega (arith, ap (λ k. k * f.rec_size) same))
        | no ne ↦ side i (slots_apart f.rec_size i x ne)
      ]

module _ (p : Pool) (x : ℕ) (free out : List ℕ) (h : IsPool p (free, x ∷ out)) where
  abbrev popped : Pool
  popped = record p { dq_outpool = (dq_rtd p.dq_outpool).1 }

  data_at :
      mmpool_buffer_data (mmpool_buffx2refp popped (le_value (le_bytes 8 x))) - mmfor_header_size
      ≡ x * p.bpcf.rec_size + 24
  unfolding mmpool_buffer_data mmpool_buffx2refp bpcf_data_offset
  data_at =
      ap (λ v. 24 + v * p.bpcf.rec_size + 24 - 24)
        (value-le_bytes x (omega (arith, h.out_range.0, IsPool-small h)))
      ∙ omega arith

  -- One round of the loop.
  put_back-IsPool : IsPool (put_back popped (le_bytes 8 x)) (free ++ x ∷ [], out)
  put_back-IsPool = record {
    inq = push_index x h.inq (omega (arith, h.total));
    outq = (pop_index x h.outq).1;
    remaining = omega (arith, h.remaining, h.total, IsPool-small h, length-append free (x ∷ []));
    total = omega (arith, h.total, length-append free (x ∷ []));
    in_range = All-append (λ y. y < p.stats.capacity) free (x ∷ []) h.in_range (h.out_range.0, tt);
    out_range = h.out_range.1;
    refs =
        cleared-HasRefs p.bpcf p.stats.capacity p.stats.max_data_size x
          (mmpool_buffer_data (mmpool_buffx2refp popped (le_value (le_bytes 8 x)))
            - mmfor_header_size)
          h.refs data_at;
  }

  zap_from_step :
      (fuel : ℕ) → zap_from (suc fuel) p ≡ one_more (zap_from fuel (put_back popped (le_bytes 8 x)))
  zap_from_step fuel = let e = (pop_index x h.outq).0 in unfold zap_from in rw (e, zap_from) refl

-- The loop puts the buffers back in the order in which they were taken.
pub zap_from_lem :
    (out : List ℕ) (p : Pool) (free : List ℕ) (fuel : ℕ)
    → IsPool p (free, out)
    → length out < fuel
    → (p' : Pool) × (zap_from fuel p ≡ some (length out, p'))
      × IsPool p' (free ++ out, [])
      × (p'.stats.capacity ≡ p.stats.capacity)
zap_from_lem out p free zero h lt = absurd (omega arith)
zap_from_lem [] p free (suc fuel) h lt =
    let (e, q) = pop_none h.outq in
    (
      record p { dq_outpool = (dq_rtd p.dq_outpool).1 },
      unfold zap_from in rw (e, zap_from) refl,
      subst (λ l. IsPool (record p { dq_outpool = (dq_rtd p.dq_outpool).1 }) (l, []))
          (sym (append-nil free))
          record {
            inq = h.inq;
            outq = q;
            remaining = h.remaining;
            total = h.total;
            in_range = h.in_range;
            out_range = tt;
            refs = h.refs;
          },
      refl,
    )
zap_from_lem (x ∷ out) p free (suc fuel) h lt =
    let (p', e', h', c') =
      zap_from_lem out (put_back (popped p x free out h) (le_bytes 8 x)) (free ++ x ∷ []) fuel
        (put_back-IsPool p x free out h) (omega arith) in
    (
      p',
      zap_from_step p x free out h fuel ∙ ap one_more e' ∙ ap (λ n. some (n, p')) (omega arith),
      subst (λ l. IsPool p' (l, [])) (append_assoc free (x ∷ []) out) h',
      c',
    )

-- `mmpool_zap_pool` with one round more than there are buffers out of the pool puts them all back,
-- in their order, and returns how many they were.
pub mmpool_zap_pool_lem :
    (out : List ℕ) (p : Pool) (free : List ℕ) (fuel : ℕ)
    → IsPool p (free, out)
    → length out < fuel
    → (p' : Pool) × (mmpool_zap_pool fuel p ≡ some (length out, p'))
      × IsPool p' (free ++ out, [])
      × (p'.stats.capacity ≡ p.stats.capacity)
unfolding mmpool_zap_pool
mmpool_zap_pool_lem out p free fuel h lt =
    let (p', e, h', c) = zap_from_lem out p free fuel h lt in
    (
      p',
      rw (e, mmpool_zap_pool) (ap (λ n. some (n, p')) (omega (arith, h.total, IsPool-small h))),
      h',
      c,
    )

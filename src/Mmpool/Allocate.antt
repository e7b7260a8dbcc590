-- ===== src/Mmpool/Allocate.antt =====
-- The loop of `allocate_buffers`.
use ulppk.Base.{ℕ, zero, suc, ◌+◌, ◌-◌, ◌*◌, ◌<◌, ◌≤◌, ◌≡◌, refl, sym, ap, ap₂, ◌∙◌, arith}
use ulppk.Base.{length, poke, replicate}
use mathlib.Core.Path.{subst}
use ulppk.Dqacc.{dq_abd}
use ulppk.Dqacc.Memory.{slot_in}
use ulppk.Mmdeque.{le_bytes}
use ulppk.Mmpool.{Pool, allocate_from, buffer_ref}
use ulppk.Mmpool.{bpcf_data_offset}
use ulppk.Mmpool.Spec.{first}
use ulppk.Mmpool.Search.{IsQueue, push_index}
use ulppk.Mmpool.Refs.{Numbered, referenced, referenced-Numbered, length-referenced}
use ulppk.Mmpool.Conserve.{length-first}

-- A pool with its first `n` buffers allocated.
pub record Partly (p : Pool) (n : ℕ) : Type 0 where
  pub inq : IsQueue p.stats.capacity p.dq_inpool (first n)
  pub refs : Numbered n p.stats.max_data_size p.bpcf
  pub room : p.stats.capacity * p.bpcf.rec_size ≤ length p.bpcf.records

module _ (p : Pool) (n : ℕ) (h : Partly p n) where
  abbrev filled : Pool
  filled = record p {
    dq_inpool = (dq_abd p.dq_inpool (le_bytes 8 n)).1;
    bpcf = referenced p.bpcf n p.stats.max_data_size p.stats.bp_id h.refs;
  }

  filled-Partly : n < p.stats.capacity → Partly filled (suc n)
  unfolding first
  filled-Partly lt =
      let slot = slot_in p.bpcf.rec_size n p.stats.capacity lt in
      record {
        inq = push_index n h.inq (omega (arith, length-first n));
        refs =
            referenced-Numbered p.bpcf n p.stats.max_data_size p.stats.bp_id h.refs
              (omega (arith, h.room, slot));
        room =
            subst (λ l. p.stats.capacity * p.bpcf.rec_size ≤ l)
              (sym (length-referenced p.bpcf n p.stats.max_data_size p.stats.bp_id h.refs)) h.room;
      }

  -- The same with the place of the buffer as a number of its own.
  abbrev filled_at : ℕ → Pool
  filled_at k = record p {
    dq_inpool = (dq_abd p.dq_inpool (le_bytes 8 n)).1;
    bpcf =
        (let f = p.bpcf in
          let size = p.stats.max_data_size + 24 in
          record f {
            records =
                poke (poke f.records k (replicate size 0x2A)) k (buffer_ref p.stats.bp_id n size);
          });
  }

  -- One round of the loop.
  allocate_step :
      (m : ℕ)
      → allocate_from (suc m) n (24 + n * p.bpcf.rec_size) p
        ≡ allocate_from m (suc n) (24 + suc n * p.bpcf.rec_size) filled
  allocate_step m =
      let at_slot : 24 + n * p.bpcf.rec_size - 24 ≡ n * p.bpcf.rec_size = omega arith in
      let next : n + 1 ≡ suc n = omega arith in
      let next_at : 24 + n * p.bpcf.rec_size + (p.stats.max_data_size + 24)
          ≡ 24 + suc n * p.bpcf.rec_size =
        omega (arith, h.refs.sized) in
      unfold allocate_from bpcf_data_offset in
      ap
        (λ k.
          allocate_from m (n + 1) (24 + n * p.bpcf.rec_size + (p.stats.max_data_size + 24))
            (filled_at k))
        at_slot
      ∙ ap₂ (λ k v. allocate_from m k v filled) next next_at

pub allocate_lem :
    (m n : ℕ) (p : Pool)
    → m + n ≡ p.stats.capacity
    → Partly p n
    → let p' = allocate_from m n (24 + n * p.bpcf.rec_size) p in
      Partly p' p.stats.capacity × (p'.stats ≡ p.stats) × (p'.dq_outpool ≡ p.dq_outpool)
allocate_lem zero n p e h = unfold allocate_from in (subst (Partly p) (omega arith) h, refl, refl)
allocate_lem (suc m) n p e h =
    subst (λ p'. Partly p' p.stats.capacity × (p'.stats ≡ p.stats) × (p'.dq_outpool ≡ p.dq_outpool))
      (sym (allocate_step p n h m))
      (allocate_lem m (suc n) (filled p n h) (omega arith) (filled-Partly p n h (omega arith)))

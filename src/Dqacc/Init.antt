-- ===== src/Dqacc/Init.antt =====
-- The three ways to set a deque up, and `dq_close`.
use ulppk.Base.{ℕ, ◌+◌, ◌*◌, ◌^◌, ◌<◌, ◌≤◌, ◌≡◌, refl, arith, true, false, not, ◌&&◌}
use ulppk.Base.{List, [], none, length, length-replicate, if◌then◌else◌, u16}
use native.Mathlib.Nat.{mod-eq_of_lt, mul_comm}
use ulppk.Dqacc.{Deque, dq_init, dq_init_buffer, dq_init_memmap, dq_close}
use ulppk.Dqacc.{dq_atd, dq_abd, dq_rtd, dq_rbd}
use ulppk.Dqacc.Memory.{IsValid}
use ulppk.Dqacc.Refine.{contents}

module _ (slots size : ℕ) (header : Deque) (pos : 0 < slots) (fit : slots < 2 ^ 16) where
  -- `dq_init` with at least one and fewer than 2^16 slots leaves a valid empty deque if the whole
  -- buffer is smaller than 2^16 bytes.
  pub dq_init-IsValid :
      size * slots < 2 ^ 16
      → IsValid (dq_init slots size header) × (contents (dq_init slots size header) ≡ [])
  unfolding dq_init
  dq_init-IsValid small = (
    record {
      opened = refl;
      use_in = omega arith;
      slots_fit = fit;
      bottom_in = pos;
      top_at = omega (arith, mod-eq_of_lt {n = 0} {m = slots} pos);
      offsets_fit = omega (arith, mul_comm slots size);
      room =
          rw (length-replicate {A = ℕ} (u16 (size * slots)) 0) (omega (arith, mul_comm slots size));
    },
    refl,
  )

  -- With at least one and fewer than 2^16 slots, from 2^16 bytes on the length that `dq_init`
  -- computes for `calloc` is cut to a `ushort`, and the slots do not fit the buffer: the deque is
  -- not valid.
  pub dq_init_undersized :
      2 ^ 16 ≤ size * slots
      → let d = dq_init slots size header in
        (length d.dqbuff < d.dqslots * d.dqitem_size) × (¬ IsValid d)
  unfolding dq_init
  dq_init_undersized big = (short, λ v. absurd (omega (arith, short, v.room)))
    where
      short : length (dq_init slots size header).dqbuff < slots * size
      short =
          rw (length-replicate {A = ℕ} (u16 (size * slots)) 0) (omega (arith, mul_comm slots size))

  -- `dq_init_memmap` with at least one and fewer than 2^16 slots leaves a valid empty deque in
  -- the mapped region, if the slots from `index` on lie in it and take less than 2^31 bytes.
  pub dq_init_memmap-IsValid :
      (index : ℕ)
      → slots * size < 2 ^ 31
      → index + slots * size ≤ length header.region
      → IsValid (dq_init_memmap slots size index header)
        × (contents (dq_init_memmap slots size index header) ≡ [])
  unfolding dq_init_memmap
  dq_init_memmap-IsValid index small room = (
    record {
      opened = refl;
      use_in = omega arith;
      slots_fit = fit;
      bottom_in = pos;
      top_at = omega (arith, mod-eq_of_lt {n = 0} {m = slots} pos);
      offsets_fit = small;
      room = room;
    },
    refl,
  )

  -- `dq_init_buffer` with at least one slot leaves a valid empty deque over the caller's buffer, if
  -- the slots fit it and take less than 2^31 bytes.
  pub dq_init_buffer-IsValid :
      (buff : List ℕ)
      → slots * size < 2 ^ 31
      → slots * size ≤ length buff
      → IsValid (dq_init_buffer slots size buff header)
        × (contents (dq_init_buffer slots size buff header) ≡ [])
  unfolding dq_init_buffer
  dq_init_buffer-IsValid buff small room = (
    record {
      opened = refl;
      use_in = omega arith;
      slots_fit = fit;
      bottom_in = pos;
      top_at = omega (arith, mod-eq_of_lt {n = 0} {m = slots} pos);
      offsets_fit = small;
      room = omega arith;
    },
    refl,
  )

dq_close-dq_open : (d : Deque) → (dq_close d).dq_open ≡ false
unfolding dq_close
dq_close-dq_open d = ground arith

-- After `dq_close`, adding and removing an item at either end report an error and change nothing,
-- and a second `dq_close` changes nothing. The buffer is released exactly if the deque was open
-- and its buffer is neither mapped nor the caller's.
pub dq_close_lem :
    (d : Deque) (item : List ℕ)
    → let c = dq_close d in
      (dq_atd c item ≡ (true, c))
      × (dq_abd c item ≡ (true, c))
      × (dq_rtd c ≡ (none, c))
      × (dq_rbd c ≡ (none, c))
      × (dq_close c ≡ c)
      × (c.dqbuff ≡ (if d.dq_open && (not d.memmapped && not d.buffctrl) then [] else d.dqbuff))
dq_close_lem d item = (
  closed_atd (dq_close d) (dq_close-dq_open d),
  closed_abd (dq_close d) (dq_close-dq_open d),
  closed_rtd (dq_close d) (dq_close-dq_open d),
  closed_rbd (dq_close d) (dq_close-dq_open d),
  closed_close (dq_close d) (dq_close-dq_open d),
  (unfold dq_close in ground arith),
)
  where
    closed_atd : (c : Deque) → c.dq_open ≡ false → dq_atd c item ≡ (true, c)
    closed_atd c e = unfold dq_atd in rw e refl

    closed_abd : (c : Deque) → c.dq_open ≡ false → dq_abd c item ≡ (true, c)
    closed_abd c e = unfold dq_abd in rw e refl

    closed_rtd : (c : Deque) → c.dq_open ≡ false → dq_rtd c ≡ (none, c)
    closed_rtd c e = unfold dq_rtd in rw e refl

    closed_rbd : (c : Deque) → c.dq_open ≡ false → dq_rbd c ≡ (none, c)
    closed_rbd c e = unfold dq_rbd in rw e refl

    closed_close : (c : Deque) → c.dq_open ≡ false → dq_close c ≡ c
    closed_close c e = unfold dq_close in rw e refl

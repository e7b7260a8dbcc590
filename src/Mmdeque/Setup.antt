-- ===== src/Mmdeque/Setup.antt =====
-- A new deque file, and resetting one.
use ulppk.Base.{ℕ, ◌+◌, ◌*◌, ◌^◌, ◌<◌, ◌≤◌, ◌≡◌, refl, arith, [], length, length-replicate, true}
use native.Mathlib.Nat.{mul_comm}
use ulppk.Dqacc.{Deque, dq_init_memmap}
use ulppk.Dqacc.Memory.{IsValid}
use ulppk.Dqacc.Refine.{contents}
use ulppk.Dqacc.Init.{dq_init_memmap-IsValid}
use ulppk.Mmdeque.Bytes.{Holds}
use ulppk.Mmdeque.{mmdq_create, mmdq_reset, deque_file_len, zeroed}

-- `mmdq_create` makes the file just as long as the header and the slots need, and its deque
-- starts valid and empty, with at least one and fewer than 2^16 slots that take less than 2^31
-- bytes.
pub mmdq_create-IsValid :
    (header_size item_size nitems : ℕ)
    → 0 < nitems
    → nitems < 2 ^ 16
    → nitems * item_size < 2 ^ 31
    → let d = mmdq_create header_size item_size nitems in
      IsValid d
      × (contents d ≡ [])
      × (length d.region ≡ deque_file_len header_size item_size nitems)
mmdq_create-IsValid header_size item_size nitems pos fit small =
    let len = deque_file_len header_size item_size nitems in
    let (v, e) = dq_init_memmap-IsValid nitems item_size (zeroed len) pos fit header_size small (
      unfold deque_file_len in
      omega (arith, length-replicate {A = ℕ} len 0, mul_comm nitems item_size)) in
    unfold mmdq_create in (v, e, (unfold dq_init_memmap in length-replicate {A = ℕ} len 0))

-- `mmdq_reset` empties a valid mapped deque and leaves it valid, of the same slots and item size,
-- in a region of the same length.
pub mmdq_reset-IsValid :
    (d : Deque)
    → IsValid d
    → d.memmapped ≡ true
    → let d' = mmdq_reset d in
      IsValid d'
      × (contents d' ≡ [])
      × (d'.dqslots ≡ d.dqslots)
      × (d'.dqitem_size ≡ d.dqitem_size)
      × (length d'.region ≡ length d.region)
mmdq_reset-IsValid d v m =
    let (v', e) =
      dq_init_memmap-IsValid d.dqslots d.dqitem_size (zeroed (length d.region))
        (omega (arith, v.bottom_in)) v.slots_fit d.dqbuffx v.offsets_fit
        (omega (arith, length-replicate {A = ℕ} (length d.region) 0, room)) in
    unfold mmdq_reset in
    (
      v',
      e,
      (unfold dq_init_memmap in refl),
      (unfold dq_init_memmap in refl),
      (unfold dq_init_memmap in length-replicate {A = ℕ} (length d.region) 0),
    )
  where
    room : d.dqbuffx + d.dqslots * d.dqitem_size ≤ length d.region
    room = ground (arith, v.room, m)

-- A new deque of single bytes.
pub mmdq_create-Holds :
    (header_size cap : ℕ) → 0 < cap → cap < 2 ^ 16 → Holds cap (mmdq_create header_size 1 cap) []
mmdq_create-Holds header_size cap pos fit =
    let (v, e, l) = mmdq_create-IsValid header_size 1 cap pos fit (omega arith) in
    record {
      valid = v;
      bytes = (unfold mmdq_create in (unfold dq_init_memmap in refl));
      slots = (unfold mmdq_create in (unfold dq_init_memmap in refl));
      items = e;
    }

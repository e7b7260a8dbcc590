-- ===== src/Dqacc.antt =====
-- ulppk/dqacc.c: a double ended queue of fixed size items over a byte buffer. The functions that
-- update `*header` return the new header beside their status flag.
pub mod Spec
pub mod Window
pub mod Memory
pub mod Refine
pub mod Remove
pub mod Run
pub mod Init
mod Tests
use ulppk.Base.{ℕ, ◌+◌, ◌-◌, ◌*◌, ◌%◌, Bool, true, false, not, ◌&&◌, List, [], Option, none, some}
use ulppk.Base.{ltb, ◌==◌, if◌then◌else◌, u16, peek, poke, replicate}

-- `DQHEADER`, with the memory that it gives access to: `dqbuff` holds the bytes behind the
-- buffer pointer ([] for NULL), `region` the mapped bytes from the header's first byte on.
-- `dqglobal_heap`, which no function reads or writes, is left out.
pub record Deque : Type 0 where
  pub dq_open : Bool
  pub dqslots : ℕ
  pub dquse : ℕ
  pub dqtop : ℕ
  pub dqbottom : ℕ
  pub dqitem_size : ℕ
  pub memmapped : Bool
  pub buffctrl : Bool
  pub dqbuff : List ℕ
  pub dqbuffx : ℕ
  pub region : List ℕ

-- The memory in which the slots lie, and the offset of the first slot.
abbrev pub memory : Deque → List ℕ
memory d = if d.memmapped then d.region else d.dqbuff

abbrev pub slot_base : Deque → ℕ
slot_base d = if d.memmapped then d.dqbuffx else 0

-- The offset into `memory` that `map_slot` points to. The product is an `int`; it stays below
-- 2^31 in every valid deque.
abbrev pub map_slot : Deque → ℕ → ℕ
map_slot d index = slot_base d + index * d.dqitem_size

abbrev pub set_memory : Deque → List ℕ → Deque
set_memory d m = record d {
  dqbuff = if d.memmapped then d.dqbuff else m;
  region = if d.memmapped then m else d.region;
}

-- `memcpy(lpslot, item, dqitem_size)` and `memcpy(item, lpslot, dqitem_size)`
abbrev pub write_slot : Deque → ℕ → List ℕ → Deque
write_slot d index item =
    set_memory d (poke (memory d) (map_slot d index) (peek item 0 d.dqitem_size))

abbrev pub read_slot : Deque → ℕ → List ℕ
read_slot d index = peek (memory d) (map_slot d index) d.dqitem_size

unfoldable pub dq_init : ℕ → ℕ → Deque → Deque
dq_init deque_size item_size header =
    let buffsize = u16 (item_size * deque_size) in
    record header {
      dqslots = deque_size;
      dquse = 0;
      dqtop = 0;
      dqbottom = 0;
      dqitem_size = item_size;
      memmapped = false;
      buffctrl = false;
      dqbuff = replicate buffsize 0;
      dq_open = true;
    }

unfoldable pub dq_init_buffer : ℕ → ℕ → List ℕ → Deque → Deque
dq_init_buffer deque_size item_size buffp header = record header {
  memmapped = false;
  buffctrl = true;
  dqslots = deque_size;
  dquse = 0;
  dqtop = 0;
  dqbottom = 0;
  dqitem_size = item_size;
  dqbuff = buffp;
  dq_open = true;
}

unfoldable pub dq_init_memmap : ℕ → ℕ → ℕ → Deque → Deque
unfolding dq_init
dq_init_memmap deque_size item_size index header = record (dq_init deque_size item_size header) {
  dqbuff = [];
  memmapped = true;
  dqbuffx = index;
}

-- A freed buffer is gone, whatever it held.
unfoldable pub dq_close : Deque → Deque
dq_close header = if not header.dq_open then header else record header {
  dq_open = false;
  dqbuff = if not header.memmapped && not header.buffctrl then [] else header.dqbuff;
}

unfoldable pub dq_isempty : Deque → Bool
dq_isempty deque = if deque.dquse == 0 then true else false

-- The flag is true on an error: the deque is closed or full.
unfoldable pub dq_atd : Deque → List ℕ → Bool × Deque
dq_atd deque item =
    if not deque.dq_open
    then (true, deque)
    else if ltb deque.dquse deque.dqslots
    then (let top =
          if deque.dquse == 0 then deque.dqtop else u16 ((deque.dqtop + 1) % deque.dqslots) in
        (false, write_slot (record deque { dquse = u16 (deque.dquse + 1); dqtop = top }) top item))
    else (true, deque)

unfoldable pub dq_abd : Deque → List ℕ → Bool × Deque
dq_abd deque item =
    if not deque.dq_open
    then (true, deque)
    else if ltb deque.dquse deque.dqslots
    then (let bottom =
          if deque.dquse == 0
          then deque.dqbottom
          else u16 ((deque.dqbottom + deque.dqslots - 1) % deque.dqslots) in
        (
          false,
          write_slot (record deque { dquse = u16 (deque.dquse + 1); dqbottom = bottom }) bottom
              item,
        ))
    else (true, deque)

-- `none` is the flag TRUE; `some bytes` is FALSE, with the bytes copied to `*item`.
unfoldable pub dq_rtd : Deque → Option (List ℕ) × Deque
dq_rtd deque =
    if not deque.dq_open
    then (none, deque)
    else if ltb 0 deque.dquse
    then (
      some (read_slot deque deque.dqtop),
      record deque {
        dquse = deque.dquse - 1;
        dqtop =
            if deque.dquse == 1
            then deque.dqtop
            else u16 ((deque.dqtop + deque.dqslots - 1) % deque.dqslots);
      },
    )
    else (none, deque)

unfoldable pub dq_rbd : Deque → Option (List ℕ) × Deque
dq_rbd deque =
    if not deque.dq_open
    then (none, deque)
    else if ltb 0 deque.dquse
    then (
      some (read_slot deque deque.dqbottom),
      record deque {
        dquse = deque.dquse - 1;
        dqbottom =
            if deque.dquse == 1 then deque.dqbottom else u16 ((deque.dqbottom + 1) % deque.dqslots);
      },
    )
    else (none, deque)

-- `DQSTATS`
pub record DequeStats : Type 0 where
  pub dq_open : Bool
  pub dqitem_size : ℕ
  pub dqslots : ℕ
  pub dquse : ℕ
  pub memmapped : Bool
  pub buffctrl : Bool

unfoldable pub dq_stats : Deque → DequeStats
dq_stats dequep = record {
  dq_open = dequep.dq_open;
  dqitem_size = dequep.dqitem_size;
  dqslots = dequep.dqslots;
  dquse = dequep.dquse;
  memmapped = dequep.memmapped;
  buffctrl = dequep.buffctrl;
}

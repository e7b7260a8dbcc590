-- ===== src/Mmpool.antt =====
-- ulppk/mmpool.c: pools of buffers of one size. The management file holds the deques of the indexes
-- in the pool and out of it, the contents file the buffers, each behind its reference. Every call is
-- one step: `mmpool_getbuff` and `mmpool_putbuff` hold the lock of the management file, and no other
-- call is taken to come into a `mmpool_zap_pool`.
pub mod Spec
pub mod Search
pub mod Held
pub mod Zap
pub mod Refs
pub mod Allocate
pub mod Setup
pub mod Run
pub mod Conserve
mod Tests
use ulppk.Base.{
  ℕ, zero, suc, ◌+◌, ◌-◌, ◌*◌, ◌/◌, ◌%◌, Bool, true, false, List, [], ◌∷◌, ◌++◌, Option, none, some,
}
use ulppk.Base.{◌==◌, if◌then◌else◌, u16, peek, poke, replicate, take, ltb}
use ulppk.Dqacc.{Deque, dq_init_memmap, dq_abd, dq_rtd}
use ulppk.Mmdeque.{zeroed, le_bytes, le_value}
use ulppk.Linearlist.{RecordFile, mmfor_create, mmfor_x2p, mmfor_header_size, to_size}

-- The sizes and offsets of the structures in bytes. A `BPOOL_INDEX` is a `size_t`.
abbrev pub sizeof_index : ℕ
sizeof_index = 8

abbrev pub sizeof_header : ℕ
sizeof_header = 40

abbrev pub sizeof_ref : ℕ
sizeof_ref = 24

abbrev pub inpool_at : ℕ
inpool_at = 72

abbrev pub outpool_at : ℕ
outpool_at = 112

abbrev pub sizeof_rec : ℕ
sizeof_rec = 152

-- `BPMF_STATS` without the name.
pub record PoolStats : Type 0 where
  pub bp_id : ℕ
  pub rqst_capacity : ℕ
  pub capacity : ℕ
  pub max_data_size : ℕ
  pub remaining : ℕ

-- `BPMF_REC`, with the contents file of the handle. The two deques lie in one mapped file and have
-- their slots apart in it; each has a copy of its own of the bytes behind its header.
pub record Pool : Type 0 where
  pub stats : PoolStats
  pub indqbuffx : ℕ
  pub outdqbuffx : ℕ
  pub dq_inpool : Deque
  pub dq_outpool : Deque
  pub bpcf : RecordFile

abbrev pub set_remaining : Pool → ℕ → Pool
set_remaining p n = let s = p.stats in record p { stats = record s { remaining = n } }

-- The length that `mma_new_disk_file_ref` gives a new file: whole pages.
unfoldable pub file_len : ℕ → ℕ → ℕ
file_len pagesize len =
    let pages = len / pagesize in (if len % pagesize == 0 then pages else pages + 1) * pagesize

unfoldable pub bpmf_size : ℕ → ℕ
bpmf_size rqst_capacity = sizeof_rec + 2 * sizeof_index * rqst_capacity

unfoldable pub bpcf_data_offset : ℕ
bpcf_data_offset =
    let header_size = sizeof_ref in
    if header_size % 4 == 0 then header_size else header_size + sizeof_ref % 4

-- The bytes of the new file from a header on are the deque's region.
unfoldable pub format_bpmf : ℕ → ℕ → ℕ → ℕ → ℕ → RecordFile → Pool
format_bpmf len bp_id max_data_size rqst_capacity alloc_capacity bpcf =
    let b1p = outpool_at + sizeof_header in
    let b2p = b1p + alloc_capacity * sizeof_index in
    record {
      stats = record {
        bp_id = bp_id;
        rqst_capacity = rqst_capacity;
        capacity = alloc_capacity;
        max_data_size = max_data_size;
        remaining = alloc_capacity;
      };
      indqbuffx = b1p;
      outdqbuffx = b2p;
      dq_inpool = dq_init_memmap alloc_capacity sizeof_index b1p (zeroed (len - inpool_at));
      dq_outpool = dq_init_memmap alloc_capacity sizeof_index b2p (zeroed (len - outpool_at));
      bpcf = bpcf;
    }

unfoldable pub new_bpcf : ℕ → ℕ → RecordFile
unfolding bpcf_data_offset mmfor_create
new_bpcf max_data_size nitems = mmfor_create (bpcf_data_offset + max_data_size) nitems

-- `_MMPOOL_USE_SLOP` is not set, so that the capacity is the requested one.
unfoldable pub new_bpmf : ℕ → ℕ → ℕ → ℕ → RecordFile → Pool
unfolding file_len bpmf_size format_bpmf
new_bpmf pagesize bp_id max_data_size rqst_capacity bpcf =
    format_bpmf (file_len pagesize (bpmf_size rqst_capacity)) bp_id max_data_size rqst_capacity
      rqst_capacity bpcf

-- The bytes of a `BPCF_BUFFER_REF`; the padding in it is taken to be zeros.
abbrev pub buffer_ref : ℕ → ℕ → ℕ → List ℕ
buffer_ref bp_id bpindex buff_len =
    0xA4 ∷ 0xA4 ∷ le_bytes 2 bp_id ++ 0 ∷ 0 ∷ 0 ∷ 0 ∷ le_bytes 8 bpindex ++ le_bytes 8 buff_len

-- A write to the contents file at a pointer into it.
abbrev pub write_at : Pool → ℕ → List ℕ → Pool
write_at p at bytes =
    let f = p.bpcf in
    record p { bpcf = record f { records = poke f.records (at - mmfor_header_size) bytes } }

-- The rest of the loop of `allocate_buffers`, with `n` buffers to go.
unfoldable pub allocate_from : ℕ → ℕ → ℕ → Pool → Pool
allocate_from zero ibuff vbuffp p = p
allocate_from (suc n) ibuff vbuffp p =
    let buff_size = p.stats.max_data_size + bpcf_data_offset in
    let p1 = write_at p vbuffp (replicate buff_size 0x2A) in
    let p2 = write_at p1 vbuffp (buffer_ref p.stats.bp_id ibuff buff_size) in
    let p3 = record p2 { dq_inpool = (dq_abd p2.dq_inpool (le_bytes 8 ibuff)).1 } in
    allocate_from n (ibuff + 1) (vbuffp + buff_size) p3

unfoldable pub allocate_buffers : Pool → Pool
unfolding allocate_from
allocate_buffers p = allocate_from p.stats.capacity 0 (mmfor_x2p p.bpcf 0) p

-- A new pool of that name, with the system's page size.
unfoldable pub mmpool_define_pool : ℕ → ℕ → ℕ → ℕ → Pool
unfolding new_bpmf new_bpcf allocate_buffers
mmpool_define_pool pagesize bp_id max_data_size rqst_capacity =
    allocate_buffers
      (new_bpmf pagesize bp_id max_data_size rqst_capacity (new_bpcf max_data_size rqst_capacity))

-- Pointers into the contents file.
unfoldable pub mmpool_buffx2refp : Pool → ℕ → ℕ
mmpool_buffx2refp p bpx = mmfor_x2p p.bpcf bpx

unfoldable pub mmpool_refp2buffx : Pool → ℕ → ℕ
mmpool_refp2buffx p buff_refp = le_value (peek p.bpcf.records (buff_refp - mmfor_header_size + 8) 8)

unfoldable pub mmpool_buffer_data : ℕ → ℕ
unfolding bpcf_data_offset
mmpool_buffer_data buff_refp = buff_refp + bpcf_data_offset

unfoldable pub mmpool_buffer_data2refp : ℕ → ℕ
unfolding bpcf_data_offset
mmpool_buffer_data2refp datap = datap - bpcf_data_offset

-- `none` is the NULL of an empty pool.
unfoldable pub mmpool_getbuff : Pool → Option ℕ × Pool
unfolding mmpool_buffx2refp
mmpool_getbuff p =
    let (item, inq) = dq_rtd p.dq_inpool in
    elim item [
      | none ↦ (none, record p { dq_inpool = inq })
      | some bpx ↦
          let p1 = record p { dq_inpool = inq; dq_outpool = (dq_abd p.dq_outpool bpx).1 } in
          (
            some (mmpool_buffx2refp p (le_value bpx)),
            set_remaining p1 (u16 (p.stats.remaining + 65535)),
          )
    ]

-- The variable `x` of `search_deque` is an `int`, and `dq_rtd` and `dq_abd` copy whole items.
abbrev pub sizeof_int : ℕ
sizeof_int = 4

-- What the bytes of the `int` compare as with a `size_t`.
abbrev pub as_int : List ℕ → ℕ
as_int x = to_size (le_value (take sizeof_int x))

abbrev pub or_kept : Option (List ℕ) → List ℕ → List ℕ
or_kept none x = x
or_kept (some item) x = item

-- The rest of the loop of `search_deque`, if the items fit in the `int`. `none` is a write past it:
-- the program is then without a result.
unfoldable pub search_deque_from : ℕ → List ℕ → Deque → ℕ → Option (Bool × Deque)
search_deque_from zero x d bpx = some (false, d)
search_deque_from (suc n) x d bpx =
    let (item, d1) = dq_rtd d in
    let x1 = or_kept item x in
    let rest = search_deque_from n x1 (dq_abd d1 x1).1 bpx in
    if ltb sizeof_int d.dqitem_size
    then none
    else if as_int x1 == bpx
    then some (true, d1)
    else rest

unfoldable pub search_deque : Deque → ℕ → Option (Bool × Deque)
unfolding search_deque_from
search_deque dequep bpx = search_deque_from dequep.dquse (replicate sizeof_int 0) dequep bpx

-- The flag is true if the buffer is not out of the pool.
abbrev pub finish_putbuff : Pool → ℕ → Option (Bool × Deque) → Option (Bool × Pool)
finish_putbuff p bpindex none = none
finish_putbuff p bpindex (some (found, outq)) =
    let inq = (dq_abd p.dq_inpool (le_bytes 8 bpindex)).1 in
    let p1 = record p { dq_inpool = inq; dq_outpool = outq } in
    if found
    then some (false, set_remaining p1 (u16 (p.stats.remaining + 1)))
    else some (true, record p { dq_outpool = outq })

-- `none` is a search that writes past its variable.
unfoldable pub mmpool_putbuff : Pool → ℕ → Option (Bool × Pool)
unfolding mmpool_refp2buffx search_deque
mmpool_putbuff p buffp =
    let bpindex = mmpool_refp2buffx p buffp in
    finish_putbuff p bpindex (search_deque p.dq_outpool bpindex)

abbrev pub one_more : Option (ℕ × Pool) → Option (ℕ × Pool)
one_more none = none
one_more (some (n, p)) = some (n + 1, p)

-- One buffer on its way back: its data are zeros.
abbrev pub put_back : Pool → List ℕ → Pool
put_back p bpx =
    let vp = mmpool_buffer_data (mmpool_buffx2refp p (le_value bpx)) in
    let p1 = write_at p vp (replicate p.stats.max_data_size 0) in
    set_remaining (record p1 { dq_inpool = (dq_abd p1.dq_inpool bpx).1 })
      (u16 (p1.stats.remaining + 1))

-- The loop, with the buffers put back; `none` means that the rounds ran out.
unfoldable pub zap_from : ℕ → Pool → Option (ℕ × Pool)
unfolding mmpool_buffer_data mmpool_buffx2refp
zap_from zero p = none
zap_from (suc fuel) p =
    let (item, outq) = dq_rtd p.dq_outpool in
    let p1 = record p { dq_outpool = outq } in
    elim item [ none ↦ some (0, p1) | some bpx ↦ one_more (zap_from fuel (put_back p1 bpx)) ]

-- The count is an `int`, returned as an `unsigned short`.
unfoldable pub mmpool_zap_pool : ℕ → Pool → Option (ℕ × Pool)
unfolding zap_from
mmpool_zap_pool fuel p = elim (zap_from fuel p) [ none ↦ none | some (n, p1) ↦ some (u16 n, p1) ]

unfoldable pub mmpool_getstats : Pool → PoolStats
mmpool_getstats p = p.stats

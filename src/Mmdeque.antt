-- ===== src/Mmdeque.antt =====
-- ulppk/mmdeque.c: deques in memory mapped files, and packets over a deque of single bytes. A
-- handle is the deque that its data pointer names. Each call takes the file's record lock for its
-- whole duration, so that it is one step; a lock that fails ends the process.
pub mod Bytes
pub mod Rounds
pub mod Packet
pub mod Setup
mod Tests
use ulppk.Base.{
  ℕ, zero, suc, ◌+◌, ◌*◌, ◌/◌, ◌%◌, Bool, true, false, ◌&&◌, List, [], ◌∷◌, ◌++◌, Option, none,
  some,
}
use ulppk.Base.{◌==◌, if◌then◌else◌, length, replicate, get_or, take, drop}
use ulppk.Dqacc.{
  Deque, dq_init_memmap, dq_isempty, dq_atd, dq_abd, dq_rtd, dq_rbd, DequeStats, dq_stats,
}

-- A mapped region of zeros.
abbrev pub zeroed : ℕ → Deque
zeroed len = record {
  dq_open = false;
  dqslots = 0;
  dquse = 0;
  dqtop = 0;
  dqbottom = 0;
  dqitem_size = 0;
  memmapped = false;
  buffctrl = false;
  dqbuff = [];
  dqbuffx = 0;
  region = replicate len 0;
}

-- The size of a `DQHEADER`, which the compiler chooses, is the first argument.
unfoldable pub deque_file_len : ℕ → ℕ → ℕ → ℕ
deque_file_len header_size item_size nitems = header_size + item_size * nitems

-- A new file of that length, and the deque in it.
unfoldable pub mmdq_create : ℕ → ℕ → ℕ → Deque
unfolding deque_file_len
mmdq_create header_size item_size nitems =
    dq_init_memmap nitems item_size header_size
      (zeroed (deque_file_len header_size item_size nitems))

unfoldable pub mmdq_reset : Deque → Deque
mmdq_reset dequep =
    let tempdq = dequep in
    dq_init_memmap tempdq.dqslots tempdq.dqitem_size tempdq.dqbuffx (zeroed (length dequep.region))

unfoldable pub mmdq_isempty : Deque → Bool
mmdq_isempty dequep = dq_isempty dequep

unfoldable pub mmdq_atd : Deque → List ℕ → Bool × Deque
mmdq_atd dequep itemp = dq_atd dequep itemp

unfoldable pub mmdq_abd : Deque → List ℕ → Bool × Deque
mmdq_abd dequep itemp = dq_abd dequep itemp

unfoldable pub mmdq_rtd : Deque → Option (List ℕ) × Deque
mmdq_rtd dequep = dq_rtd dequep

unfoldable pub mmdq_rbd : Deque → Option (List ℕ) × Deque
mmdq_rbd dequep = dq_rbd dequep

unfoldable pub mmdq_stats : Deque → DequeStats
mmdq_stats dequep = dq_stats dequep

abbrev pub sync_bytes : List ℕ
sync_bytes = 0xF1 ∷ 0x0E ∷ 0xA5 ∷ 0x5A ∷ []

-- A number in `n` bytes, low byte first, and back.
abbrev pub le_bytes : ℕ → ℕ → List ℕ
le_bytes zero v = []
le_bytes (suc n) v = v % 256 ∷ le_bytes n (v / 256)

abbrev pub le_value : List ℕ → ℕ
le_value [] = 0
le_value (b ∷ bs) = b + 256 * le_value bs

-- The bytes of an `MMDQ_PACKET_HEADER`: the sync bytes, four bytes of padding, and a `size_t` of
-- eight bytes, low byte first.
unfoldable pub packet_header : ℕ → List ℕ
packet_header packet_len = sync_bytes ++ 0 ∷ 0 ∷ 0 ∷ 0 ∷ le_bytes 8 packet_len

unfoldable pub header_packet_len : List ℕ → ℕ
header_packet_len header = le_value (take 8 (drop 8 header))

unfoldable pub sync_check : List ℕ → Bool
sync_check header =
    get_or header 0 0 == 0xF1
    && (get_or header 1 0 == 0x0E && (get_or header 2 0 == 0xA5 && get_or header 3 0 == 0x5A))

-- The flag is true on an overflow: the bytes before it are on the deque.
unfoldable pub push_packet : Deque → List ℕ → Bool × Deque
unfolding mmdq_abd
push_packet deque [] = (false, deque)
push_packet deque (b ∷ bs) =
    let (flag, d1) = mmdq_abd deque (b ∷ []) in
    let rest = push_packet d1 bs in if flag then (true, d1) else rest

-- One byte in front of those that are popped after it; an underflow loses them all.
abbrev pub popped : Option (List ℕ) → Deque → Option (List ℕ) × Deque → Option (List ℕ) × Deque
popped none d rest = (none, d)
popped (some item) d (none, d1) = (none, d1)
popped (some item) d (some bytes, d1) = (some (item ++ bytes), d1)

-- `none` is an underflow.
unfoldable pub pop_packet : Deque → ℕ → Option (List ℕ) × Deque
unfolding mmdq_rtd
pop_packet deque zero = (some [], deque)
pop_packet deque (suc packet_len) =
    let (item, d1) = mmdq_rtd deque in popped item d1 (pop_packet d1 packet_len)

-- `none` is the end of the process: the items are not single bytes.
unfoldable pub mmdq_write_packet : Deque → List ℕ → Option (Bool × Deque)
unfolding push_packet packet_header mmdq_stats
mmdq_write_packet deque packet =
    let header = push_packet deque (packet_header (length packet)) in
    let whole = push_packet header.1 packet in
    if (mmdq_stats deque).dqitem_size == 1
    then some (if header.0 then (true, header.1) else whole)
    else none

abbrev pub next_round :
    (List ℕ → Deque → Option (List ℕ) × Deque) → Option (List ℕ) × Deque → Option (List ℕ) × Deque
next_round rounds (none, d) = (none, d)
next_round rounds (some bytes, d) = rounds bytes d

-- The loop of `mmdq_read_packet` over its buffer: every round pops the whole length again.
unfoldable pub pop_rounds : ℕ → ℕ → List ℕ → Deque → Option (List ℕ) × Deque
unfolding pop_packet
pop_rounds zero packet_len packetp deque = (some packetp, deque)
pop_rounds (suc rounds) packet_len packetp deque =
    next_round (λ bytes d. pop_rounds rounds packet_len bytes d) (pop_packet deque packet_len)

-- What `mmdq_read_packet` leaves: `*packet_lenp`, the result of the sync check, which is only
-- traced, the returned buffer, and the deque.
pub record PacketRead : Type 0 where
  pub packet_len : ℕ
  pub in_sync : Bool
  pub packetp : Option (List ℕ)
  pub deque : Deque

unfoldable pub read_body : Option (List ℕ) × Deque → PacketRead
unfolding header_packet_len sync_check pop_rounds
read_body (none, d) = record { packet_len = 0; in_sync = false; packetp = none; deque = d }
read_body (some header, d) =
    let n = header_packet_len header in
    let (packetp, d1) = pop_rounds n n (replicate n 0) d in
    record { packet_len = 0; in_sync = sync_check header; packetp = packetp; deque = d1 }

-- `none` is the end of the process: the items are not single bytes. `calloc` is taken to succeed.
unfoldable pub mmdq_read_packet : Deque → Option PacketRead
unfolding pop_packet mmdq_stats read_body
mmdq_read_packet deque =
    if (mmdq_stats deque).dqitem_size == 1 then some (read_body (pop_packet deque 16)) else none

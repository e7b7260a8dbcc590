-- ===== src/Linearlist.antt =====
-- ulppk/mmfor.c and ulppk/linearlist.c: files of records of one size, and lists in them whose header
-- is record 0. A pointer is its offset in the mapped region; each list operation holds the file's
-- lock, so that it is one step.
pub mod Slots
pub mod Add
pub mod Delete
pub mod Locks
pub mod Create
mod Tests
use ulppk.Base.{
  ℕ, zero, suc, ◌+◌, ◌-◌, ◌*◌, ◌/◌, ◌^◌, ◌%◌, Bool, true, false, List, [], ◌∷◌, Option, none, some,
}
use ulppk.Base.{ltb, ◌==◌, if◌then◌else◌, peek, poke, replicate}
use ulppk.Mmdeque.{le_bytes, le_value}

-- The MMFOR_HEADER of a mapped file, and the bytes of the records behind it.
pub record RecordFile : Type 0 where
  pub rec_size : ℕ
  pub file_size : ℕ
  pub nrecs : ℕ
  pub records : List ℕ

-- `sizeof(MMFOR_HEADER)`, three times a `size_t`
abbrev pub mmfor_header_size : ℕ
mmfor_header_size = 24

unfoldable pub mmfor_create : ℕ → ℕ → RecordFile
mmfor_create rec_size nrecs = record {
  rec_size = rec_size;
  file_size = rec_size * nrecs + mmfor_header_size;
  nrecs = nrecs;
  records = replicate (rec_size * nrecs) 0;
}

abbrev pub mmfor_x2p : RecordFile → ℕ → ℕ
mmfor_x2p f x = mmfor_header_size + x * f.rec_size

abbrev pub mmfor_p2x : RecordFile → ℕ → ℕ
mmfor_p2x f p = (p - mmfor_header_size) / f.rec_size

-- The request that `lock_cntrl` passes to `fcntl`.
pub data LockType : Type 0 where
  rdlck : LockType
  wrlck : LockType
  unlck : LockType

pub record LockRequest : Type 0 where
  pub waits : Bool
  pub l_type : LockType
  pub l_start : ℕ
  pub l_len : ℕ

abbrev pub lock_cntrl : RecordFile → Bool → LockType → ℕ → LockRequest
lock_cntrl f cmd type start = record {
  waits = cmd;
  l_type = type;
  l_start = start;
  l_len = f.rec_size;
}

unfoldable pub mmfor_lock_record_p_read : RecordFile → ℕ → LockRequest
mmfor_lock_record_p_read f p = lock_cntrl f true rdlck p

unfoldable pub mmfor_lock_record_p_write : RecordFile → ℕ → LockRequest
mmfor_lock_record_p_write f p = lock_cntrl f true wrlck p

unfoldable pub mmfor_lock_record_x_read : RecordFile → ℕ → LockRequest
unfolding mmfor_lock_record_p_read
mmfor_lock_record_x_read f x = mmfor_lock_record_p_read f (mmfor_x2p f x)

unfoldable pub mmfor_lock_record_x_write : RecordFile → ℕ → LockRequest
unfolding mmfor_lock_record_p_read
mmfor_lock_record_x_write f x = mmfor_lock_record_p_read f (mmfor_x2p f x)

unfoldable pub mmfor_unlock_record_p : RecordFile → ℕ → LockRequest
mmfor_unlock_record_p f p = lock_cntrl f false unlck p

unfoldable pub mmfor_unlock_record_x : RecordFile → ℕ → LockRequest
unfolding mmfor_unlock_record_p
mmfor_unlock_record_x f x = mmfor_unlock_record_p f (mmfor_x2p f x)

-- The fields of the LINEAR_LIST_HEADER in record 0. An `int` is its 32 bits.
abbrev pub nextx : RecordFile → ℕ
nextx f = le_value (peek f.records 0 4)

abbrev pub capacity : RecordFile → ℕ
capacity f = le_value (peek f.records 4 4)

abbrev pub list_rec_size : RecordFile → ℕ
list_rec_size f = le_value (peek f.records 8 8)

abbrev pub set_nextx : RecordFile → ℕ → RecordFile
set_nextx f v = record f { records = poke f.records 0 (le_bytes 4 v) }

-- An `int` as a `size_t`.
abbrev pub to_size : ℕ → ℕ
to_size v = if ltb v (2 ^ 31) then v else v + (2 ^ 64 - 2 ^ 32)

abbrev pub u32 : ℕ → ℕ
u32 v = v % 2 ^ 32

unfoldable pub linlist_create : ℕ → ℕ → RecordFile
unfolding mmfor_create
linlist_create rec_size nrecs =
    let f = mmfor_create rec_size (nrecs + 1) in
    let f1 = set_nextx f 1 in
    let f2 = record f1 { records = poke f1.records 4 (le_bytes 4 nrecs) } in
    record f2 { records = poke f2.records 8 (le_bytes 8 rec_size) }

unfoldable pub linlist_x2p : RecordFile → ℕ → ℕ
linlist_x2p f x = mmfor_x2p f (to_size (u32 (x + 1)))

unfoldable pub linlist_p2x : RecordFile → ℕ → ℕ
linlist_p2x f p = to_size (u32 (mmfor_p2x f p + 2 ^ 32 - 1))

unfoldable pub linlist_length : RecordFile → ℕ
linlist_length f = to_size (u32 (nextx f + 2 ^ 32 - 1))

-- `memcpy` of a record's length to the record at pointer `p`.
abbrev pub copy_record : RecordFile → ℕ → List ℕ → RecordFile
copy_record f p bytes = record f { records = poke f.records (p - mmfor_header_size) bytes }

-- `none` is the NULL of a full list.
unfoldable pub linlist_add_record : RecordFile → List ℕ → Option ℕ × RecordFile
linlist_add_record f userp =
    if ltb (capacity f) (nextx f)
    then (none, f)
    else (let recp = mmfor_x2p f (nextx f) in
        let f1 = copy_record f recp (peek userp 0 (list_rec_size f)) in
        (some recp, set_nextx f1 (nextx f1 + 1)))

-- The flag is true on an error. The test for an empty list compares a `size_t` with 0 and is never
-- true.
unfoldable pub linlist_delete_recordx : RecordFile → ℕ → Bool × RecordFile
unfolding linlist_x2p
linlist_delete_recordx f x =
    let fence = to_size (u32 (nextx f + 2 ^ 32 - 2)) in
    if ltb fence x
    then (true, f)
    else if fence == x
    then (false, set_nextx f (u32 (nextx f + 2 ^ 32 - 1)))
    else (let moved = peek f.records (linlist_x2p f fence - mmfor_header_size) (list_rec_size f) in
        let f1 = copy_record f (linlist_x2p f x) moved in
        (false, set_nextx f1 (u32 (nextx f1 + 2 ^ 32 - 1))))

unfoldable pub linlist_delete_recordp : RecordFile → ℕ → Bool × RecordFile
unfolding linlist_delete_recordx linlist_p2x
linlist_delete_recordp f p = linlist_delete_recordx f (linlist_p2x f p)

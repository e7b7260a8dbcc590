-- ===== src/Msgdeque.antt =====
-- ulppk/msgdeque.c and ulppk/msgcell.c: a mapped deque with a semaphore that its senders post. The
-- message lock is held during each send and each attempt to receive, so that each is one step; a
-- receiver that waits sees no other process move.
pub mod Frame
pub mod Stream
pub mod Order
pub mod Fixed
mod Tests
use ulppk.Base.{
  ℕ, zero, suc, ◌+◌, ◌*◌, ◌/◌, ◌%◌, ◌^◌, Bool, true, false, not, ◌&&◌, List, [], ◌∷◌, ◌++◌, Option,
  none, some,
}
use ulppk.Base.{◌==◌, ltb, if◌then◌else◌, length, get_or}
use ulppk.Dqacc.{Deque}
use ulppk.Mmdeque.{mmdq_abd, mmdq_rtd, mmdq_stats, push_packet, pop_packet}

-- `MSGCELL` and the `MSGDEQUE` behind its data pointer: the deque and the semaphore's value, which
-- is taken to stay below the system's maximum.
pub record MsgDeque : Type 0 where
  pub deque : Deque
  pub posts : ℕ

unfoldable pub msgdeque_datacheck : Deque → Bool
unfolding mmdq_stats
msgdeque_datacheck datap = ltb 0 (mmdq_stats datap).dquse

-- The flag is true if there is no data (ENODATA).
unfoldable pub msgcell_send : MsgDeque → Bool × MsgDeque
unfolding msgdeque_datacheck
msgcell_send s =
    if msgdeque_datacheck s.deque then (false, record s { posts = s.posts + 1 }) else (true, s)

-- The loop of `msgcell_rec` on the semaphore's value; `none` is a wait that only another process
-- can end.
unfoldable pub wait_for_data : ℕ → Deque → Option ℕ
unfolding msgdeque_datacheck
wait_for_data zero d = if msgdeque_datacheck d then some 0 else none
wait_for_data (suc posts) d =
    let rest = wait_for_data posts d in if msgdeque_datacheck d then some (suc posts) else rest

-- A wait that does not end has used up the posts.
unfoldable pub msgcell_rec : MsgDeque → Bool × MsgDeque
unfolding wait_for_data
msgcell_rec s = woken (wait_for_data s.posts s.deque)
  where
    woken : Option ℕ → Bool × MsgDeque
    woken none = (false, record s { posts = 0 })
    woken (some posts) = (true, record s { posts = posts })

-- The loop of `sem_trywait` until the semaphore is at 0.
unfoldable pub msgcell_reset : MsgDeque → MsgDeque
msgcell_reset s = record s { posts = 0 }

-- The masked bytes of an `unsigned int`, low byte first.
unfoldable pub encode_uint : ℕ → List ℕ
encode_uint datalen =
    datalen % 256 ∷ datalen / 2 ^ 8 % 256 ∷ datalen / 2 ^ 16 % 256 ∷ datalen / 2 ^ 24 % 256 ∷ []

-- The four shifted bytes do not overlap: their `|` is the sum.
unfoldable pub decode_uint : List ℕ → ℕ
decode_uint buff =
    get_or buff 3 0 * 2 ^ 24 + get_or buff 2 0 * 2 ^ 16 + get_or buff 1 0 * 2 ^ 8 + get_or buff 0 0

-- A fixed length record: posted only if it was added.
unfoldable pub msgdeque_send : MsgDeque → List ℕ → Bool × MsgDeque
unfolding mmdq_abd msgcell_send
msgdeque_send s sendp =
    let (retval, d1) = mmdq_abd s.deque sendp in
    let s1 = record s { deque = d1 } in
    let posted = msgcell_send s1 in if retval then (true, s1) else (false, posted.1)

-- What a receiver comes to: data, a wait that only another process can end, or no end within the
-- rounds given.
pub data Outcome : Type 0 where
  received : List ℕ → MsgDeque → Outcome
  blocked : MsgDeque → Outcome
  unfinished : Outcome

-- The end of a receiver's round without data: the wait on the message cell, and further rounds if
-- it ends.
abbrev pub after_wait : (MsgDeque → Outcome) → Bool × MsgDeque → Outcome
after_wait more (false, s) = blocked s
after_wait more (true, s) = more s

-- The end of a receiver's round: data, or a wait.
unfoldable pub after_attempt : (MsgDeque → Outcome) → MsgDeque → Option (List ℕ) × Deque → Outcome
unfolding msgcell_rec
after_attempt more s (some rec, d) = received rec (record s { deque = d })
after_attempt more s (none, d) = after_wait more (msgcell_rec (record s { deque = d }))

-- One attempt of `msgdeque_rec`.
unfoldable pub rec_attempt : Deque → Option (List ℕ) × Deque
unfolding mmdq_stats mmdq_rtd
rec_attempt deque = if not ((mmdq_stats deque).dquse == 0) then mmdq_rtd deque else (none, deque)

unfoldable pub msgdeque_rec : ℕ → MsgDeque → Outcome
unfolding rec_attempt after_attempt
msgdeque_rec zero s = unfinished
msgdeque_rec (suc rounds) s = after_attempt (λ s1. msgdeque_rec rounds s1) s (rec_attempt s.deque)

-- The length and the data go onto the deque as `push_packet` puts them there; the post follows
-- whether or not both fitted.
unfoldable pub msgdeque_send_byte_stream : MsgDeque → List ℕ → Bool × MsgDeque
unfolding encode_uint push_packet msgcell_send
msgdeque_send_byte_stream s pdata =
    let size = push_packet s.deque (encode_uint (length pdata)) in
    let whole = push_packet size.1 pdata in
    let (retval, d1) = if size.0 then (true, size.1) else whole in
    (retval, (msgcell_send (record s { deque = d1 })).1)

-- The data behind a length that was popped. The length is an `int`: from 2^31 on it is negative.
unfoldable pub pop_data : Option (List ℕ) × Deque → Option (List ℕ) × Deque
unfolding decode_uint pop_packet
pop_data (none, d) = (none, d)
pop_data (some sizebuff, d) =
    let datalen = decode_uint sizebuff in
    let data_popped = pop_packet d datalen in
    if ltb 0 datalen && ltb datalen (2 ^ 31) then data_popped else (none, d)

-- One attempt of `msgdeque_rec_byte_stream`; bytes are popped as `pop_packet` pops them. Its
-- `*bytes_received` is never written.
unfoldable pub stream_attempt : Deque → Option (List ℕ) × Deque
unfolding mmdq_stats pop_packet pop_data
stream_attempt deque =
    if ltb (mmdq_stats deque).dquse 4 then (none, deque) else pop_data (pop_packet deque 4)

-- The failure of an attempt is overwritten by the result of the wait.
unfoldable pub msgdeque_rec_byte_stream : ℕ → MsgDeque → Outcome
unfolding stream_attempt after_attempt
msgdeque_rec_byte_stream zero s = unfinished
msgdeque_rec_byte_stream (suc rounds) s =
    after_attempt (λ s1. msgdeque_rec_byte_stream rounds s1) s (stream_attempt s.deque)

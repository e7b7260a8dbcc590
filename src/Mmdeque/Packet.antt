-- ===== src/Mmdeque/Packet.antt =====
-- Packets: what is written, what the reader makes of it, and both together.
use ulppk.Base.{
  ℕ, zero, suc, ◌+◌, ◌-◌, ◌*◌, ◌^◌, ◌<◌, ◌≤◌, ◌≡◌, refl, ap, ◌∙◌, sym, arith, true, false,
}
use ulppk.Base.{
  List, [], ◌∷◌, ◌++◌, Option, none, some, length, take, drop, take_all, take-append, drop-append,
  drop_past, replicate, length-replicate,
}
use ulppk.Base.{length-append, ltb, if◌then◌else◌, lt→ltb, le→ltb-false}
use ulppk.Base.{if-true, if-false, eq→==, ◌==◌}
use mathlib.Core.Path.{subst}
use ulppk.Dqacc.{Deque, dq_stats}
use ulppk.Mmdeque.{pop_packet, pop_rounds, packet_header, sync_check}
use ulppk.Mmdeque.{
  header_packet_len, mmdq_write_packet, mmdq_read_packet, read_body, PacketRead, mmdq_stats,
}
use ulppk.Mmdeque.Rounds.{pop_rounds_lem}
use ulppk.Mmdeque.Bytes.{Holds, push_both, push_both_lem, pop_packet_lem}

-- The header of a packet passes the sync check and gives the length back.
header_packet_len-packet_header : (n : ℕ) → n < 2 ^ 64 → header_packet_len (packet_header n) ≡ n
unfolding header_packet_len packet_header
header_packet_len-packet_header n h = omega arith

sync_check-packet_header : (n : ℕ) → sync_check (packet_header n) ≡ true
unfolding sync_check packet_header
sync_check-packet_header n = refl

length-packet_header : (n : ℕ) → length (packet_header n) ≡ 16
unfolding packet_header
length-packet_header n = refl

module _ {cap : ℕ} {d : Deque} (n : ℕ) (rest : List ℕ)
    (h : Holds cap d (packet_header n ++ rest)) where
  pop_header : ((pop_packet d 16).0 ≡ some (packet_header n)) × Holds cap (pop_packet d 16).1 rest
  pop_header =
      let (e, h1) = pop_packet_lem 16 (packet_header n ++ rest) h in
      (
        e
            ∙ if-false _ _ (
                le→ltb-false (length (packet_header n ++ rest)) 16
                  (omega (arith, length-append {0} (packet_header n) rest, length-packet_header n)))
            ∙ ap some (take-append 16 (packet_header n) rest (length-packet_header n)),
        subst (Holds cap (pop_packet d 16).1)
            (drop-append 16 (packet_header n) rest (length-packet_header n)) h1,
      )

-- The result of the reader on a packet of length `n` with `rest` behind its header.
abbrev pub read_result : ℕ → List ℕ → Option (List ℕ)
read_result n rest =
    if ltb (length rest) (n * n) then none else some (take n (drop ((n - 1) * n) rest))

all_rounds :
    {cap : ℕ} (n : ℕ) (buf rest : List ℕ) {d : Deque}
    → Holds cap d rest
    → length buf ≡ n
    → ((pop_rounds n n buf d).0 ≡ read_result n rest)
      × Holds cap (pop_rounds n n buf d).1 (drop (n * n) rest)
all_rounds zero [] rest h e = unfold pop_rounds in (ground arith, h)
all_rounds zero (b ∷ buf) rest h e = absurd (omega arith)
all_rounds (suc n) buf rest {d} h e =
    let q : n ≡ suc n - 1 = omega arith in
    let (r, h1) = pop_rounds_lem n (suc n) buf rest h in
    (
      r
          ∙ ap
              (λ k.
                if ltb (length rest) (suc n * suc n)
                then none
                else some (take (suc n) (drop (k * suc n) rest)))
              q,
      h1,
    )

read_body-some :
    (header : List ℕ) (r : Option (List ℕ) × Deque)
    → r.0 ≡ some header
    → read_body r ≡ read_body (some header, r.1)
read_body-some header r e = ap (λ o. read_body (o, r.1)) e

stats_bytes :
    {cap : ℕ} {d : Deque} {bs : List ℕ} → Holds cap d bs → ((mmdq_stats d).dqitem_size == 1) ≡ true
unfolding mmdq_stats
stats_bytes {cap} {d} h = unfold dq_stats in eq→== d.dqitem_size 1 h.bytes

-- `mmdq_read_packet` on a valid deque of single bytes that starts with a packet header for `n`
-- bytes, `n` below 2^64, pops the header and then `n` bytes for each of the `n` bytes, `n * n` in
-- all: it returns the last `n` of these, or none if there are fewer bytes than that on the deque,
-- leaves what is behind them, and reports the length 0. The header passes the sync check.
pub mmdq_read_packet_lem :
    (cap n : ℕ) (d : Deque) (rest : List ℕ)
    → n < 2 ^ 64
    → Holds cap d (packet_header n ++ rest)
    → (r : PacketRead) × (mmdq_read_packet d ≡ some r)
      × (r.packet_len ≡ 0)
      × (r.in_sync ≡ true)
      × (r.packetp ≡ read_result n rest)
      × Holds cap r.deque (drop (n * n) rest)
unfolding mmdq_read_packet read_body
mmdq_read_packet_lem cap n d rest h holds =
    let (e, h1) = pop_header n rest holds in
    let m = header_packet_len (packet_header n) in
    let same : m ≡ n = header_packet_len-packet_header n h in
    let (r, h2) = all_rounds m (replicate m 0) rest h1 (length-replicate {A = ℕ} m 0) in
    (
      read_body (some (packet_header n), (pop_packet d 16).1),
      if-true _ _ (stats_bytes holds)
          ∙ ap some (read_body-some (packet_header n) (pop_packet d 16) e),
      refl,
      sync_check-packet_header n,
      r ∙ ap (λ k. read_result k rest) same,
      subst
          (λ k.
            Holds cap (pop_rounds m m (replicate m 0) (pop_packet d 16).1).1 (drop (k * k) rest))
          same h2,
    )

-- `mmdq_write_packet` on a valid deque of single bytes puts the header and the packet behind the
-- bytes that are there, as far as there is room, and reports whether something did not fit. What
-- did fit stays.
pub mmdq_write_packet_lem :
    (cap : ℕ) (d : Deque) (bs packet : List ℕ)
    → Holds cap d bs
    → (d' : Deque) × (mmdq_write_packet d packet
        ≡ some (ltb cap (length bs + 16 + length packet), d'))
      × Holds cap d' (take cap (bs ++ (packet_header (length packet) ++ packet)))
unfolding mmdq_write_packet
mmdq_write_packet_lem cap d bs packet h =
    let n = length packet in
    let (flag, h1) = push_both_lem (packet_header n) packet h in
    (
      (push_both d (packet_header n) packet).1,
      if-true _ _ (stats_bytes h)
          ∙ ap (λ b. some (b, (push_both d (packet_header n) packet).1))
              (flag ∙ ap (λ k. ltb cap (length bs + k + n)) (length-packet_header n)),
      h1,
    )

read_result_whole :
    (packet : List ℕ)
    → read_result (length packet) packet ≡ (if ltb 1 (length packet) then none else some packet)
read_result_whole [] = refl
read_result_whole (b ∷ []) = refl
read_result_whole (b ∷ c ∷ packet) =
    if-true _ _ (lt→ltb n (n * n) (grind arith)) ∙ sym (if-true _ _ (lt→ltb 1 n (omega arith)))
  where
    n : ℕ
    n = length (b ∷ c ∷ packet)

-- A packet that fits an empty valid deque of single bytes is written with success, but read back
-- only if it has at most one byte: the reader reports an underflow for every longer one. Either
-- way it reports the length 0 and leaves the deque empty.
pub mmdq_read_packet-mmdq_write_packet :
    (cap : ℕ) (d : Deque) (packet : List ℕ)
    → Holds cap d []
    → 16 + length packet ≤ cap
    → (d' : Deque) × (r : PacketRead) × (mmdq_write_packet d packet ≡ some (false, d'))
      × (mmdq_read_packet d' ≡ some r)
      × (r.packetp ≡ (if ltb 1 (length packet) then none else some packet))
      × (r.packet_len ≡ 0)
      × Holds cap r.deque []
mmdq_read_packet-mmdq_write_packet cap d packet h fits =
    let n = length packet in
    let (d', e, h1) = mmdq_write_packet_lem cap d [] packet h in
    let whole : take cap (packet_header n ++ packet) ≡ packet_header n ++ packet =
      take_all cap (packet_header n ++ packet)
        (omega (arith, length-append {0} (packet_header n) packet, length-packet_header n)) in
    let small : n < 2 ^ 64 = omega (arith, h.valid.slots_fit, h.slots) in
    let (r, e1, len, sync, body, h2) =
      mmdq_read_packet_lem cap n d' packet small (subst (Holds cap d') whole h1) in
    (
      d',
      r,
      e ∙ ap (λ b. some (b, d')) (le→ltb-false cap (0 + 16 + n) (omega arith)),
      e1,
      body ∙ read_result_whole packet,
      len,
      subst (Holds cap r.deque) (drop_past (n * n) packet (grind arith)) h2,
    )

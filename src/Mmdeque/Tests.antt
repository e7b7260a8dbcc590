-- ===== src/Mmdeque/Tests.antt =====
-- Runs of the packet functions, and the properties on a deque of 32 bytes.
use ulppk.Base.{◌+◌, ◌*◌, ◌≡◌, refl, arith, true, false, [], ◌∷◌, ◌++◌, none, some, take, drop}
use ulppk.Base.{ltb, if◌then◌else◌}
use ulppk.Dqacc.{Deque}
use ulppk.Mmdeque.{
  mmdq_create, mmdq_write_packet, mmdq_read_packet, PacketRead, packet_header, push_packet,
}
use ulppk.Mmdeque.Bytes.{Holds, push_packet_lem}
use ulppk.Mmdeque.Packet.{
  mmdq_read_packet_lem, mmdq_write_packet_lem, mmdq_read_packet-mmdq_write_packet, read_result,
}
use ulppk.Mmdeque.Setup.{mmdq_create-Holds}

abbrev fresh : Deque
fresh = mmdq_create 40 1 32

fresh-Holds : Holds 32 fresh []
fresh-Holds = mmdq_create-Holds 40 32 (omega arith) (omega arith)

abbrev stored : Deque
stored = (push_packet fresh (packet_header 2 ++ 7 ∷ 8 ∷ 9 ∷ 10 ∷ 11 ∷ [])).1

stored-Holds : Holds 32 stored (packet_header 2 ++ 7 ∷ 8 ∷ 9 ∷ 10 ∷ 11 ∷ [])
stored-Holds =
    unfold packet_header in
    (push_packet_lem (packet_header 2 ++ 7 ∷ 8 ∷ 9 ∷ 10 ∷ 11 ∷ []) fresh-Holds).1

mmdq_read_packet_example :
    (r : PacketRead) × (mmdq_read_packet stored ≡ some r)
    × (r.packet_len ≡ 0)
    × (r.in_sync ≡ true)
    × (r.packetp ≡ read_result 2 (7 ∷ 8 ∷ 9 ∷ 10 ∷ 11 ∷ []))
    × Holds 32 r.deque (drop (2 * 2) (7 ∷ 8 ∷ 9 ∷ 10 ∷ 11 ∷ []))
mmdq_read_packet_example =
    mmdq_read_packet_lem 32 2 stored (7 ∷ 8 ∷ 9 ∷ 10 ∷ 11 ∷ []) (omega arith) stored-Holds

-- The second of the two readings of two bytes is returned.
read_second : read_result 2 (7 ∷ 8 ∷ 9 ∷ 10 ∷ 11 ∷ []) ≡ some (9 ∷ 10 ∷ [])
read_second = refl

mmdq_write_packet_example :
    (d' : Deque) × (mmdq_write_packet fresh (5 ∷ 6 ∷ []) ≡ some (ltb 32 (0 + 16 + 2), d'))
    × Holds 32 d' (take 32 ([] ++ (packet_header 2 ++ 5 ∷ 6 ∷ [])))
mmdq_write_packet_example = mmdq_write_packet_lem 32 fresh [] (5 ∷ 6 ∷ []) fresh-Holds

packet_there_and_back_example :
    (d' : Deque) × (r : PacketRead) × (mmdq_write_packet fresh (5 ∷ 6 ∷ []) ≡ some (false, d'))
    × (mmdq_read_packet d' ≡ some r)
    × (r.packetp ≡ (if ltb 1 2 then none else some (5 ∷ 6 ∷ [])))
    × (r.packet_len ≡ 0)
    × Holds 32 r.deque []
packet_there_and_back_example =
    mmdq_read_packet-mmdq_write_packet 32 fresh (5 ∷ 6 ∷ []) fresh-Holds (omega arith)

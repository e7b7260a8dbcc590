-- ===== src/Msgdeque/Tests.antt =====
-- Runs of the message functions, and the properties on a deque of 16 bytes.
use ulppk.Base.{ℕ, ◌+◌, ◌≡◌, ◌%◌, ◌^◌, arith, false, List, [], ◌∷◌, ◌++◌, some, take}
use ulppk.Base.{ltb, inr}
use ulppk.Dqacc.{Deque}
use ulppk.Mmdeque.{mmdq_create, push_packet}
use ulppk.Mmdeque.Bytes.{Holds, push_packet_lem}
use ulppk.Mmdeque.Setup.{mmdq_create-Holds}
use ulppk.Msgdeque.{MsgDeque, received, blocked, unfinished, encode_uint, decode_uint}
use ulppk.Msgdeque.{msgdeque_send_byte_stream, msgdeque_rec_byte_stream}
use ulppk.Msgdeque.Frame.{frame, decode_uint-encode_uint}
use ulppk.Msgdeque.Stream.{
  msgdeque_send_byte_stream_lem, msgdeque_rec_byte_stream_lem, msgdeque_rec_byte_stream_lost,
  msgdeque_rec_byte_stream_spins,
}
use ulppk.Msgdeque.Order.{send_all, receive_all, receive_all-send_all}

abbrev idle : MsgDeque
idle = record { deque = mmdq_create 40 1 16; posts = 0 }

idle-Holds : Holds 16 idle.deque []
idle-Holds = mmdq_create-Holds 40 16 (omega arith) (omega arith)

decode_uint-encode_uint_example : decode_uint (encode_uint 305419896) ≡ 305419896 % 2 ^ 32
decode_uint-encode_uint_example = decode_uint-encode_uint 305419896

msgdeque_send_byte_stream_example :
    let (flag, s') = msgdeque_send_byte_stream idle (1 ∷ 2 ∷ 3 ∷ []) in
    (flag ≡ ltb 16 (0 + 4 + 3))
    × Holds 16 s'.deque (take 16 ([] ++ frame (1 ∷ 2 ∷ 3 ∷ [])))
    × (s'.posts ≡ 0 + 1)
msgdeque_send_byte_stream_example =
    msgdeque_send_byte_stream_lem 16 idle [] (1 ∷ 2 ∷ 3 ∷ []) idle-Holds

abbrev waiting : MsgDeque
waiting = record {
  deque = (push_packet idle.deque (frame (7 ∷ []) ++ frame (8 ∷ 9 ∷ []))).1;
  posts = 2;
}

waiting-Holds : Holds 16 waiting.deque (frame (7 ∷ []) ++ frame (8 ∷ 9 ∷ []))
waiting-Holds =
    unfold encode_uint in (push_packet_lem (frame (7 ∷ []) ++ frame (8 ∷ 9 ∷ [])) idle-Holds).1

msgdeque_rec_byte_stream_example :
    (d : Deque) × (msgdeque_rec_byte_stream 1 waiting
      ≡ received (7 ∷ []) (record waiting { deque = d }))
    × Holds 16 d (frame (8 ∷ 9 ∷ []))
msgdeque_rec_byte_stream_example =
    msgdeque_rec_byte_stream_lem 16 0 waiting (7 ∷ []) (frame (8 ∷ 9 ∷ [])) (omega arith)
      (omega arith) waiting-Holds

abbrev long : List ℕ
long = 1 ∷ 2 ∷ 3 ∷ 4 ∷ 5 ∷ 6 ∷ 7 ∷ 8 ∷ 9 ∷ 10 ∷ 11 ∷ 12 ∷ 13 ∷ []

long_lost_example :
    (d : Deque) × (msgdeque_rec_byte_stream 1 (msgdeque_send_byte_stream idle long).1
      ≡ blocked (record { deque = d; posts = 0 }))
    × Holds 16 d []
long_lost_example =
    msgdeque_rec_byte_stream_lost 16 0 idle long (omega arith) (inr (omega arith)) (omega arith)
      idle-Holds

abbrev stuck : MsgDeque
stuck = record idle { deque = (push_packet idle.deque (1 ∷ 2 ∷ [])).1 }

stuck-Holds : Holds 16 stuck.deque (1 ∷ 2 ∷ [])
stuck-Holds = (push_packet_lem (1 ∷ 2 ∷ []) idle-Holds).1

spins_example : msgdeque_rec_byte_stream 100 stuck ≡ unfinished
spins_example =
    msgdeque_rec_byte_stream_spins 16 100 stuck (1 ∷ 2 ∷ []) (omega arith) (omega arith) stuck-Holds

abbrev two_messages : List (List ℕ)
two_messages = (1 ∷ 2 ∷ []) ∷ (3 ∷ []) ∷ []

in_order_example :
    ((send_all idle two_messages).0 ≡ false)
    × (receive_all 2 (send_all idle two_messages).1 ≡ some two_messages)
in_order_example =
    receive_all-send_all 16 idle two_messages idle-Holds
      ((omega arith, omega arith), ((omega arith, omega arith), tt))
      (unfold encode_uint in omega arith)

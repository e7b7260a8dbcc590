-- ===== src/Msgdeque/Order.antt =====
-- Several messages on one byte stream.
use ulppk.Base.{
  ℕ, zero, suc, ◌+◌, ◌^◌, ◌<◌, ◌≤◌, ◌≡◌, refl, ap, ap₂, ◌∙◌, sym, arith, Bool, false, ◌||◌,
}
use ulppk.Base.{
  List, [], ◌∷◌, ◌++◌, Option, none, some, length, take_all, length-append, append_assoc,
  append-nil, All,
}
use ulppk.Base.{le→ltb-false}
use mathlib.Core.Path.{subst}
use ulppk.Mmdeque.Bytes.{Holds}
use ulppk.Msgdeque.{
  MsgDeque, Outcome, received, blocked, unfinished, msgdeque_send_byte_stream,
  msgdeque_rec_byte_stream,
}
use ulppk.Msgdeque.Frame.{frame, length-frame}
use ulppk.Msgdeque.Stream.{msgdeque_send_byte_stream_lem, msgdeque_rec_byte_stream_lem}

abbrev pub frames : List (List ℕ) → List ℕ
frames [] = []
frames (m ∷ ms) = frame m ++ frames ms

-- A sender's messages in order; the flag is true if one of them did not fit.
unfoldable pub send_all : MsgDeque → List (List ℕ) → Bool × MsgDeque
send_all s [] = (false, s)
send_all s (m ∷ ms) =
    let (flag, s1) = msgdeque_send_byte_stream s m in
    let (flags, s2) = send_all s1 ms in (flag || flags, s2)

abbrev pub and_then : (MsgDeque → Option (List (List ℕ))) → Outcome → Option (List (List ℕ))
and_then more (blocked s) = none
and_then more unfinished = none
and_then more (received m s) = cons (more s)
  where
    cons : Option (List (List ℕ)) → Option (List (List ℕ))
    cons none = none
    cons (some ms) = some (m ∷ ms)

-- As many messages as a receiver asks for, each within one round.
unfoldable pub receive_all : ℕ → MsgDeque → Option (List (List ℕ))
receive_all zero s = some []
receive_all (suc n) s = and_then (λ s1. receive_all n s1) (msgdeque_rec_byte_stream 1 s)

-- A message that `msgdeque_rec_byte_stream` can return.
abbrev pub IsMessage : List ℕ → Type 0
IsMessage msg = (0 < length msg) × (length msg < 2 ^ 31)

send_all_lem :
    (cap : ℕ) (s : MsgDeque) (bs : List ℕ) (ms : List (List ℕ))
    → Holds cap s.deque bs
    → length bs + length (frames ms) ≤ cap
    → ((send_all s ms).0 ≡ false) × Holds cap (send_all s ms).1.deque (bs ++ frames ms)
unfolding send_all
send_all_lem cap s bs [] h fit = (refl, subst (Holds cap s.deque) (sym (append-nil bs)) h)
send_all_lem cap s bs (m ∷ ms) h fit =
    let s1 = (msgdeque_send_byte_stream s m).1 in
    let size : length (frames (m ∷ ms)) ≡ 4 + length m + length (frames ms) =
      length-append (frame m) (frames ms) ∙ ap (λ k. k + length (frames ms)) (length-frame m) in
    let size1 : length (bs ++ frame m) ≡ length bs + (4 + length m) =
      length-append bs (frame m) ∙ ap (λ k. length bs + k) (length-frame m) in
    let (flag, h1, posts) = msgdeque_send_byte_stream_lem cap s bs m h in
    let (flags, h2) =
      send_all_lem cap s1 (bs ++ frame m) ms
        (subst (Holds cap s1.deque) (take_all cap (bs ++ frame m) (omega (arith, size, size1))) h1)
        (omega (arith, size, size1)) in
    (
      ap₂ ◌||◌ (flag ∙ le→ltb-false cap (length bs + 4 + length m) (omega (arith, size))) flags,
      subst (Holds cap (send_all s1 ms).1.deque) (append_assoc bs (frame m) (frames ms)) h2,
    )

receive_all_lem :
    (cap : ℕ) (s : MsgDeque) (ms : List (List ℕ))
    → All IsMessage ms
    → Holds cap s.deque (frames ms)
    → receive_all (length ms) s ≡ some ms
unfolding receive_all
receive_all_lem cap s [] ok h = refl
receive_all_lem cap s (m ∷ ms) ok h =
    let (d, e, h1) = msgdeque_rec_byte_stream_lem cap 0 s m (frames ms) ok.0.0 ok.0.1 h in
    rw (e, receive_all_lem cap (record s { deque = d }) ms ok.1 h1) refl

-- Messages that are not empty, are shorter than 2^31 bytes and together fit the empty valid deque
-- of single bytes are all sent with success and are received whole and in order, one round each.
pub receive_all-send_all :
    (cap : ℕ) (s : MsgDeque) (ms : List (List ℕ))
    → Holds cap s.deque []
    → All IsMessage ms
    → length (frames ms) ≤ cap
    → ((send_all s ms).0 ≡ false) × (receive_all (length ms) (send_all s ms).1 ≡ some ms)
receive_all-send_all cap s ms h ok fit =
    let (flag, h1) = send_all_lem cap s [] ms h (omega arith) in
    (flag, receive_all_lem cap (send_all s ms).1 ms ok h1)

-- ===== src/Msgdeque/Stream.antt =====
-- The byte stream: sending, receiving, and both in order.
use ulppk.Base.{
  ℕ, zero, suc, ◌+◌, ◌-◌, ◌^◌, ◌<◌, ◌≤◌, ◌≡◌, refl, ap, ◌∙◌, arith, Bool, true, false, ◌⊎◌, inl,
  inr,
}
use ulppk.Base.{
  List, [], ◌∷◌, ◌++◌, Option, none, some, length, take, drop_past, length-take, take-append_long,
  take-append, drop-append, length-append, append_assoc,
}
use ulppk.Base.{ltb, if◌then◌else◌, if-true, if-false, lt→ltb, le→ltb-false}
use mathlib.Core.Path.{subst}
use ulppk.Dqacc.{Deque}
use ulppk.Mmdeque.Bytes.{Holds, push_both, push_both_lem, first_bytes}
use ulppk.Msgdeque.{
  MsgDeque, Outcome, received, blocked, unfinished, msgcell_send, msgcell_rec, wait_for_data,
  msgdeque_datacheck,
}
use ulppk.Msgdeque.{
  after_attempt, after_wait, encode_uint, stream_attempt, msgdeque_send_byte_stream,
  msgdeque_rec_byte_stream,
}
use ulppk.Msgdeque.Frame.{
  frame, length-frame, length-encode_uint, datacheck_lem, attempt_early, attempt_lem,
}

-- Posting, and waiting, according to whether there is data.
pub posted :
    (s : MsgDeque)
    → msgdeque_datacheck s.deque ≡ true
    → (msgcell_send s).1 ≡ record s { posts = s.posts + 1 }
unfolding msgcell_send
posted s e = ap (λ (r : Bool × MsgDeque). r.1) (if-true _ _ e)

wait_ends :
    (posts : ℕ) (d : Deque) → msgdeque_datacheck d ≡ true → wait_for_data posts d ≡ some posts
unfolding wait_for_data
wait_ends zero d e = if-true _ _ e
wait_ends (suc posts) d e = if-true _ _ e

wait_blocks : (posts : ℕ) (d : Deque) → msgdeque_datacheck d ≡ false → wait_for_data posts d ≡ none
unfolding wait_for_data
wait_blocks zero d e = if-false _ _ e
wait_blocks (suc posts) d e = if-false _ _ e ∙ wait_blocks posts d e

pub rec_goes_on : (s : MsgDeque) → msgdeque_datacheck s.deque ≡ true → msgcell_rec s ≡ (true, s)
unfolding msgcell_rec
rec_goes_on s e = rw (wait_ends s.posts s.deque e) refl

pub rec_blocks :
    (s : MsgDeque)
    → msgdeque_datacheck s.deque ≡ false
    → msgcell_rec s ≡ (false, record s { posts = 0 })
unfolding msgcell_rec
rec_blocks s e = rw (wait_blocks s.posts s.deque e) refl

pub attempt_gets :
    (more : MsgDeque → Outcome) (s : MsgDeque) (r : Option (List ℕ) × Deque) (msg : List ℕ)
    → r.0 ≡ some msg
    → after_attempt more s r ≡ received msg (record s { deque = r.1 })
unfolding after_attempt
attempt_gets more s r msg e = ap (λ o. after_attempt more s (o, r.1)) e

pub attempt_waits :
    (more : MsgDeque → Outcome) (s : MsgDeque) (r : Option (List ℕ) × Deque)
    → r.0 ≡ none
    → after_attempt more s r ≡ after_wait more (msgcell_rec (record s { deque = r.1 }))
unfolding after_attempt
attempt_waits more s r e = ap (λ o. after_attempt more s (o, r.1)) e

take_some : (n : ℕ) (xs : List ℕ) → 0 < n → 0 < length xs → 0 < length (take n xs)
take_some zero xs p q = absurd (omega arith)
take_some (suc n) [] p q = absurd (omega arith)
take_some (suc n) (x ∷ xs) p q = omega arith

-- `msgdeque_send_byte_stream` on a valid deque of single bytes puts the encoded length and the
-- bytes behind what is there, as far as there is room, reports whether something did not fit, and
-- posts in both cases. What did fit of a refused message stays on the deque.
pub msgdeque_send_byte_stream_lem :
    (cap : ℕ) (s : MsgDeque) (bs msg : List ℕ)
    → Holds cap s.deque bs
    → let (flag, s') = msgdeque_send_byte_stream s msg in
      (flag ≡ ltb cap (length bs + 4 + length msg))
      × Holds cap s'.deque (take cap (bs ++ frame msg))
      × (s'.posts ≡ s.posts + 1)
unfolding msgdeque_send_byte_stream
msgdeque_send_byte_stream_lem cap s bs msg h =
    let n = length msg in
    let (flag, h1) = push_both_lem (encode_uint n) msg h in
    let size : length (bs ++ frame msg) ≡ length bs + (4 + n) =
      length-append bs (frame msg) ∙ ap (λ k. length bs + k) (length-frame msg) in
    let fresh =
      datacheck_lem h1
      ∙ lt→ltb 0 (length (take cap (bs ++ frame msg))) (
          take_some cap (bs ++ frame msg) (omega (arith, h.valid.bottom_in, h.slots))
            (omega (arith, size))) in
    rw (posted (record s { deque = (push_both s.deque (encode_uint n) msg).1 }) fresh)
      (flag ∙ ap (λ k. ltb cap (length bs + k + n)) (length-encode_uint n), h1, refl)

-- A message at the front of a valid deque of single bytes, not empty and shorter than 2^31 bytes,
-- is received in the first round, and what is behind it is left.
pub msgdeque_rec_byte_stream_lem :
    (cap rounds : ℕ) (s : MsgDeque) (msg rest : List ℕ)
    → 0 < length msg
    → length msg < 2 ^ 31
    → Holds cap s.deque (frame msg ++ rest)
    → (d : Deque) × (msgdeque_rec_byte_stream (suc rounds) s
        ≡ received msg (record s { deque = d }))
      × Holds cap d rest
msgdeque_rec_byte_stream_lem cap rounds s msg rest pos small h =
    let n = length msg in
    let (e, h1) =
      attempt_lem n (msg ++ rest) small
        (subst (Holds cap s.deque) (append_assoc (encode_uint n) msg rest) h) in
    let got : (stream_attempt s.deque).0 ≡ some msg =
      e
      ∙ if-true _ _ (lt→ltb 0 n pos)
      ∙ if-false _ _
          (le→ltb-false (length (msg ++ rest)) n (omega (arith, length-append {0} msg rest)))
      ∙ ap some (take-append n msg rest refl) in
    (
      (stream_attempt s.deque).1,
      (unfold msgdeque_rec_byte_stream in
          attempt_gets (λ s1. msgdeque_rec_byte_stream rounds s1) s (stream_attempt s.deque) msg
            got),
      subst (Holds cap (stream_attempt s.deque).1) (drop-append n msg rest refl) h1,
    )

-- A message shorter than 2^31 bytes that is empty, or too long for the empty valid deque of four
-- or more single bytes it is sent to, is lost: the receiver takes what there is of it off the
-- deque and waits.
pub msgdeque_rec_byte_stream_lost :
    (cap rounds : ℕ) (s : MsgDeque) (msg : List ℕ)
    → 4 ≤ cap
    → (length msg ≡ 0) ⊎ (cap < 4 + length msg)
    → length msg < 2 ^ 31
    → Holds cap s.deque []
    → (d : Deque) × (msgdeque_rec_byte_stream (suc rounds) (msgdeque_send_byte_stream s msg).1
        ≡ blocked (record { deque = d; posts = 0 }))
      × Holds cap d []
msgdeque_rec_byte_stream_lost cap rounds s msg room bad small h =
    let (flag, h1, posts) = msgdeque_send_byte_stream_lem cap s [] msg h in
    let s1 = (msgdeque_send_byte_stream s msg).1 in
    let (e, h2) = attempt_lem n body small (subst (Holds cap s1.deque) cut h1) in
    let h3 =
      subst (Holds cap (stream_attempt s1.deque).1)
        (drop_past n body (omega (arith, length-take (cap - 4) msg))) h2 in
    (
      (stream_attempt s1.deque).1,
      (unfold msgdeque_rec_byte_stream in
          (attempt_waits (λ s2. msgdeque_rec_byte_stream rounds s2) s1 (stream_attempt s1.deque)
              (e ∙ nothing bad)
            ∙ ap (after_wait (λ s2. msgdeque_rec_byte_stream rounds s2)) (
                rec_blocks (record s1 { deque = (stream_attempt s1.deque).1 })
                  (datacheck_lem h3)))),
      h3,
    )
  where
    n : ℕ
    n = length msg

    body : List ℕ
    body = take (cap - 4) msg

    cut : take cap (frame msg) ≡ encode_uint n ++ body
    cut =
        take-append_long cap (encode_uint n) msg (omega (arith, length-encode_uint n))
        ∙ ap (λ k. encode_uint n ++ take (cap - k) msg) (length-encode_uint n)

    nothing : (n ≡ 0) ⊎ (cap < 4 + n) → (if ltb 0 n then first_bytes n body else none) ≡ none
    nothing (inl e) = if-false _ _ (le→ltb-false 0 n (omega arith))
    nothing (inr e) =
        if-true _ _ (lt→ltb 0 n (omega arith))
        ∙ if-true _ _ (lt→ltb (length body) n (omega (arith, length-take (cap - 4) msg)))

-- One to three bytes on a valid deque of single bytes keep the receiver busy: it neither receives
-- nor waits, in however many rounds.
pub msgdeque_rec_byte_stream_spins :
    (cap rounds : ℕ) (s : MsgDeque) (bs : List ℕ)
    → 0 < length bs
    → length bs < 4
    → Holds cap s.deque bs
    → msgdeque_rec_byte_stream rounds s ≡ unfinished
unfolding msgdeque_rec_byte_stream
msgdeque_rec_byte_stream_spins cap zero s bs pos short h = refl
msgdeque_rec_byte_stream_spins cap (suc rounds) s bs pos short h =
    ap (after_attempt (λ s1. msgdeque_rec_byte_stream rounds s1) s) (attempt_early h short)
    ∙ attempt_waits (λ s1. msgdeque_rec_byte_stream rounds s1) s (none, s.deque) refl
    ∙ ap (after_wait (λ s1. msgdeque_rec_byte_stream rounds s1))
        (rec_goes_on s (datacheck_lem h ∙ lt→ltb 0 (length bs) pos))
    ∙ msgdeque_rec_byte_stream_spins cap rounds s bs pos short h

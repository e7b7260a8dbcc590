-- ===== src/Msgdeque/Frame.antt =====
-- The encoded length, and one attempt to receive what stands behind it.
use ulppk.Base.{ℕ, zero, suc, ◌+◌, ◌%◌, ◌^◌, ◌<◌, ◌≤◌, ◌≡◌, refl, ap, ◌∙◌, arith, ◌&&◌}
use ulppk.Base.{
  List, ◌++◌, Option, none, some, length, drop, take-append, drop-append, length-append,
}
use ulppk.Base.{ltb, if◌then◌else◌, if-true, if-false, lt→ltb, le→ltb-false}
use mathlib.Core.Path.{subst}
use ulppk.Dqacc.{Deque, dq_stats}
use ulppk.Mmdeque.{pop_packet, mmdq_stats}
use ulppk.Mmdeque.Bytes.{Holds, Holds-use, pop_packet_lem, first_bytes}
use ulppk.Msgdeque.{encode_uint, decode_uint, stream_attempt, pop_data, msgdeque_datacheck}

-- Four bytes carry a length modulo 2^32.
pub decode_uint-encode_uint : (n : ℕ) → decode_uint (encode_uint n) ≡ n % 2 ^ 32
unfolding decode_uint encode_uint
decode_uint-encode_uint n = omega arith

pub length-encode_uint : (n : ℕ) → length (encode_uint n) ≡ 4
unfolding encode_uint
length-encode_uint n = refl

-- A message on the deque.
abbrev pub frame : List ℕ → List ℕ
frame msg = encode_uint (length msg) ++ msg

pub length-frame : (msg : List ℕ) → length (frame msg) ≡ 4 + length msg
length-frame msg =
    length-append (encode_uint (length msg)) msg
    ∙ ap (λ k. k + length msg) (length-encode_uint (length msg))

pub datacheck_lem :
    {cap : ℕ} {d : Deque} {bs : List ℕ} → Holds cap d bs → msgdeque_datacheck d ≡ ltb 0 (length bs)
unfolding msgdeque_datacheck mmdq_stats
datacheck_lem h = unfold dq_stats in ap (ltb 0) (Holds-use h)

module _ {cap : ℕ} {d : Deque} {bs : List ℕ} (h : Holds cap d bs) where
  pub attempt_early : length bs < 4 → stream_attempt d ≡ (none, d)
  unfolding stream_attempt mmdq_stats
  attempt_early short =
      unfold dq_stats in if-true _ _ (lt→ltb d.dquse 4 (omega (arith, Holds-use h)))

  attempt_go : 4 ≤ length bs → stream_attempt d ≡ pop_data (pop_packet d 4)
  unfolding stream_attempt mmdq_stats
  attempt_go long =
      unfold dq_stats in if-false _ _ (le→ltb-false d.dquse 4 (omega (arith, Holds-use h)))

pop_data_size :
    (r : Option (List ℕ) × Deque) (n : ℕ)
    → r.0 ≡ some (encode_uint n)
    → n < 2 ^ 31
    → pop_data r ≡ (if ltb 0 n then pop_packet r.1 n else (none, r.1))
pop_data_size r n e small =
    ap (λ o. pop_data (o, r.1)) e ∙ unfold pop_data in (ap branch size ∙ test)
  where
    branch : ℕ → Option (List ℕ) × Deque
    branch k = if ltb 0 k && ltb k (2 ^ 31) then pop_packet r.1 k else (none, r.1)

    size : decode_uint (encode_uint n) ≡ n
    size = decode_uint-encode_uint n ∙ omega arith

    test : branch n ≡ (if ltb 0 n then pop_packet r.1 n else (none, r.1))
    test = ap (λ b. if b then pop_packet r.1 n else (none, r.1)) (ground arith)

-- An attempt on a deque that starts with a length `n` gets the `n` bytes behind it, or none if `n`
-- is 0 or there are fewer; what it popped is gone either way.
pub attempt_lem :
    {cap : ℕ} {d : Deque} (n : ℕ) (rest : List ℕ)
    → n < 2 ^ 31
    → Holds cap d (encode_uint n ++ rest)
    → ((stream_attempt d).0 ≡ (if ltb 0 n then first_bytes n rest else none))
      × Holds cap (stream_attempt d).1 (drop n rest)
attempt_lem {cap} {d} n rest small h = rw whole (result n small (pop_packet_lem n rest h1))
  where
    sized : length (encode_uint n ++ rest) ≡ 4 + length rest
    sized = length-append (encode_uint n) rest ∙ ap (λ k. k + length rest) (length-encode_uint n)

    popped_size : (pop_packet d 4).0 ≡ some (encode_uint n)
    popped_size =
        (pop_packet_lem 4 (encode_uint n ++ rest) h).0
        ∙ if-false _ _ (le→ltb-false (length (encode_uint n ++ rest)) 4 (omega (arith, sized)))
        ∙ ap some (take-append 4 (encode_uint n) rest (length-encode_uint n))

    h1 : Holds cap (pop_packet d 4).1 rest
    h1 =
        subst (Holds cap (pop_packet d 4).1)
          (drop-append 4 (encode_uint n) rest (length-encode_uint n))
          (pop_packet_lem 4 (encode_uint n ++ rest) h).1

    whole :
        stream_attempt d
        ≡ (if ltb 0 n then pop_packet (pop_packet d 4).1 n else (none, (pop_packet d 4).1))
    whole = attempt_go h (omega (arith, sized)) ∙ pop_data_size (pop_packet d 4) n popped_size small

    result :
        (n : ℕ)
        → n < 2 ^ 31
        → ((pop_packet (pop_packet d 4).1 n).0 ≡ first_bytes n rest)
          × Holds cap (pop_packet (pop_packet d 4).1 n).1 (drop n rest)
        → let r = if ltb 0 n then pop_packet (pop_packet d 4).1 n else (none, (pop_packet d 4).1) in
          (r.0 ≡ (if ltb 0 n then first_bytes n rest else none)) × Holds cap r.1 (drop n rest)
    result zero small p = (refl, h1)
    result (suc n) small p = rw (lt→ltb 0 (suc n) (omega arith)) p

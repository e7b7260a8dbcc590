-- ===== src/Mmdeque/Rounds.antt =====
-- The rounds of the packet reader, each of which pops the whole length again.
use ulppk.Base.{ℕ, zero, suc, ◌+◌, ◌-◌, ◌*◌, ◌≤◌, ◌≡◌, ap, ap₂, ◌∙◌, sym, arith}
use ulppk.Base.{List, Option, none, some, length, take, drop, drop_past}
use ulppk.Base.{length-drop, drop-drop, ltb, if◌then◌else◌, lt→ltb, le→ltb-false}
use ulppk.Base.{if-true, if-false}
use mathlib.Core.Path.{subst}
use native.Mathlib.Decide.{dec_lt}
use native.Mathlib.Nat.{suc-mul}
use ulppk.Dqacc.{Deque}
use ulppk.Mmdeque.{pop_packet, pop_rounds, next_round}
use ulppk.Mmdeque.Bytes.{Holds, pop_packet_lem}

-- The last of `k + 1` readings of `n` bytes, one behind the other.
abbrev pub last_reading : ℕ → ℕ → List ℕ → Option (List ℕ)
last_reading k n bs = if ltb (length bs) (suc k * n) then none else some (take n (drop (k * n) bs))

module _ (k n : ℕ) (buf : List ℕ) (d : Deque) where
  round_fails : (pop_packet d n).0 ≡ none → pop_rounds (suc k) n buf d ≡ (none, (pop_packet d n).1)
  unfolding pop_rounds
  round_fails e = ap (λ r. next_round (λ bytes d. pop_rounds k n bytes d) (r, (pop_packet d n).1)) e

  round_reads :
      (bytes : List ℕ)
      → (pop_packet d n).0 ≡ some bytes
      → pop_rounds (suc k) n buf d ≡ pop_rounds k n bytes (pop_packet d n).1
  unfolding pop_rounds
  round_reads bytes e =
      ap (λ r. next_round (λ bytes d. pop_rounds k n bytes d) (r, (pop_packet d n).1)) e

abbrev Reads : ℕ → ℕ → ℕ → List ℕ → Option (List ℕ) × Deque → Type 0
Reads cap k n bs r = (r.0 ≡ last_reading k n bs) × Holds cap r.1 (drop (suc k * n) bs)

-- The first round, and what the others make of a deque with the bytes for it.
first_round :
    {cap : ℕ} (k n : ℕ) (buf bs : List ℕ) {d : Deque}
    → Holds cap d bs
    → (n ≤ length bs → Reads cap k n bs (pop_rounds k n (take n bs) (pop_packet d n).1))
    → Reads cap k n bs (pop_rounds (suc k) n buf d)
first_round {cap} k n buf bs {d} h rest = elim (dec_lt (length bs) n) [
  | yes short ↦
      let (e, h1) = pop_packet_lem n bs h in
      let more : n ≤ suc k * n = omega (arith, suc-mul k n) in
      rw (round_fails k n buf d (e ∙ if-true _ _ (lt→ltb (length bs) n short))) (
        sym (if-true _ _ (lt→ltb (length bs) (suc k * n) (omega arith))),
        subst (Holds cap (pop_packet d n).1)
            (drop_past n bs (omega arith) ∙ sym (drop_past (suc k * n) bs (omega arith))) h1,
      )
  | no long ↦
      let (e, h1) = pop_packet_lem n bs h in
      rw
        (round_reads k n buf d (take n bs)
          (e ∙ if-false _ _ (le→ltb-false (length bs) n (omega arith))))
        (rest (omega arith))
]

ltb-sub : (l n m : ℕ) → n ≤ l → ltb (l - n) m ≡ ltb l (n + m)
ltb-sub l n m h = ground arith

-- The rounds read the last stretch of `n` bytes, if there are enough for all of them.
pub pop_rounds_lem :
    {cap : ℕ} (k n : ℕ) (buf bs : List ℕ) {d : Deque}
    → Holds cap d bs
    → Reads cap k n bs (pop_rounds (suc k) n buf d)
pop_rounds_lem {cap} zero n buf bs {d} h = first_round zero n buf bs h λ long.
    let e : 1 * n ≡ n = omega arith in
    unfold pop_rounds in
    (
      ap (λ m. some (take n (drop m bs))) (let z : 0 ≡ 0 * n = omega arith in z)
          ∙ sym (if-false _ _ (le→ltb-false (length bs) (1 * n) (omega arith))),
      subst (λ m. Holds cap (pop_packet d n).1 (drop m bs)) (sym e) (pop_packet_lem n bs h).1,
    )
pop_rounds_lem {cap} (suc k) n buf bs {d} h = first_round (suc k) n buf bs h λ long.
    let (r, h2) = pop_rounds_lem k n (take n bs) (drop n bs) (pop_packet_lem n bs h).1 in
    let e : n + suc k * n ≡ suc (suc k) * n = omega (arith, suc-mul (suc k) n) in
    let f : n + k * n ≡ suc k * n = omega (arith, suc-mul k n) in
    (
      r
          ∙ ap₂ (λ b l. if b then none else some (take n l))
              (ap (λ l. ltb l (suc k * n)) (length-drop n bs)
                ∙ ltb-sub (length bs) n (suc k * n) long
                ∙ ap (ltb (length bs)) e)
              (drop-drop (k * n) n bs ∙ ap (λ m. drop m bs) f),
      subst (Holds cap (pop_rounds (suc k) n (take n bs) (pop_packet d n).1).1)
          (drop-drop (suc k * n) n bs ∙ ap (λ m. drop m bs) e) h2,
    )

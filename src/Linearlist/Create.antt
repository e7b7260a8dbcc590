-- ===== src/Linearlist/Create.antt =====
-- A new list.
use ulppk.Base.{ℕ, suc, ◌+◌, ◌*◌, ◌^◌, ◌-◌, ◌<◌, ◌≤◌, ◌≡◌, ap, ◌∙◌, sym, arith, inl}
use ulppk.Base.{
  List, length, peek, poke, replicate, length-replicate, length-poke, peek-poke_self,
  peek-poke_apart,
}
use mathlib.Core.Path.{subst, subst₂}
use ulppk.Dqacc.Memory.{slot_in}
use native.Mathlib.Nat.{mul_comm}
use ulppk.Mmdeque.{le_bytes, le_value}
use ulppk.Linearlist.{linlist_create}
use ulppk.Linearlist.Slots.{Holds, le_value-le_bytes}

le_value_of_size : (v : ℕ) → v < 2 ^ 64 → le_value (le_bytes 8 v) ≡ v
le_value_of_size v h = omega arith

module _ (rec_size nrecs : ℕ) (big : 16 ≤ rec_size) (fit : rec_size < 2 ^ 64)
    (small : nrecs < 2 ^ 31 - 1) where
  abbrev mem0 : List ℕ
  mem0 = replicate (rec_size * (nrecs + 1)) 0

  abbrev mem1 : List ℕ
  mem1 = poke mem0 0 (le_bytes 4 1)

  abbrev mem2 : List ℕ
  mem2 = poke mem1 4 (le_bytes 4 nrecs)

  abbrev mem3 : List ℕ
  mem3 = poke mem2 8 (le_bytes 8 rec_size)

  size : length mem3 ≡ suc nrecs * rec_size
  size =
      length-poke mem2 8 (le_bytes 8 rec_size)
      ∙ length-poke mem1 4 (le_bytes 4 nrecs)
      ∙ length-poke mem0 0 (le_bytes 4 1)
      ∙ length-replicate {A = ℕ} (rec_size * (nrecs + 1)) 0
      ∙ mul_comm rec_size (nrecs + 1)
      ∙ ap (λ k. k * rec_size) one_more
    where
      one_more : nrecs + 1 ≡ suc nrecs
      one_more = omega arith

  room16 : 16 ≤ length mem3
  room16 = omega (arith, size, slot_in rec_size 0 (suc nrecs) (omega arith))

  long0 : 16 ≤ length mem0
  long0 = omega (
    arith,
    room16,
    length-poke mem2 8 (le_bytes 8 rec_size),
    length-poke mem1 4 (le_bytes 4 nrecs),
    length-poke mem0 0 (le_bytes 4 1),
  )

  at_nextx : peek mem3 0 4 ≡ le_bytes 4 1
  at_nextx =
      peek-poke_apart mem2 8 0 4 (le_bytes 8 rec_size) (inl (omega arith))
      ∙ peek-poke_apart mem1 4 0 4 (le_bytes 4 nrecs) (inl (omega arith))
      ∙ peek-poke_self mem0 0 (le_bytes 4 1) (omega (arith, long0))

  at_capacity : peek mem3 4 4 ≡ le_bytes 4 nrecs
  at_capacity =
      peek-poke_apart mem2 8 4 4 (le_bytes 8 rec_size) (inl (omega arith))
      ∙ peek-poke_self mem1 4 (le_bytes 4 nrecs)
          (omega (arith, long0, length-poke mem0 0 (le_bytes 4 1)))

  at_size : peek mem3 8 8 ≡ le_bytes 8 rec_size
  at_size = peek-poke_self mem2 8 (le_bytes 8 rec_size) (
      omega
        (arith, long0, length-poke mem1 4 (le_bytes 4 nrecs), length-poke mem0 0 (le_bytes 4 1)))

  cap : le_value (peek mem3 4 4) ≡ nrecs
  cap = ap le_value at_capacity ∙ le_value-le_bytes nrecs (omega arith)

  -- A new list of records that have room for the header is empty and in order.
  pub linlist_create-Holds : Holds (linlist_create rec_size nrecs) 0
  unfolding linlist_create
  linlist_create-Holds = record {
    big = big;
    same = ap le_value at_size ∙ le_value_of_size rec_size fit;
    used = ap le_value at_nextx ∙ le_value-le_bytes 1 (omega arith);
    fits = omega arith;
    small = subst (λ c. c < 2 ^ 31 - 1) (sym cap) small;
    room = subst₂ (λ c l. suc c * rec_size ≤ l) (sym cap) (sym size) (omega arith);
  }

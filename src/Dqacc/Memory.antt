-- ===== src/Dqacc/Memory.antt =====
-- The representation invariant of a deque, and what the slots of a valid one hold.
use ulppk.Base.{ℕ, ◌+◌, ◌-◌, ◌*◌, ◌%◌, ◌^◌, ◌<◌, ◌≤◌, ◌≡◌, ◌≢◌, ◌⊎◌, inl, inr, arith}
use ulppk.Base.{true, List, length, peek, poke}
use ulppk.Base.{length-peek, length-poke, peek-poke_self, peek-poke_apart}
use mathlib.Core.Path.{subst}
use native.Mathlib.Decide.{dec_lt}
use ulppk.Dqacc.{Deque, memory, slot_base, map_slot, set_memory, write_slot, read_slot}

-- An open deque whose slots all lie in its memory, at offsets that an `int` holds, with the top
-- slot where the use count puts it.
pub record IsValid (d : Deque) : Type 0 where
  pub opened : d.dq_open ≡ true
  pub use_in : d.dquse ≤ d.dqslots
  pub slots_fit : d.dqslots < 2 ^ 16
  pub bottom_in : d.dqbottom < d.dqslots
  pub top_at : d.dqtop ≡ (d.dqbottom + (d.dquse - 1)) % d.dqslots
  pub offsets_fit : d.dqslots * d.dqitem_size < 2 ^ 31
  pub room : slot_base d + d.dqslots * d.dqitem_size ≤ length (memory d)

memory-set_memory : (d : Deque) (m : List ℕ) → memory (set_memory d m) ≡ m
memory-set_memory d m = ground arith

pub slot_in : (z i s : ℕ) → i < s → i * z + z ≤ s * z
slot_in z i s h = grind arith

-- Two slots do not overlap.
pub slots_apart : (z i j : ℕ) → i ≢ j → (j * z + z ≤ i * z) ⊎ (i * z + z ≤ j * z)
slots_apart z i j h = elim (dec_lt i j) [
  | yes p ↦ inr (slot_in z i j p)
  | no p ↦ inl (slot_in z j i (omega arith))
]

module _ (d : Deque) (i : ℕ) (item : List ℕ) where
  pub length-memory-write_slot : length (memory (write_slot d i item)) ≡ length (memory d)
  length-memory-write_slot =
      rw memory-set_memory (length-poke (memory d) (map_slot d i) (peek item 0 d.dqitem_size))

  -- An item written to a slot is read back from it.
  pub read_slot-write_slot_self :
      i < d.dqslots
      → slot_base d + d.dqslots * d.dqitem_size ≤ length (memory d)
      → read_slot (write_slot d i item) i ≡ peek item 0 d.dqitem_size
  read_slot-write_slot_self h r = rw memory-set_memory (
      subst (λ n. peek (poke (memory d) (map_slot d i) bytes) (map_slot d i) n ≡ bytes)
        (length-peek item 0 d.dqitem_size)
        (peek-poke_self (memory d) (map_slot d i) bytes
          (omega (arith, length-peek item 0 d.dqitem_size, slot_in d.dqitem_size i d.dqslots h))))
    where
      bytes : List ℕ
      bytes = peek item 0 d.dqitem_size

  -- The other slots stay.
  pub read_slot-write_slot_ne : (j : ℕ) → i ≢ j → read_slot (write_slot d i item) j ≡ read_slot d j
  read_slot-write_slot_ne j h = rw memory-set_memory (
      peek-poke_apart (memory d) (map_slot d i) (map_slot d j) d.dqitem_size
        (peek item 0 d.dqitem_size) apart)
    where
      apart :
          (map_slot d j + d.dqitem_size ≤ map_slot d i)
          ⊎ (map_slot d i + length (peek item 0 d.dqitem_size) ≤ map_slot d j)
      apart = elim (slots_apart d.dqitem_size i j h) [
        | inl p ↦ inl (omega arith)
        | inr p ↦ inr (omega (arith, length-peek item 0 d.dqitem_size))
      ]

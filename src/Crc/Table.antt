-- ===== src/Crc/Table.antt =====
-- The table of ulppk/crc16ccitt.c does eight rounds of the register at once.
use ulppk.Base.{
  ℕ, zero, suc, ◌+◌, ◌*◌, ◌/◌, ◌%◌, ◌<◌, ◌≡◌, refl, sym, ap, ap₂, ◌∙◌, arith, u16, get_or,
  if◌then◌else◌, false, inl, inr, ◌⊎◌, Bool-cases,
}
use Prim.Native.Nat.{bit_and, bit_xor}
use ulppk.Crc.{Crc, shift_rounds, table_entry, table_from, init_crcccitt_tab, update_crc_ccitt}
use ulppk.Crc.Xor.{
  bit_xor_comm, bit_xor_self, bit_xor_cancel, u16-bit_xor, zero-bit_xor, low, halves,
  halves-bit_xor, low-bit_xor,
}
use ulppk.Crc.Register.{
  bit_and_byte, shift_rounds-bit_xor, shifts_byte, FitsShifts-byte, shift_rounds_bound,
}

get_or-table_from : (n i k : ℕ) → k < n → get_or (table_from n i) k 0 ≡ table_entry (i + k)
unfolding table_from
get_or-table_from zero i k h = absurd (omega arith)
get_or-table_from (suc n) i zero h = ap table_entry (omega arith)
get_or-table_from (suc n) i (suc k) h =
    get_or-table_from n (i + 1) k (omega arith) ∙ ap table_entry (omega arith)

-- The exclusive or of two bytes is a byte, and shifts by a byte go through it.
bit_xor_byte : (a b : ℕ) → a < 256 → b < 256 → bit_xor a b < 256
bit_xor_byte a b h k =
    let ea : halves 8 a ≡ 0 = omega arith in
    let eb : halves 8 b ≡ 0 = omega arith in
    let e : halves 8 (bit_xor a b) ≡ 0 =
      halves-bit_xor 8 a b ∙ ap₂ bit_xor ea eb ∙ bit_xor_self 0 in
    omega (arith, e)

bit_xor_sixteen : (a b : ℕ) → a < 0x10000 → b < 0x10000 → bit_xor a b < 0x10000
bit_xor_sixteen a b h k =
    let ea : halves 16 a ≡ 0 = omega arith in
    let eb : halves 16 b ≡ 0 = omega arith in
    let e : halves 16 (bit_xor a b) ≡ 0 =
      halves-bit_xor 16 a b ∙ ap₂ bit_xor ea eb ∙ bit_xor_self 0 in
    omega (arith, e)

byte-bit_xor : (a b : ℕ) → bit_xor (a * 256) (b * 256) ≡ bit_xor a b * 256
byte-bit_xor a b =
    let eh : halves 8 (bit_xor (a * 256) (b * 256)) ≡ bit_xor a b =
      halves-bit_xor 8 (a * 256) (b * 256) ∙ ap₂ bit_xor (omega arith) (omega arith) in
    let el : low 8 (bit_xor (a * 256) (b * 256)) ≡ 0 =
      low-bit_xor 8 (a * 256) (b * 256)
      ∙ ap₂ bit_xor {y = 0} {v = 0} (omega arith) (omega arith)
      ∙ bit_xor_self 0 in
    omega (arith, eh, el)

-- What is left of a number without its high byte.
low_byte : (crc : ℕ) → bit_xor crc (crc / 256 * 256) ≡ crc % 256
low_byte crc =
    let eh : halves 8 (bit_xor crc (crc / 256 * 256)) ≡ 0 =
      halves-bit_xor 8 crc (crc / 256 * 256)
      ∙ ap (bit_xor (halves 8 crc)) (omega arith)
      ∙ bit_xor_self (halves 8 crc) in
    let el : low 8 (bit_xor crc (crc / 256 * 256)) ≡ crc % 256 =
      low-bit_xor 8 crc (crc / 256 * 256)
      ∙ ap₂ bit_xor {y = crc % 256} {v = 0} (omega arith) (omega arith)
      ∙ bit_xor_comm (crc % 256) 0
      ∙ zero-bit_xor (crc % 256) in
    omega (arith, eh, el)

-- What the table is between two calls.
unfoldable pub HasTable : Crc → Type 0
HasTable s = (s.crc_tabccitt_init ≡ false) ⊎ (s.crc_tabccitt ≡ table_from 256 0)

call_table :
    (s : Crc)
    → HasTable s
    → (if s.crc_tabccitt_init then s else init_crcccitt_tab s).crc_tabccitt ≡ table_from 256 0
unfolding init_crcccitt_tab HasTable
call_table s h = elim (Bool-cases s.crc_tabccitt_init) [
  | inl e ↦ elim h [ inl f ↦ absurd (cc (e, f)) | inr f ↦ rw e f ]
  | inr e ↦ rw e refl
]

-- The entry that is read.
entry_read :
    (crc c : ℕ)
    → crc < 0x10000
    → c < 256
    → get_or (table_from 256 0) (bit_xor (crc / 256) (bit_and 0x00FF c)) 0
      ≡ table_entry (bit_xor (crc / 256) c)
entry_read crc c p q =
    ap (λ d. get_or (table_from 256 0) (bit_xor (crc / 256) d) 0) (bit_and_byte c q)
    ∙ get_or-table_from 256 0 (bit_xor (crc / 256) c) (bit_xor_byte (crc / 256) c (omega arith) q)
    ∙ ap table_entry (omega arith)

pub update_crc_ccitt-HasTable :
    (s : Crc) (crc c : ℕ)
    → HasTable s
    → (update_crc_ccitt s crc c).1.crc_tabccitt ≡ table_from 256 0
unfolding update_crc_ccitt init_crcccitt_tab HasTable
update_crc_ccitt-HasTable s crc c h = call_table s h

-- The value read from the table.
update_entry :
    (s : Crc) (crc c : ℕ)
    → HasTable s
    → crc < 0x10000
    → c < 256
    → (update_crc_ccitt s crc c).0 ≡ u16 (bit_xor (crc * 256) (table_entry (bit_xor (crc / 256) c)))
unfolding update_crc_ccitt init_crcccitt_tab HasTable
update_entry s crc c h p q =
    ap (λ t. u16 (bit_xor (crc * 256) (get_or t (bit_xor (crc / 256) (bit_and 0x00FF c)) 0)))
      (call_table s h)
    ∙ ap (λ d. u16 (bit_xor (crc * 256) d)) (entry_read crc c p q)

-- The table's entry brings eight rounds of the register.
entry_rounds :
    (crc c : ℕ)
    → crc < 0x10000
    → c < 256
    → u16 (bit_xor (crc * 256) (table_entry (bit_xor (crc / 256) c))) ≡ shift_rounds 8 crc (c * 256)
unfolding table_entry
entry_rounds crc c p q =
    let i : ℕ = bit_xor (crc / 256) c in
    let small : bit_xor (crc / 256) c < 256 = bit_xor_byte (crc / 256) c (omega arith) q in
    let z : ℕ = crc / 256 * 256 in
    let back : bit_xor (bit_xor (crc / 256) c * 256) (crc / 256 * 256) ≡ c * 256 =
      byte-bit_xor (bit_xor (crc / 256) c) (crc / 256)
      ∙ ap (λ d. d * 256)
          (bit_xor_comm (bit_xor (crc / 256) c) (crc / 256) ∙ bit_xor_cancel (crc / 256) c) in
    let entry : shift_rounds 8 0 (bit_xor (crc / 256) c * 256) < 0x10000 =
      shift_rounds_bound 8 0 (bit_xor (crc / 256) c * 256) (omega arith) in
    let linear : shift_rounds 8 crc (c * 256)
        ≡ bit_xor (shift_rounds 8 0 (bit_xor (crc / 256) c * 256)) (u16 (crc * 256)) =
      ap₂ (shift_rounds 8) (sym (zero-bit_xor crc)) (sym back)
      ∙ shift_rounds-bit_xor 8 0 (bit_xor (crc / 256) c * 256) crc (crc / 256 * 256) (crc % 256)
          (low_byte crc) (FitsShifts-byte (crc % 256) (omega arith))
      ∙ ap (bit_xor (shift_rounds 8 0 (bit_xor (crc / 256) c * 256))) (shifts_byte crc) in
    u16-bit_xor (crc * 256) (shift_rounds 8 0 (u16 (bit_xor (crc / 256) c * 256)))
    ∙ ap (λ d. bit_xor (u16 (crc * 256)) (u16 (shift_rounds 8 0 d)))
        {y = bit_xor (crc / 256) c * 256} (omega arith)
    ∙ ap (bit_xor (u16 (crc * 256))) {y = shift_rounds 8 0 (bit_xor (crc / 256) c * 256)}
        (omega arith)
    ∙ bit_xor_comm (u16 (crc * 256)) (shift_rounds 8 0 (bit_xor (crc / 256) c * 256))
    ∙ sym linear

-- For a register of 16 bits and a byte, and a table that is filled or is not marked as filled, the
-- update by the table gives what eight rounds of the shift register give from the same register
-- with the byte at its high end.
pub update_crc_ccitt_lem :
    (s : Crc) (crc c : ℕ)
    → HasTable s
    → crc < 0x10000
    → c < 256
    → (update_crc_ccitt s crc c).0 ≡ shift_rounds 8 crc (c * 256)
update_crc_ccitt_lem s crc c h p q = update_entry s crc c h p q ∙ entry_rounds crc c p q

-- Two bytes that are the register's own clear it.
zero_entry : table_entry 0 ≡ 0
unfolding table_entry shift_rounds
zero_entry = refl

pub update-own_high :
    (s : Crc) (crc : ℕ)
    → HasTable s
    → crc < 0x10000
    → (update_crc_ccitt s crc (crc / 256)).0 ≡ crc % 256 * 256
update-own_high s crc h p =
    update_entry s crc (crc / 256) h p (omega arith)
    ∙ ap (λ d. u16 (bit_xor (crc * 256) (table_entry d))) (bit_xor_self (crc / 256))
    ∙ ap (λ d. u16 (bit_xor (crc * 256) d)) zero_entry
    ∙ ap u16 (bit_xor_comm (crc * 256) 0 ∙ zero-bit_xor (crc * 256))
    ∙ omega arith

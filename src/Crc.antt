-- ===== src/Crc.antt =====
-- ulppk/crc16ccitt.c: the CRC-CCITT of 16 bits, one byte at a time by a table. A `char` is its eight
-- bits.
pub mod Digits
pub mod Xor
pub mod Register
pub mod Table
pub mod Message
mod Tests
use ulppk.Base.{ℕ, zero, suc, ◌+◌, ◌*◌, ◌/◌, Bool, true, false, List, [], ◌∷◌, ◌++◌}
use ulppk.Base.{◌==◌, if◌then◌else◌, u16, get_or, replicate}
use Prim.Native.Nat.{bit_and, bit_xor}

abbrev pub p_ccitt : ℕ
p_ccitt = 0x1021

-- The variables of the file. The first is an `unsigned int`.
pub record Crc : Type 0 where
  pub crc : ℕ
  pub crc_tabccitt_init : Bool
  pub crc_tabccitt : List ℕ

-- The variables before the first call.
abbrev pub crc_start : Crc
crc_start = record { crc = 0; crc_tabccitt_init = false; crc_tabccitt = replicate 256 0 }

-- `n` rounds of the inner loop of `init_crcccitt_tab`, on the registers `crc` and `c`.
unfoldable pub shift_rounds : ℕ → ℕ → ℕ → ℕ
shift_rounds zero crc c = crc
shift_rounds (suc n) crc c =
    shift_rounds n
      (if bit_and (bit_xor crc c) 0x8000 == 0
        then u16 (crc * 2)
        else u16 (bit_xor (crc * 2) p_ccitt))
      (u16 (c * 2))

unfoldable pub table_entry : ℕ → ℕ
unfolding shift_rounds
table_entry i = shift_rounds 8 0 (u16 (i * 256))

-- The entries from `i` on.
unfoldable pub table_from : ℕ → ℕ → List ℕ
unfolding table_entry
table_from zero i = []
table_from (suc n) i = table_entry i ∷ table_from n (i + 1)

unfoldable pub init_crcccitt_tab : Crc → Crc
unfolding table_from
init_crcccitt_tab s = record s { crc_tabccitt = table_from 256 0; crc_tabccitt_init = true }

-- The new value, and the table as it is then. The byte is cut to its eight bits.
unfoldable pub update_crc_ccitt : Crc → ℕ → ℕ → ℕ × Crc
unfolding init_crcccitt_tab
update_crc_ccitt s crc c =
    let short_c = bit_and 0x00FF c in
    let s1 = if s.crc_tabccitt_init then s else init_crcccitt_tab s in
    let tmp = bit_xor (crc / 256) short_c in
    (u16 (bit_xor (crc * 256) (get_or s1.crc_tabccitt tmp 0)), s1)

unfoldable pub crc16ccitt : Crc → ℕ → ℕ × Crc
unfolding update_crc_ccitt
crc16ccitt s data_byte =
    let (value, s1) = update_crc_ccitt s (u16 s.crc) data_byte in (value, record s1 { crc = value })

-- The table is left alone.
unfoldable pub init_crc_ccitt : Crc → Crc
init_crc_ccitt s = record s { crc = 0 }

-- The value after each byte of a list, the last one.
unfoldable pub crc_bytes : Crc → List ℕ → Crc
unfolding crc16ccitt
crc_bytes s [] = s
crc_bytes s (b ∷ bs) = crc_bytes (crc16ccitt s b).1 bs

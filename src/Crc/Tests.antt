-- ===== src/Crc/Tests.antt =====
-- Runs of ulppk/crc16ccitt.c and the theorems at concrete inputs.
use ulppk.Base.{ℕ, ◌≡◌, refl, List, [], ◌∷◌, ◌++◌, ◌/◌, ◌%◌, arith, inl}
use ulppk.Crc.{crc_start, crc_bytes}
use ulppk.Crc.Table.{HasTable}
use ulppk.Crc.Message.{register_bytes, AreBytes, IsReady, crc_bytes_lem, crc_bytes-check}

abbrev text : List ℕ
text = 65 ∷ 66 ∷ 67 ∷ []

crc_start-HasTable : HasTable crc_start
unfolding HasTable
crc_start-HasTable = inl refl

crc_start-IsReady : IsReady crc_start
crc_start-IsReady = record { table = crc_start-HasTable; bound = omega arith }

text-AreBytes : AreBytes text
unfolding AreBytes
text-AreBytes = (omega arith, (omega arith, (omega arith, tt)))

crc_bytes_example : (crc_bytes crc_start text).crc ≡ register_bytes 0 text
crc_bytes_example = crc_bytes_lem crc_start text crc_start-IsReady text-AreBytes

crc_bytes-check_example :
    (crc_bytes crc_start (
      text
      ++ ((crc_bytes crc_start text).crc / 256 ∷ (crc_bytes crc_start text).crc % 256 ∷ []))).crc
    ≡ 0
crc_bytes-check_example = crc_bytes-check crc_start text crc_start-IsReady text-AreBytes

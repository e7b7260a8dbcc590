-- ===== src/Crc/Message.antt =====
-- The CRC of ulppk/crc16ccitt.c over the bytes of a message.
use ulppk.Base.{
  ℕ, ◌*◌, ◌/◌, ◌%◌, ◌<◌, ◌≡◌, refl, ap, ap₂, ◌∙◌, arith, u16, List, [], ◌∷◌, ◌++◌, inr,
}
use ulppk.Crc.{Crc, shift_rounds, table_from, update_crc_ccitt, crc16ccitt, crc_bytes}
use ulppk.Crc.Register.{shift_rounds_bound}
use ulppk.Crc.Table.{HasTable, update_crc_ccitt-HasTable, update_crc_ccitt_lem, update-own_high}

-- The register of 16 bits that the message goes through bit by bit.
pub register_bytes : ℕ → List ℕ → ℕ
register_bytes crc [] = crc
register_bytes crc (b ∷ bs) = register_bytes (shift_rounds 8 crc (b * 256)) bs

unfoldable pub AreBytes : List ℕ → Type 0
AreBytes [] = Unit
AreBytes (b ∷ bs) = (b < 256) × AreBytes bs

-- The state between two calls.
pub record IsReady (s : Crc) : Type 0 where
  pub table : HasTable s
  pub bound : s.crc < 0x10000

crc16ccitt-crc :
    (s : Crc) (b : ℕ)
    → IsReady s
    → b < 256
    → (crc16ccitt s b).1.crc ≡ shift_rounds 8 s.crc (b * 256)
unfolding crc16ccitt
crc16ccitt-crc s b r h =
    let e : u16 s.crc ≡ s.crc = omega (arith, r.bound) in
    ap (λ d. (update_crc_ccitt s d b).0) e ∙ update_crc_ccitt_lem s s.crc b r.table r.bound h

crc16ccitt-table :
    (s : Crc) (b : ℕ) → IsReady s → (crc16ccitt s b).1.crc_tabccitt ≡ table_from 256 0
unfolding crc16ccitt
crc16ccitt-table s b r = update_crc_ccitt-HasTable s (u16 s.crc) b r.table

crc16ccitt-IsReady : (s : Crc) (b : ℕ) → IsReady s → b < 256 → IsReady (crc16ccitt s b).1
unfolding HasTable
crc16ccitt-IsReady s b r h = record {
  table = inr (crc16ccitt-table s b r);
  bound = rw (crc16ccitt-crc s b r h) (shift_rounds_bound 8 s.crc (b * 256) r.bound);
}

-- From a register of 16 bits and a table that is filled or not marked as filled, a message of bytes
-- leaves the register as the shift register has it after every bit of the message.
pub crc_bytes_lem :
    (s : Crc) (bs : List ℕ)
    → IsReady s
    → AreBytes bs
    → (crc_bytes s bs).crc ≡ register_bytes s.crc bs
unfolding crc_bytes register_bytes AreBytes
crc_bytes_lem s [] r h = refl
crc_bytes_lem s (b ∷ bs) r (small, h) =
    crc_bytes_lem (crc16ccitt s b).1 bs (crc16ccitt-IsReady s b r small) h
    ∙ ap (λ d. register_bytes d bs) (crc16ccitt-crc s b r small)

crc_bytes-IsReady : (s : Crc) (bs : List ℕ) → IsReady s → AreBytes bs → IsReady (crc_bytes s bs)
unfolding crc_bytes AreBytes
crc_bytes-IsReady s [] r h = r
crc_bytes-IsReady s (b ∷ bs) r (small, h) =
    crc_bytes-IsReady (crc16ccitt s b).1 bs (crc16ccitt-IsReady s b r small) h

crc_bytes-append :
    (s : Crc) (bs cs : List ℕ) → crc_bytes s (bs ++ cs) ≡ crc_bytes (crc_bytes s bs) cs
unfolding crc_bytes
crc_bytes-append s [] cs = refl
crc_bytes-append s (b ∷ bs) cs = crc_bytes-append (crc16ccitt s b).1 bs cs

-- The register's own two bytes.
crc16ccitt-own_high :
    (s : Crc) (b : ℕ) → IsReady s → b ≡ s.crc / 256 → (crc16ccitt s b).1.crc ≡ s.crc % 256 * 256
unfolding crc16ccitt
crc16ccitt-own_high s b r e =
    let cut : u16 s.crc ≡ s.crc = omega (arith, r.bound) in
    ap₂ (λ d c. (update_crc_ccitt s d c).0) cut e ∙ update-own_high s s.crc r.table r.bound

crc_bytes-own : (s : Crc) → IsReady s → (crc_bytes s (s.crc / 256 ∷ s.crc % 256 ∷ [])).crc ≡ 0
unfolding crc_bytes
crc_bytes-own s r =
    let h : (crc16ccitt s (s.crc / 256)).1.crc ≡ s.crc % 256 * 256 =
      crc16ccitt-own_high s (s.crc / 256) r refl in
    let small : s.crc / 256 < 256 = omega (arith, r.bound) in
    crc16ccitt-own_high (crc16ccitt s (s.crc / 256)).1 (s.crc % 256)
      (crc16ccitt-IsReady s (s.crc / 256) r small) (omega (arith, h))
    ∙ omega (arith, h)

-- From a register of 16 bits and a table that is filled or not marked as filled, a message of bytes
-- with its CRC behind it, the high byte first, brings the register to 0.
pub crc_bytes-check :
    (s : Crc) (bs : List ℕ)
    → IsReady s
    → AreBytes bs
    → let crc = (crc_bytes s bs).crc in (crc_bytes s (bs ++ (crc / 256 ∷ crc % 256 ∷ []))).crc ≡ 0
crc_bytes-check s bs r h =
    let crc : ℕ = (crc_bytes s bs).crc in
    ap (λ t. t.crc) (crc_bytes-append s bs (crc / 256 ∷ crc % 256 ∷ []))
    ∙ crc_bytes-own (crc_bytes s bs) (crc_bytes-IsReady s bs r h)

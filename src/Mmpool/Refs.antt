-- ===== src/Mmpool/Refs.antt =====
-- The references of the buffers in the contents file.
use ulppk.Base.{ℕ, suc, ◌+◌, ◌*◌, ◌<◌, ◌≤◌, ◌≡◌, sym, ap, ◌∙◌, arith}
use ulppk.Base.{List, [], ◌∷◌, ◌++◌, inl}
use ulppk.Base.{length, length-poke, peek, poke, replicate, set}
use ulppk.Base.{peek-poke_self, peek-poke_apart}
use mathlib.Core.Path.{subst}
use native.Mathlib.Decide.{ℕ_discrete}
use ulppk.Dqacc.Memory.{slot_in}
use ulppk.Mmdeque.{le_bytes}
use ulppk.Linearlist.{RecordFile}
use ulppk.Mmpool.{buffer_ref}

poke-append :
    (mem : List ℕ) (at : ℕ) (xs ys : List ℕ)
    → poke mem at (xs ++ ys) ≡ poke (poke mem at xs) (at + length xs) ys
poke-append mem at [] ys = ap (λ k. poke mem k ys) (omega arith)
poke-append mem at (x ∷ xs) ys =
    poke-append (set mem at x) (suc at) xs ys
    ∙ ap (λ k. poke (poke (set mem at x) (suc at) xs) k ys) (omega arith)

-- A part of what was copied is read back.
peek-poke_part :
    (mem : List ℕ) (at : ℕ) (xs ys zs : List ℕ)
    → at + length xs + length ys ≤ length mem
    → peek (poke mem at (xs ++ (ys ++ zs))) (at + length xs) (length ys) ≡ ys
peek-poke_part mem at xs ys zs room =
    let m = poke mem at xs in
    ap (λ l. peek l (at + length xs) (length ys))
      (poke-append mem at xs (ys ++ zs) ∙ poke-append m (at + length xs) ys zs)
    ∙ peek-poke_apart (poke m (at + length xs) ys) (at + length xs + length ys) (at + length xs)
        (length ys) zs (inl (omega arith))
    ∙ peek-poke_self m (at + length xs) ys (omega (arith, length-poke mem at xs))

-- The first `n` references of the contents file are written.
pub record Numbered (n size : ℕ) (f : RecordFile) : Type 0 where
  pub sized : f.rec_size ≡ 24 + size
  pub numbered : (i : ℕ) → i < n → peek f.records (i * f.rec_size + 8) 8 ≡ le_bytes 8 i

module _ (f : RecordFile) (n size bp_id : ℕ) (h : Numbered n size f) where
  abbrev pub at : ℕ
  at = n * f.rec_size

  abbrev pub starred : List ℕ
  starred = poke f.records at (replicate (size + 24) 0x2A)

  abbrev pub referenced : RecordFile
  referenced = record f { records = poke starred at (buffer_ref bp_id n (size + 24)) }

  own_ref :
      at + f.rec_size ≤ length f.records
      → peek referenced.records (n * f.rec_size + 8) 8 ≡ le_bytes 8 n
  own_ref room =
      peek-poke_part starred at (0xA4 ∷ 0xA4 ∷ le_bytes 2 bp_id ++ 0 ∷ 0 ∷ 0 ∷ 0 ∷ [])
        (le_bytes 8 n) (le_bytes 8 (size + 24))
        (omega (arith, length-poke f.records at (replicate (size + 24) 0x2A), h.sized))

  other_ref : (i : ℕ) → i < n → peek referenced.records (i * f.rec_size + 8) 8 ≡ le_bytes 8 i
  other_ref i lt =
      let before : i * f.rec_size + 8 + 8 ≤ at =
        omega (arith, slot_in f.rec_size i n lt, h.sized) in
      peek-poke_apart starred at (i * f.rec_size + 8) 8 (buffer_ref bp_id n (size + 24))
        (inl before)
      ∙ peek-poke_apart f.records at (i * f.rec_size + 8) 8 (replicate (size + 24) 0x2A)
          (inl before)
      ∙ h.numbered i lt

  pub referenced-Numbered : at + f.rec_size ≤ length f.records → Numbered (suc n) size referenced
  referenced-Numbered room = record {
    sized = h.sized;
    numbered = λ i lt. elim (ℕ_discrete i n) [
      | yes e ↦
          subst (λ k. peek referenced.records (k * f.rec_size + 8) 8 ≡ le_bytes 8 k) (sym e)
            (own_ref room)
      | no ne ↦ other_ref i (omega arith)
    ];
  }

  pub length-referenced : length referenced.records ≡ length f.records
  length-referenced =
      length-poke starred at (buffer_ref bp_id n (size + 24))
      ∙ length-poke f.records at (replicate (size + 24) 0x2A)

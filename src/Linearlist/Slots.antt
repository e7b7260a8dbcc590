-- ===== src/Linearlist/Slots.antt =====
-- Records as slots of one size: what a write to one slot, or to the header, leaves of the others.
use ulppk.Base.{
  ℕ, zero, suc, ◌+◌, ◌-◌, ◌*◌, ◌^◌, ◌<◌, ◌≤◌, ◌≡◌, ◌≢◌, ◌⊎◌, refl, ap, ap₂, ◌∙◌, sym, arith, inl,
  inr,
}
use ulppk.Base.{
  List, [], ◌∷◌, ◌++◌, length, peek, poke, set, length-poke, peek-poke_self, peek-poke_apart,
}
use mathlib.Core.Path.{subst, subst₂}
use ulppk.Dqacc.Memory.{slot_in, slots_apart}
use ulppk.Mmdeque.{le_bytes, le_value}
use ulppk.Linearlist.{RecordFile, nextx, capacity, list_rec_size, set_nextx}

-- The `n` records of size `z` from number `k` on.
abbrev pub rows : List ℕ → ℕ → ℕ → ℕ → List (List ℕ)
rows mem z k zero = []
rows mem z k (suc n) = peek mem (k * z) z ∷ rows mem z (suc k) n

pub length-rows : (mem : List ℕ) (z k n : ℕ) → length (rows mem z k n) ≡ n
length-rows mem z k zero = refl
length-rows mem z k (suc n) = ap suc (length-rows mem z (suc k) n)

pub rows-snoc :
    (mem : List ℕ) (z k n : ℕ)
    → rows mem z k (suc n) ≡ rows mem z k n ++ peek mem ((k + n) * z) z ∷ []
rows-snoc mem z k zero = let e : k ≡ k + 0 = omega arith in ap (λ j. peek mem (j * z) z ∷ []) e
rows-snoc mem z k (suc n) =
    let e : suc k + n ≡ k + suc n = omega arith in
    ap (λ r. peek mem (k * z) z ∷ r)
      (rows-snoc mem z (suc k) n ∙ ap (λ j. rows mem z (suc k) n ++ peek mem (j * z) z ∷ []) e)

pub rows_ext :
    (mem mem' : List ℕ) (z k n : ℕ)
    → ((j : ℕ) → k ≤ j → j < k + n → peek mem' (j * z) z ≡ peek mem (j * z) z)
    → rows mem' z k n ≡ rows mem z k n
rows_ext mem mem' z k zero h = refl
rows_ext mem mem' z k (suc n) h =
    ap₂ ◌∷◌ (h k (omega arith) (omega arith))
      (rows_ext mem mem' z (suc k) n (λ j p q. h j (omega arith) (omega arith)))

-- A record that is written whole.
pub peek_slot :
    (mem : List ℕ) (z i : ℕ) (bytes : List ℕ)
    → length bytes ≡ z
    → i * z + z ≤ length mem
    → peek (poke mem (i * z) bytes) (i * z) z ≡ bytes
peek_slot mem z i bytes e room =
    ap (peek (poke mem (i * z) bytes) (i * z)) (sym e)
    ∙ peek-poke_self mem (i * z) bytes (omega (arith, e))

pub peek_other_slot :
    (mem : List ℕ) (z i j : ℕ) (bytes : List ℕ)
    → length bytes ≡ z
    → i ≢ j
    → peek (poke mem (i * z) bytes) (j * z) z ≡ peek mem (j * z) z
peek_other_slot mem z i j bytes e ne =
    peek-poke_apart mem (i * z) (j * z) z bytes (side (slots_apart z i j ne))
  where
    side :
        (j * z + z ≤ i * z) ⊎ (i * z + z ≤ j * z)
        → (j * z + z ≤ i * z) ⊎ (i * z + length bytes ≤ j * z)
    side (inl p) = inl p
    side (inr p) = inr (omega (arith, e))

-- Writing record `i` of the rows from `k` on is setting it.
pub rows-poke :
    (mem : List ℕ) (z k n i : ℕ) (bytes : List ℕ)
    → length bytes ≡ z
    → (k + i) * z + z ≤ length mem
    → i < n
    → rows (poke mem ((k + i) * z) bytes) z k n ≡ set (rows mem z k n) i bytes
rows-poke mem z k zero i bytes e room h = absurd (omega arith)
rows-poke mem z k (suc n) zero bytes e room h =
    let f : k + 0 ≡ k = omega arith in
    subst (λ j. rows (poke mem (j * z) bytes) z k (suc n) ≡ bytes ∷ rows mem z (suc k) n) (sym f)
      (ap₂ ◌∷◌ (peek_slot mem z k bytes e (subst (λ j. j * z + z ≤ length mem) f room)) (
        rows_ext mem (poke mem (k * z) bytes) z (suc k) n
          (λ j p q. peek_other_slot mem z k j bytes e (omega arith))))
rows-poke mem z k (suc n) (suc i) bytes e room h =
    let f : k + suc i ≡ suc k + i = omega arith in
    ap₂ ◌∷◌ (peek_other_slot mem z (k + suc i) k bytes e (omega arith)) (
      ap (λ j. rows (poke mem (j * z) bytes) z (suc k) n) f
      ∙ rows-poke mem z (suc k) n i bytes e (subst (λ j. j * z + z ≤ length mem) f room)
          (omega arith))

-- What `n` records of the list are, with the header in order: the records have the size that the
-- header names, which leaves room for the header, the file has room for all, and `n` are in use.
pub record Holds (f : RecordFile) (n : ℕ) : Type 0 where
  pub big : 16 ≤ f.rec_size
  pub same : list_rec_size f ≡ f.rec_size
  pub used : nextx f ≡ suc n
  pub fits : n ≤ capacity f
  pub small : capacity f < 2 ^ 31 - 1
  pub room : suc (capacity f) * f.rec_size ≤ length f.records

-- The list's records.
abbrev pub items : RecordFile → ℕ → List (List ℕ)
items f n = rows f.records f.rec_size 1 n

-- A record write leaves the header.
module _ (f : RecordFile) (n i : ℕ) (bytes : List ℕ) (h : Holds f n) where
  abbrev pub written : RecordFile
  written = record f { records = poke f.records (suc i * f.rec_size) bytes }

  field_kept : (at k : ℕ) → at + k ≤ 16 → peek written.records at k ≡ peek f.records at k
  field_kept at k fit =
      peek-poke_apart f.records (suc i * f.rec_size) at k bytes
        (inl (omega (arith, slot_in f.rec_size 0 (suc i) (omega arith), h.big)))

  pub capacity_kept : capacity written ≡ capacity f
  capacity_kept = ap le_value (field_kept 4 4 (omega arith))

  pub written-Holds : Holds written n
  written-Holds = record {
    big = h.big;
    same = ap le_value (field_kept 8 8 (omega arith)) ∙ h.same;
    used = ap le_value (field_kept 0 4 (omega arith)) ∙ h.used;
    fits = subst (λ c. n ≤ c) (sym capacity_kept) h.fits;
    small = subst (λ c. c < 2 ^ 31 - 1) (sym capacity_kept) h.small;
    room =
        subst₂ (λ c l. suc c * f.rec_size ≤ l) (sym capacity_kept)
          (sym (length-poke f.records (suc i * f.rec_size) bytes)) h.room;
  }

pub le_value-le_bytes : (v : ℕ) → v < 2 ^ 32 → le_value (le_bytes 4 v) ≡ v
le_value-le_bytes v h = omega arith

-- A new use count leaves the records.
module _ (f : RecordFile) (n m : ℕ) (h : Holds f n) (fit : m ≤ capacity f) where
  counted_field :
      (at k : ℕ) → 4 ≤ at → peek (set_nextx f (suc m)).records at k ≡ peek f.records at k
  counted_field at k far = peek-poke_apart f.records 0 at k (le_bytes 4 (suc m)) (inr (omega arith))

  pub counted_capacity : capacity (set_nextx f (suc m)) ≡ capacity f
  counted_capacity = ap le_value (counted_field 4 4 (omega arith))

  pub set_nextx-Holds : Holds (set_nextx f (suc m)) m
  set_nextx-Holds = record {
    big = h.big;
    same = ap le_value (counted_field 8 8 (omega arith)) ∙ h.same;
    used =
        ap le_value (
          peek-poke_self f.records 0 (le_bytes 4 (suc m))
            (omega (arith, h.room, slot_in f.rec_size 0 (suc (capacity f)) (omega arith), h.big)))
        ∙ le_value-le_bytes (suc m) (omega (arith, h.small));
    fits = subst (λ c. m ≤ c) (sym counted_capacity) fit;
    small = subst (λ c. c < 2 ^ 31 - 1) (sym counted_capacity) h.small;
    room =
        subst₂ (λ c l. suc c * f.rec_size ≤ l) (sym counted_capacity)
          (sym (length-poke f.records 0 (le_bytes 4 (suc m)))) h.room;
  }

  pub set_nextx-items : (k : ℕ) → items (set_nextx f (suc m)) k ≡ items f k
  set_nextx-items k = rows_ext f.records (set_nextx f (suc m)).records f.rec_size 1 k (λ j p q.
      counted_field (j * f.rec_size) f.rec_size (omega (arith, slot_in f.rec_size 0 j p, h.big)))

-- ===== src/Linearlist/Add.antt =====
-- Adding a record.
use ulppk.Base.{ℕ, suc, ◌+◌, ◌-◌, ◌*◌, ◌<◌, ◌≤◌, ◌≡◌, refl, ap, ap₂, ◌∙◌, sym, arith}
use ulppk.Base.{
  List, [], ◌∷◌, ◌++◌, none, some, length, peek, poke, peek_all, ltb, if◌then◌else◌, if-true,
  if-false, lt→ltb, le→ltb-false,
}
use native.Mathlib.Decide.{dec_lt}
use ulppk.Dqacc.Memory.{slot_in}
use ulppk.Linearlist.{
  RecordFile, nextx, capacity, list_rec_size, set_nextx, mmfor_x2p, mmfor_header_size, copy_record,
  linlist_add_record,
}
use ulppk.Linearlist.Slots.{
  capacity_kept, rows-snoc, rows_ext, peek_slot, peek_other_slot, Holds, items, written,
  written-Holds, set_nextx-Holds, set_nextx-items,
}

-- What is left of a pointer to a record without the file's header.
pub offset_lem : (z x : ℕ) → mmfor_header_size + x * z - mmfor_header_size ≡ x * z
offset_lem z x = omega arith

module _ (f : RecordFile) (n : ℕ) (user : List ℕ) (h : Holds f n)
    (e : length user ≡ f.rec_size) where
  copied : RecordFile
  copied = copy_record f (mmfor_x2p f (nextx f)) (peek user 0 (list_rec_size f))

  copied_lem : copied ≡ written f n n user h
  unfolding copied
  copied_lem =
      ap₂ (λ off b. record f { records = poke f.records off b })
        (offset_lem f.rec_size (nextx f) ∙ ap (λ x. x * f.rec_size) h.used)
        (ap (peek user 0) (h.same ∙ sym e) ∙ peek_all user)

  module _ (free : n < capacity f) where
    abbrev longer : RecordFile
    longer = set_nextx (written f n n user h) (suc (suc n))

    add_free : linlist_add_record f user ≡ (some (mmfor_x2p f (suc n)), longer)
    unfolding linlist_add_record copied
    add_free =
        if-false _ _ (le→ltb-false (capacity f) (nextx f) (omega (arith, h.used)))
        ∙ ap₂ (λ x g. (some (mmfor_x2p f x), g)) h.used
            (ap (λ g. set_nextx g (nextx g + 1)) copied_lem
              ∙ ap (set_nextx (written f n n user h))
                  (omega (arith, (written-Holds f n n user h).used)))

    longer-Holds : Holds longer (suc n)
    longer-Holds =
        set_nextx-Holds (written f n n user h) n (suc n) (written-Holds f n n user h)
          (cap_kept free)
      where
        cap_kept : n < capacity f → suc n ≤ capacity (written f n n user h)
        cap_kept free = omega (arith, free, capacity_kept f n n user h)

    items-longer : items longer (suc n) ≡ items f n ++ user ∷ []
    items-longer =
        set_nextx-items (written f n n user h) n (suc n) (written-Holds f n n user h)
          (omega (arith, free, capacity_kept f n n user h)) (suc n)
        ∙ rows-snoc mem f.rec_size 1 n
        ∙ ap₂ (λ l r. l ++ r ∷ [])
            (rows_ext f.records mem f.rec_size 1 n
              (λ j p q. peek_other_slot f.records f.rec_size (suc n) j user e (omega arith)))
            (ap (λ k. peek mem (k * f.rec_size) f.rec_size) one_more
              ∙ peek_slot f.records f.rec_size (suc n) user e (
                  omega
                    (arith, slot_in f.rec_size (suc n) (suc (capacity f)) (omega arith), h.room)))
      where
        mem : List ℕ
        mem = poke f.records (suc n * f.rec_size) user

        one_more : 1 + n ≡ suc n
        one_more = omega arith

  add_full : capacity f ≤ n → linlist_add_record f user ≡ (none, f)
  unfolding linlist_add_record
  add_full full = if-true _ _ (lt→ltb (capacity f) (nextx f) (omega (arith, h.used)))

-- `linlist_add_record` with a record of the list's size, on a list with its header in order,
-- returns the place behind the last record, where the record then stands, if the list is not
-- full, and NULL with the records unchanged if it is.
pub linlist_add_record_lem :
    (f : RecordFile) (n : ℕ) (user : List ℕ)
    → Holds f n
    → length user ≡ f.rec_size
    → let (recp, f') = linlist_add_record f user in
      let free = ltb n (capacity f) in
      (recp ≡ (if free then some (mmfor_x2p f (suc n)) else none))
      × Holds f' (if free then suc n else n)
      × (items f' (if free then suc n else n)
          ≡ (if free then items f n ++ user ∷ [] else items f n))
linlist_add_record_lem f n user h e = elim (dec_lt n (capacity f)) [
  | yes free ↦
      rw (add_free f n user h e free, lt→ltb n (capacity f) free)
        (refl, longer-Holds f n user h e free, items-longer f n user h e free)
  | no full ↦
      rw (add_full f n user h e (omega arith), le→ltb-false n (capacity f) (omega arith))
        (refl, h, refl)
]

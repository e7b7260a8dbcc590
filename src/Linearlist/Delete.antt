-- ===== src/Linearlist/Delete.antt =====
-- Deleting a record.
use ulppk.Base.{
  ℕ, suc, ◌+◌, ◌-◌, ◌*◌, ◌^◌, ◌<◌, ◌≤◌, ◌≡◌, refl, ap, ap₂, ◌∙◌, sym, arith, true, false, ◌==◌,
}
use ulppk.Base.{
  List, [], ◌∷◌, ◌++◌, Option, none, some, length, peek, poke, set, ltb, if◌then◌else◌, if-true,
  if-false, lt→ltb, le→ltb-false,
}
use ulppk.Base.{length-peek, peek-poke_self, eq→==, ne→==}
use native.Mathlib.Decide.{dec_lt, ℕ_discrete}
use ulppk.Dqacc.Memory.{slot_in}
use ulppk.Dqacc.Spec.{unsnoc, unsnoc-append}
use ulppk.Linearlist.{
  RecordFile, nextx, capacity, list_rec_size, set_nextx, to_size, u32, mmfor_header_size,
  copy_record,
}
use ulppk.Linearlist.{linlist_x2p, linlist_delete_recordx}
use ulppk.Mmdeque.{le_bytes, le_value}
use ulppk.Linearlist.Add.{offset_lem}
use ulppk.Linearlist.Slots.{
  capacity_kept, rows, rows-snoc, rows-poke, length-rows, Holds, items, written, written-Holds,
  set_nextx-Holds, set_nextx-items,
}

-- The last record takes the place of number `x`.
abbrev pub swap_remove : ℕ → List (List ℕ) → List (List ℕ)
swap_remove x xs = elim (unsnoc xs) [ none ↦ [] | some (init, last) ↦ set init x last ]

set_past : (xs : List (List ℕ)) (v : List ℕ) → set xs (length xs) v ≡ xs
set_past [] v = refl
set_past (x ∷ xs) v = ap (λ r. x ∷ r) (set_past xs v)

fence_lem : (m : ℕ) → suc m < 2 ^ 31 → to_size (u32 (suc (suc m) + 2 ^ 32 - 2)) ≡ m
fence_lem m h =
    let e : u32 (suc (suc m) + 2 ^ 32 - 2) ≡ m = omega arith in
    ap to_size e ∙ if-true _ _ (lt→ltb m (2 ^ 31) (omega arith))

index_lem : (x : ℕ) → suc x < 2 ^ 31 → to_size (u32 (x + 1)) ≡ suc x
index_lem x h =
    let e : u32 (x + 1) ≡ suc x = omega arith in
    ap to_size e ∙ if-true _ _ (lt→ltb (suc x) (2 ^ 31) h)

place :
    (f : RecordFile) (y : ℕ)
    → suc y < 2 ^ 31
    → linlist_x2p f y - mmfor_header_size ≡ suc y * f.rec_size
unfolding linlist_x2p
place f y small =
    offset_lem f.rec_size (to_size (u32 (y + 1))) ∙ ap (λ k. k * f.rec_size) (index_lem y small)

module _ (f : RecordFile) (m x : ℕ) (h : Holds f (suc m)) where
  abbrev fence : ℕ
  fence = to_size (u32 (nextx f + 2 ^ 32 - 2))

  fence_at : fence ≡ m
  fence_at =
      ap (λ k. to_size (u32 (k + 2 ^ 32 - 2))) h.used ∙ fence_lem m (omega (arith, h.fits, h.small))

  delete_past : m < x → linlist_delete_recordx f x ≡ (true, f)
  unfolding linlist_delete_recordx
  delete_past far = if-true _ _ (ap (λ k. ltb k x) fence_at ∙ lt→ltb m x far)

  delete_last : x ≡ m → linlist_delete_recordx f x ≡ (false, set_nextx f (suc m))
  unfolding linlist_delete_recordx
  delete_last e =
      if-false _ _ (ap (λ k. ltb k x) fence_at ∙ le→ltb-false m x (omega arith))
      ∙ if-true _ _ (ap (λ k. k == x) fence_at ∙ eq→== m x (sym e))
      ∙ ap (λ v. (false, set_nextx f v)) (less (nextx f) h.used (omega (arith, h.fits, h.small)))
    where
      less : (k : ℕ) → k ≡ suc (suc m) → suc m < 2 ^ 31 → u32 (k + 2 ^ 32 - 1) ≡ suc m
      less k e small = omega arith

  abbrev last : List ℕ
  last = peek f.records (suc m * f.rec_size) f.rec_size

  module _ (inside : x < m) where
    abbrev moved : RecordFile
    moved = written f (suc m) x last h

    copied : RecordFile
    unfolding linlist_x2p
    copied =
        copy_record f (linlist_x2p f x)
          (peek f.records (linlist_x2p f fence - mmfor_header_size) (list_rec_size f))

    copied_lem : copied ≡ moved
    unfolding copied
    copied_lem =
        ap₂ (λ off b. record f { records = poke f.records off b })
          (place f x (omega (arith, h.fits, h.small)))
          (ap₂ (peek f.records)
            (ap (λ k. linlist_x2p f k - mmfor_header_size) fence_at
              ∙ place f m (omega (arith, h.fits, h.small)))
            h.same)

    delete_inside : linlist_delete_recordx f x ≡ (false, set_nextx moved (suc m))
    unfolding linlist_delete_recordx copied
    delete_inside =
        if-false _ _ (ap (λ k. ltb k x) fence_at ∙ le→ltb-false m x (omega arith))
        ∙ if-false _ _ (ap (λ k. k == x) fence_at ∙ ne→== m x (omega arith))
        ∙ ap (λ g. (false, set_nextx g (u32 (nextx g + 2 ^ 32 - 1)))) copied_lem
        ∙ ap (λ v. (false, set_nextx moved v))
            (less (nextx moved) (written-Holds f (suc m) x last h).used
              (omega (arith, h.fits, h.small)))
      where
        less : (k : ℕ) → k ≡ suc (suc m) → suc m < 2 ^ 31 → u32 (k + 2 ^ 32 - 1) ≡ suc m
        less k e small = omega arith

  one_more : 1 + m ≡ suc m
  one_more = omega arith

  -- The records before the deletion, and what the specification makes of them.
  split : items f (suc m) ≡ items f m ++ last ∷ []
  split =
      rows-snoc f.records f.rec_size 1 m
      ∙ ap (λ k. items f m ++ peek f.records (k * f.rec_size) f.rec_size ∷ []) one_more

  spec : swap_remove x (items f (suc m)) ≡ set (items f m) x last
  spec = ap (swap_remove x) split ∙ ap finish (unsnoc-append (items f m) last)
    where
      finish : Option (List (List ℕ) × List ℕ) → List (List ℕ)
      finish r = elim r [ none ↦ [] | some (init, l) ↦ set init x l ]

-- `linlist_delete_recordx` on a list that is not empty, with its header in order, reports an
-- error for an index past the last record and changes nothing; otherwise it moves the last record
-- to the place of the deleted one.
pub linlist_delete_recordx_lem :
    (f : RecordFile) (m x : ℕ)
    → Holds f (suc m)
    → let (flag, f') = linlist_delete_recordx f x in
      let n = if ltb m x then suc m else m in
      (flag ≡ ltb m x)
      × Holds f' n
      × (items f' n ≡ (if ltb m x then items f (suc m) else swap_remove x (items f (suc m))))
linlist_delete_recordx_lem f m x h = elim (dec_lt m x) [
  | yes far ↦ rw (delete_past f m x h far, lt→ltb m x far) (refl, h, refl)
  | no near ↦ elim (ℕ_discrete x m) [
    | yes e ↦
        rw (delete_last f m x h e, le→ltb-false m x (omega arith))
          (
            refl,
            set_nextx-Holds f (suc m) m h (omega (arith, h.fits)),
            set_nextx-items f (suc m) m h (omega (arith, h.fits)) m ∙ sym (spec f m x h ∙ at_end e),
          )
    | no ne ↦
        let inside : x < m = omega arith in
        let g = moved f m x h inside in
        let hg = written-Holds f (suc m) x (last f m x h) h in
        let fit : m ≤ capacity g =
          omega (arith, h.fits, capacity_kept f (suc m) x (last f m x h) h) in
        rw (delete_inside f m x h inside, le→ltb-false m x (omega arith))
          (
            refl,
            set_nextx-Holds g (suc m) m hg fit,
            set_nextx-items g (suc m) m hg fit m ∙ replaced inside ∙ sym (spec f m x h),
          )
  ]
]
  where
    at_end : x ≡ m → set (items f m) x (last f m x h) ≡ items f m
    at_end e =
        ap (λ k. set (items f m) k (last f m x h)) (e ∙ sym (length-rows f.records f.rec_size 1 m))
        ∙ set_past (items f m) (last f m x h)

    succ : 1 + x ≡ suc x
    succ = omega arith

    replaced : (inside : x < m) → items (moved f m x h inside) m ≡ set (items f m) x (last f m x h)
    replaced inside =
        ap (λ k. rows (poke f.records (k * f.rec_size) (last f m x h)) f.rec_size 1 m) (sym succ)
        ∙ rows-poke f.records f.rec_size 1 m x (last f m x h)
            (length-peek f.records (suc m * f.rec_size) f.rec_size)
            (omega (
              arith,
              slot_in f.rec_size (1 + x) (suc (capacity f)) (omega (arith, h.fits)),
              h.room,
            ))
            inside

module _ (f : RecordFile) (x : ℕ) (h : Holds f 0) (inside : x < capacity f) where
  -- What the code copies from behind the wrapped index: with no record it is the header.
  abbrev wrapped : List ℕ
  wrapped = peek f.records (linlist_x2p f (2 ^ 64 - 1) - mmfor_header_size) (list_rec_size f)

  abbrev overwritten : RecordFile
  overwritten = written f 0 x wrapped h

  no_fence : to_size (u32 (nextx f + 2 ^ 32 - 2)) ≡ 2 ^ 64 - 1
  no_fence = ap (λ k. to_size (u32 (k + 2 ^ 32 - 2))) h.used

  delete_none : linlist_delete_recordx f x ≡ (false, set_nextx overwritten 0)
  unfolding linlist_delete_recordx
  delete_none =
      if-false _ _
        (ap (λ k. ltb k x) no_fence ∙ le→ltb-false (2 ^ 64 - 1) x (omega (arith, inside, h.small)))
      ∙ if-false _ _
          (ap (λ k. k == x) no_fence ∙ ne→== (2 ^ 64 - 1) x (omega (arith, inside, h.small)))
      ∙ ap₂ (λ off k. (false, after off k)) (place f x (omega (arith, inside, h.small))) no_fence
      ∙ ap (λ k. (false, set_nextx overwritten (u32 (k + 2 ^ 32 - 1))))
          (written-Holds f 0 x wrapped h).used
    where
      after : ℕ → ℕ → RecordFile
      after off k =
          let g = record f {
            records =
                poke f.records off
                  (peek f.records (linlist_x2p f k - mmfor_header_size) (list_rec_size f));
          } in
          set_nextx g (u32 (nextx g + 2 ^ 32 - 1))

-- On an empty list with its header in order, the deletion of a record below the capacity reports
-- success and sets the use count, which counts the header record, to 0.
pub linlist_delete_recordx_empty :
    (f : RecordFile) (x : ℕ)
    → Holds f 0
    → x < capacity f
    → let (flag, f') = linlist_delete_recordx f x in (flag ≡ false) × (nextx f' ≡ 0)
linlist_delete_recordx_empty f x h inside =
    rw (delete_none f x h inside)
      (refl, ap le_value (peek-poke_self (overwritten f x h inside).records 0 (le_bytes 4 0) room))
  where
    hg : Holds (overwritten f x h inside) 0
    hg = written-Holds f 0 x (wrapped f x h inside) h

    room : 0 + 4 ≤ length (overwritten f x h inside).records
    room = omega (
      arith,
      hg.room,
      hg.big,
      slot_in f.rec_size 0 (suc (capacity (overwritten f x h inside))) (omega arith),
    )

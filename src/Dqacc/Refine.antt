-- ===== src/Dqacc/Refine.antt =====
-- A valid deque behaves as the bounded sequence of the items that it holds.
use ulppk.Base.{ℕ, suc, ◌+◌, ◌-◌, ◌%◌, ◌<◌, ◌≤◌, ◌≡◌, refl, sym, ap, ap₂, ◌∙◌}
use ulppk.Base.{◌≢◌, arith}
use ulppk.Base.{true, false, List, [], ◌∷◌, ◌++◌, length, peek, peek_all}
use ulppk.Base.{◌==◌, if◌then◌else◌, u16, lt→ltb, le→ltb-false}
use ulppk.Dqacc.{Deque, read_slot, write_slot, dq_atd, dq_abd}
use ulppk.Dqacc.Spec.{add_top, add_bottom}
use ulppk.Dqacc.Window.{
  window, length-window, window_ext, window_start, window-first, add-mod-ne, back-forth,
}
use ulppk.Dqacc.Memory.{IsValid, length-memory-write_slot}
use ulppk.Dqacc.Memory.{read_slot-write_slot_self, read_slot-write_slot_ne}
use native.Mathlib.Nat.{mod-eq_of_lt, mod-add-mod, mod-lt}
use native.Mathlib.Decide.{ℕ_discrete, dec_lt}

-- The items in use, top first.
abbrev pub contents : Deque → List (List ℕ)
contents d = window d.dqslots (read_slot d) d.dqbottom d.dquse

pub length-contents : (d : Deque) → length (contents d) ≡ d.dquse
length-contents d = length-window d.dqslots (read_slot d) d.dqbottom d.dquse

-- An item that fills a slot is copied whole.
peek_item : (item : List ℕ) (n : ℕ) → length item ≡ n → peek item 0 n ≡ item
peek_item item n e = rw (← e) (peek_all item)

module _ (d : Deque) (item : List ℕ) where
  abbrev top_slot : ℕ
  top_slot = if d.dquse == 0 then d.dqtop else u16 ((d.dqtop + 1) % d.dqslots)

  abbrev bottom_slot : ℕ
  bottom_slot = if d.dquse == 0 then d.dqbottom else u16 ((d.dqbottom + d.dqslots - 1) % d.dqslots)

  -- The header before the item is copied, and the deque after it.
  abbrev raised : Deque
  raised = record d { dquse = u16 (d.dquse + 1); dqtop = top_slot }

  abbrev topped : Deque
  topped = write_slot raised top_slot item

  abbrev lowered : Deque
  lowered = record d { dquse = u16 (d.dquse + 1); dqbottom = bottom_slot }

  abbrev bottomed : Deque
  bottomed = write_slot lowered bottom_slot item

  dq_atd-free : d.dq_open ≡ true → d.dquse < d.dqslots → dq_atd d item ≡ (false, topped)
  unfolding dq_atd
  dq_atd-free o h = rw (o, lt→ltb d.dquse d.dqslots h) refl

  dq_atd-full : d.dq_open ≡ true → d.dqslots ≤ d.dquse → dq_atd d item ≡ (true, d)
  unfolding dq_atd
  dq_atd-full o h = rw (o, le→ltb-false d.dquse d.dqslots h) refl

  dq_abd-free : d.dq_open ≡ true → d.dquse < d.dqslots → dq_abd d item ≡ (false, bottomed)
  unfolding dq_abd
  dq_abd-free o h = rw (o, lt→ltb d.dquse d.dqslots h) refl

  dq_abd-full : d.dq_open ≡ true → d.dqslots ≤ d.dquse → dq_abd d item ≡ (true, d)
  unfolding dq_abd
  dq_abd-full o h = rw (o, le→ltb-false d.dquse d.dqslots h) refl

module _ (d : Deque) (item : List ℕ) (v : IsValid d) (free : d.dquse < d.dqslots) where
  -- The top slot of the longer run.
  top_slot_lem : top_slot d item ≡ (d.dqbottom + d.dquse) % d.dqslots
  top_slot_lem = elim (ℕ_discrete d.dquse 0) [
    | yes e ↦ ground (arith, mod-eq_of_lt v.bottom_in)
    | no ne ↦ ground (arith, carry, mod-lt (d.dqbottom + d.dquse) {m = d.dqslots} (omega arith))
  ]
    where
      carry : d.dquse ≢ 0 → (d.dqtop + 1) % d.dqslots ≡ (d.dqbottom + d.dquse) % d.dqslots
      carry ne = rw (v.top_at, mod-add-mod) (ap (λ k. k % d.dqslots) (omega arith))

  -- The bottom slot of the longer run, when there is a run to extend.
  bottom_slot_lem :
      d.dquse ≢ 0
      → (bottom_slot d item < d.dqslots) × ((bottom_slot d item + 1) % d.dqslots ≡ d.dqbottom)
  bottom_slot_lem ne = ground (
    arith,
    back-forth v.bottom_in,
    mod-lt (d.dqbottom + d.dqslots - 1) {m = d.dqslots} (omega arith),
  )

  use_lem : u16 (d.dquse + 1) ≡ suc d.dquse
  use_lem = omega (arith, v.slots_fit)

  top_slot_in : top_slot d item < d.dqslots
  top_slot_in = rw top_slot_lem (mod-lt (d.dqbottom + d.dquse) (omega arith))

  contents-topped : length item ≡ d.dqitem_size → contents (topped d item) ≡ item ∷ contents d
  contents-topped e =
      ap (window d.dqslots (read_slot (topped d item)) d.dqbottom) use_lem ∙ ap₂ ◌∷◌ first others
    where
      first : read_slot (topped d item) ((d.dqbottom + d.dquse) % d.dqslots) ≡ item
      first =
          ap (read_slot (topped d item)) (sym top_slot_lem)
          ∙ read_slot-write_slot_self (raised d item) (top_slot d item) item top_slot_in v.room
          ∙ peek_item item d.dqitem_size e

      others :
          window d.dqslots (read_slot (topped d item)) d.dqbottom d.dquse
          ≡ window d.dqslots (read_slot d) d.dqbottom d.dquse
      others =
          window_ext d.dqslots (read_slot (topped d item)) (read_slot d) d.dqbottom d.dquse λ k p.
            read_slot-write_slot_ne (raised d item) (top_slot d item) item
              ((d.dqbottom + k) % d.dqslots)
              (λ q. add-mod-ne v.bottom_in p free (sym q ∙ top_slot_lem))

  topped-IsValid : IsValid (topped d item)
  topped-IsValid = record {
    opened = v.opened;
    use_in = omega arith;
    slots_fit = v.slots_fit;
    bottom_in = v.bottom_in;
    top_at = top_slot_lem ∙ ap (λ n. (d.dqbottom + n) % d.dqslots) (omega (arith, use_lem));
    offsets_fit = v.offsets_fit;
    room = rw (length-memory-write_slot (raised d item) (top_slot d item) item) v.room;
  }

  bottom_slot_in : bottom_slot d item < d.dqslots
  bottom_slot_in = elim (ℕ_discrete d.dquse 0) [
    | yes e ↦ ground (arith, v.bottom_in)
    | no ne ↦ (bottom_slot_lem ne).0
  ]

  contents-bottomed :
      length item ≡ d.dqitem_size → contents (bottomed d item) ≡ contents d ++ item ∷ []
  contents-bottomed e =
      ap (window d.dqslots (read_slot (bottomed d item)) (bottom_slot d item)) use_lem
      ∙ window-first d.dqslots (read_slot (bottomed d item)) (bottom_slot d item) d.dquse
      ∙ ap₂ (λ l x. l ++ x ∷ []) others first
    where
      b : ℕ
      b = bottom_slot d item

      first : read_slot (bottomed d item) (b % d.dqslots) ≡ item
      first =
          ap (read_slot (bottomed d item)) (mod-eq_of_lt bottom_slot_in)
          ∙ read_slot-write_slot_self (lowered d item) b item bottom_slot_in v.room
          ∙ peek_item item d.dqitem_size e

      back : (k : ℕ) → k < d.dquse → ((b + 1) % d.dqslots + k) % d.dqslots ≡ (b + suc k) % d.dqslots
      back k p = rw mod-add-mod (ap (λ n. n % d.dqslots) (omega arith))

      apart : (k : ℕ) → k < d.dquse → b ≢ ((b + 1) % d.dqslots + k) % d.dqslots
      apart k p q =
          add-mod-ne {b = b} {j = 0} {k = suc k} bottom_slot_in (omega arith) (omega arith)
            (ap (λ n. n % d.dqslots) (omega arith) ∙ mod-eq_of_lt bottom_slot_in ∙ q ∙ back k p)

      others :
          window d.dqslots (read_slot (bottomed d item)) ((b + 1) % d.dqslots) d.dquse
          ≡ window d.dqslots (read_slot d) d.dqbottom d.dquse
      others =
          window_ext d.dqslots (read_slot (bottomed d item)) (read_slot d) ((b + 1) % d.dqslots)
            d.dquse
            (λ k p.
              read_slot-write_slot_ne (lowered d item) b item
                (((b + 1) % d.dqslots + k) % d.dqslots) (apart k p))
          ∙ window_start d.dqslots (read_slot d) ((b + 1) % d.dqslots) d.dqbottom d.dquse
              (λ p. (bottom_slot_lem (omega arith)).1)

  bottomed-IsValid : IsValid (bottomed d item)
  bottomed-IsValid = record {
    opened = v.opened;
    use_in = omega arith;
    slots_fit = v.slots_fit;
    bottom_in = bottom_slot_in;
    top_at = top_kept;
    offsets_fit = v.offsets_fit;
    room = rw (length-memory-write_slot (lowered d item) (bottom_slot d item) item) v.room;
  }
    where
      top_kept : d.dqtop ≡ (bottom_slot d item + (u16 (d.dquse + 1) - 1)) % d.dqslots
      top_kept = elim (ℕ_discrete d.dquse 0) [
        | yes e ↦ ground (arith, v.top_at, mod-eq_of_lt v.bottom_in)
        | no ne ↦
            v.top_at
            ∙ ap (λ b. (b + (d.dquse - 1)) % d.dqslots) (sym (bottom_slot_lem ne).1)
            ∙ mod-add-mod (bottom_slot d item + 1) d.dqslots (d.dquse - 1)
            ∙ ap (λ n. n % d.dqslots) (omega (arith, use_lem))
      ]

-- `dq_atd` on a valid deque returns the flag of the bounded sequence for an addition at the top,
-- holds its items afterwards and stays valid.
pub dq_atd_refines :
    (d : Deque) (item : List ℕ)
    → IsValid d
    → length item ≡ d.dqitem_size
    → let (flag, d') = dq_atd d item in
      ((flag, contents d') ≡ add_top d.dqslots (contents d) item)
      × IsValid d'
      × (d'.dqslots ≡ d.dqslots)
      × (d'.dqitem_size ≡ d.dqitem_size)
unfolding add_top
dq_atd_refines d item v e = elim (dec_lt d.dquse d.dqslots) [
  | yes h ↦
      rw (dq_atd-free d item v.opened h, length-contents d, lt→ltb d.dquse d.dqslots h)
        (ap (λ c. (false, c)) (contents-topped d item v h e), topped-IsValid d item v h, refl, refl)
  | no h ↦
      rw
        (
          dq_atd-full d item v.opened (omega arith),
          length-contents d,
          le→ltb-false d.dquse d.dqslots (omega arith),
        )
        (refl, v, refl, refl)
]

-- `dq_abd` on a valid deque returns the flag of the bounded sequence for an addition at the
-- bottom, holds its items afterwards and stays valid.
pub dq_abd_refines :
    (d : Deque) (item : List ℕ)
    → IsValid d
    → length item ≡ d.dqitem_size
    → let (flag, d') = dq_abd d item in
      ((flag, contents d') ≡ add_bottom d.dqslots (contents d) item)
      × IsValid d'
      × (d'.dqslots ≡ d.dqslots)
      × (d'.dqitem_size ≡ d.dqitem_size)
unfolding add_bottom
dq_abd_refines d item v e = elim (dec_lt d.dquse d.dqslots) [
  | yes h ↦
      rw (dq_abd-free d item v.opened h, length-contents d, lt→ltb d.dquse d.dqslots h)
        (
          ap (λ c. (false, c)) (contents-bottomed d item v h e),
          bottomed-IsValid d item v h,
          refl,
          refl,
        )
  | no h ↦
      rw
        (
          dq_abd-full d item v.opened (omega arith),
          length-contents d,
          le→ltb-false d.dquse d.dqslots (omega arith),
        )
        (refl, v, refl, refl)
]

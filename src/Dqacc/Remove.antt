-- ===== src/Dqacc/Remove.antt =====
-- `dq_rtd` and `dq_rbd` on a valid deque.
use ulppk.Base.{ℕ, suc, ◌+◌, ◌-◌, ◌%◌, ◌<◌, ◌≡◌, refl, sym, ap, ap₂, ◌∙◌}
use ulppk.Base.{true, List, [], ◌∷◌, ◌++◌, none, some, arith}
use ulppk.Base.{◌==◌, if◌then◌else◌, u16, lt→ltb}
use ulppk.Dqacc.{Deque, read_slot, dq_rtd, dq_rbd}
use ulppk.Dqacc.Spec.{remove_top, remove_bottom, unsnoc-append}
use ulppk.Dqacc.Window.{window, window_start, window-first}
use ulppk.Dqacc.Memory.{IsValid}
use ulppk.Dqacc.Refine.{contents}
use native.Mathlib.Nat.{mod-eq_of_lt, mod-add-mod, mod-lt, add-mod_right}
use native.Mathlib.Decide.{ℕ_discrete, dec_lt}

-- One slot back from a later slot of a run.
back-mod : (x s : ℕ) → 0 < x → 0 < s → (x % s + s - 1) % s ≡ (x - 1) % s
back-mod x s hx hs =
    ap (λ n. n % s) (let e : x % s + s - 1 ≡ x % s + (s - 1) = omega arith in e)
    ∙ mod-add-mod x s (s - 1)
    ∙ ap (λ n. n % s) (let e : x + (s - 1) ≡ x - 1 + s = omega arith in e)
    ∙ add-mod_right (x - 1) s

module _ (d : Deque) where
  abbrev top_taken : Deque
  top_taken = record d {
    dquse = d.dquse - 1;
    dqtop = if d.dquse == 1 then d.dqtop else u16 ((d.dqtop + d.dqslots - 1) % d.dqslots);
  }

  abbrev bottom_taken : Deque
  bottom_taken = record d {
    dquse = d.dquse - 1;
    dqbottom = if d.dquse == 1 then d.dqbottom else u16 ((d.dqbottom + 1) % d.dqslots);
  }

  pub dq_rtd-some :
      d.dq_open ≡ true → 0 < d.dquse → dq_rtd d ≡ (some (read_slot d d.dqtop), top_taken)
  unfolding dq_rtd
  dq_rtd-some o h = rw (o, lt→ltb 0 d.dquse h) refl

  pub dq_rbd-some :
      d.dq_open ≡ true → 0 < d.dquse → dq_rbd d ≡ (some (read_slot d d.dqbottom), bottom_taken)
  unfolding dq_rbd
  dq_rbd-some o h = rw (o, lt→ltb 0 d.dquse h) refl

  pub dq_rtd-none : d.dquse ≡ 0 → dq_rtd d ≡ (none, d)
  unfolding dq_rtd
  dq_rtd-none e = ground arith

  pub dq_rbd-none : d.dquse ≡ 0 → dq_rbd d ≡ (none, d)
  unfolding dq_rbd
  dq_rbd-none e = ground arith

module _ (d : Deque) (v : IsValid d) (used : 0 < d.dquse) where
  suc_use : d.dquse ≡ suc (d.dquse - 1)
  suc_use = omega arith

  pub contents-top_taken : contents d ≡ read_slot d d.dqtop ∷ contents (top_taken d)
  contents-top_taken =
      ap (window d.dqslots (read_slot d) d.dqbottom) suc_use
      ∙ ap (λ i. read_slot d i ∷ contents (top_taken d)) (sym v.top_at)

  pub top_taken-IsValid : IsValid (top_taken d)
  top_taken-IsValid = record {
    opened = v.opened;
    use_in = omega arith;
    slots_fit = v.slots_fit;
    bottom_in = v.bottom_in;
    top_at = lower;
    offsets_fit = v.offsets_fit;
    room = v.room;
  }
    where
      lower : (top_taken d).dqtop ≡ (d.dqbottom + (d.dquse - 1 - 1)) % d.dqslots
      lower = elim (ℕ_discrete d.dquse 1) [
        | yes e ↦ ground (arith, v.top_at)
        | no ne ↦ ground (
          arith,
          v.top_at,
          back-mod (d.dqbottom + (d.dquse - 1)) d.dqslots (omega arith) (omega arith),
          mod-lt (d.dqtop + d.dqslots - 1) {m = d.dqslots} (omega arith),
        )
      ]

  pub bottom_in_taken : (bottom_taken d).dqbottom < d.dqslots
  bottom_in_taken = ground (arith, mod-lt (d.dqbottom + 1) {m = d.dqslots} (omega arith))

  pub contents-bottom_taken : contents d ≡ contents (bottom_taken d) ++ read_slot d d.dqbottom ∷ []
  contents-bottom_taken =
      ap (window d.dqslots (read_slot d) d.dqbottom) suc_use
      ∙ window-first d.dqslots (read_slot d) d.dqbottom (d.dquse - 1)
      ∙ ap₂ (λ l i. l ++ read_slot d i ∷ []) others (mod-eq_of_lt v.bottom_in)
    where
      others :
          window d.dqslots (read_slot d) ((d.dqbottom + 1) % d.dqslots) (d.dquse - 1)
          ≡ contents (bottom_taken d)
      others =
          window_start d.dqslots (read_slot d) ((d.dqbottom + 1) % d.dqslots)
            (bottom_taken d).dqbottom (d.dquse - 1)
            (λ p. ground (arith, mod-lt (d.dqbottom + 1) {m = d.dqslots} (omega arith)))

  pub bottom_taken-IsValid : IsValid (bottom_taken d)
  bottom_taken-IsValid = record {
    opened = v.opened;
    use_in = omega arith;
    slots_fit = v.slots_fit;
    bottom_in = bottom_in_taken;
    top_at = kept;
    offsets_fit = v.offsets_fit;
    room = v.room;
  }
    where
      kept : d.dqtop ≡ ((bottom_taken d).dqbottom + (d.dquse - 1 - 1)) % d.dqslots
      kept = elim (ℕ_discrete d.dquse 1) [
        | yes e ↦ ground (arith, v.top_at)
        | no ne ↦ ground (
          arith,
          v.top_at,
          mod-lt (d.dqbottom + 1) {m = d.dqslots} (omega arith),
          mod-add-mod (d.dqbottom + 1) d.dqslots (d.dquse - 1 - 1),
        )
      ]

pub contents-empty : (d : Deque) → d.dquse ≡ 0 → contents d ≡ []
contents-empty d e = ap (window d.dqslots (read_slot d) d.dqbottom) e

-- `dq_rtd` on a valid deque returns the top item of the bounded sequence, or the error flag if it
-- is empty, holds the rest afterwards and stays valid.
pub dq_rtd_refines :
    (d : Deque)
    → IsValid d
    → let (item, d') = dq_rtd d in
      ((item, contents d') ≡ remove_top (contents d))
      × IsValid d'
      × (d'.dqslots ≡ d.dqslots)
      × (d'.dqitem_size ≡ d.dqitem_size)
unfolding remove_top
dq_rtd_refines d v = elim (dec_lt 0 d.dquse) [
  | yes h ↦
      rw (dq_rtd-some d v.opened h, contents-top_taken d v h)
        (refl, top_taken-IsValid d v h, refl, refl)
  | no h ↦ rw (dq_rtd-none d (omega arith), contents-empty d (omega arith)) (refl, v, refl, refl)
]

remove_bottom-append : (q : List (List ℕ)) (x : List ℕ) → remove_bottom (q ++ x ∷ []) ≡ (some x, q)
unfolding remove_bottom
remove_bottom-append q x = rw (unsnoc-append q x, remove_bottom)

-- `dq_rbd` on a valid deque returns the bottom item of the bounded sequence, or the error flag if
-- it is empty, holds the rest afterwards and stays valid.
pub dq_rbd_refines :
    (d : Deque)
    → IsValid d
    → let (item, d') = dq_rbd d in
      ((item, contents d') ≡ remove_bottom (contents d))
      × IsValid d'
      × (d'.dqslots ≡ d.dqslots)
      × (d'.dqitem_size ≡ d.dqitem_size)
dq_rbd_refines d v = elim (dec_lt 0 d.dquse) [
  | yes h ↦
      rw (dq_rbd-some d v.opened h, contents-bottom_taken d v h, remove_bottom-append)
        (refl, bottom_taken-IsValid d v h, refl, refl)
  | no h ↦
      rw (dq_rbd-none d (omega arith), contents-empty d (omega arith))
        ((unfold remove_bottom in refl), v, refl, refl)
]

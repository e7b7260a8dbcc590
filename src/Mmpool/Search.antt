-- ===== src/Mmpool/Search.antt =====
-- A deque of buffer indexes, and what `search_deque` does on it.
use ulppk.Base.{ℕ, suc, ◌^◌, ◌<◌, ◌≡◌, refl, sym, ap, ap₂, ◌∙◌, arith}
use ulppk.Base.{false, List, [], ◌∷◌, ◌++◌, none, some, map}
use ulppk.Base.{length, ltb, if-true, lt→ltb}
use ulppk.Base.{replicate}
use ulppk.Dqacc.{Deque, dq_abd, dq_rtd}
use ulppk.Dqacc.Spec.{add_bottom, remove_top}
use ulppk.Dqacc.Memory.{IsValid}
use ulppk.Dqacc.Refine.{contents, length-contents, dq_abd_refines}
use ulppk.Dqacc.Remove.{dq_rtd_refines}
use ulppk.Mmdeque.{le_bytes, le_value}
use ulppk.Mmpool.{search_deque_from, search_deque}

-- The items of a deque of indexes.
abbrev pub indexes : List ℕ → List (List ℕ)
indexes xs = map (le_bytes 8) xs

-- A valid deque of `cap` slots that holds these indexes, top first.
pub record IsQueue (cap : ℕ) (d : Deque) (xs : List ℕ) : Type 0 where
  pub valid : IsValid d
  pub sized : d.dqitem_size ≡ 8
  pub slots : d.dqslots ≡ cap
  pub items : contents d ≡ indexes xs

length-indexes : (xs : List ℕ) → length (indexes xs) ≡ length xs
length-indexes [] = refl
length-indexes (x ∷ xs) = ap suc (length-indexes xs)

indexes-snoc : (xs : List ℕ) (i : ℕ) → indexes (xs ++ i ∷ []) ≡ indexes xs ++ le_bytes 8 i ∷ []
indexes-snoc [] i = refl
indexes-snoc (x ∷ xs) i = ap (◌∷◌ (le_bytes 8 x)) (indexes-snoc xs i)

pub IsQueue-use : {cap : ℕ} {d : Deque} {xs : List ℕ} → IsQueue cap d xs → d.dquse ≡ length xs
IsQueue-use {cap} {d} {xs} h = sym (length-contents d) ∙ ap length h.items ∙ length-indexes xs

module _ {cap : ℕ} {d : Deque} where
  pub push_index :
      (i : ℕ) {xs : List ℕ}
      → IsQueue cap d xs
      → length xs < cap
      → IsQueue cap (dq_abd d (le_bytes 8 i)).1 (xs ++ i ∷ [])
  unfolding add_bottom
  push_index i {xs} h free =
      let (e, v, s, z) = dq_abd_refines d (le_bytes 8 i) h.valid (sym h.sized) in
      let spec =
        e
        ∙ ap₂ (λ c q. add_bottom c q (le_bytes 8 i)) h.slots h.items
        ∙ if-true _ _ (ap (λ l. ltb l cap) (length-indexes xs) ∙ lt→ltb (length xs) cap free) in
      record {
        valid = v;
        sized = z ∙ h.sized;
        slots = s ∙ h.slots;
        items = ap (λ r. r.1) spec ∙ sym (indexes-snoc xs i);
      }

  pub pop_none : IsQueue cap d [] → ((dq_rtd d).0 ≡ none) × IsQueue cap (dq_rtd d).1 []
  unfolding remove_top
  pop_none h =
      let (e, v, s, z) = dq_rtd_refines d h.valid in
      let spec = e ∙ ap remove_top h.items in
      (
        ap (λ r. r.0) spec,
        record { valid = v; sized = z ∙ h.sized; slots = s ∙ h.slots; items = ap (λ r. r.1) spec },
      )

  pub pop_index :
      (x : ℕ) {xs : List ℕ}
      → IsQueue cap d (x ∷ xs)
      → ((dq_rtd d).0 ≡ some (le_bytes 8 x)) × IsQueue cap (dq_rtd d).1 xs
  unfolding remove_top
  pop_index x h =
      let (e, v, s, z) = dq_rtd_refines d h.valid in
      let spec = e ∙ ap remove_top h.items in
      (
        ap (λ r. r.0) spec,
        record { valid = v; sized = z ∙ h.sized; slots = s ∙ h.slots; items = ap (λ r. r.1) spec },
      )

pub value-le_bytes : (v : ℕ) → v < 2 ^ 16 → le_value (le_bytes 8 v) ≡ v
value-le_bytes v h = omega arith

-- `search_deque` on a deque without an index finds nothing.
pub search_deque_none :
    {cap : ℕ} (i : ℕ) {d : Deque} → IsQueue cap d [] → search_deque d i ≡ some (false, d)
unfolding search_deque search_deque_from
search_deque_none i {d} h = ap (λ n. search_deque_from n (replicate 4 0) d i) (IsQueue-use h)

-- On a deque with an index it writes past its variable.
pub search_deque_some :
    {cap : ℕ} (x : ℕ) (xs : List ℕ) (i : ℕ) {d : Deque}
    → IsQueue cap d (x ∷ xs)
    → search_deque d i ≡ none
unfolding search_deque search_deque_from
search_deque_some x xs i {d} h =
    ap (λ n. search_deque_from n (replicate 4 0) d i) (IsQueue-use h)
    ∙ if-true _ _ (ap (ltb 4) h.sized)

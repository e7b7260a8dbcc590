-- ===== src/Dqacc/Spec.antt =====
-- What a deque promises: a bounded sequence of items, top first.
use ulppk.Base.{ℕ, Bool, true, false, List, [], ◌∷◌, ◌++◌, Option, none, some, ◌≡◌, refl}
use ulppk.Base.{◌==◌, ltb, if◌then◌else◌, length}

-- The last item and those before it.
abbrev pub unsnoc {ℓ} : {A : Type ℓ} → List A → Option (List A × A)
unsnoc [] = none
unsnoc (x ∷ xs) = elim (unsnoc xs) [ none ↦ some ([], x) | some (ys, y) ↦ some (x ∷ ys, y) ]

pub unsnoc-append {ℓ} : {A : Type ℓ} (xs : List A) (x : A) → unsnoc (xs ++ x ∷ []) ≡ some (xs, x)
unsnoc-append [] x = refl
unsnoc-append (y ∷ ys) x = rw (unsnoc-append ys x)

module _ {ℓ} {A : Type ℓ} where
  -- The flag is true if the deque is full.
  unfoldable pub add_top : ℕ → List A → A → Bool × List A
  add_top cap q x = if ltb (length q) cap then (false, x ∷ q) else (true, q)

  unfoldable pub add_bottom : ℕ → List A → A → Bool × List A
  add_bottom cap q x = if ltb (length q) cap then (false, q ++ x ∷ []) else (true, q)

  unfoldable pub remove_top : List A → Option A × List A
  remove_top [] = (none, [])
  remove_top (x ∷ q) = (some x, q)

  unfoldable pub remove_bottom : List A → Option A × List A
  remove_bottom q = elim (unsnoc q) [ none ↦ (none, []) | some (r, x) ↦ (some x, r) ]

-- A caller's calls in order, and what it sees of each: the flag, and the item if one is removed.
pub data Op {ℓ} (A : Type ℓ) : Type ℓ where
  to_top : A → Op A
  to_bottom : A → Op A
  from_top : Op A
  from_bottom : Op A
  ask_empty : Op A

abbrev pub Reply {ℓ} : Type ℓ → Type ℓ
Reply A = Bool × Option A

abbrev pub is_none {ℓ} : {A : Type ℓ} → Option A → Bool
is_none none = true
is_none (some x) = false

-- One call: what the caller sees, and the items after it.
unfoldable pub step {ℓ} : {A : Type ℓ} → ℕ → List A → Op A → Reply A × List A
unfolding add_top add_bottom remove_top remove_bottom
step cap q (to_top x) = let (flag, q') = add_top cap q x in ((flag, none), q')
step cap q (to_bottom x) = let (flag, q') = add_bottom cap q x in ((flag, none), q')
step cap q from_top = let (item, q') = remove_top q in ((is_none item, item), q')
step cap q from_bottom = let (item, q') = remove_bottom q in ((is_none item, item), q')
step cap q ask_empty = ((length q == 0, none), q)

unfoldable pub run {ℓ} : {A : Type ℓ} → ℕ → List A → List (Op A) → List (Reply A)
unfolding step
run cap q [] = []
run cap q (op ∷ ops) = let (reply, q') = step cap q op in reply ∷ run cap q' ops

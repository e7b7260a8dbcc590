-- ===== src/Dqacc/Run.antt =====
-- Sequences of calls on one deque.
use ulppk.Base.{Option, Bool, ℕ, ◌≡◌, refl, ap, List, [], ◌∷◌, none, length, ◌==◌, All, arith}
use ulppk.Dqacc.{Deque, dq_atd, dq_abd, dq_rtd, dq_rbd, dq_isempty}
use ulppk.Dqacc.Spec
use ulppk.Dqacc.Spec.{Op, Reply, is_none, to_top, to_bottom, from_top, from_bottom, ask_empty}
use ulppk.Dqacc.Memory.{IsValid}
use ulppk.Dqacc.Refine.{contents, length-contents, dq_atd_refines, dq_abd_refines}
use ulppk.Dqacc.Remove.{dq_rtd_refines, dq_rbd_refines}

-- One call: what the caller sees, and the deque after it.
unfoldable pub step : Deque → Op (List ℕ) → Reply (List ℕ) × Deque
step d (to_top x) = let (flag, d') = dq_atd d x in ((flag, none), d')
step d (to_bottom x) = let (flag, d') = dq_abd d x in ((flag, none), d')
step d from_top = let (item, d') = dq_rtd d in ((is_none item, item), d')
step d from_bottom = let (item, d') = dq_rbd d in ((is_none item, item), d')
step d ask_empty = ((dq_isempty d, none), d)

unfoldable pub run : Deque → List (Op (List ℕ)) → List (Reply (List ℕ))
unfolding step
run d [] = []
run d (op ∷ ops) = let (reply, d') = step d op in reply ∷ run d' ops

-- Every item that a call adds has the deque's item size.
abbrev pub Sized : ℕ → Op (List ℕ) → Type 0
Sized n (to_top x) = length x ≡ n
Sized n (to_bottom x) = length x ≡ n
Sized n from_top = Unit
Sized n from_bottom = Unit
Sized n ask_empty = Unit

isempty_lem : (d : Deque) → dq_isempty d ≡ (length (contents d) == 0)
unfolding dq_isempty
isempty_lem d = rw (length-contents d) (ground arith)

-- Every call on a valid deque, with an item of the item size if it adds one, replies as the bounded
-- sequence of its items does, holds the items of that sequence afterwards, top first, and leaves
-- the deque valid, of the same slots and item size.
pub step_refines :
    (d : Deque) (op : Op (List ℕ))
    → IsValid d
    → Sized d.dqitem_size op
    → let (reply, d') = step d op in
      ((reply, contents d') ≡ Spec.step d.dqslots (contents d) op)
      × IsValid d'
      × (d'.dqslots ≡ d.dqslots)
      × (d'.dqitem_size ≡ d.dqitem_size)
unfolding step Spec.step
step_refines d (to_top x) v h =
    let (e, v1, s, z) = dq_atd_refines d x v h in
    (ap (λ (r : Bool × List (List ℕ)). ((r.0, none), r.1)) e, v1, s, z)
step_refines d (to_bottom x) v h =
    let (e, v1, s, z) = dq_abd_refines d x v h in
    (ap (λ (r : Bool × List (List ℕ)). ((r.0, none), r.1)) e, v1, s, z)
step_refines d from_top v h =
    let (e, v1, s, z) = dq_rtd_refines d v in
    (ap (λ (r : Option (List ℕ) × List (List ℕ)). ((is_none r.0, r.0), r.1)) e, v1, s, z)
step_refines d from_bottom v h =
    let (e, v1, s, z) = dq_rbd_refines d v in
    (ap (λ (r : Option (List ℕ) × List (List ℕ)). ((is_none r.0, r.0), r.1)) e, v1, s, z)
step_refines d ask_empty v h = (ap (λ b. ((b, none), contents d)) (isempty_lem d), v, refl, refl)

-- No sequence of calls tells a valid deque from the bounded sequence of its items: every flag and
-- every removed item agree, when each added item has the item size.
pub run_refines :
    (ops : List (Op (List ℕ))) (d : Deque)
    → IsValid d
    → All (Sized d.dqitem_size) ops
    → run d ops ≡ Spec.run d.dqslots (contents d) ops
unfolding run Spec.run
run_refines [] d v h = refl
run_refines (op ∷ ops) d v h =
    let (e, v', s, z) = step_refines d op v h.0 in
    rw (run_refines ops (step d op).1 v' (rw z h.1), ← e, s)

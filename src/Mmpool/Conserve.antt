-- ===== src/Mmpool/Conserve.antt =====
-- No call loses a buffer or has one twice.
use ulppk.Base.{ℕ, zero, suc, ◌+◌, ◌<◌, ◌≤◌, ◌≡◌, refl, ap, ◌∙◌, arith}
use ulppk.Base.{List, [], ◌∷◌, ◌++◌, some}
use ulppk.Base.{length, length-append, ltb, if◌then◌else◌, All, All-append}
use ulppk.Mmpool.{Pool}
use ulppk.Mmpool.Spec
use ulppk.Mmpool.Spec.{Buffers, Op, get, zap, Reply, count, occurs, first}
use ulppk.Mmpool.Held.{IsPool}
use ulppk.Mmpool.Run.{step, run, then_reply, pool_step_refines}

pub count-append : (i : ℕ) (xs ys : List ℕ) → count i (xs ++ ys) ≡ count i xs + count i ys
unfolding count
count-append i [] ys = omega arith
count-append i (x ∷ xs) ys = omega (arith, count-append i xs ys)

step-occurs : (j : ℕ) (b : Buffers) (op : Op) → occurs j (Spec.step b op).1 ≡ occurs j b
unfolding Spec.step
step-occurs j ([], out) get = refl
step-occurs j (x ∷ free, out) get = unfold count in omega (arith, count-append j out (x ∷ []))
step-occurs j (free, out) zap = unfold count in omega (arith, count-append j free out)

run-occurs : (j : ℕ) (ops : List Op) (b : Buffers) → occurs j (Spec.run b ops).1 ≡ occurs j b
unfolding Spec.run
run-occurs j [] b = refl
run-occurs j (op ∷ ops) b = run-occurs j ops (Spec.step b op).1 ∙ step-occurs j b op

run-step :
    (p p1 : Pool) (op : Op) (r : Reply) (ops : List Op)
    → step p op ≡ some (r, p1)
    → run p (op ∷ ops) ≡ then_reply r (run p1 ops)
run-step p p1 op r ops e = unfold run in rw (e, run) refl

run-IsPool :
    (ops : List Op) (p : Pool) (b : Buffers)
    → IsPool p b
    → (p' : Pool) × (run p ops ≡ some ((Spec.run b ops).0, p')) × IsPool p' (Spec.run b ops).1
unfolding Spec.run
run-IsPool [] p b h = (p, unfold run in refl, h)
run-IsPool (op ∷ ops) p b h =
    let (p1, e, h1, c) = pool_step_refines p b op h in
    let (p2, e2, h2) = run-IsPool ops p1 (Spec.step b op).1 h1 in
    (p2, run-step p p1 op (Spec.step b op).0 ops e ∙ ap (then_reply (Spec.step b op).0) e2, h2)

-- A sequence of calls on a pool with the invariant returns, replies as the two lists of buffers do,
-- and keeps the invariant: every buffer occurs in and out of the pool together as often as before.
-- A zap has a round more than there are buffers out of the pool.
pub pool_run_refines :
    (ops : List Op) (p : Pool) (b : Buffers)
    → IsPool p b
    → (p' : Pool) × (run p ops ≡ some ((Spec.run b ops).0, p'))
      × IsPool p' (Spec.run b ops).1
      × ((j : ℕ) → occurs j (Spec.run b ops).1 ≡ occurs j b)
pool_run_refines ops p b h =
    let (p', e, h') = run-IsPool ops p b h in (p', e, h', λ j. run-occurs j ops b)

-- The indexes below `n` are each there once.
pub count-first : (j n : ℕ) → count j (first n) ≡ (if ltb j n then 1 else 0)
unfolding count first
count-first j zero = ground arith
count-first j (suc n) = ground (arith, count-first j n, count-append j (first n) (n ∷ []))

pub length-first : (n : ℕ) → length (first n) ≡ n
unfolding first
length-first zero = refl
length-first (suc n) = omega (arith, length-append (first n) (n ∷ []), length-first n)

pub first_range : (n cap : ℕ) → n ≤ cap → All (λ x. x < cap) (first n)
unfolding first
first_range zero cap h = tt
first_range (suc n) cap h =
    All-append (λ x. x < cap) (first n) (n ∷ []) (first_range n cap (omega arith)) (h, tt)

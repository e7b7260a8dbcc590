-- ===== src/Llacc/Drain.antt =====
-- Draining a list.
use ulppk.Base.{ℕ, zero, suc, ◌<◌, ◌≡◌, ap, ◌∙◌, ◌≢◌, sym, arith}
use ulppk.Base.{List, [], ◌∷◌, length, if-true, if-false, eq→==, ne→==, some}
use ulppk.Llacc.{Store, ll_drain, ll_getfront, handed}
use ulppk.Llacc.Shape.{IsList}
use ulppk.Llacc.Take.{ll_getfront_lem}

module _ (fuel : ℕ) (s : Store) where
  drain_end : (ll_getfront s).0 ≡ 0 → ll_drain (suc fuel) s ≡ some ([], (ll_getfront s).1)
  unfolding ll_drain
  drain_end e = if-true _ _ (eq→== (ll_getfront s).0 0 e)

  drain_more :
      (ll_getfront s).0 ≢ 0
      → ll_drain (suc fuel) s ≡ handed (ll_getfront s).0 (ll_drain fuel (ll_getfront s).1)
  unfolding ll_drain
  drain_more e = if-false _ _ (ne→== (ll_getfront s).0 0 e)

-- `ll_drain` hands every node of a well-formed list over once, front first, and leaves the list
-- empty, if the rounds are more than the nodes.
pub ll_drain_lem :
    (fuel : ℕ) (s : Store) (xs : List ℕ)
    → IsList s xs
    → length xs < fuel
    → (s' : Store) × (ll_drain fuel s ≡ some (xs, s')) × IsList s' []
ll_drain_lem zero s xs l h = absurd (omega arith)
ll_drain_lem (suc fuel) s [] l h =
    let (at, holds, counts) = ll_getfront_lem s [] l in
    ((ll_getfront s).1, drain_end fuel s at, holds)
ll_drain_lem (suc fuel) s (x ∷ xs) l h =
    let (at, holds, counts) = ll_getfront_lem s (x ∷ xs) l in
    let (s', returns, emptied) = ll_drain_lem fuel (ll_getfront s).1 xs holds (omega arith) in
    (
      s',
      drain_more fuel s (λ e. l.chain.1 (sym at ∙ e))
          ∙ ap (handed (ll_getfront s).0) returns
          ∙ ap (λ n. some (n ∷ xs, s')) at,
      emptied,
    )

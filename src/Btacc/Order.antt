-- ===== src/Btacc/Order.antt =====
-- Trees in the order of a key, and searches in them.
use ulppk.Base.{ℕ, ◌<◌, ◌≡◌, ◌≢◌, sym, arith}
use ulppk.Base.{◌⊎◌, inl, inr, ltb, ◌==◌, if◌then◌else◌}
use mathlib.Core.Path.{subst}
use ulppk.Btacc.{Code, below, same, above}
use ulppk.Btacc.Tree.{Tree, leaf, branch, AllIn, AllIn-map}
use ulppk.Btacc.Search.{find, find_leaf, Code-cases, find_below, find_same, find_above}
use ulppk.Btacc.Insert.{grown, grown_leaf, grown_below, grown_same, grown_above}
use ulppk.Btacc.Add.{grown-AllIn}

-- Smaller keys are on the left.
abbrev pub by_key : ℕ → ℕ → Code
by_key wanted key = if ltb wanted key then below else if wanted == key then same else above

pub below-lt : (w k : ℕ) → by_key w k ≡ below → w < k
below-lt w k h = ground arith

pub same-eq : (w k : ℕ) → by_key w k ≡ same → w ≡ k
same-eq w k h = ground arith

pub above-gt : (w k : ℕ) → by_key w k ≡ above → k < w
above-gt w k h = ground arith

module _ (key : ℕ → ℕ) where
  abbrev pub IsOrdered : Tree → Type 0
  IsOrdered leaf = Unit
  IsOrdered (branch l a r) =
      AllIn (λ x. key x < key a) l × AllIn (λ x. key a < key x) r × IsOrdered l × IsOrdered r

  abbrev pub wants : ℕ → ℕ → Code
  wants w x = by_key w (key x)

  pub grown-IsOrdered : (n : ℕ) (t : Tree) → IsOrdered t → IsOrdered (grown (wants (key n)) n t)
  grown-IsOrdered n leaf h = subst IsOrdered (sym (grown_leaf (wants (key n)) n)) (tt, tt, tt, tt)
  grown-IsOrdered n (branch l a r) h =
      let judge = wants (key n) in
      elim (Code-cases (judge a)) [
        | inl e ↦ subst IsOrdered (sym (grown_below judge n l a r e)) (
          grown-AllIn (λ x. key x < key a) judge n l (below-lt (key n) (key a) e) h.0,
          h.1,
          grown-IsOrdered n l h.2,
          h.3,
        )
        | inr (inl e) ↦ subst IsOrdered (sym (grown_same judge n l a r e)) h
        | inr (inr e) ↦ subst IsOrdered (sym (grown_above judge n l a r e)) (
          h.0,
          grown-AllIn (λ x. key a < key x) judge n r (above-gt (key n) (key a) e) h.1,
          h.2,
          grown-IsOrdered n r h.3,
        )
      ]

  -- The node that a search for a key comes to has the key; if it comes to none, no node has.
  abbrev pub Finds : ℕ → Tree → ℕ → Type 0
  Finds w t m = ((m ≢ 0) × (key m ≡ w)) ⊎ ((m ≡ 0) × AllIn (λ x. key x ≢ w) t)

  pub find_exact :
      (w : ℕ) (t : Tree) → IsOrdered t → AllIn (λ x. x ≢ 0) t → Finds w t (find (wants w) t)
  find_exact w leaf h nz = inr (find_leaf (wants w), tt)
  find_exact w (branch l a r) h nz = elim (Code-cases (wants w a)) [
    | inl e ↦
        subst (Finds w (branch l a r)) (sym (find_below (wants w) l a r e))
          (elim (find_exact w l h.2 nz.1) [
            | inl there ↦ inl there
            | inr (z, none) ↦
                let lt = below-lt w (key a) e in
                inr (
                  z,
                  (
                    (λ q. absurd (omega arith)),
                    none,
                    AllIn-map (λ x. key a < key x) (λ x. key x ≢ w) r
                        (λ x more q. absurd (omega arith)) h.1,
                  ),
                )
          ])
    | inr (inl e) ↦
        subst (Finds w (branch l a r)) (sym (find_same (wants w) l a r e))
          (inl (nz.0, sym (same-eq w (key a) e)))
    | inr (inr e) ↦
        subst (Finds w (branch l a r)) (sym (find_above (wants w) l a r e))
          (elim (find_exact w r h.3 nz.2) [
            | inl there ↦ inl there
            | inr (z, none) ↦
                let gt = above-gt w (key a) e in
                inr (
                  z,
                  (
                    (λ q. absurd (omega arith)),
                    AllIn-map (λ x. key x < key a) (λ x. key x ≢ w) l
                        (λ x less q. absurd (omega arith)) h.0,
                    none,
                  ),
                )
          ])
  ]

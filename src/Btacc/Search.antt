-- ===== src/Btacc/Search.antt =====
-- `bt_search`.
use ulppk.Base.{ℕ, zero, suc, ◌<◌, ◌≡◌, ◌≢◌, refl, sym, ap, ◌∙◌, arith, some, ne→==, eq→==}
use ulppk.Base.{◌⊎◌, inl, inr}
use mathlib.Core.Path.{subst}
use ulppk.Btacc.{TreeNode, TreeStore, Code, below, same, above, bt_search}
use ulppk.Btacc.Tree.{Tree, leaf, branch, depth, Shape}

-- The node that the criteria lead to, or 0.
unfoldable pub find : (ℕ → Code) → Tree → ℕ
find judge leaf = 0
find judge (branch l a r) = elim (judge a) [
  | below ↦ find judge l
  | same ↦ a
  | above ↦ find judge r
]

pub find_leaf : (judge : ℕ → Code) → find judge leaf ≡ 0
unfolding find
find_leaf judge = refl

pub find-ne-zero :
    (judge : ℕ → Code) (node : ℕ → TreeNode) (p parent : ℕ) (t : Tree)
    → Shape node p parent t
    → find judge t ≢ 0
    → p ≢ 0
find-ne-zero judge node p parent leaf h f z = f (unfold find in refl)
find-ne-zero judge node p parent (branch l a r) h f z = h.1 (sym h.0 ∙ z)

-- A split on a code that keeps the equation.
pub Code-cases : (c : Code) → (c ≡ below) ⊎ ((c ≡ same) ⊎ (c ≡ above))
Code-cases below = inl refl
Code-cases same = inr (inl refl)
Code-cases above = inr (inr refl)

module _ (judge : ℕ → Code) (l : Tree) (a : ℕ) (r : Tree) where
  pub find_below : judge a ≡ below → find judge (branch l a r) ≡ find judge l
  find_below e = unfold find in rw (e, find) refl

  pub find_same : judge a ≡ same → find judge (branch l a r) ≡ a
  find_same e = unfold find in rw (e, find) refl

  pub find_above : judge a ≡ above → find judge (branch l a r) ≡ find judge r
  find_above e = unfold find in rw (e, find) refl

module _ (judge : ℕ → Code) (s : TreeStore) (fuel p : ℕ) (ne : p ≢ 0) where
  search_below :
      judge p ≡ below → bt_search (suc fuel) s p judge ≡ bt_search fuel s (s.node p).tr_left judge
  search_below e = unfold bt_search in rw (ne→== p 0 ne, e, bt_search) refl

  search_same : judge p ≡ same → bt_search (suc fuel) s p judge ≡ some p
  search_same e = unfold bt_search in rw (ne→== p 0 ne, e, bt_search) refl

  search_above :
      judge p ≡ above → bt_search (suc fuel) s p judge ≡ bt_search fuel s (s.node p).tr_right judge
  search_above e = unfold bt_search in rw (ne→== p 0 ne, e, bt_search) refl

-- `bt_search` that may go one level deeper than the tree returns the node that the criteria lead to.
pub bt_search_lem :
    (t : Tree) (s : TreeStore) (judge : ℕ → Code) (fuel p parent : ℕ)
    → Shape s.node p parent t
    → depth t < fuel
    → bt_search fuel s p judge ≡ some (find judge t)
bt_search_lem t s judge zero p parent h lt = absurd (omega arith)
bt_search_lem leaf s judge (suc fuel) p parent h lt =
    unfold bt_search find in rw (eq→== p 0 h, bt_search) refl
bt_search_lem (branch l a r) s judge (suc fuel) p parent h lt =
    subst (λ q. bt_search (suc fuel) s q judge ≡ some (find judge (branch l a r))) (sym h.0)
      (elim (Code-cases (judge a)) [
        | inl e ↦
            search_below judge s fuel a h.1 e
            ∙ bt_search_lem l s judge fuel (s.node a).tr_left a h.3 (omega arith)
            ∙ ap some (sym (find_below judge l a r e))
        | inr (inl e) ↦ search_same judge s fuel a h.1 e ∙ ap some (sym (find_same judge l a r e))
        | inr (inr e) ↦
            search_above judge s fuel a h.1 e
            ∙ bt_search_lem r s judge fuel (s.node a).tr_right a h.4 (omega arith)
            ∙ ap some (sym (find_above judge l a r e))
      ])

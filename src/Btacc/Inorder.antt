-- ===== src/Btacc/Inorder.antt =====
-- `bt_inorder`.
use ulppk.Base.{ℕ, zero, suc, ◌≤◌, ◌≡◌, ◌≢◌, refl, sym, ap, ◌∙◌, arith, Option, some, Bool}
use ulppk.Base.{List, [], ◌∷◌, ◌++◌, All, true, false, not, ◌==◌, if◌then◌else◌, ne→==, eq→==}
use ulppk.Base.{Bool-cases, if-true, if-false, All-append, inl, inr}
use mathlib.Core.Path.{subst}
use native.Mathlib.Decide.{ℕ_discrete}
use ulppk.Btacc.{TreeNode, TreeStore, bt_inorder, then_visit}
use ulppk.Btacc.Tree.{Tree, leaf, branch, depth, inorder, Shape, Shape-zero}
use ulppk.Btacc.Add.{IsTree}

module _ {A : Type 0} (action : A → ℕ → A × Bool) where
  -- The action on each node of a list until it returns false.
  unfoldable pub visit : List ℕ → A → ℕ × A
  visit [] arg = (0, arg)
  visit (x ∷ xs) arg = let (arg1, flag) = action arg x in if flag then visit xs arg1 else (x, arg1)

  abbrev pub on : (A → ℕ × A) → ℕ × A → ℕ × A
  on next (lnode, arg) = if lnode == 0 then next arg else (lnode, arg)

  visit_on :
      (x : ℕ) (xs : List ℕ) (arg : A)
      → (action arg x).1 ≡ true
      → visit (x ∷ xs) arg ≡ visit xs (action arg x).0
  visit_on x xs arg e = unfold visit in rw (e, visit) refl

  visit_stop :
      (x : ℕ) (xs : List ℕ) (arg : A)
      → (action arg x).1 ≡ false
      → visit (x ∷ xs) arg ≡ (x, (action arg x).0)
  visit_stop x xs arg e = unfold visit in rw (e, visit) refl

  visit-append :
      (xs ys : List ℕ) (arg : A)
      → All (λ x. x ≢ 0) xs
      → visit (xs ++ ys) arg ≡ on (visit ys) (visit xs arg)
  visit-append [] ys arg h = unfold visit in refl
  visit-append (x ∷ xs) ys arg h = elim (Bool-cases (action arg x).1) [
    | inl e ↦
        visit_on x (xs ++ ys) arg e
        ∙ visit-append xs ys (action arg x).0 h.1
        ∙ ap (on (visit ys)) (sym (visit_on x xs arg e))
    | inr e ↦
        visit_stop x (xs ++ ys) arg e
        ∙ sym (if-false _ _ (ne→== x 0 h.0))
        ∙ ap (on (visit ys)) (sym (visit_stop x xs arg e))
  ]

  -- One subtree, if there is one.
  visit_child : ℕ → TreeStore → ℕ → A → Option (ℕ × A)
  visit_child fuel s q arg = if q == 0 then some (0, arg) else bt_inorder action fuel s q arg

  -- The node and what is on its right.
  visit_rest : ℕ → TreeStore → ℕ → A → Option (ℕ × A)
  visit_rest fuel s p arg =
      let (arg1, flag) = action arg p in
      if not flag then some (p, arg1) else visit_child fuel s (s.node p).tr_right arg1

  inorder_step :
      (fuel : ℕ) (s : TreeStore) (p : ℕ) (arg : A)
      → p ≢ 0
      → bt_inorder action (suc fuel) s p arg
        ≡ then_visit action (visit_rest fuel s p) (visit_child fuel s (s.node p).tr_left arg)
  unfolding bt_inorder visit_rest visit_child
  inorder_step fuel s p arg ne = if-false _ _ (ne→== p 0 ne)

  child_lem :
      (fuel : ℕ) (s : TreeStore) (q parent : ℕ) (u : Tree) (arg : A)
      → Shape s.node q parent u
      → (q ≢ 0 → bt_inorder action fuel s q arg ≡ some (visit (inorder u) arg))
      → visit_child fuel s q arg ≡ some (visit (inorder u) arg)
  unfolding visit_child visit
  child_lem fuel s q parent u arg h ih = elim (ℕ_discrete q 0) [
    | yes z ↦
        if-true _ _ (eq→== q 0 z)
        ∙ ap (λ t. some (visit (inorder t) arg))
            (sym (Shape-zero s.node parent u (subst (λ k. Shape s.node k parent u) z h)))
    | no nz ↦ if-false _ _ (ne→== q 0 nz) ∙ ih nz
  ]

  rest_lem :
      (fuel : ℕ) (s : TreeStore) (a : ℕ) (r : Tree) (arg : A)
      → visit_child fuel s (s.node a).tr_right (action arg a).0
        ≡ some (visit (inorder r) (action arg a).0)
      → visit_rest fuel s a arg ≡ some (visit (a ∷ inorder r) arg)
  unfolding visit_rest
  rest_lem fuel s a r arg ih = elim (Bool-cases (action arg a).1) [
    | inl e ↦ rw e (ih ∙ ap some (sym (visit_on a (inorder r) arg e)))
    | inr e ↦ rw e (ap some (sym (visit_stop a (inorder r) arg e)))
  ]

  then_lem :
      (rest : A → Option (ℕ × A)) (next : A → ℕ × A) (first : ℕ × A)
      → ((arg : A) → rest arg ≡ some (next arg))
      → then_visit action rest (some first) ≡ some (on next first)
  then_lem rest next (lnode, arg) h = elim (Bool-cases (lnode == 0)) [
    | inl e ↦ rw e (h arg)
    | inr e ↦ rw e refl
  ]

  inorder-nonzero :
      (node : ℕ → TreeNode) (p parent : ℕ) (t : Tree)
      → Shape node p parent t
      → All (λ x. x ≢ 0) (inorder t)
  inorder-nonzero node p parent leaf h = tt
  inorder-nonzero node p parent (branch l a r) h =
      All-append (λ x. x ≢ 0) (inorder l) (a ∷ inorder r)
        (inorder-nonzero node (node a).tr_left a l h.3)
        (h.1, inorder-nonzero node (node a).tr_right a r h.4)

  inorder_from :
      (t : Tree) (s : TreeStore) (fuel p parent : ℕ) (arg : A)
      → p ≢ 0
      → Shape s.node p parent t
      → depth t ≤ fuel
      → bt_inorder action fuel s p arg ≡ some (visit (inorder t) arg)
  inorder_from leaf s fuel p parent arg nz h lt = absurd (nz h)
  inorder_from (branch l a r) s zero p parent arg nz h lt = absurd (omega arith)
  inorder_from (branch l a r) s (suc fuel) p parent arg nz h lt =
      ap (λ q. bt_inorder action (suc fuel) s q arg) h.0
      ∙ inorder_step fuel s a arg h.1
      ∙ ap (then_visit action (visit_rest fuel s a)) (
          child_lem fuel s (s.node a).tr_left a l arg h.3
            (λ ne. inorder_from l s fuel (s.node a).tr_left a arg ne h.3 (omega arith)))
      ∙ then_lem (visit_rest fuel s a) (visit (a ∷ inorder r)) (visit (inorder l) arg) (λ arg1.
        rest_lem fuel s a r arg1 (
          child_lem fuel s (s.node a).tr_right a r (action arg1 a).0 h.4 (λ ne.
            inorder_from r s fuel (s.node a).tr_right a (action arg1 a).0 ne h.4 (omega arith))))
      ∙ ap some (
          sym (
            visit-append (inorder l) (a ∷ inorder r) arg
              (inorder-nonzero s.node (s.node a).tr_left a l h.3)))

  -- `bt_inorder` on a tree that is not empty, and that may go as deep as the tree, takes the action to
  -- the nodes in order until it returns false. It returns that node, or NULL if there is none, and the
  -- argument record as the actions leave it.
  pub bt_inorder_lem :
      (s : TreeStore) (t : Tree) (fuel : ℕ) (arg : A)
      → IsTree s t
      → s.tree ≢ 0
      → depth t ≤ fuel
      → bt_inorder action fuel s s.tree arg ≡ some (visit (inorder t) arg)
  bt_inorder_lem s t fuel arg h nz lt = inorder_from t s fuel s.tree 0 arg nz h.shape lt

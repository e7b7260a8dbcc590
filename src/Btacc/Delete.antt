-- ===== src/Btacc/Delete.antt =====
-- `bt_del`.
use ulppk.Base.{ℕ, ◌≡◌, ◌≢◌, ◌≤◌, sym, ap, ◌∙◌, arith, some, ne→==, eq→==}
use ulppk.Base.{if-true, if-false, List, [], ◌∷◌, ◌++◌, append_assoc, Option, not}
use mathlib.Core.Option
use mathlib.Core.Path.{subst}
use ulppk.Btacc.{TreeStore, bt_del, relink, replace_from_left, replace_from_right}
use ulppk.Btacc.Tree.{Tree, leaf, branch, depth, inorder, AllIn, Shape, Shape-zero}
use ulppk.Btacc.Context.{Context, plug, Shape-unplug, AllIn-unplug, before, after, inorder-plug}
use ulppk.Btacc.Unhook.{
  max_node, cut_max, min_node, cut_min, inorder-cut_max, inorder-cut_min, bt_rightmost_lem,
  bt_leftmost_lem,
}
use ulppk.Btacc.Add.{IsTree}
use ulppk.Btacc.Replacement.{from_left, from_right, without_children}

-- The store and the tree after the deletion of `x`, and the nodes of both trees in order.
abbrev pub Deleted : TreeStore → Context → Tree → ℕ → Tree → Option TreeStore → Type 0
Deleted s c l x r result =
    (s' : TreeStore) × (u : Tree) × (result ≡ some s')
    × IsTree s' u
    × (inorder (plug c (branch l x r)) ≡ (before c ++ inorder l) ++ (x ∷ (inorder r ++ after c)))
    × (inorder u ≡ (before c ++ inorder l) ++ (inorder r ++ after c))

inorder_at :
    (c : Context) (l : Tree) (x : ℕ) (r : Tree)
    → inorder (plug c (branch l x r)) ≡ (before c ++ inorder l) ++ (x ∷ (inorder r ++ after c))
inorder_at c l x r = inorder-plug c (branch l x r) ∙ simp (append_assoc)

moved_left :
    (bs ys : List ℕ) (m : ℕ) (rs : List ℕ) → (bs ++ ys) ++ (m ∷ rs) ≡ (bs ++ (ys ++ (m ∷ []))) ++ rs
moved_left bs ys m rs = simp (append_assoc)

root-ne-zero :
    (s : TreeStore) (c : Context) (l : Tree) (x : ℕ) (r : Tree)
    → IsTree s (plug c (branch l x r))
    → s.tree ≢ 0
root-ne-zero s c l x r h z =
    let e =
      Shape-zero s.node 0 (plug c (branch l x r))
        (subst (λ q. Shape s.node q 0 (plug c (branch l x r))) z h.shape) in
    (AllIn-unplug (λ y. ⊥) c (branch l x r) (subst (AllIn (λ y. ⊥)) (sym e) tt)).0.0

module _ (s : TreeStore) (x fuel : ℕ) (some_tree : s.tree ≢ 0) where
  del_left :
      (l : Tree) (b : ℕ) (r1 : Tree)
      → Shape s.node (s.node x).tr_left x (branch l b r1)
      → depth (branch l b r1) ≤ fuel
      → bt_del fuel s x ≡ some (replace_from_left s x (max_node b r1))
  unfolding bt_del
  del_left l b r1 h lt =
      if-false _ _ (ne→== s.tree 0 some_tree)
      ∙ if-true _ _ (ap not (ne→== (s.node x).tr_left 0 (λ z. h.1 (sym h.0 ∙ z))))
      ∙ ap (Option.map (replace_from_left s x))
          (bt_rightmost_lem s (s.node x).tr_left x l b r1 fuel h lt)

  del_right :
      (l1 : Tree) (b : ℕ) (r : Tree)
      → (s.node x).tr_left ≡ 0
      → Shape s.node (s.node x).tr_right x (branch l1 b r)
      → depth (branch l1 b r) ≤ fuel
      → bt_del fuel s x ≡ some (replace_from_right s x (min_node l1 b))
  unfolding bt_del
  del_right l1 b r z h lt =
      if-false _ _ (ne→== s.tree 0 some_tree)
      ∙ if-false _ _ (ap not (eq→== (s.node x).tr_left 0 z))
      ∙ if-true _ _ (ap not (ne→== (s.node x).tr_right 0 (λ q. h.1 (sym h.0 ∙ q))))
      ∙ ap (Option.map (replace_from_right s x))
          (bt_leftmost_lem s (s.node x).tr_right x l1 b r fuel h lt)

  del_leaf :
      (s.node x).tr_left ≡ 0 → (s.node x).tr_right ≡ 0 → bt_del fuel s x ≡ some (relink s x 0)
  unfolding bt_del
  del_leaf z q =
      if-false _ _ (ne→== s.tree 0 some_tree)
      ∙ if-false _ _ (ap not (eq→== (s.node x).tr_left 0 z))
      ∙ if-false _ _ (ap not (eq→== (s.node x).tr_right 0 q))

-- `bt_del` of a node of the tree, which may go as deep as the tree below it, leaves a tree with the
-- same nodes in the same order, but without that one.
pub bt_del_lem :
    (s : TreeStore) (c : Context) (l : Tree) (x : ℕ) (r : Tree) (fuel : ℕ)
    → IsTree s (plug c (branch l x r))
    → depth (branch l x r) ≤ fuel
    → Deleted s c l x r (bt_del fuel s x)
bt_del_lem s c (branch l b r1) x r fuel h lt =
    let shape = (Shape-unplug s.node s.tree c (branch (branch l b r1) x r) h.shape).2 in
    let m = max_node b r1 in
    (
      replace_from_left s x m,
      plug c (branch (cut_max l b r1) m r),
      del_left s x fuel (root-ne-zero s c (branch l b r1) x r h) l b r1 shape.3 (omega arith),
      from_left s c l b r1 x r h,
      inorder_at c (branch l b r1) x r,
      inorder_at c (cut_max l b r1) m r
          ∙ moved_left (before c) (inorder (cut_max l b r1)) m (inorder r ++ after c)
          ∙ ap (λ t. (before c ++ t) ++ (inorder r ++ after c)) (sym (inorder-cut_max l b r1)),
    )
bt_del_lem s c leaf x (branch l1 b r) fuel h lt =
    let shape = (Shape-unplug s.node s.tree c (branch leaf x (branch l1 b r)) h.shape).2 in
    let m = min_node l1 b in
    (
      replace_from_right s x m,
      plug c (branch leaf m (cut_min l1 b r)),
      del_right s x fuel (root-ne-zero s c leaf x (branch l1 b r) h) l1 b r shape.3 shape.4
          (omega arith),
      from_right s c leaf x l1 b r h,
      inorder_at c leaf x (branch l1 b r),
      inorder_at c leaf m (cut_min l1 b r)
          ∙ ap (λ t. (before c ++ []) ++ (t ++ after c)) (sym (inorder-cut_min l1 b r)),
    )
bt_del_lem s c leaf x leaf fuel h lt =
    let shape = (Shape-unplug s.node s.tree c (branch leaf x leaf) h.shape).2 in
    (
      relink s x 0,
      plug c leaf,
      del_leaf s x fuel (root-ne-zero s c leaf x leaf h) shape.3 shape.4,
      without_children s c x h,
      inorder_at c leaf x leaf,
      inorder-plug c leaf ∙ sym (append_assoc (before c) [] (after c)),
    )

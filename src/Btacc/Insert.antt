-- ===== src/Btacc/Insert.antt =====
-- One level of `bt_insert`, and the links that it writes.
use ulppk.Base.{ℕ, suc, ◌≡◌, ◌≢◌, refl, sym, ap, ◌∙◌, Option, some}
use ulppk.Base.{ne→==, eq→==}
use mathlib.Core.Path.{subst}
use ulppk.Btacc.{TreeNode, TreeStore, Code, below, same, above, bt_insert}
use ulppk.Btacc.{put_node, set_left, set_right, leaf_of, as_leaf, count_hit}
use ulppk.Btacc.Tree.{
  Tree, leaf, branch, AllIn, Absent, Apart-sym, IsDistinct, Shape, Shape-frame, AllIn-zip,
  put_node_self, put_node-ne, put_node-count,
}

-- The tree with `n` as a leaf where the criteria lead to.
unfoldable pub grown : (ℕ → Code) → ℕ → Tree → Tree
grown judge n leaf = branch leaf n leaf
grown judge n (branch l a r) = elim (judge a) [
  | below ↦ branch (grown judge n l) a r
  | same ↦ branch l a r
  | above ↦ branch l a (grown judge n r)
]

-- The code of the last comparison, or the given one if there is none.
unfoldable pub last_code : (ℕ → Code) → Code → Tree → Code
last_code judge c leaf = c
last_code judge c (branch l a r) = elim (judge a) [
  | below ↦ last_code judge below l
  | same ↦ same
  | above ↦ last_code judge above r
]

pub grown_leaf : (judge : ℕ → Code) (n : ℕ) → grown judge n leaf ≡ branch leaf n leaf
unfolding grown
grown_leaf judge n = refl

pub code_leaf : (judge : ℕ → Code) (c : Code) → last_code judge c leaf ≡ c
unfolding last_code
code_leaf judge c = refl

module _ (judge : ℕ → Code) (n : ℕ) (l : Tree) (a : ℕ) (r : Tree) where
  pub grown_below : judge a ≡ below → grown judge n (branch l a r) ≡ branch (grown judge n l) a r
  grown_below e = unfold grown in rw (e, grown) refl

  pub grown_same : judge a ≡ same → grown judge n (branch l a r) ≡ branch l a r
  grown_same e = unfold grown in rw (e, grown) refl

  pub code_same : (c : Code) → judge a ≡ same → last_code judge c (branch l a r) ≡ same
  code_same c e = unfold last_code in rw (e, last_code) refl

  pub grown_above : judge a ≡ above → grown judge n (branch l a r) ≡ branch l a (grown judge n r)
  grown_above e = unfold grown in rw (e, grown) refl

  pub code_below :
      (c : Code) → judge a ≡ below → last_code judge c (branch l a r) ≡ last_code judge below l
  code_below c e = unfold last_code in rw (e, last_code) refl

  pub code_above :
      (c : Code) → judge a ≡ above → last_code judge c (branch l a r) ≡ last_code judge above r
  code_above c e = unfold last_code in rw (e, last_code) refl

-- A node that is not below `a` and not the new one stays, and so does the root pointer.
pub record Keeps (s s' : TreeStore) (n : ℕ) (t : Tree) : Type 0 where
  pub others : (x : ℕ) → x ≢ n → Absent x t → s'.node x ≡ s.node x
  pub root : s'.tree ≡ s.tree
  pub counts : (x : ℕ) → (s'.node x).tr_count ≡ (s.node x).tr_count

-- The result of an insertion below `p`.
abbrev pub Grows :
    (ℕ → Code) → Code → ℕ → TreeStore → ℕ → ℕ → Tree → Option (Code × TreeStore) → Type 0
Grows judge c n s p parent t result =
    (s' : TreeStore) × (result ≡ some (last_code judge c t, s'))
    × Shape s'.node p parent (grown judge n t)
    × Keeps s s' n t

module _ (compare_function : ℕ → ℕ → Code) (n : ℕ) (s : TreeStore) (fuel a : ℕ) where
  pub insert_left_end :
      compare_function a n ≡ below
      → (s.node a).tr_left ≡ 0
      → bt_insert (suc fuel) s a n compare_function ≡ some (below, set_left (as_leaf s n a) a n)
  insert_left_end e z = unfold bt_insert in rw (e, bt_insert) (rw (eq→== _ _ z) refl)

  pub insert_left_on :
      compare_function a n ≡ below
      → (s.node a).tr_left ≢ 0
      → bt_insert (suc fuel) s a n compare_function
        ≡ bt_insert fuel s (s.node a).tr_left n compare_function
  insert_left_on e z = unfold bt_insert in rw (e, bt_insert) (rw (ne→== _ _ z) refl)

  pub insert_right_end :
      compare_function a n ≡ above
      → (s.node a).tr_right ≡ 0
      → bt_insert (suc fuel) s a n compare_function ≡ some (above, set_right (as_leaf s n a) a n)
  insert_right_end e z = unfold bt_insert in rw (e, bt_insert) (rw (eq→== _ _ z) refl)

  pub insert_right_on :
      compare_function a n ≡ above
      → (s.node a).tr_right ≢ 0
      → bt_insert (suc fuel) s a n compare_function
        ≡ bt_insert fuel s (s.node a).tr_right n compare_function
  insert_right_on e z = unfold bt_insert in rw (e, bt_insert) (rw (ne→== _ _ z) refl)

  pub insert_same :
      compare_function a n ≡ same
      → bt_insert (suc fuel) s a n compare_function ≡ some (same, count_hit s a)
  insert_same e = unfold bt_insert in rw (e, bt_insert) refl

module _ (s : TreeStore) (n p parent : ℕ) (l : Tree) (a : ℕ) (r : Tree)
    (h : Shape s.node p parent (branch l a r)) (new : Absent n (branch l a r))
    (d : IsDistinct (branch l a r)) where
  -- The nodes of the other side stay.
  right_kept : (s' : TreeStore) → Keeps s s' n l → AllIn (λ x. s'.node x ≡ s.node x) r
  right_kept s' k =
      AllIn-zip (λ x. n ≢ x) (λ x. Absent x l) (λ x. s'.node x ≡ s.node x) r
        (λ x ne out. k.others x (λ e. ne (sym e)) out) new.2 (Apart-sym l r d.2)

  left_kept : (s' : TreeStore) → Keeps s s' n r → AllIn (λ x. s'.node x ≡ s.node x) l
  left_kept s' k =
      AllIn-zip (λ x. n ≢ x) (λ x. Absent x r) (λ x. s'.node x ≡ s.node x) l
        (λ x ne out. k.others x (λ e. ne (sym e)) out) new.1 d.2

  pub grow_left :
      (s' : TreeStore) (l' : Tree)
      → Keeps s s' n l
      → Shape s'.node (s.node a).tr_left a l'
      → Shape s'.node p parent (branch l' a r) × Keeps s s' n (branch l a r)
  grow_left s' l' k hl =
      let e = k.others a (λ q. new.0 (sym q)) d.0 in
      (
        (
          h.0,
          h.1,
          ap (λ (t : TreeNode). t.tr_parent) e ∙ h.2,
          subst (λ (t : TreeNode). Shape s'.node t.tr_left a l') (sym e) hl,
          subst (λ (t : TreeNode). Shape s'.node t.tr_right a r) (sym e)
              (Shape-frame s.node s'.node (s.node a).tr_right a r (right_kept s' k) h.4),
        ),
        record { others = λ x ne out. k.others x ne out.1; root = k.root; counts = k.counts },
      )

  pub grow_right :
      (s' : TreeStore) (r' : Tree)
      → Keeps s s' n r
      → Shape s'.node (s.node a).tr_right a r'
      → Shape s'.node p parent (branch l a r') × Keeps s s' n (branch l a r)
  grow_right s' r' k hr =
      let e = k.others a (λ q. new.0 (sym q)) d.1 in
      (
        (
          h.0,
          h.1,
          ap (λ (t : TreeNode). t.tr_parent) e ∙ h.2,
          subst (λ (t : TreeNode). Shape s'.node t.tr_left a l) (sym e)
              (Shape-frame s.node s'.node (s.node a).tr_left a l (left_kept s' k) h.3),
          subst (λ (t : TreeNode). Shape s'.node t.tr_right a r') (sym e) hr,
        ),
        record { others = λ x ne out. k.others x ne out.2; root = k.root; counts = k.counts },
      )

  leaf_node :
      (node : ℕ → TreeNode)
      → node n ≡ leaf_of (s.node n) a
      → n ≢ 0
      → Shape node n a (branch leaf n leaf)
  leaf_node node e ne = (
    refl,
    ne,
    ap (λ (t : TreeNode). t.tr_parent) e,
    ap (λ (t : TreeNode). t.tr_left) e,
    ap (λ (t : TreeNode). t.tr_right) e,
  )

  -- The store after the new node is a leaf below `a`, with `v` written to `a`.
  module _ (v : TreeNode) where
    node1 : ℕ → TreeNode
    node1 = put_node (as_leaf s n a).node a v

    node1-new : node1 n ≡ leaf_of (s.node n) a
    unfolding node1
    node1-new =
        put_node-ne (as_leaf s n a).node a v n new.0 ∙ put_node_self s.node n (leaf_of (s.node n) a)

    node1-other : (x : ℕ) → x ≢ n → x ≢ a → node1 x ≡ s.node x
    unfolding node1
    node1-other x ne na =
        put_node-ne (as_leaf s n a).node a v x na ∙ put_node-ne s.node n (leaf_of (s.node n) a) x ne

    node1-kept : (t : Tree) → Absent n t → Absent a t → AllIn (λ x. node1 x ≡ s.node x) t
    node1-kept t hn ha =
        AllIn-zip (λ x. n ≢ x) (λ x. a ≢ x) (λ x. node1 x ≡ s.node x) t
          (λ x p q. node1-other x (λ e. p (sym e)) (λ e. q (sym e))) hn ha

  old_node : (as_leaf s n a).node a ≡ s.node a
  old_node = put_node-ne s.node n (leaf_of (s.node n) a) a (λ e. new.0 (sym e))

  end_counts :
      (v : TreeNode)
      → v.tr_count ≡ ((as_leaf s n a).node a).tr_count
      → (x : ℕ) → (put_node (as_leaf s n a).node a v x).tr_count ≡ (s.node x).tr_count
  end_counts v e x =
      put_node-count (as_leaf s n a).node a v e x
      ∙ put_node-count s.node n (leaf_of (s.node n) a) refl x

  -- The new node as the left child, or the right one.
  pub end_left :
      n ≢ 0
      → let s' = set_left (as_leaf s n a) a n in
        Shape s'.node p parent (branch (branch leaf n leaf) a r) × Keeps s s' n (branch l a r)
  unfolding node1
  end_left ne =
      let t1 = (as_leaf s n a).node a in
      let v = record t1 { tr_left = n } in
      let s' = set_left (as_leaf s n a) a n in
      let e = put_node_self (as_leaf s n a).node a v in
      (
        (
          h.0,
          h.1,
          ap (λ (t : TreeNode). t.tr_parent) e ∙ ap (λ (t : TreeNode). t.tr_parent) old_node ∙ h.2,
          subst (λ (t : TreeNode). Shape s'.node t.tr_left a (branch leaf n leaf)) (sym e)
              (leaf_node s'.node (node1-new v) ne),
          subst (λ (t : TreeNode). Shape s'.node t.tr_right a r) (sym e)
              (subst (λ (t : TreeNode). Shape s'.node t.tr_right a r) (sym old_node)
                (Shape-frame s.node s'.node (s.node a).tr_right a r (node1-kept v r new.2 d.1)
                  h.4)),
        ),
        record {
          others = λ x ne out. node1-other v x ne out.0;
          root = refl;
          counts = end_counts v refl;
        },
      )

  pub end_right :
      n ≢ 0
      → let s' = set_right (as_leaf s n a) a n in
        Shape s'.node p parent (branch l a (branch leaf n leaf)) × Keeps s s' n (branch l a r)
  unfolding node1
  end_right ne =
      let t1 = (as_leaf s n a).node a in
      let v = record t1 { tr_right = n } in
      let s' = set_right (as_leaf s n a) a n in
      let e = put_node_self (as_leaf s n a).node a v in
      (
        (
          h.0,
          h.1,
          ap (λ (t : TreeNode). t.tr_parent) e ∙ ap (λ (t : TreeNode). t.tr_parent) old_node ∙ h.2,
          subst (λ (t : TreeNode). Shape s'.node t.tr_left a l) (sym e)
              (subst (λ (t : TreeNode). Shape s'.node t.tr_left a l) (sym old_node)
                (Shape-frame s.node s'.node (s.node a).tr_left a l (node1-kept v l new.1 d.0) h.3)),
          subst (λ (t : TreeNode). Shape s'.node t.tr_right a (branch leaf n leaf)) (sym e)
              (leaf_node s'.node (node1-new v) ne),
        ),
        record {
          others = λ x ne out. node1-other v x ne out.0;
          root = refl;
          counts = end_counts v refl;
        },
      )

-- ===== src/Btacc/Unhook.antt =====
-- Taking the rightmost or the leftmost node out of a tree.
use ulppk.Base.{ℕ, zero, suc, ◌≡◌, ◌≢◌, ◌≤◌, refl, sym, ap, ◌∙◌, arith, some, ne→==, eq→==}
use ulppk.Base.{if-true, if-false, [], ◌∷◌, ◌++◌, append_assoc}
use mathlib.Core.Path.{subst}
use ulppk.Btacc.{TreeNode, TreeStore, set_left, set_right, adopt, or_child}
use ulppk.Btacc.{unhook_right, unhook_left, bt_rightmost, bt_leftmost}
use ulppk.Btacc.Tree.{
  Tree, leaf, branch, depth, inorder, AllIn-map, Absent, IsDistinct, Shape, Shape-frame,
  put_node-ne,
}
use ulppk.Btacc.Context.{
  Context, on_left, on_right, plug, AllAround-map, Outside, Clear, Clear-sym, IsDistinctAround,
  Framed, Framed-frame, Shape-plug, Shape-unplug, IsDistinct-plug, IsDistinct-unplug, AllIn-plug,
}
use ulppk.Btacc.Relink.{Framed-set_left, Framed-set_right, put_node-in}
use ulppk.Btacc.Inherit.{adopt_lem}
use ulppk.Btacc.Add.{IsTree}

-- The rightmost node of a tree with root `a`, and the tree without it.
abbrev pub max_node : ℕ → Tree → ℕ
max_node a leaf = a
max_node a (branch l b r) = max_node b r

abbrev pub cut_max : Tree → ℕ → Tree → Tree
cut_max l a leaf = l
cut_max l a (branch l2 b r2) = branch l a (cut_max l2 b r2)

abbrev pub min_node : Tree → ℕ → ℕ
min_node leaf a = a
min_node (branch l b r) a = min_node l b

abbrev pub cut_min : Tree → ℕ → Tree → Tree
cut_min leaf a r = r
cut_min (branch l2 b r2) a r = branch (cut_min l2 b r2) a r

pub inorder-cut_max :
    (l : Tree) (a : ℕ) (r : Tree)
    → inorder (branch l a r) ≡ inorder (cut_max l a r) ++ (max_node a r ∷ [])
inorder-cut_max l a leaf = refl
inorder-cut_max l a (branch l2 b r2) =
    ap (λ t. inorder l ++ (a ∷ t)) (inorder-cut_max l2 b r2)
    ∙ sym (append_assoc (inorder l) (a ∷ inorder (cut_max l2 b r2)) (max_node b r2 ∷ []))

pub inorder-cut_min :
    (l : Tree) (a : ℕ) (r : Tree) → inorder (branch l a r) ≡ min_node l a ∷ inorder (cut_min l a r)
inorder-cut_min leaf a r = refl
inorder-cut_min (branch l2 b r2) a r = ap (λ t. t ++ (a ∷ inorder r)) (inorder-cut_min l2 b r2)

-- The place of that node, whose only child is `t`, if it is below another node.
pub record Hook : Type 0 where
  pub context : Context
  pub above : ℕ
  pub beside : Tree
  pub child : Tree

abbrev pub max_hook : Context → Tree → ℕ → Tree → ℕ → Tree → Hook
max_hook c l a l2 b leaf = record { context = c; above = a; beside = l; child = l2 }
max_hook c l a l2 b (branch l3 d r3) = max_hook (on_right c a l) l2 b l3 d r3

abbrev pub min_hook : Context → Tree → ℕ → Tree → ℕ → Tree → Hook
min_hook c r a leaf b r2 = record { context = c; above = a; beside = r; child = r2 }
min_hook c r a (branch l3 d r3) b r2 = min_hook (on_left c a r) r2 b l3 d r3

pub plug-max_hook :
    (c : Context) (l : Tree) (a : ℕ) (l2 : Tree) (b : ℕ) (r2 : Tree)
    → let h = max_hook c l a l2 b r2 in
      (plug (on_right h.context h.above h.beside) (branch h.child (max_node b r2) leaf)
        ≡ plug c (branch l a (branch l2 b r2)))
      × (plug (on_right h.context h.above h.beside) h.child ≡ plug c (branch l a (cut_max l2 b r2)))
plug-max_hook c l a l2 b leaf = (refl, refl)
plug-max_hook c l a l2 b (branch l3 d r3) = plug-max_hook (on_right c a l) l2 b l3 d r3

pub plug-min_hook :
    (c : Context) (r : Tree) (a : ℕ) (l2 : Tree) (b : ℕ) (r2 : Tree)
    → let h = min_hook c r a l2 b r2 in
      (plug (on_left h.context h.above h.beside) (branch leaf (min_node l2 b) h.child)
        ≡ plug c (branch (branch l2 b r2) a r))
      × (plug (on_left h.context h.above h.beside) h.child ≡ plug c (branch (cut_min l2 b r2) a r))
plug-min_hook c r a leaf b r2 = (refl, refl)
plug-min_hook c r a (branch l3 d r3) b r2 = plug-min_hook (on_left c a r) r2 b l3 d r3

-- `m`, with a child on the left at most, is unhooked from its parent on the right of which it is.
abbrev pub Unhooked : TreeStore → TreeStore → ℕ → Context → Tree → Type 0
Unhooked s s' m c t = IsTree s' (plug c t) × (s'.node m ≡ s.node m) × Absent m (plug c t)

hook_lem :
    (s : TreeStore) (q a parent old : ℕ) (c : Context) (t : Tree)
    → Framed s.node s.tree q parent c
    → parent ≡ a
    → Shape s.node q old t
    → IsDistinct t
    → IsDistinctAround c
    → Clear t c
    → IsTree (adopt s q a) (plug c t) × ((y : ℕ) → Absent y t → (adopt s q a).node y ≡ s.node y)
hook_lem s q a parent old c t f e h d k o =
    let s' = adopt s q a in
    let (h', same', root) = adopt_lem s q a old t h d in
    let f' =
      Framed-frame s.node s'.node s.tree q parent c
        (AllAround-map (λ y. Absent y t) (λ y. s'.node y ≡ s.node y) c same' (Clear-sym c t o)) f in
    (
      record {
        shape =
            subst (λ r. Shape s'.node r 0 (plug c t)) (sym root)
              (Shape-plug s'.node s.tree q parent c t f'
                (subst (λ k1. Shape s'.node q k1 t) (sym e) h'));
        distinct = IsDistinct-plug c t d k o;
      },
      same',
    )

module _ (s : TreeStore) (c : Context) (a : ℕ) (u t : Tree) (m : ℕ) where
  pub unhook_right_lem :
      IsTree s (plug (on_right c a u) (branch t m leaf))
      → ((s.node m).tr_parent ≡ a) × (m ≢ 0) × Unhooked s (unhook_right s a m) m (on_right c a u) t
  unhook_right_lem h =
      let cc = on_right c a u in
      let (p, parent, shape, f) = Shape-unplug s.node s.tree cc (branch t m leaf) h.shape in
      let (d, k, o) = IsDistinct-unplug cc (branch t m leaf) h.distinct in
      let q = (s.node m).tr_left in
      let v = (let n = s.node a in record n { tr_right = q }) in
      let t1 = set_right s a q in
      let f1 = Framed-set_right s p q parent c a u f k in
      let clear = o.1 in
      let away = AllIn-map (λ x. Outside x cc) (λ x. a ≢ x) t (λ x b e. b.0 (sym e)) clear in
      let child = Shape-frame s.node t1.node q m t (put_node-in s.node a v t away) shape.3 in
      let (tree, same) = hook_lem t1 q a parent m cc t f1 f.0 child d.3 k clear in
      (
        shape.2 ∙ f.0,
        shape.1,
        subst (λ r. Unhooked s (adopt t1 r a) m cc t) (sym f1.2)
            (
              tree,
              same m d.0 ∙ put_node-ne s.node a v m o.0.0,
              AllIn-plug (λ x. m ≢ x) cc t d.0 o.0,
            ),
      )

  pub unhook_left_lem :
      IsTree s (plug (on_left c a u) (branch leaf m t))
      → ((s.node m).tr_parent ≡ a) × (m ≢ 0) × Unhooked s (unhook_left s a m) m (on_left c a u) t
  unhook_left_lem h =
      let cc = on_left c a u in
      let (p, parent, shape, f) = Shape-unplug s.node s.tree cc (branch leaf m t) h.shape in
      let (d, k, o) = IsDistinct-unplug cc (branch leaf m t) h.distinct in
      let q = (s.node m).tr_right in
      let v = (let n = s.node a in record n { tr_left = q }) in
      let t1 = set_left s a q in
      let f1 = Framed-set_left s p q parent c a u f k in
      let clear = o.2 in
      let away = AllIn-map (λ x. Outside x cc) (λ x. a ≢ x) t (λ x b e. b.0 (sym e)) clear in
      let child = Shape-frame s.node t1.node q m t (put_node-in s.node a v t away) shape.4 in
      let (tree, same) = hook_lem t1 q a parent m cc t f1 f.0 child d.4 k clear in
      (
        shape.2 ∙ f.0,
        shape.1,
        subst (λ r. Unhooked s (adopt t1 r a) m cc t) (sym f1.2)
            (
              tree,
              same m d.1 ∙ put_node-ne s.node a v m o.0.0,
              AllIn-plug (λ x. m ≢ x) cc t d.1 o.0,
            ),
      )

-- The searches for the node.
max_node-ne-zero :
    (node : ℕ → TreeNode) (p parent : ℕ) (l : Tree) (a : ℕ) (r : Tree)
    → Shape node p parent (branch l a r)
    → max_node a r ≢ 0
max_node-ne-zero node p parent l a leaf h = h.1
max_node-ne-zero node p parent l a (branch l2 b r2) h =
    max_node-ne-zero node (node a).tr_right a l2 b r2 h.4

min_node-ne-zero :
    (node : ℕ → TreeNode) (p parent : ℕ) (l : Tree) (a : ℕ) (r : Tree)
    → Shape node p parent (branch l a r)
    → min_node l a ≢ 0
min_node-ne-zero node p parent leaf a r h = h.1
min_node-ne-zero node p parent (branch l2 b r2) a r h =
    min_node-ne-zero node (node a).tr_left a l2 b r2 h.3

module _ (s : TreeStore) (fuel a : ℕ) (nz : a ≢ 0) where
  rightmost_end : (s.node a).tr_right ≡ 0 → bt_rightmost (suc fuel) s a ≡ some 0
  unfolding bt_rightmost
  rightmost_end e = if-false _ _ (ne→== a 0 nz) ∙ if-true _ _ (eq→== (s.node a).tr_right 0 e)

  rightmost_on :
      (s.node a).tr_right ≢ 0
      → bt_rightmost (suc fuel) s a
        ≡ or_child (s.node a).tr_right (bt_rightmost fuel s (s.node a).tr_right)
  unfolding bt_rightmost
  rightmost_on e = if-false _ _ (ne→== a 0 nz) ∙ if-false _ _ (ne→== (s.node a).tr_right 0 e)

  leftmost_end : (s.node a).tr_left ≡ 0 → bt_leftmost (suc fuel) s a ≡ some 0
  unfolding bt_leftmost
  leftmost_end e = if-false _ _ (ne→== a 0 nz) ∙ if-true _ _ (eq→== (s.node a).tr_left 0 e)

  leftmost_on :
      (s.node a).tr_left ≢ 0
      → bt_leftmost (suc fuel) s a
        ≡ or_child (s.node a).tr_left (bt_leftmost fuel s (s.node a).tr_left)
  unfolding bt_leftmost
  leftmost_on e = if-false _ _ (ne→== a 0 nz) ∙ if-false _ _ (ne→== (s.node a).tr_left 0 e)

or_child-some : (p m : ℕ) → m ≢ 0 → or_child p (some m) ≡ some m
or_child-some p m ne = ap some (if-false _ _ (ne→== m 0 ne))

pub bt_rightmost_lem :
    (s : TreeStore) (p parent : ℕ) (l : Tree) (a : ℕ) (r : Tree) (fuel : ℕ)
    → Shape s.node p parent (branch l a r)
    → depth (branch l a r) ≤ fuel
    → or_child p (bt_rightmost fuel s p) ≡ some (max_node a r)
bt_rightmost_lem s p parent l a r zero h lt = absurd (omega arith)
bt_rightmost_lem s p parent l a leaf (suc fuel) h lt =
    ap (λ q. or_child q (bt_rightmost (suc fuel) s q)) h.0
    ∙ ap (or_child a) (rightmost_end s fuel a h.1 h.4)
bt_rightmost_lem s p parent l a (branch l2 b r2) (suc fuel) h lt =
    let q = (s.node a).tr_right in
    ap (λ k. or_child k (bt_rightmost (suc fuel) s k)) h.0
    ∙ ap (or_child a) (
        rightmost_on s fuel a h.1 (λ z. h.4.1 (sym h.4.0 ∙ z))
        ∙ bt_rightmost_lem s q a l2 b r2 fuel h.4 (omega arith))
    ∙ or_child-some a (max_node b r2) (max_node-ne-zero s.node q a l2 b r2 h.4)

pub bt_leftmost_lem :
    (s : TreeStore) (p parent : ℕ) (l : Tree) (a : ℕ) (r : Tree) (fuel : ℕ)
    → Shape s.node p parent (branch l a r)
    → depth (branch l a r) ≤ fuel
    → or_child p (bt_leftmost fuel s p) ≡ some (min_node l a)
bt_leftmost_lem s p parent l a r zero h lt = absurd (omega arith)
bt_leftmost_lem s p parent leaf a r (suc fuel) h lt =
    ap (λ q. or_child q (bt_leftmost (suc fuel) s q)) h.0
    ∙ ap (or_child a) (leftmost_end s fuel a h.1 h.3)
bt_leftmost_lem s p parent (branch l2 b r2) a r (suc fuel) h lt =
    let q = (s.node a).tr_left in
    ap (λ k. or_child k (bt_leftmost (suc fuel) s k)) h.0
    ∙ ap (or_child a) (
        leftmost_on s fuel a h.1 (λ z. h.3.1 (sym h.3.0 ∙ z))
        ∙ bt_leftmost_lem s q a l2 b r2 fuel h.3 (omega arith))
    ∙ or_child-some a (min_node l2 b) (min_node-ne-zero s.node q a l2 b r2 h.3)

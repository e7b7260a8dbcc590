-- ===== src/Btacc/Inherit.antt =====
-- A node takes another one's place in the tree.
use ulppk.Base.{ℕ, ◌≡◌, ◌≢◌, refl, sym, ap, ap₂, ◌∙◌, arith, ne→==, eq→==, ==-refl}
use ulppk.Base.{◌==◌, if◌then◌else◌, if-true, if-false}
use mathlib.Core.Path.{subst}
use ulppk.Btacc.{TreeNode, TreeStore, put_node, set_parent, relink, adopt}
use ulppk.Btacc.{adopt_children, inherit_left, inherit_right}
use ulppk.Btacc.Tree.{
  Tree, leaf, branch, AllIn, AllIn-map, AllIn-zip, Absent, Apart-sym, IsDistinct, Shape,
  Shape-frame, put_node_self, put_node-ne,
}
use ulppk.Btacc.Context.{
  Context, AllAround-map, Outside, Clear, IsDistinctAround, Framed, Framed-frame, Clear-sym,
}
use ulppk.Btacc.Relink.{Relinked, relink_lem, put_node-in}

-- The links of `m` after it has taken over those of `x`.
module _ (s : TreeStore) (x m : ℕ) (ne : x ≢ m) where
  inherit_left_parent : ((inherit_left s x m).node m).tr_parent ≡ (s.node x).tr_parent
  inherit_left_parent = ground (arith, ==-refl m, ne→== x m ne)

  inherit_left_left :
      ((inherit_left s x m).node m).tr_left
      ≡ (if (s.node x).tr_left == m then (s.node m).tr_left else (s.node x).tr_left)
  inherit_left_left = ground (arith, ==-refl m, ne→== x m ne)

  inherit_left_right : ((inherit_left s x m).node m).tr_right ≡ (s.node x).tr_right
  inherit_left_right = ground (arith, ==-refl m, ne→== x m ne)

  inherit_left_other : (y : ℕ) → y ≢ m → (inherit_left s x m).node y ≡ s.node y
  inherit_left_other y h = ground (arith, ne→== y m h)

  inherit_left_tree : (inherit_left s x m).tree ≡ s.tree
  inherit_left_tree = ground arith

  inherit_right_parent : ((inherit_right s x m).node m).tr_parent ≡ (s.node x).tr_parent
  inherit_right_parent = ground (arith, ==-refl m, ne→== x m ne)

  inherit_right_right :
      ((inherit_right s x m).node m).tr_right
      ≡ (if (s.node x).tr_right == m then (s.node m).tr_right else (s.node x).tr_right)
  inherit_right_right = ground (arith, ==-refl m, ne→== x m ne)

  inherit_right_left : ((inherit_right s x m).node m).tr_left ≡ (s.node x).tr_left
  inherit_right_left = ground (arith, ==-refl m, ne→== x m ne)

  inherit_right_other : (y : ℕ) → y ≢ m → (inherit_right s x m).node y ≡ s.node y
  inherit_right_other y h = ground (arith, ne→== y m h)

  inherit_right_tree : (inherit_right s x m).tree ≡ s.tree
  inherit_right_tree = ground arith

-- The root of a subtree gets a new parent, if there is one.
pub adopt_lem :
    (s : TreeStore) (q m old : ℕ) (t : Tree)
    → Shape s.node q old t
    → IsDistinct t
    → Shape (adopt s q m).node q m t
      × ((y : ℕ) → Absent y t → (adopt s q m).node y ≡ s.node y)
      × ((adopt s q m).tree ≡ s.tree)
adopt_lem s q m old leaf h d =
    subst (λ s'. (q ≡ 0) × ((y : ℕ) → Absent y leaf → s'.node y ≡ s.node y) × (s'.tree ≡ s.tree))
      (sym (if-true s (set_parent s q m) (eq→== q 0 h))) (h, (λ y out. refl), refl)
adopt_lem s q m old (branch l a r) h d =
    let v = (let n = s.node a in record n { tr_parent = m }) in
    let e = put_node_self s.node a v in
    let node' = put_node s.node a v in
    subst
      (λ s'.
        Shape s'.node q m (branch l a r)
        × ((y : ℕ) → Absent y (branch l a r) → s'.node y ≡ s.node y)
        × (s'.tree ≡ s.tree))
      (sym (
        if-false s (set_parent s q m) (ne→== q 0 (λ z. h.1 (sym h.0 ∙ z)))
        ∙ ap (λ k. set_parent s k m) h.0))
      (
        (
          h.0,
          h.1,
          ap (λ (t : TreeNode). t.tr_parent) e,
          subst (λ (t : TreeNode). Shape node' t.tr_left a l) (sym e)
              (Shape-frame s.node node' (s.node a).tr_left a l (put_node-in s.node a v l d.0) h.3),
          subst (λ (t : TreeNode). Shape node' t.tr_right a r) (sym e)
              (Shape-frame s.node node' (s.node a).tr_right a r (put_node-in s.node a v r d.1) h.4),
        ),
        (λ y out. put_node-ne s.node a v y out.0),
        refl,
      )

-- The children of a node that came to a place become its own.
pub adopt_children_lem :
    (s : TreeStore) (m parent oldl oldr : ℕ) (c : Context) (l r : Tree)
    → m ≢ 0
    → (s.node m).tr_parent ≡ parent
    → Shape s.node (s.node m).tr_left oldl l
    → Shape s.node (s.node m).tr_right oldr r
    → Framed s.node s.tree m parent c
    → IsDistinct (branch l m r)
    → Clear l c
    → Clear r c
    → let s' = adopt_children s m in
      Shape s'.node m parent (branch l m r) × Framed s'.node s'.tree m parent c
adopt_children_lem s m parent oldl oldr c l r nz ep hl hr f d cl cr =
    let s1 = adopt s (s.node m).tr_right m in
    let (hr1, same1, tree1) = adopt_lem s (s.node m).tr_right m oldr r hr d.4 in
    let m1 = same1 m d.1 in
    let hl1 =
      Shape-frame s.node s1.node (s1.node m).tr_left oldl l
        (AllIn-map (λ x. Absent x r) (λ x. s1.node x ≡ s.node x) l same1 d.2)
        (subst (λ (t : TreeNode). Shape s.node t.tr_left oldl l) (sym m1) hl) in
    let s2 = adopt s1 (s1.node m).tr_left m in
    let (hl2, same2, tree2) = adopt_lem s1 (s1.node m).tr_left m oldl l hl1 d.3 in
    let m2 = same2 m d.0 in
    let hr2 =
      Shape-frame s1.node s2.node (s.node m).tr_right m r
        (AllIn-map (λ x. Absent x l) (λ x. s2.node x ≡ s1.node x) r same2 (Apart-sym l r d.2))
        hr1 in
    let f1 =
      Framed-frame s.node s1.node s.tree m parent c
        (AllAround-map (λ y. Absent y r) (λ y. s1.node y ≡ s.node y) c same1 (Clear-sym c r cr))
        f in
    let f2 =
      Framed-frame s1.node s2.node s.tree m parent c
        (AllAround-map (λ y. Absent y l) (λ y. s2.node y ≡ s1.node y) c same2 (Clear-sym c l cl))
        f1 in
    (
      (
        refl,
        nz,
        ap (λ (t : TreeNode). t.tr_parent) (m2 ∙ m1) ∙ ep,
        subst (λ (t : TreeNode). Shape s2.node t.tr_left m l) (sym m2) hl2,
        subst (λ (t : TreeNode). Shape s2.node t.tr_right m r) (sym (m2 ∙ m1)) hr2,
      ),
      subst (λ root. Framed s2.node root m parent c) (sym (tree2 ∙ tree1)) f2,
    )

-- Phase two of a deletion: `m`, which is not in the tree or is a child of `x`, takes the place of `x`.
-- `l` and `r` are what will be below it.
module _ (s : TreeStore) (x m parent oldl oldr : ℕ) (c : Context) (l r : Tree) (nzx : x ≢ 0)
    (nzm : m ≢ 0) (ne : x ≢ m) (ep : (s.node x).tr_parent ≡ parent)
    (f : Framed s.node s.tree x parent c) (k : IsDistinctAround c) (ox : Outside x c)
    (om : Outside m c) (d : IsDistinct (branch l m r)) (cl : Clear l c) (cr : Clear r c) where
  abbrev pub relinked : TreeStore
  relinked = relink s x m

  relinked_lem : Relinked s relinked m parent c
  relinked_lem = relink_lem s x m parent c nzx ep f k ox

  -- A store that differs from the relinked one in `m` alone.
  module _ (s5 : TreeStore) (only : (y : ℕ) → y ≢ m → s5.node y ≡ relinked.node y)
      (root : s5.tree ≡ relinked.tree) where
    kept : (t : Tree) → Absent m t → Clear t c → AllIn (λ y. s5.node y ≡ s.node y) t
    kept t out clear =
        AllIn-zip (λ y. m ≢ y) (λ y. Outside y c) (λ y. s5.node y ≡ s.node y) t
          (λ y q o. only y (λ e. q (sym e)) ∙ relinked_lem.1 y o) out clear

    framed : Framed s5.node s5.tree m parent c
    framed =
        subst (λ t. Framed s5.node t m parent c) (sym root)
          (Framed-frame relinked.node s5.node relinked.tree m parent c
            (AllAround-map (λ y. m ≢ y) (λ y. s5.node y ≡ relinked.node y) c
              (λ y q. only y (λ e. q (sym e))) om)
            relinked_lem.0)

    pub taken_place :
        (s5.node m).tr_parent ≡ parent
        → Shape s.node (s5.node m).tr_left oldl l
        → Shape s.node (s5.node m).tr_right oldr r
        → let s' = adopt_children s5 m in
          Shape s'.node m parent (branch l m r) × Framed s'.node s'.tree m parent c
    taken_place e hl hr =
        adopt_children_lem s5 m parent oldl oldr c l r nzm e
          (Shape-frame s.node s5.node (s5.node m).tr_left oldl l (kept l d.0 cl) hl)
          (Shape-frame s.node s5.node (s5.node m).tr_right oldr r (kept r d.1 cr) hr) framed d cl cr

  pub place_from_left :
      Shape s.node
        (if (s.node x).tr_left == m then (s.node m).tr_left else (s.node x).tr_left)
        oldl
        l
      → Shape s.node (s.node x).tr_right oldr r
      → let s' = adopt_children (inherit_left relinked x m) m in
        Shape s'.node m parent (branch l m r) × Framed s'.node s'.tree m parent c
  place_from_left hl hr =
      let ex = relinked_lem.1 x ox in
      let em = relinked_lem.1 m om in
      taken_place (inherit_left relinked x m) (inherit_left_other relinked x m ne)
        (inherit_left_tree relinked x m ne)
        (inherit_left_parent relinked x m ne ∙ ap (λ (t : TreeNode). t.tr_parent) ex ∙ ep)
        (subst (λ q. Shape s.node q oldl l)
          (sym (
            inherit_left_left relinked x m ne
            ∙ ap₂ (λ (t u : TreeNode). if t.tr_left == m then u.tr_left else t.tr_left) ex em))
          hl)
        (subst (λ q. Shape s.node q oldr r)
          (sym (inherit_left_right relinked x m ne ∙ ap (λ (t : TreeNode). t.tr_right) ex)) hr)

  pub place_from_right :
      Shape s.node (s.node x).tr_left oldl l
      → Shape s.node
          (if (s.node x).tr_right == m then (s.node m).tr_right else (s.node x).tr_right)
          oldr
          r
      → let s' = adopt_children (inherit_right relinked x m) m in
        Shape s'.node m parent (branch l m r) × Framed s'.node s'.tree m parent c
  place_from_right hl hr =
      let ex = relinked_lem.1 x ox in
      let em = relinked_lem.1 m om in
      taken_place (inherit_right relinked x m) (inherit_right_other relinked x m ne)
        (inherit_right_tree relinked x m ne)
        (inherit_right_parent relinked x m ne ∙ ap (λ (t : TreeNode). t.tr_parent) ex ∙ ep)
        (subst (λ q. Shape s.node q oldl l)
          (sym (inherit_right_left relinked x m ne ∙ ap (λ (t : TreeNode). t.tr_left) ex)) hl)
        (subst (λ q. Shape s.node q oldr r)
          (sym (
            inherit_right_right relinked x m ne
            ∙ ap₂ (λ (t u : TreeNode). if t.tr_right == m then u.tr_right else t.tr_right) ex em))
          hr)

-- ===== src/Btacc/Relink.antt =====
-- Writes to the links at a place of the tree.
use ulppk.Base.{ℕ, ◌≡◌, ◌≢◌, refl, sym, ap, ◌∙◌, ne→==, eq→==}
use ulppk.Base.{◌==◌, if◌then◌else◌, if-true, if-false}
use mathlib.Core.Path.{subst}
use ulppk.Btacc.{TreeNode, TreeStore, put_node, set_left, set_right, relink}
use ulppk.Btacc.Tree.{
  Tree, leaf, branch, AllIn, AllIn-map, Absent, Shape, Shape-frame, put_node_self, put_node-ne,
}
use ulppk.Btacc.Context.{
  Context, top, on_left, on_right, AllAround, AllAround-map, Outside, IsDistinctAround, Framed,
  Framed-frame,
}

module _ (node : ℕ → TreeNode) (a : ℕ) (v : TreeNode) where
  pub put_node-in : (t : Tree) → Absent a t → AllIn (λ x. put_node node a v x ≡ node x) t
  put_node-in t h =
      AllIn-map (λ x. a ≢ x) (λ x. put_node node a v x ≡ node x) t
        (λ x ne. put_node-ne node a v x (λ e. ne (sym e))) h

  pub put_node-around :
      (c : Context) → Outside a c → AllAround (λ x. put_node node a v x ≡ node x) c
  put_node-around c h =
      AllAround-map (λ x. a ≢ x) (λ x. put_node node a v x ≡ node x) c
        (λ x ne. put_node-ne node a v x (λ e. ne (sym e))) h

-- The parent's link is changed to another node.
pub Framed-set_left :
    (s : TreeStore) (x q parent : ℕ) (c : Context) (a : ℕ) (r : Tree)
    → Framed s.node s.tree x parent (on_left c a r)
    → IsDistinctAround (on_left c a r)
    → Framed (set_left s a q).node s.tree q parent (on_left c a r)
Framed-set_left s x q parent c a r f k =
    let v = (let n = s.node a in record n { tr_left = q }) in
    let e = put_node_self s.node a v in
    let node' = put_node s.node a v in
    (
      f.0,
      f.1,
      ap (λ (t : TreeNode). t.tr_left) e,
      subst (λ (t : TreeNode). Shape node' t.tr_right a r) (sym e)
          (Shape-frame s.node node' (s.node a).tr_right a r (put_node-in s.node a v r k.0) f.3),
      subst (λ (t : TreeNode). Framed node' s.tree a t.tr_parent c) (sym e)
          (Framed-frame s.node node' s.tree a (s.node a).tr_parent c
            (put_node-around s.node a v c k.1) f.4),
    )

pub Framed-set_right :
    (s : TreeStore) (x q parent : ℕ) (c : Context) (a : ℕ) (l : Tree)
    → Framed s.node s.tree x parent (on_right c a l)
    → IsDistinctAround (on_right c a l)
    → Framed (set_right s a q).node s.tree q parent (on_right c a l)
Framed-set_right s x q parent c a l f k =
    let v = (let n = s.node a in record n { tr_right = q }) in
    let e = put_node_self s.node a v in
    let node' = put_node s.node a v in
    (
      f.0,
      f.1,
      ap (λ (t : TreeNode). t.tr_right) e,
      subst (λ (t : TreeNode). Shape node' t.tr_left a l) (sym e)
          (Shape-frame s.node node' (s.node a).tr_left a l (put_node-in s.node a v l k.0) f.3),
      subst (λ (t : TreeNode). Framed node' s.tree a t.tr_parent c) (sym e)
          (Framed-frame s.node node' s.tree a (s.node a).tr_parent c
            (put_node-around s.node a v c k.1) f.4),
    )

-- The root of a tree is not a node outside it.
pub root-ne :
    (node : ℕ → TreeNode) (p parent x : ℕ) (t : Tree)
    → Shape node p parent t
    → x ≢ 0
    → Absent x t
    → p ≢ x
root-ne node p parent x leaf h nz out e = nz (sym e ∙ h)
root-ne node p parent x (branch l a r) h nz out e = out.0 (sym e ∙ h.0)

module _ (s : TreeStore) (x q : ℕ) where
  relink-top : (s.node x).tr_parent ≡ 0 → relink s x q ≡ record s { tree = q }
  relink-top e = if-true _ _ (eq→== (s.node x).tr_parent 0 e)

  relink-left :
      (a : ℕ)
      → (s.node x).tr_parent ≡ a
      → a ≢ 0
      → (s.node a).tr_left ≡ x
      → relink s x q ≡ set_left s a q
  relink-left a e nz l =
      if-false _ _ (ne→== (s.node x).tr_parent 0 (λ z. nz (sym e ∙ z)))
      ∙ ap (λ k. if (s.node k).tr_left == x then set_left s k q else set_right s k q) e
      ∙ if-true _ _ (eq→== (s.node a).tr_left x l)

  relink-right :
      (a : ℕ)
      → (s.node x).tr_parent ≡ a
      → a ≢ 0
      → (s.node a).tr_left ≢ x
      → relink s x q ≡ set_right s a q
  relink-right a e nz l =
      if-false _ _ (ne→== (s.node x).tr_parent 0 (λ z. nz (sym e ∙ z)))
      ∙ ap (λ k. if (s.node k).tr_left == x then set_left s k q else set_right s k q) e
      ∙ if-false _ _ (ne→== (s.node a).tr_left x l)

-- What `relink` does: the place then holds `q`, and nothing but what is around changes.
abbrev pub Relinked : TreeStore → TreeStore → ℕ → ℕ → Context → Type 0
Relinked s s' q parent c =
    Framed s'.node s'.tree q parent c × ((y : ℕ) → Outside y c → s'.node y ≡ s.node y)

pub relink_lem :
    (s : TreeStore) (x q parent : ℕ) (c : Context)
    → x ≢ 0
    → (s.node x).tr_parent ≡ parent
    → Framed s.node s.tree x parent c
    → IsDistinctAround c
    → Outside x c
    → Relinked s (relink s x q) q parent c
relink_lem s x q parent top nz e f k out =
    subst (λ s'. Relinked s s' q parent top) (sym (relink-top s x q (e ∙ f.1)))
      ((refl, f.1), λ y o. refl)
relink_lem s x q parent (on_left c a r) nz e f k out =
    let v = (let n = s.node a in record n { tr_left = q }) in
    subst (λ s'. Relinked s s' q parent (on_left c a r))
      (sym (relink-left s x q a (e ∙ f.0) f.1 f.2))
      (Framed-set_left s x q parent c a r f k, λ y o. put_node-ne s.node a v y o.0)
relink_lem s x q parent (on_right c a l) nz e f k out =
    let v = (let n = s.node a in record n { tr_right = q }) in
    subst (λ s'. Relinked s s' q parent (on_right c a l))
      (sym
        (relink-right s x q a (e ∙ f.0) f.1 (root-ne s.node (s.node a).tr_left a x l f.3 nz out.1)))
      (Framed-set_right s x q parent c a l f k, λ y o. put_node-ne s.node a v y o.0)

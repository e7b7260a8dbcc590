-- ===== src/Btacc/Replacement.antt =====
-- What `bt_del` does at the place of the node.
use ulppk.Base.{ℕ, ◌≢◌, refl, sym, ap, ◌∙◌, ne→==, eq→==}
use ulppk.Base.{if-true, if-false}
use mathlib.Core.Path.{subst}
use ulppk.Btacc.{TreeStore, relink, replace_from_left, replace_from_right}
use ulppk.Btacc.{unhook_right, unhook_left, inherit_left, inherit_right, adopt_children}
use ulppk.Btacc.Tree.{Tree, leaf, branch, AllIn, Absent, Apart-sym, IsDistinct, Shape}
use ulppk.Btacc.Context.{
  Context, on_left, on_right, plug, Clear, IsDistinctAround, Framed, Shape-plug, Shape-unplug,
  IsDistinct-plug, IsDistinct-unplug, AllIn-unplug,
}
use ulppk.Btacc.Relink.{root-ne, relink_lem}
use ulppk.Btacc.Inherit.{place_from_left, place_from_right}
use ulppk.Btacc.Unhook.{
  max_node, cut_max, min_node, cut_min, max_hook, min_hook, plug-max_hook, plug-min_hook,
  unhook_right_lem, unhook_left_lem,
}
use ulppk.Btacc.Add.{IsTree}

-- A tree with another node at the place.
rebuilt :
    (s : TreeStore) (c : Context) (l : Tree) (m parent : ℕ) (r : Tree)
    → (Shape s.node m parent (branch l m r) × Framed s.node s.tree m parent c)
    → IsDistinct (branch l m r)
    → IsDistinctAround c
    → Clear (branch l m r) c
    → IsTree s (plug c (branch l m r))
rebuilt s c l m parent r (h, f) d k o = record {
  shape = Shape-plug s.node s.tree m parent c (branch l m r) f h;
  distinct = IsDistinct-plug c (branch l m r) d k o;
}

-- `m` is not in the tree.
module _ (s : TreeStore) (c : Context) (l : Tree) (x : ℕ) (r : Tree) (m : ℕ)
    (h : IsTree s (plug c (branch l x r))) (out : Absent m (plug c (branch l x r)))
    (nz : m ≢ 0) where
  replaced_from_left :
      IsTree (adopt_children (inherit_left (relink s x m) x m) m) (plug c (branch l m r))
  replaced_from_left =
      let (p, parent, shape, f) = Shape-unplug s.node s.tree c (branch l x r) h.shape in
      let (d, k, o) = IsDistinct-unplug c (branch l x r) h.distinct in
      let (away, om) = AllIn-unplug (λ y. m ≢ y) c (branch l x r) out in
      let dm : IsDistinct (branch l m r) = (away.1, away.2, d.2, d.3, d.4) in
      let f' = subst (λ q. Framed s.node s.tree q parent c) shape.0 f in
      let s' = adopt_children (inherit_left (relink s x m) x m) m in
      let ne = root-ne s.node (s.node x).tr_left x m l shape.3 nz away.1 in
      let left =
        subst (λ q. Shape s.node q x l)
          (sym (if-false (s.node m).tr_left (s.node x).tr_left (ne→== (s.node x).tr_left m ne)))
          shape.3 in
      rebuilt s' c l m parent r
        (place_from_left s x m parent x x c l r shape.1 nz (λ e. away.0 (sym e)) shape.2 f' k o.0 om
          dm o.1 o.2 left shape.4)
        dm k (om, o.1, o.2)

  replaced_from_right :
      IsTree (adopt_children (inherit_right (relink s x m) x m) m) (plug c (branch l m r))
  replaced_from_right =
      let (p, parent, shape, f) = Shape-unplug s.node s.tree c (branch l x r) h.shape in
      let (d, k, o) = IsDistinct-unplug c (branch l x r) h.distinct in
      let (away, om) = AllIn-unplug (λ y. m ≢ y) c (branch l x r) out in
      let dm : IsDistinct (branch l m r) = (away.1, away.2, d.2, d.3, d.4) in
      let f' = subst (λ q. Framed s.node s.tree q parent c) shape.0 f in
      let s' = adopt_children (inherit_right (relink s x m) x m) m in
      let ne = root-ne s.node (s.node x).tr_right x m r shape.4 nz away.2 in
      let right =
        subst (λ q. Shape s.node q x r)
          (sym (if-false (s.node m).tr_right (s.node x).tr_right (ne→== (s.node x).tr_right m ne)))
          shape.4 in
      rebuilt s' c l m parent r
        (place_from_right s x m parent x x c l r shape.1 nz (λ e. away.0 (sym e)) shape.2 f' k o.0
          om dm o.1 o.2 shape.3 right)
        dm k (om, o.1, o.2)

-- The replacement is a child of the node.
child_from_left :
    (s : TreeStore) (c : Context) (l : Tree) (b x : ℕ) (r : Tree)
    → IsTree s (plug c (branch (branch l b leaf) x r))
    → IsTree (replace_from_left s x b) (plug c (branch l b r))
unfolding replace_from_left
child_from_left s c l b x r h =
    let t = branch (branch l b leaf) x r in
    let (p, parent, shape, f) = Shape-unplug s.node s.tree c t h.shape in
    let (d, k, o) = IsDistinct-unplug c t h.distinct in
    let child = shape.3 in
    let dm : IsDistinct (branch l b r) = (d.3.0, d.2.0, d.2.1, d.3.3, d.4) in
    let f' = subst (λ q. Framed s.node s.tree q parent c) shape.0 f in
    let s' = adopt_children (inherit_left (relink s x b) x b) b in
    let left =
      subst (λ q. Shape s.node q b l)
        (sym (if-true (s.node b).tr_left (s.node x).tr_left (eq→== (s.node x).tr_left b child.0)))
        child.3 in
    subst
      (λ s1. IsTree (adopt_children (inherit_left (relink s1 x b) x b) b) (plug c (branch l b r)))
      (sym
        (if-true s (unhook_right s (s.node b).tr_parent b) (eq→== (s.node b).tr_parent x child.2)))
      (rebuilt s' c l b parent r
        (place_from_left s x b parent b x c l r shape.1 child.1 d.0.0 shape.2 f' k o.0 o.1.0 dm
          o.1.1 o.2 left shape.4)
        dm k (o.1.0, o.1.1, o.2))

child_from_right :
    (s : TreeStore) (c : Context) (l : Tree) (x b : ℕ) (r : Tree)
    → IsTree s (plug c (branch l x (branch leaf b r)))
    → IsTree (replace_from_right s x b) (plug c (branch l b r))
unfolding replace_from_right
child_from_right s c l x b r h =
    let t = branch l x (branch leaf b r) in
    let (p, parent, shape, f) = Shape-unplug s.node s.tree c t h.shape in
    let (d, k, o) = IsDistinct-unplug c t h.distinct in
    let child = shape.4 in
    let apart = Apart-sym l (branch leaf b r) d.2 in
    let dm : IsDistinct (branch l b r) = (apart.0, d.4.1, Apart-sym r l apart.2, d.3, d.4.4) in
    let f' = subst (λ q. Framed s.node s.tree q parent c) shape.0 f in
    let s' = adopt_children (inherit_right (relink s x b) x b) b in
    let right =
      subst (λ q. Shape s.node q b r)
        (sym
          (if-true (s.node b).tr_right (s.node x).tr_right (eq→== (s.node x).tr_right b child.0)))
        child.4 in
    subst
      (λ s1. IsTree (adopt_children (inherit_right (relink s1 x b) x b) b) (plug c (branch l b r)))
      (sym
        (if-true s (unhook_left s (s.node b).tr_parent b) (eq→== (s.node b).tr_parent x child.2)))
      (rebuilt s' c l b parent r
        (place_from_right s x b parent x b c l r shape.1 child.1 d.1.0 shape.2 f' k o.0 o.2.0 dm o.1
          o.2.2 shape.3 right)
        dm k (o.2.0, o.1, o.2.2))

-- The replacement is further down.
max_above :
    (P : ℕ → Type 0) (c : Context) (l : Tree) (a : ℕ) (l2 : Tree) (b : ℕ) (r2 : Tree)
    → P a
    → AllIn P (branch l2 b r2)
    → P (max_hook c l a l2 b r2).above
max_above P c l a l2 b leaf h k = h
max_above P c l a l2 b (branch l3 d r3) h k = max_above P (on_right c a l) l2 b l3 d r3 k.0 k.2

min_above :
    (P : ℕ → Type 0) (c : Context) (r : Tree) (a : ℕ) (l2 : Tree) (b : ℕ) (r2 : Tree)
    → P a
    → AllIn P (branch l2 b r2)
    → P (min_hook c r a l2 b r2).above
min_above P c r a leaf b r2 h k = h
min_above P c r a (branch l3 d r3) b r2 h k = min_above P (on_left c a r) r2 b l3 d r3 k.0 k.1

further_from_left :
    (s : TreeStore) (c : Context) (l : Tree) (b : ℕ) (l2 : Tree) (b2 : ℕ) (r2 : Tree) (x : ℕ)
    (r : Tree)
    → IsTree s (plug c (branch (branch l b (branch l2 b2 r2)) x r))
    → IsTree
        (replace_from_left s x (max_node b2 r2))
        (plug c (branch (branch l b (cut_max l2 b2 r2)) (max_node b2 r2) r))
unfolding replace_from_left
further_from_left s c l b l2 b2 r2 x r h =
    let m = max_node b2 r2 in
    let cx = on_left c x r in
    let hook = max_hook cx l b l2 b2 r2 in
    let (e1, e2) = plug-max_hook cx l b l2 b2 r2 in
    let (ep, nz, un) =
      unhook_right_lem s hook.context hook.above hook.beside hook.child m
        (subst (IsTree s) (sym e1) h) in
    let (d, k, o) = IsDistinct-unplug c (branch (branch l b (branch l2 b2 r2)) x r) h.distinct in
    let ne = max_above (λ y. x ≢ y) cx l b l2 b2 r2 d.0.0 d.0.2 in
    let t' = plug c (branch (branch l b (cut_max l2 b2 r2)) x r) in
    subst
      (λ s1.
        IsTree (adopt_children (inherit_left (relink s1 x m) x m) m)
          (plug c (branch (branch l b (cut_max l2 b2 r2)) m r)))
      (sym (
        if-false s (unhook_right s (s.node m).tr_parent m)
          (ne→== (s.node m).tr_parent x (λ q. ne (sym q ∙ ep)))
        ∙ ap (λ q. unhook_right s q m) ep))
      (replaced_from_left (unhook_right s hook.above m) c (branch l b (cut_max l2 b2 r2)) x r m
        (subst (IsTree (unhook_right s hook.above m)) e2 un.0) (subst (Absent m) e2 un.2) nz)

further_from_right :
    (s : TreeStore) (c : Context) (l : Tree) (x : ℕ) (l2 : Tree) (b2 : ℕ) (r2 : Tree) (b : ℕ)
    (r : Tree)
    → IsTree s (plug c (branch l x (branch (branch l2 b2 r2) b r)))
    → IsTree
        (replace_from_right s x (min_node l2 b2))
        (plug c (branch l (min_node l2 b2) (branch (cut_min l2 b2 r2) b r)))
unfolding replace_from_right
further_from_right s c l x l2 b2 r2 b r h =
    let m = min_node l2 b2 in
    let cx = on_right c x l in
    let hook = min_hook cx r b l2 b2 r2 in
    let (e1, e2) = plug-min_hook cx r b l2 b2 r2 in
    let (ep, nz, un) =
      unhook_left_lem s hook.context hook.above hook.beside hook.child m
        (subst (IsTree s) (sym e1) h) in
    let (d, k, o) = IsDistinct-unplug c (branch l x (branch (branch l2 b2 r2) b r)) h.distinct in
    let ne = min_above (λ y. x ≢ y) cx r b l2 b2 r2 d.1.0 d.1.1 in
    subst
      (λ s1.
        IsTree (adopt_children (inherit_right (relink s1 x m) x m) m)
          (plug c (branch l m (branch (cut_min l2 b2 r2) b r))))
      (sym (
        if-false s (unhook_left s (s.node m).tr_parent m)
          (ne→== (s.node m).tr_parent x (λ q. ne (sym q ∙ ep)))
        ∙ ap (λ q. unhook_left s q m) ep))
      (replaced_from_right (unhook_left s hook.above m) c l x (branch (cut_min l2 b2 r2) b r) m
        (subst (IsTree (unhook_left s hook.above m)) e2 un.0) (subst (Absent m) e2 un.2) nz)

-- Both cases of a replacement, and the lack of one.
pub from_left :
    (s : TreeStore) (c : Context) (l : Tree) (b : ℕ) (r1 : Tree) (x : ℕ) (r : Tree)
    → IsTree s (plug c (branch (branch l b r1) x r))
    → IsTree
        (replace_from_left s x (max_node b r1))
        (plug c (branch (cut_max l b r1) (max_node b r1) r))
from_left s c l b leaf x r h = child_from_left s c l b x r h
from_left s c l b (branch l2 b2 r2) x r h = further_from_left s c l b l2 b2 r2 x r h

pub from_right :
    (s : TreeStore) (c : Context) (l : Tree) (x : ℕ) (l1 : Tree) (b : ℕ) (r : Tree)
    → IsTree s (plug c (branch l x (branch l1 b r)))
    → IsTree
        (replace_from_right s x (min_node l1 b))
        (plug c (branch l (min_node l1 b) (cut_min l1 b r)))
from_right s c l x leaf b r h = child_from_right s c l x b r h
from_right s c l x (branch l2 b2 r2) b r h = further_from_right s c l x l2 b2 r2 b r h

pub without_children :
    (s : TreeStore) (c : Context) (x : ℕ)
    → IsTree s (plug c (branch leaf x leaf))
    → IsTree (relink s x 0) (plug c leaf)
without_children s c x h =
    let (p, parent, shape, f) = Shape-unplug s.node s.tree c (branch leaf x leaf) h.shape in
    let (d, k, o) = IsDistinct-unplug c (branch leaf x leaf) h.distinct in
    let f' = subst (λ q. Framed s.node s.tree q parent c) shape.0 f in
    let s' = relink s x 0 in
    record {
      shape =
          Shape-plug s'.node s'.tree 0 parent c leaf
            (relink_lem s x 0 parent c shape.1 shape.2 f' k o.0).0 refl;
      distinct = IsDistinct-plug c leaf tt k tt;
    }

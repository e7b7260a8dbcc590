-- ===== src/Btacc/Tree.antt =====
-- The tree that a store holds.
use ulppk.Base.{ℕ, suc, ◌≡◌, ◌≢◌, refl, sym, ap, ◌∙◌, List, [], ◌∷◌, ◌++◌}
use Prim.Native.Nat.{max}
use mathlib.Core.Path.{subst}
use native.Mathlib.Decide.{ℕ_discrete}
use ulppk.Base.{==-refl, ne→==}
use ulppk.Btacc.{TreeNode, put_node}

pub data Tree : Type 0 where
  leaf : Tree
  branch : Tree → ℕ → Tree → Tree

-- The nodes in order.
abbrev pub inorder : Tree → List ℕ
inorder leaf = []
inorder (branch l a r) = inorder l ++ (a ∷ inorder r)

abbrev pub depth : Tree → ℕ
depth leaf = 0
depth (branch l a r) = suc (max (depth l) (depth r))

abbrev pub AllIn : (ℕ → Type 0) → Tree → Type 0
AllIn P leaf = Unit
AllIn P (branch l a r) = P a × AllIn P l × AllIn P r

-- `n` is not in the tree.
abbrev pub Absent : ℕ → Tree → Type 0
Absent n t = AllIn (λ x. n ≢ x) t

-- No node occurs twice.
abbrev pub IsDistinct : Tree → Type 0
IsDistinct leaf = Unit
IsDistinct (branch l a r) =
    Absent a l × Absent a r × AllIn (λ x. Absent x r) l × IsDistinct l × IsDistinct r

-- The nodes from `p` on, below `parent`, are linked as this tree.
abbrev pub Shape : (ℕ → TreeNode) → ℕ → ℕ → Tree → Type 0
Shape node p parent leaf = p ≡ 0
Shape node p parent (branch l a r) =
    (p ≡ a)
    × (a ≢ 0)
    × ((node a).tr_parent ≡ parent)
    × Shape node (node a).tr_left a l
    × Shape node (node a).tr_right a r

pub AllIn-all : (P : ℕ → Type 0) (t : Tree) → ((x : ℕ) → P x) → AllIn P t
AllIn-all P leaf f = tt
AllIn-all P (branch l a r) f = (f a, AllIn-all P l f, AllIn-all P r f)

pub AllIn-map : (P Q : ℕ → Type 0) (t : Tree) → ((x : ℕ) → P x → Q x) → AllIn P t → AllIn Q t
AllIn-map P Q leaf f h = tt
AllIn-map P Q (branch l a r) f h = (f a h.0, AllIn-map P Q l f h.1, AllIn-map P Q r f h.2)

pub AllIn-zip :
    (P Q R : ℕ → Type 0) (t : Tree)
    → ((x : ℕ) → P x → Q x → R x)
    → AllIn P t
    → AllIn Q t
    → AllIn R t
AllIn-zip P Q R leaf f h k = tt
AllIn-zip P Q R (branch l a r) f h k =
    (f a h.0 k.0, AllIn-zip P Q R l f h.1 k.1, AllIn-zip P Q R r f h.2 k.2)

-- A tree whose nodes stay is linked as before.
pub Shape-frame :
    (node node' : ℕ → TreeNode) (p parent : ℕ) (t : Tree)
    → AllIn (λ x. node' x ≡ node x) t
    → Shape node p parent t
    → Shape node' p parent t
Shape-frame node node' p parent leaf e h = h
Shape-frame node node' p parent (branch l a r) e h = (
  h.0,
  h.1,
  ap (λ (n : TreeNode). n.tr_parent) e.0 ∙ h.2,
  Shape-frame node node' (node' a).tr_left a l e.1
      (subst (λ (n : TreeNode). Shape node n.tr_left a l) (sym e.0) h.3),
  Shape-frame node node' (node' a).tr_right a r e.2
      (subst (λ (n : TreeNode). Shape node n.tr_right a r) (sym e.0) h.4),
)

-- Below NULL there is nothing.
pub Shape-zero : (node : ℕ → TreeNode) (parent : ℕ) (t : Tree) → Shape node 0 parent t → t ≡ leaf
Shape-zero node parent leaf h = refl
Shape-zero node parent (branch l a r) h = absurd (h.1 (sym h.0))

-- Two trees without a common node.
abbrev pub Apart : Tree → Tree → Type 0
Apart t u = AllIn (λ x. Absent x u) t

Apart-branch :
    (t l : Tree) (a : ℕ) (r : Tree) → Absent a t → Apart t l → Apart t r → Apart t (branch l a r)
Apart-branch leaf l a r h hl hr = tt
Apart-branch (branch t1 b t2) l a r h hl hr = (
  ((λ e. h.0 (sym e)), hl.0, hr.0),
  Apart-branch t1 l a r h.1 hl.1 hr.1,
  Apart-branch t2 l a r h.2 hl.2 hr.2,
)

Apart-leaf : (t : Tree) → Apart t leaf
Apart-leaf leaf = tt
Apart-leaf (branch l a r) = (tt, Apart-leaf l, Apart-leaf r)

Apart-parts :
    (t l : Tree) (a : ℕ) (r : Tree) → Apart t (branch l a r) → Absent a t × Apart t l × Apart t r
Apart-parts leaf l a r h = (tt, tt, tt)
Apart-parts (branch t1 b t2) l a r h =
    let (x1, y1, z1) = Apart-parts t1 l a r h.1 in
    let (x2, y2, z2) = Apart-parts t2 l a r h.2 in
    (((λ e. h.0.0 (sym e)), x1, x2), (h.0.1, y1, y2), (h.0.2, z1, z2))

pub Apart-sym : (t u : Tree) → Apart t u → Apart u t
Apart-sym t leaf h = tt
Apart-sym t (branch l a r) h =
    let (x, y, z) = Apart-parts t l a r h in (x, Apart-sym t l y, Apart-sym t r z)

-- Writes to nodes.
module _ (node : ℕ → TreeNode) (p : ℕ) (v : TreeNode) where
  pub put_node_self : put_node node p v p ≡ v
  put_node_self = rw (==-refl p) refl

  pub put_node-ne : (q : ℕ) → q ≢ p → put_node node p v q ≡ node q
  put_node-ne q h = rw (ne→== q p h) refl

  pub put_node-count :
      v.tr_count ≡ (node p).tr_count → (q : ℕ) → (put_node node p v q).tr_count ≡ (node q).tr_count
  put_node-count e q = elim (ℕ_discrete q p) [
    | yes h ↦
        ap (λ (t : TreeNode). t.tr_count) (ap (put_node node p v) h ∙ put_node_self)
        ∙ e
        ∙ ap (λ k. (node k).tr_count) (sym h)
    | no h ↦ ap (λ (t : TreeNode). t.tr_count) (put_node-ne q h)
  ]

  pub put_node-links :
      v.tr_left ≡ (node p).tr_left
      → v.tr_right ≡ (node p).tr_right
      → v.tr_parent ≡ (node p).tr_parent
      → (q : ℕ)
      → ((put_node node p v q).tr_left ≡ (node q).tr_left)
        × ((put_node node p v q).tr_right ≡ (node q).tr_right)
        × ((put_node node p v q).tr_parent ≡ (node q).tr_parent)
  put_node-links el er ep q = elim (ℕ_discrete q p) [
    | yes h ↦
        subst
          (λ k.
            ((put_node node p v k).tr_left ≡ (node k).tr_left)
            × ((put_node node p v k).tr_right ≡ (node k).tr_right)
            × ((put_node node p v k).tr_parent ≡ (node k).tr_parent))
          (sym h)
          (
            ap (λ (t : TreeNode). t.tr_left) put_node_self ∙ el,
            ap (λ (t : TreeNode). t.tr_right) put_node_self ∙ er,
            ap (λ (t : TreeNode). t.tr_parent) put_node_self ∙ ep,
          )
    | no h ↦ (
      ap (λ (t : TreeNode). t.tr_left) (put_node-ne q h),
      ap (λ (t : TreeNode). t.tr_right) (put_node-ne q h),
      ap (λ (t : TreeNode). t.tr_parent) (put_node-ne q h),
    )
  ]

-- A tree all of whose links stay is linked as before.
pub Shape-links :
    (node node' : ℕ → TreeNode) (p parent : ℕ) (t : Tree)
    → ((x : ℕ)
        → ((node' x).tr_left ≡ (node x).tr_left)
          × ((node' x).tr_right ≡ (node x).tr_right)
          × ((node' x).tr_parent ≡ (node x).tr_parent))
    → Shape node p parent t
    → Shape node' p parent t
Shape-links node node' p parent leaf e h = h
Shape-links node node' p parent (branch l a r) e h = (
  h.0,
  h.1,
  (e a).2 ∙ h.2,
  Shape-links node node' (node' a).tr_left a l e (subst (λ q. Shape node q a l) (sym (e a).0) h.3),
  Shape-links node node' (node' a).tr_right a r e (subst (λ q. Shape node q a r) (sym (e a).1) h.4),
)

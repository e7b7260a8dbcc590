-- ===== src/Btacc/Context.antt =====
-- A place in a tree: what is above a subtree and beside it.
use ulppk.Base.{ℕ, ◌≡◌, ◌≢◌, refl, sym, ap, ◌∙◌, List, [], ◌∷◌, ◌++◌, append-nil, append_assoc}
use mathlib.Core.Path.{subst}
use ulppk.Btacc.{TreeNode}
use ulppk.Btacc.Tree.{
  Tree, branch, inorder, AllIn, AllIn-zip, AllIn-map, AllIn-all, Absent, Apart, Apart-sym,
  IsDistinct, Shape, Shape-frame,
}

-- The subtree is on the left of `a`, or on the right of it.
pub data Context : Type 0 where
  top : Context
  on_left : Context → ℕ → Tree → Context
  on_right : Context → ℕ → Tree → Context

abbrev pub plug : Context → Tree → Tree
plug top t = t
plug (on_left c a r) t = plug c (branch t a r)
plug (on_right c a l) t = plug c (branch l a t)

abbrev pub AllAround : (ℕ → Type 0) → Context → Type 0
AllAround P top = Unit
AllAround P (on_left c a r) = P a × AllIn P r × AllAround P c
AllAround P (on_right c a l) = P a × AllIn P l × AllAround P c

abbrev pub Outside : ℕ → Context → Type 0
Outside n c = AllAround (λ x. n ≢ x) c

-- A tree all of whose nodes are outside.
abbrev pub Clear : Tree → Context → Type 0
Clear t c = AllIn (λ x. Outside x c) t

abbrev pub IsDistinctAround : Context → Type 0
IsDistinctAround top = Unit
IsDistinctAround (on_left c a r) =
    Absent a r × Outside a c × Clear r c × IsDistinct r × IsDistinctAround c
IsDistinctAround (on_right c a l) =
    Absent a l × Outside a c × Clear l c × IsDistinct l × IsDistinctAround c

-- The links to `p`, below `parent`, from the root on, and those beside them.
abbrev pub Framed : (ℕ → TreeNode) → ℕ → ℕ → ℕ → Context → Type 0
Framed node root p parent top = (root ≡ p) × (parent ≡ 0)
Framed node root p parent (on_left c a r) =
    (parent ≡ a)
    × (a ≢ 0)
    × ((node a).tr_left ≡ p)
    × Shape node (node a).tr_right a r
    × Framed node root a (node a).tr_parent c
Framed node root p parent (on_right c a l) =
    (parent ≡ a)
    × (a ≢ 0)
    × ((node a).tr_right ≡ p)
    × Shape node (node a).tr_left a l
    × Framed node root a (node a).tr_parent c

pub AllAround-map :
    (P Q : ℕ → Type 0) (c : Context) → ((x : ℕ) → P x → Q x) → AllAround P c → AllAround Q c
AllAround-map P Q top f h = tt
AllAround-map P Q (on_left c a r) f h = (f a h.0, AllIn-map P Q r f h.1, AllAround-map P Q c f h.2)
AllAround-map P Q (on_right c a l) f h = (f a h.0, AllIn-map P Q l f h.1, AllAround-map P Q c f h.2)

pub Framed-frame :
    (node node' : ℕ → TreeNode) (root p parent : ℕ) (c : Context)
    → AllAround (λ x. node' x ≡ node x) c
    → Framed node root p parent c
    → Framed node' root p parent c
Framed-frame node node' root p parent top e h = h
Framed-frame node node' root p parent (on_left c a r) e h = (
  h.0,
  h.1,
  ap (λ (t : TreeNode). t.tr_left) e.0 ∙ h.2,
  Shape-frame node node' (node' a).tr_right a r e.1
      (subst (λ (t : TreeNode). Shape node t.tr_right a r) (sym e.0) h.3),
  Framed-frame node node' root a (node' a).tr_parent c e.2
      (subst (λ (t : TreeNode). Framed node root a t.tr_parent c) (sym e.0) h.4),
)
Framed-frame node node' root p parent (on_right c a l) e h = (
  h.0,
  h.1,
  ap (λ (t : TreeNode). t.tr_right) e.0 ∙ h.2,
  Shape-frame node node' (node' a).tr_left a l e.1
      (subst (λ (t : TreeNode). Shape node t.tr_left a l) (sym e.0) h.3),
  Framed-frame node node' root a (node' a).tr_parent c e.2
      (subst (λ (t : TreeNode). Framed node root a t.tr_parent c) (sym e.0) h.4),
)

-- A tree is a subtree and what is around it.
pub Shape-plug :
    (node : ℕ → TreeNode) (root p parent : ℕ) (c : Context) (t : Tree)
    → Framed node root p parent c
    → Shape node p parent t
    → Shape node root 0 (plug c t)
Shape-plug node root p parent top t f h =
    subst (λ q. Shape node q 0 t) (sym f.0) (subst (λ q. Shape node p q t) f.1 h)
Shape-plug node root p parent (on_left c a r) t f h =
    Shape-plug node root a (node a).tr_parent c (branch t a r) f.4 (
      refl,
      f.1,
      refl,
      subst (λ q. Shape node q a t) (sym f.2) (subst (λ q. Shape node p q t) f.0 h),
      f.3,
    )
Shape-plug node root p parent (on_right c a l) t f h =
    Shape-plug node root a (node a).tr_parent c (branch l a t) f.4 (
      refl,
      f.1,
      refl,
      f.3,
      subst (λ q. Shape node q a t) (sym f.2) (subst (λ q. Shape node p q t) f.0 h),
    )

pub Shape-unplug :
    (node : ℕ → TreeNode) (root : ℕ) (c : Context) (t : Tree)
    → Shape node root 0 (plug c t)
    → (p : ℕ) × (parent : ℕ) × Shape node p parent t × Framed node root p parent c
Shape-unplug node root top t h = (root, 0, h, (refl, refl))
Shape-unplug node root (on_left c a r) t h =
    let (p, parent, s, f) = Shape-unplug node root c (branch t a r) h in
    (
      (node a).tr_left,
      a,
      s.3,
      (
        refl,
        s.1,
        refl,
        s.4,
        subst (λ q. Framed node root a q c) (sym s.2)
            (subst (λ q. Framed node root q parent c) s.0 f),
      ),
    )
Shape-unplug node root (on_right c a l) t h =
    let (p, parent, s, f) = Shape-unplug node root c (branch l a t) h in
    (
      (node a).tr_right,
      a,
      s.4,
      (
        refl,
        s.1,
        refl,
        s.3,
        subst (λ q. Framed node root a q c) (sym s.2)
            (subst (λ q. Framed node root q parent c) s.0 f),
      ),
    )

-- The same of distinctness.
pub IsDistinct-plug :
    (c : Context) (t : Tree) → IsDistinct t → IsDistinctAround c → Clear t c → IsDistinct (plug c t)
IsDistinct-plug top t d k o = d
IsDistinct-plug (on_left c a r) t d k o =
    IsDistinct-plug c (branch t a r)
      (
        AllIn-map (λ x. Outside x (on_left c a r)) (λ x. a ≢ x) t (λ x h q. h.0 (sym q)) o,
        k.0,
        AllIn-map (λ x. Outside x (on_left c a r)) (λ x. Absent x r) t (λ x h. h.1) o,
        d,
        k.3,
      )
      k.4 (k.1, AllIn-map (λ x. Outside x (on_left c a r)) (λ x. Outside x c) t (λ x h. h.2) o, k.2)
IsDistinct-plug (on_right c a l) t d k o =
    IsDistinct-plug c (branch l a t)
      (
        k.0,
        AllIn-map (λ x. Outside x (on_right c a l)) (λ x. a ≢ x) t (λ x h q. h.0 (sym q)) o,
        Apart-sym t l
            (AllIn-map (λ x. Outside x (on_right c a l)) (λ x. Absent x l) t (λ x h. h.1) o),
        k.3,
        d,
      )
      k.4
      (k.1, k.2, AllIn-map (λ x. Outside x (on_right c a l)) (λ x. Outside x c) t (λ x h. h.2) o)

Clear-beside :
    (c : Context) (t : Tree) (a : ℕ) (u : Tree)
    → Absent a t
    → Apart t u
    → Clear t c
    → AllIn (λ x. (x ≢ a) × Absent x u × Outside x c) t
Clear-beside c t a u ha hu hc =
    AllIn-zip (λ x. (a ≢ x) × Absent x u) (λ x. Outside x c)
      (λ x. (x ≢ a) × Absent x u × Outside x c) t (λ x h k. ((λ q. h.0 (sym q)), h.1, k))
      (AllIn-zip (λ x. a ≢ x) (λ x. Absent x u) (λ x. (a ≢ x) × Absent x u) t (λ x h k. (h, k)) ha
        hu)
      hc

pub IsDistinct-unplug :
    (c : Context) (t : Tree) → IsDistinct (plug c t) → IsDistinct t × IsDistinctAround c × Clear t c
IsDistinct-unplug top t d = (d, tt, AllIn-all (λ x. Outside x top) t (λ x. tt))
IsDistinct-unplug (on_left c a r) t d =
    let (d1, k, o) = IsDistinct-unplug c (branch t a r) d in
    (d1.3, (d1.1, o.0, o.2, d1.4, k), Clear-beside c t a r d1.0 d1.2 o.1)
IsDistinct-unplug (on_right c a l) t d =
    let (d1, k, o) = IsDistinct-unplug c (branch l a t) d in
    (d1.4, (d1.0, o.0, o.1, d1.3, k), Clear-beside c t a l d1.1 (Apart-sym l t d1.2) o.2)

-- What is around a clear tree is not in it.
pub Clear-sym : (c : Context) (t : Tree) → Clear t c → AllAround (λ y. Absent y t) c
Clear-sym top t h = tt
Clear-sym (on_left c a u) t h = (
  AllIn-map (λ x. Outside x (on_left c a u)) (λ x. a ≢ x) t (λ x o q. o.0 (sym q)) h,
  Apart-sym t u (AllIn-map (λ x. Outside x (on_left c a u)) (λ x. Absent x u) t (λ x o. o.1) h),
  Clear-sym c t (AllIn-map (λ x. Outside x (on_left c a u)) (λ x. Outside x c) t (λ x o. o.2) h),
)
Clear-sym (on_right c a u) t h = (
  AllIn-map (λ x. Outside x (on_right c a u)) (λ x. a ≢ x) t (λ x o q. o.0 (sym q)) h,
  Apart-sym t u (AllIn-map (λ x. Outside x (on_right c a u)) (λ x. Absent x u) t (λ x o. o.1) h),
  Clear-sym c t (AllIn-map (λ x. Outside x (on_right c a u)) (λ x. Outside x c) t (λ x o. o.2) h),
)

-- A predicate on the whole tree.
pub AllIn-plug :
    (P : ℕ → Type 0) (c : Context) (t : Tree) → AllIn P t → AllAround P c → AllIn P (plug c t)
AllIn-plug P top t h k = h
AllIn-plug P (on_left c a r) t h k = AllIn-plug P c (branch t a r) (k.0, h, k.1) k.2
AllIn-plug P (on_right c a l) t h k = AllIn-plug P c (branch l a t) (k.0, k.1, h) k.2

pub AllIn-unplug :
    (P : ℕ → Type 0) (c : Context) (t : Tree) → AllIn P (plug c t) → AllIn P t × AllAround P c
AllIn-unplug P top t h = (h, tt)
AllIn-unplug P (on_left c a r) t h =
    let (x, k) = AllIn-unplug P c (branch t a r) h in (x.1, (x.0, x.2, k))
AllIn-unplug P (on_right c a l) t h =
    let (x, k) = AllIn-unplug P c (branch l a t) h in (x.2, (x.0, x.1, k))

-- The nodes before and after the place.
abbrev pub before : Context → List ℕ
before top = []
before (on_left c a r) = before c
before (on_right c a l) = before c ++ (inorder l ++ (a ∷ []))

abbrev pub after : Context → List ℕ
after top = []
after (on_left c a r) = (a ∷ inorder r) ++ after c
after (on_right c a l) = after c

pub inorder-plug :
    (c : Context) (t : Tree) → inorder (plug c t) ≡ before c ++ (inorder t ++ after c)
inorder-plug top t = sym (append-nil (inorder t))
inorder-plug (on_left c a r) t = inorder-plug c (branch t a r) ∙ simp (append_assoc)
inorder-plug (on_right c a l) t = inorder-plug c (branch l a t) ∙ simp (append_assoc)

-- ===== src/Btacc/Add.antt =====
-- `bt_add`.
use ulppk.Base.{ℕ, suc, ◌+◌, ◌≤◌, ◌≡◌, ◌≢◌, refl, sym, ap, ◌∙◌, Option, some}
use ulppk.Base.{inl, inr, ne→==, eq→==, ==-iff, Bool-cases, if-false, ◌==◌, if◌then◌else◌, u16}
use mathlib.Core.Path.{subst}
use native.Mathlib.Decide.{ℕ_discrete}
use ulppk.Btacc.{TreeNode, TreeStore, Code, below, same, above, bt_insert, bt_add}
use ulppk.Btacc.{leaf_of, as_leaf, count_hit}
use ulppk.Btacc.Tree.{
  Tree, leaf, branch, depth, AllIn, Absent, Apart-sym, IsDistinct, Shape, put_node_self,
  put_node-count, put_node-links, Shape-links,
}
use ulppk.Btacc.Search.{find, find_leaf, Code-cases, find_below, find_above}
use ulppk.Btacc.Insert.{
  grown, last_code, grown_leaf, code_leaf, grown_below, grown_above, grown_same, code_same,
  code_below, code_above,
}
use ulppk.Btacc.Grow.{insert_new, insert_hit}

pub grown-AllIn :
    (P : ℕ → Type 0) (judge : ℕ → Code) (n : ℕ) (t : Tree)
    → P n
    → AllIn P t
    → AllIn P (grown judge n t)
grown-AllIn P judge n leaf pn h = unfold grown in (pn, tt, tt)
grown-AllIn P judge n (branch l a r) pn h = elim (Code-cases (judge a)) [
  | inl e ↦
      subst (AllIn P) (sym (grown_below judge n l a r e)) (h.0, grown-AllIn P judge n l pn h.1, h.2)
  | inr (inl e) ↦ subst (AllIn P) (sym (grown_same judge n l a r e)) h
  | inr (inr e) ↦
      subst (AllIn P) (sym (grown_above judge n l a r e)) (h.0, h.1, grown-AllIn P judge n r pn h.2)
]

grown-IsDistinct :
    (judge : ℕ → Code) (n : ℕ) (t : Tree) → Absent n t → IsDistinct t → IsDistinct (grown judge n t)
grown-IsDistinct judge n leaf out d = unfold grown in (tt, tt, tt, tt, tt)
grown-IsDistinct judge n (branch l a r) out d = elim (Code-cases (judge a)) [
  | inl e ↦ subst IsDistinct (sym (grown_below judge n l a r e)) (
    grown-AllIn (λ x. a ≢ x) judge n l (λ q. out.0 (sym q)) d.0,
    d.1,
    grown-AllIn (λ x. Absent x r) judge n l out.2 d.2,
    grown-IsDistinct judge n l out.1 d.3,
    d.4,
  )
  | inr (inl e) ↦ subst IsDistinct (sym (grown_same judge n l a r e)) d
  | inr (inr e) ↦ subst IsDistinct (sym (grown_above judge n l a r e)) (
    d.0,
    grown-AllIn (λ x. a ≢ x) judge n r (λ q. out.0 (sym q)) d.1,
    Apart-sym (grown judge n r) l
        (grown-AllIn (λ x. Absent x l) judge n r out.1 (Apart-sym l r d.2)),
    d.3,
    grown-IsDistinct judge n r out.2 d.4,
  )
]

-- Where the comparisons lead to a node, the tree stays.
grown_hit : (judge : ℕ → Code) (n : ℕ) (t : Tree) → find judge t ≢ 0 → grown judge n t ≡ t
grown_hit judge n leaf f = absurd (f (unfold find in refl))
grown_hit judge n (branch l a r) f = elim (Code-cases (judge a)) [
  | inl e ↦
      grown_below judge n l a r e
      ∙ ap (λ t. branch t a r) (grown_hit judge n l (λ z. f (find_below judge l a r e ∙ z)))
  | inr (inl e) ↦ grown_same judge n l a r e
  | inr (inr e) ↦
      grown_above judge n l a r e
      ∙ ap (branch l a) (grown_hit judge n r (λ z. f (find_above judge l a r e ∙ z)))
]

code_hit : (judge : ℕ → Code) (c : Code) (t : Tree) → find judge t ≢ 0 → last_code judge c t ≡ same
code_hit judge c leaf f = absurd (f (unfold find in refl))
code_hit judge c (branch l a r) f = elim (Code-cases (judge a)) [
  | inl e ↦
      code_below judge 0 l a r c e ∙ code_hit judge below l (λ z. f (find_below judge l a r e ∙ z))
  | inr (inl e) ↦ code_same judge 0 l a r c e
  | inr (inr e) ↦
      code_above judge 0 l a r c e ∙ code_hit judge above r (λ z. f (find_above judge l a r e ∙ z))
]

-- A store that holds the tree.
pub record IsTree (s : TreeStore) (t : Tree) : Type 0 where
  pub shape : Shape s.node s.tree 0 t
  pub distinct : IsDistinct t

module _ (compare_function : ℕ → ℕ → Code) (n : ℕ) (s : TreeStore) (fuel : ℕ) where
  bt_add-bt_insert :
      s.tree ≢ 0
      → bt_add fuel s n compare_function ≡ bt_insert (suc fuel) s s.tree n compare_function
  bt_add-bt_insert ne = unfold bt_add bt_insert in rw (ne→== s.tree 0 ne, bt_add) refl

  bt_add-empty :
      s.tree ≡ 0
      → bt_add fuel s n compare_function ≡ some (below, as_leaf (record s { tree = n }) n 0)
  bt_add-empty e = unfold bt_add in rw (eq→== s.tree 0 e, bt_add) refl

abbrev pub Added : (ℕ → Code) → ℕ → TreeStore → Tree → Option (Code × TreeStore) → Type 0
Added judge n s t result =
    (s' : TreeStore) × (result ≡ some (last_code judge below t, s'))
    × IsTree s' (grown judge n t)
    × ((x : ℕ)
        → x ≢ 0
        → (s'.node x).tr_count
          ≡ (if x == find judge t then u16 ((s.node x).tr_count + 1) else (s.node x).tr_count))

module _ (compare_function : ℕ → ℕ → Code) (n : ℕ) (s : TreeStore) (fuel : ℕ) where
  abbrev judge : ℕ → Code
  judge x = compare_function x n

  add_first : n ≢ 0 → s.tree ≡ 0 → Added judge n s leaf (bt_add fuel s n compare_function)
  add_first new z =
      let s' = as_leaf (record s { tree = n }) n 0 in
      let e = put_node_self s.node n (leaf_of (s.node n) 0) in
      (
        s',
        bt_add-empty compare_function n s fuel z
            ∙ ap (λ c. some (c, s')) (sym (code_leaf judge below)),
        subst (IsTree s') (sym (grown_leaf judge n)) record {
          shape = (
            refl,
            new,
            ap (λ (t : TreeNode). t.tr_parent) e,
            ap (λ (t : TreeNode). t.tr_left) e,
            ap (λ (t : TreeNode). t.tr_right) e,
          );
          distinct = (tt, tt, tt, tt, tt);
        },
        λ x nx.
            put_node-count s.node n (leaf_of (s.node n) 0) refl x
            ∙ sym (if-false _ _ (ne→== x (find judge leaf) (λ q. nx (q ∙ find_leaf judge)))),
      )

  add_new :
      (t : Tree)
      → IsTree s t
      → n ≢ 0
      → s.tree ≢ 0
      → Absent n t
      → depth t ≤ suc fuel
      → find judge t ≡ 0
      → Added judge n s t (bt_add fuel s n compare_function)
  add_new t h new ne out lt f =
      let (s', e, shape, k) =
        insert_new compare_function n new t below s (suc fuel) s.tree 0 ne h.shape out h.distinct lt
          f in
      (
        s',
        bt_add-bt_insert compare_function n s fuel ne ∙ e,
        record {
          shape = subst (λ q. Shape s'.node q 0 (grown judge n t)) (sym k.root) shape;
          distinct = grown-IsDistinct judge n t out h.distinct;
        },
        λ x nx. k.counts x ∙ sym (if-false _ _ (ne→== x (find judge t) (λ q. nx (q ∙ f)))),
      )

  count_hit-count :
      (m x : ℕ)
      → ((count_hit s m).node x).tr_count
        ≡ (if x == m then u16 ((s.node x).tr_count + 1) else (s.node x).tr_count)
  count_hit-count m x = elim (Bool-cases (x == m)) [
    | inl e ↦ rw e (ap (λ k. u16 ((s.node k).tr_count + 1)) (sym ((==-iff x m).0 e)))
    | inr e ↦ rw e refl
  ]

  add_hit :
      (t : Tree)
      → IsTree s t
      → n ≢ 0
      → s.tree ≢ 0
      → depth t ≤ suc fuel
      → find judge t ≢ 0
      → Added judge n s t (bt_add fuel s n compare_function)
  add_hit t h new ne lt f =
      let m = find judge t in
      let s' = count_hit s m in
      (
        s',
        bt_add-bt_insert compare_function n s fuel ne
            ∙ insert_hit compare_function n new t s (suc fuel) s.tree 0 h.shape lt f
            ∙ ap (λ c. some (c, s')) (sym (code_hit judge below t f)),
        subst (IsTree s') (sym (grown_hit judge n t f)) record {
          shape =
              Shape-links s.node s'.node s.tree 0 t
                (put_node-links s.node m
                  (record (s.node m) { tr_count = u16 ((s.node m).tr_count + 1) }) refl refl refl)
                h.shape;
          distinct = h.distinct;
        },
        λ x nx. count_hit-count m x,
      )

-- `bt_add` of a node that is not NULL and not in the tree, and that may go one level less deep than
-- the tree, returns the code of the last comparison, or that of the left side if the tree is empty.
-- The new node becomes a leaf where the comparisons lead to, if they lead to no node; if they do, the
-- tree stays and that node's count goes up. No other count changes.
pub bt_add_lem :
    (compare_function : ℕ → ℕ → Code) (n : ℕ) (s : TreeStore) (t : Tree) (fuel : ℕ)
    → IsTree s t
    → n ≢ 0
    → Absent n t
    → depth t ≤ suc fuel
    → Added (λ x. compare_function x n) n s t (bt_add fuel s n compare_function)
bt_add_lem compare_function n s leaf fuel h new out lt =
    add_first compare_function n s fuel new h.shape
bt_add_lem compare_function n s (branch l a r) fuel h new out lt =
    let judge = λ (x : ℕ). compare_function x n in
    let ne = λ (z : s.tree ≡ 0). h.shape.1 (sym h.shape.0 ∙ z) in
    elim (ℕ_discrete (find judge (branch l a r)) 0) [
      | yes f ↦ add_new compare_function n s fuel (branch l a r) h new ne out lt f
      | no f ↦ add_hit compare_function n s fuel (branch l a r) h new ne lt f
    ]

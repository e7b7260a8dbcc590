-- ===== src/Btacc/Lookup.antt =====
-- Searches in a tree in the order of a key, before and after `bt_add`.
use ulppk.Base.{ℕ, suc, ◌<◌, ◌≤◌, ◌≡◌, ◌≢◌, sym, ap, ◌∙◌, arith, some}
use ulppk.Base.{ne→==, ◌&&◌, inl, inr, ◌==◌, if◌then◌else◌}
use ulppk.Btacc.{TreeNode, TreeStore, Code, below, same, above, bt_add, bt_search}
use ulppk.Btacc.Tree.{Tree, leaf, branch, depth, AllIn, Absent, Shape}
use ulppk.Btacc.Search.{
  find, find_leaf, Code-cases, find_below, find_same, find_above, bt_search_lem,
}
use ulppk.Btacc.Insert.{grown, last_code, grown_leaf, grown_below, grown_same, grown_above}
use ulppk.Btacc.Add.{IsTree, bt_add_lem}
use ulppk.Btacc.Order.{
  by_key, below-lt, same-eq, above-gt, IsOrdered, wants, Finds, find_exact, grown-IsOrdered,
}

module _ (key : ℕ → ℕ) where
  -- What a search for `w` comes to after `n` is added.
  abbrev pub found_after : ℕ → ℕ → ℕ → ℕ
  found_after w n m = if m == 0 && w == key n then n else m

  find_new : (w n : ℕ) → find (wants key w) (branch leaf n leaf) ≡ found_after w n 0
  find_new w n = elim (Code-cases (wants key w n)) [
    | inl e ↦
        find_below (wants key w) leaf n leaf e
        ∙ find_leaf (wants key w)
        ∙ ground (arith, below-lt w (key n) e)
    | inr (inl e) ↦ find_same (wants key w) leaf n leaf e ∙ ground (arith, same-eq w (key n) e)
    | inr (inr e) ↦
        find_above (wants key w) leaf n leaf e
        ∙ find_leaf (wants key w)
        ∙ ground (arith, above-gt w (key n) e)
  ]

  found_after_ne : (w n m : ℕ) → w ≢ key n → m ≡ found_after w n m
  found_after_ne w n m h = ground (arith, ne→== w (key n) h)

  found_after_hit : (w n m : ℕ) → m ≢ 0 → m ≡ found_after w n m
  found_after_hit w n m h = ground (arith, ne→== m 0 h)

  -- Keys that compare in different ways are different.
  codes_apart :
      (w n a : ℕ) {c d : Code} → wants key (key n) a ≡ c → wants key w a ≡ d → d ≢ c → w ≢ key n
  codes_apart w n a e f ne q = ne (sym f ∙ ap (λ k. wants key k a) q ∙ e)

  -- One level of the search, with the sides before and after.
  module _ (w n : ℕ) (l l' : Tree) (a : ℕ) (r r' : Tree) where
    abbrev Agree : Type 0
    Agree =
        find (wants key w) (branch l' a r') ≡ found_after w n (find (wants key w) (branch l a r))

    via_left :
        wants key w a ≡ below
        → find (wants key w) l' ≡ found_after w n (find (wants key w) l)
        → Agree
    via_left e p =
        find_below (wants key w) l' a r' e
        ∙ p
        ∙ ap (found_after w n) (sym (find_below (wants key w) l a r e))

    via_node : wants key w a ≡ same → a ≢ 0 → Agree
    via_node e nz =
        find_same (wants key w) l' a r' e
        ∙ found_after_hit w n a nz
        ∙ ap (found_after w n) (sym (find_same (wants key w) l a r e))

    via_right :
        wants key w a ≡ above
        → find (wants key w) r' ≡ found_after w n (find (wants key w) r)
        → Agree
    via_right e p =
        find_above (wants key w) l' a r' e
        ∙ p
        ∙ ap (found_after w n) (sym (find_above (wants key w) l a r e))

  find-grown :
      (w n : ℕ) (t : Tree)
      → AllIn (λ x. x ≢ 0) t
      → find (wants key w) (grown (wants key (key n)) n t) ≡ found_after w n (find (wants key w) t)
  find-grown w n leaf nz =
      ap (find (wants key w)) (grown_leaf (wants key (key n)) n)
      ∙ find_new w n
      ∙ ap (found_after w n) (sym (find_leaf (wants key w)))
  find-grown w n (branch l a r) nz = elim (Code-cases (wants key (key n) a)) [
    | inl e ↦
        let lt = below-lt (key n) (key a) e in
        let l' = grown (wants key (key n)) n l in
        ap (find (wants key w)) (grown_below (wants key (key n)) n l a r e)
        ∙ elim (Code-cases (wants key w a)) [
          | inl f ↦ via_left w n l l' a r r f (find-grown w n l nz.1)
          | inr (inl f) ↦ via_node w n l l' a r r f nz.0
          | inr (inr f) ↦
              via_right w n l l' a r r f
                (found_after_ne w n (find (wants key w) r) (codes_apart w n a e f (cc)))
        ]
    | inr (inl e) ↦
        ap (find (wants key w)) (grown_same (wants key (key n)) n l a r e)
        ∙ elim (Code-cases (wants key w a)) [
          | inl f ↦
              via_left w n l l a r r f
                (found_after_ne w n (find (wants key w) l) (codes_apart w n a e f (cc)))
          | inr (inl f) ↦ via_node w n l l a r r f nz.0
          | inr (inr f) ↦
              via_right w n l l a r r f
                (found_after_ne w n (find (wants key w) r) (codes_apart w n a e f (cc)))
        ]
    | inr (inr e) ↦
        let r' = grown (wants key (key n)) n r in
        ap (find (wants key w)) (grown_above (wants key (key n)) n l a r e)
        ∙ elim (Code-cases (wants key w a)) [
          | inl f ↦
              via_left w n l l a r r' f
                (found_after_ne w n (find (wants key w) l) (codes_apart w n a e f (cc)))
          | inr (inl f) ↦ via_node w n l l a r r' f nz.0
          | inr (inr f) ↦ via_right w n l l a r r' f (find-grown w n r nz.2)
        ]
  ]

Shape-nonzero :
    (node : ℕ → TreeNode) (p parent : ℕ) (t : Tree) → Shape node p parent t → AllIn (λ x. x ≢ 0) t
Shape-nonzero node p parent leaf h = tt
Shape-nonzero node p parent (branch l a r) h =
    (h.1, Shape-nonzero node (node a).tr_left a l h.3, Shape-nonzero node (node a).tr_right a r h.4)

depth-grown : (judge : ℕ → Code) (n : ℕ) (t : Tree) → depth (grown judge n t) ≤ suc (depth t)
depth-grown judge n leaf = unfold grown in omega arith
depth-grown judge n (branch l a r) = elim (Code-cases (judge a)) [
  | inl e ↦ rw (grown_below judge n l a r e) (omega (arith, depth-grown judge n l))
  | inr (inl e) ↦ rw (grown_same judge n l a r e) (omega arith)
  | inr (inr e) ↦ rw (grown_above judge n l a r e) (omega (arith, depth-grown judge n r))
]

-- On a tree in the order of its keys, `bt_search` for a key that may go one level deeper than the tree
-- comes to a node with that key, or to NULL if no node has it.
pub bt_search_exact :
    (key : ℕ → ℕ) (w : ℕ) (s : TreeStore) (t : Tree) (fuel : ℕ)
    → IsTree s t
    → IsOrdered key t
    → depth t < fuel
    → (m : ℕ) × (bt_search fuel s s.tree (wants key w) ≡ some m) × Finds key w t m
bt_search_exact key w s t fuel h o lt = (
  find (wants key w) t,
  bt_search_lem t s (wants key w) fuel s.tree 0 h.shape lt,
  find_exact key w t o (Shape-nonzero s.node s.tree 0 t h.shape),
)

-- `bt_add` by key keeps the order of the tree. Afterwards a search for any key comes to the node to
-- which it came before, except that one for the key of the new node that came to none comes to the
-- new node. The new node is not NULL and not in the tree, `bt_add` may go one level less deep than the
-- tree and the searches two levels deeper than it.
pub bt_search-bt_add :
    (key : ℕ → ℕ) (n : ℕ) (s : TreeStore) (t : Tree) (fuel : ℕ)
    → IsTree s t
    → IsOrdered key t
    → n ≢ 0
    → Absent n t
    → depth t ≤ suc fuel
    → (c : Code) × (s' : TreeStore) × (u : Tree) × (bt_add fuel s n (λ x y. by_key (key y) (key x))
        ≡ some (c, s'))
      × IsTree s' u
      × IsOrdered key u
      × ((w : ℕ)
          → bt_search (suc (suc (suc fuel))) s' s'.tree (wants key w)
            ≡ some (found_after key w n (find (wants key w) t)))
bt_search-bt_add key n s t fuel h o new out lt =
    let judge = wants key (key n) in
    let (s', e, h', counts) = bt_add_lem (λ x y. by_key (key y) (key x)) n s t fuel h new out lt in
    (
      last_code judge below t,
      s',
      grown judge n t,
      e,
      h',
      grown-IsOrdered key n t o,
      λ w.
          bt_search_lem (grown judge n t) s' (wants key w) (suc (suc (suc fuel))) s'.tree 0 h'.shape
            (omega (arith, depth-grown judge n t))
          ∙ ap some (find-grown key w n t (Shape-nonzero s.node s.tree 0 t h.shape)),
    )

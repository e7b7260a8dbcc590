-- ===== src/Btacc/Grow.antt =====
-- `bt_insert` on the whole tree.
use ulppk.Base.{ℕ, zero, suc, ◌≤◌, ◌≡◌, ◌≢◌, refl, sym, ap, ◌∙◌, arith, some}
use ulppk.Base.{inl, inr}
use mathlib.Core.Path.{subst}
use native.Mathlib.Decide.{ℕ_discrete}
use ulppk.Btacc.{TreeStore, Code, below, same, above, bt_insert}
use ulppk.Btacc.{set_left, set_right, as_leaf, count_hit}
use ulppk.Btacc.Tree.{Tree, leaf, branch, depth, Absent, IsDistinct, Shape, Shape-zero}
use ulppk.Btacc.Search.{find, find-ne-zero, Code-cases, find_below, find_same, find_above}
use ulppk.Btacc.Insert.{
  grown, last_code, grown_leaf, code_leaf, grown_below, grown_above, code_below, code_above, Grows,
  insert_left_end, insert_left_on, insert_right_end, insert_right_on, insert_same, grow_left,
  grow_right, end_left, end_right,
}

module _ (compare_function : ℕ → ℕ → Code) (n : ℕ) (new : n ≢ 0) where
  abbrev judge : ℕ → Code
  judge x = compare_function x n

  module _ (s : TreeStore) (p parent : ℕ) (l : Tree) (a : ℕ) (r : Tree)
      (h : Shape s.node p parent (branch l a r)) (out : Absent n (branch l a r))
      (d : IsDistinct (branch l a r)) (c : Code) (fuel : ℕ) where
    go_left_end :
        judge a ≡ below
        → (s.node a).tr_left ≡ 0
        → l ≡ leaf
        → Grows judge c n s p parent (branch l a r) (bt_insert (suc fuel) s a n compare_function)
    go_left_end e z el =
        let (shape, keeps) = end_left s n p parent l a r h out d new in
        (
          set_left (as_leaf s n a) a n,
          insert_left_end compare_function n s fuel a e z
              ∙ ap (λ k. some (k, set_left (as_leaf s n a) a n))
                  (sym (
                    code_below judge n l a r c e
                    ∙ ap (last_code judge below) el
                    ∙ code_leaf judge below)),
          subst (Shape (set_left (as_leaf s n a) a n).node p parent)
              (sym (
                grown_below judge n l a r e
                ∙ ap (λ t. branch (grown judge n t) a r) el
                ∙ ap (λ t. branch t a r) (grown_leaf judge n)))
              shape,
          keeps,
        )

    go_left_on :
        judge a ≡ below
        → (s.node a).tr_left ≢ 0
        → Grows judge below n s
            (s.node a).tr_left
            a
            l
            (bt_insert fuel s (s.node a).tr_left n compare_function)
        → Grows judge c n s p parent (branch l a r) (bt_insert (suc fuel) s a n compare_function)
    go_left_on e nz (s', q, hl, k) =
        let (shape, keeps) = grow_left s n p parent l a r h out d s' (grown judge n l) k hl in
        (
          s',
          insert_left_on compare_function n s fuel a e nz
              ∙ q
              ∙ ap (λ z. some (z, s')) (sym (code_below judge n l a r c e)),
          subst (Shape s'.node p parent) (sym (grown_below judge n l a r e)) shape,
          keeps,
        )

    go_right_end :
        judge a ≡ above
        → (s.node a).tr_right ≡ 0
        → r ≡ leaf
        → Grows judge c n s p parent (branch l a r) (bt_insert (suc fuel) s a n compare_function)
    go_right_end e z er =
        let (shape, keeps) = end_right s n p parent l a r h out d new in
        (
          set_right (as_leaf s n a) a n,
          insert_right_end compare_function n s fuel a e z
              ∙ ap (λ k. some (k, set_right (as_leaf s n a) a n))
                  (sym (
                    code_above judge n l a r c e
                    ∙ ap (last_code judge above) er
                    ∙ code_leaf judge above)),
          subst (Shape (set_right (as_leaf s n a) a n).node p parent)
              (sym (
                grown_above judge n l a r e
                ∙ ap (λ t. branch l a (grown judge n t)) er
                ∙ ap (λ t. branch l a t) (grown_leaf judge n)))
              shape,
          keeps,
        )

    go_right_on :
        judge a ≡ above
        → (s.node a).tr_right ≢ 0
        → Grows judge above n s
            (s.node a).tr_right
            a
            r
            (bt_insert fuel s (s.node a).tr_right n compare_function)
        → Grows judge c n s p parent (branch l a r) (bt_insert (suc fuel) s a n compare_function)
    go_right_on e nz (s', q, hr, k) =
        let (shape, keeps) = grow_right s n p parent l a r h out d s' (grown judge n r) k hr in
        (
          s',
          insert_right_on compare_function n s fuel a e nz
              ∙ q
              ∙ ap (λ z. some (z, s')) (sym (code_above judge n l a r c e)),
          subst (Shape s'.node p parent) (sym (grown_above judge n l a r e)) shape,
          keeps,
        )

  -- If the criteria lead to no node, `bt_insert` that may go as deep as the tree links the new node in
  -- where they lead to.
  pub insert_new :
      (t : Tree) (c : Code) (s : TreeStore) (fuel p parent : ℕ)
      → p ≢ 0
      → Shape s.node p parent t
      → Absent n t
      → IsDistinct t
      → depth t ≤ fuel
      → find judge t ≡ 0
      → Grows judge c n s p parent t (bt_insert fuel s p n compare_function)
  insert_new leaf c s fuel p parent nz h out d lt f = absurd (nz h)
  insert_new (branch l a r) c s zero p parent nz h out d lt f = absurd (omega arith)
  insert_new (branch l a r) c s (suc fuel) p parent nz h out d lt f =
      subst
        (λ q.
          Grows judge c n s p parent (branch l a r) (bt_insert (suc fuel) s q n compare_function))
        (sym h.0)
        (elim (Code-cases (judge a)) [
          | inl e ↦ elim (ℕ_discrete (s.node a).tr_left 0) [
            | yes z ↦
                go_left_end s p parent l a r h out d c fuel e z
                  (Shape-zero s.node a l (subst (λ q. Shape s.node q a l) z h.3))
            | no z ↦ go_left_on s p parent l a r h out d c fuel e z (
                insert_new l below s fuel (s.node a).tr_left a z h.3 out.1 d.3 (omega arith)
                  (sym (find_below judge l a r e) ∙ f))
          ]
          | inr (inl e) ↦ absurd (h.1 (sym (find_same judge l a r e) ∙ f))
          | inr (inr e) ↦ elim (ℕ_discrete (s.node a).tr_right 0) [
            | yes z ↦
                go_right_end s p parent l a r h out d c fuel e z
                  (Shape-zero s.node a r (subst (λ q. Shape s.node q a r) z h.4))
            | no z ↦ go_right_on s p parent l a r h out d c fuel e z (
                insert_new r above s fuel (s.node a).tr_right a z h.4 out.2 d.4 (omega arith)
                  (sym (find_above judge l a r e) ∙ f))
          ]
        ])

  -- If they lead to a node, its count goes up.
  pub insert_hit :
      (t : Tree) (s : TreeStore) (fuel p parent : ℕ)
      → Shape s.node p parent t
      → depth t ≤ fuel
      → find judge t ≢ 0
      → bt_insert fuel s p n compare_function ≡ some (same, count_hit s (find judge t))
  insert_hit leaf s fuel p parent h lt f = absurd (f (unfold find in refl))
  insert_hit (branch l a r) s zero p parent h lt f = absurd (omega arith)
  insert_hit (branch l a r) s (suc fuel) p parent h lt f =
      subst
        (λ q.
          bt_insert (suc fuel) s q n compare_function
          ≡ some (same, count_hit s (find judge (branch l a r))))
        (sym h.0)
        (elim (Code-cases (judge a)) [
          | inl e ↦
              let fl = find_below judge l a r e in
              insert_left_on compare_function n s fuel a e
                (find-ne-zero judge s.node (s.node a).tr_left a l h.3 (λ z. f (fl ∙ z)))
              ∙ insert_hit l s fuel (s.node a).tr_left a h.3 (omega arith) (λ z. f (fl ∙ z))
              ∙ ap (λ m. some (same, count_hit s m)) (sym fl)
          | inr (inl e) ↦
              insert_same compare_function n s fuel a e
              ∙ ap (λ m. some (same, count_hit s m)) (sym (find_same judge l a r e))
          | inr (inr e) ↦
              let fr = find_above judge l a r e in
              insert_right_on compare_function n s fuel a e
                (find-ne-zero judge s.node (s.node a).tr_right a r h.4 (λ z. f (fr ∙ z)))
              ∙ insert_hit r s fuel (s.node a).tr_right a h.4 (omega arith) (λ z. f (fr ∙ z))
              ∙ ap (λ m. some (same, count_hit s m)) (sym fr)
        ])

-- ===== src/Btacc/Tests.antt =====
-- Runs of the binary tree functions, and the properties at concrete trees.
use ulppk.Base.{ℕ, ◌+◌, ◌≡◌, refl, arith, Bool, some}
use ulppk.Base.{◌==◌, if◌then◌else◌, ltb}
use ulppk.Btacc.{TreeNode, TreeStore, Code, bt_add, bt_del, bt_search, bt_inorder, bt_replace}
use ulppk.Btacc.Tree.{Tree, leaf, branch, inorder}
use ulppk.Btacc.Search.{find}
use ulppk.Btacc.Order.{by_key, wants, IsOrdered}
use ulppk.Btacc.Lookup.{bt_search-bt_add, found_after}
use ulppk.Btacc.Add.{IsTree, Added, bt_add_lem}
use ulppk.Btacc.Inorder.{bt_inorder_lem, visit}
use ulppk.Btacc.Context.{top}
use ulppk.Btacc.Delete.{Deleted, bt_del_lem}

abbrev links : ℕ → ℕ → ℕ → TreeNode
links l r p = record { tr_left = l; tr_right = r; tr_parent = p; tr_count = 0 }

-- Node 4 with 2 and 6 below it, and 1 and 3 below 2.
abbrev nodes : ℕ → TreeNode
nodes x =
    if x == 4
    then links 2 6 0
    else if x == 2
    then links 1 3 4
    else if x == 6
    then links 0 0 4
    else links 0 0 2

abbrev five : TreeStore
five = record { tree = 4; node = nodes }

abbrev shape : Tree
shape = branch (branch (branch leaf 1 leaf) 2 (branch leaf 3 leaf)) 4 (branch leaf 6 leaf)

five-IsTree : IsTree five shape
five-IsTree = record { shape = omega arith; distinct = omega arith }

-- The nodes in the order of their addresses.
abbrev address : ℕ → ℕ
address x = x

five-IsOrdered : IsOrdered address shape
five-IsOrdered = omega arith

abbrev compare_addresses : ℕ → ℕ → Code
compare_addresses x y = by_key y x

bt_add_example : Added (λ x. compare_addresses x 5) 5 five shape (bt_add 3 five 5 compare_addresses)
bt_add_example =
    bt_add_lem compare_addresses 5 five shape 3 five-IsTree (omega arith) (omega arith)
      (omega arith)

bt_search-bt_add_example :
    (c : Code) × (s' : TreeStore) × (u : Tree) × (bt_add 3 five 5 compare_addresses ≡ some (c, s'))
    × IsTree s' u
    × IsOrdered address u
    × ((w : ℕ)
        → bt_search 6 s' s'.tree (wants address w)
          ≡ some (found_after address w 5 (find (wants address w) shape)))
bt_search-bt_add_example =
    bt_search-bt_add address 5 five shape 3 five-IsTree five-IsOrdered (omega arith) (omega arith)
      (omega arith)

-- An action that adds up what it visits, and stops behind 2.
abbrev add_up : ℕ → ℕ → ℕ × Bool
add_up sum x = (sum + x, ltb x 3)

bt_inorder_example : bt_inorder add_up 3 five 4 0 ≡ some (visit add_up (inorder shape) 0)
bt_inorder_example = bt_inorder_lem add_up five shape 3 0 five-IsTree (omega arith) (omega arith)

visit_shape : visit add_up (inorder shape) 0 ≡ (3, 6)
unfolding visit
visit_shape = refl

bt_del_example :
    Deleted five top
      (branch (branch leaf 1 leaf) 2 (branch leaf 3 leaf))
      4
      (branch leaf 6 leaf)
      (bt_del 3 five 4)
bt_del_example =
    bt_del_lem five top (branch (branch leaf 1 leaf) 2 (branch leaf 3 leaf)) 4 (branch leaf 6 leaf)
      3 five-IsTree (omega arith)

abbrev after_replace : TreeStore
after_replace = bt_replace five 4 9

-- The children of a replaced node still name it as their parent.
stale_parents :
    ((after_replace.node 2).tr_parent ≡ 4)
    × ((after_replace.node 9).tr_left ≡ 2)
    × (after_replace.tree ≡ 9)
unfolding bt_replace
stale_parents = (refl, refl, refl)

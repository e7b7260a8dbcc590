-- ===== src/Btacc.antt =====
-- ulppk/btacc.c: binary trees of nodes that belong to the caller. A pointer is a number, 0 is NULL.
-- The store holds the root pointer and the nodes. The comparison functions are the caller's, and
-- take a node by its address. A recursion goes as deep as its first argument; `none` is one that
-- goes deeper, or an access through NULL.
pub mod Tree
pub mod Search
pub mod Insert
pub mod Grow
pub mod Add
pub mod Order
pub mod Lookup
pub mod Inorder
pub mod Context
pub mod Relink
pub mod Inherit
pub mod Unhook
pub mod Replacement
pub mod Delete
mod Tests
use ulppk.Base.{ℕ, zero, suc, ◌+◌, Bool, true, false, Option, none, some}
use mathlib.Core.Option
use ulppk.Base.{◌==◌, if◌then◌else◌, not, u16}

-- `TREE_NODE`
pub record TreeNode : Type 0 where
  pub tr_left : ℕ
  pub tr_right : ℕ
  pub tr_parent : ℕ
  pub tr_count : ℕ

pub record TreeStore : Type 0 where
  pub tree : ℕ
  pub node : ℕ → TreeNode

-- The result code of a comparison function: negative, zero or positive.
pub data Code : Type 0 where
  below : Code
  same : Code
  above : Code

abbrev pub put_node : (ℕ → TreeNode) → ℕ → TreeNode → ℕ → TreeNode
put_node node p n q = if q == p then n else node q

abbrev pub set_left : TreeStore → ℕ → ℕ → TreeStore
set_left s p v =
    let n = s.node p in record s { node = put_node s.node p (record n { tr_left = v }) }

abbrev pub set_right : TreeStore → ℕ → ℕ → TreeStore
set_right s p v =
    let n = s.node p in record s { node = put_node s.node p (record n { tr_right = v }) }

abbrev pub set_parent : TreeStore → ℕ → ℕ → TreeStore
set_parent s p v =
    let n = s.node p in record s { node = put_node s.node p (record n { tr_parent = v }) }

-- A new node as a leaf below `parent`.
abbrev pub leaf_of : TreeNode → ℕ → TreeNode
leaf_of n parent = record n { tr_parent = parent; tr_left = 0; tr_right = 0 }

abbrev pub as_leaf : TreeStore → ℕ → ℕ → TreeStore
as_leaf s newnode parent = record s {
  node = put_node s.node newnode (leaf_of (s.node newnode) parent);
}

-- The count is a `ushort`.
abbrev pub count_hit : TreeStore → ℕ → TreeStore
count_hit s p =
    let n = s.node p in
    record s { node = put_node s.node p (record n { tr_count = u16 (n.tr_count + 1) }) }

unfoldable pub bt_insert : ℕ → TreeStore → ℕ → ℕ → (ℕ → ℕ → Code) → Option (Code × TreeStore)
bt_insert zero s tree newnode compare_function = none
bt_insert (suc fuel) s tree newnode compare_function = elim (compare_function tree newnode) [
  | below ↦
      let left = (s.node tree).tr_left in
      let deeper = bt_insert fuel s left newnode compare_function in
      if left == 0 then some (below, set_left (as_leaf s newnode tree) tree newnode) else deeper
  | above ↦
      let right = (s.node tree).tr_right in
      let deeper = bt_insert fuel s right newnode compare_function in
      if right == 0 then some (above, set_right (as_leaf s newnode tree) tree newnode) else deeper
  | same ↦ some (same, count_hit s tree)
]

-- The first node of a tree is reported as one that went to the left.
unfoldable pub bt_add : ℕ → TreeStore → ℕ → (ℕ → ℕ → Code) → Option (Code × TreeStore)
unfolding bt_insert
bt_add fuel s newnode compare_function =
    let root = s.tree in
    let left = (s.node root).tr_left in
    let right = (s.node root).tr_right in
    if root == 0
    then some (below, as_leaf (record s { tree = newnode }) newnode 0)
    else elim (compare_function root newnode) [
      | below ↦
          if left == 0
          then some (below, set_left (as_leaf s newnode root) root newnode)
          else bt_insert fuel s left newnode compare_function
      | above ↦
          if right == 0
          then some (above, set_right (as_leaf s newnode root) root newnode)
          else bt_insert fuel s right newnode compare_function
      | same ↦ some (same, count_hit s root)
    ]

-- The comparison function with the criteria; NULL is no match.
unfoldable pub bt_search : ℕ → TreeStore → ℕ → (ℕ → Code) → Option ℕ
bt_search zero s tree compare_function = none
bt_search (suc fuel) s tree compare_function =
    let found : Option ℕ = elim (compare_function tree) [
      | below ↦ bt_search fuel s (s.node tree).tr_left compare_function
      | same ↦ some tree
      | above ↦ bt_search fuel s (s.node tree).tr_right compare_function
    ] in
    if tree == 0 then some 0 else found

-- A pointer further on, or the child itself if there is none.
abbrev pub or_child : ℕ → Option ℕ → Option ℕ
or_child child none = none
or_child child (some next) = some (if next == 0 then child else next)

unfoldable pub bt_leftmost : ℕ → TreeStore → ℕ → Option ℕ
bt_leftmost zero s subtree = none
bt_leftmost (suc fuel) s subtree =
    let leftchild = (s.node subtree).tr_left in
    let deeper = or_child leftchild (bt_leftmost fuel s leftchild) in
    if subtree == 0 then some 0 else if leftchild == 0 then some 0 else deeper

unfoldable pub bt_rightmost : ℕ → TreeStore → ℕ → Option ℕ
bt_rightmost zero s subtree = none
bt_rightmost (suc fuel) s subtree =
    let rightchild = (s.node subtree).tr_right in
    let deeper = or_child rightchild (bt_rightmost fuel s rightchild) in
    if subtree == 0 then none else if rightchild == 0 then some 0 else deeper

-- The action has the argument record as its state, and returns false to stop.
module _ {A : Type 0} (action : A → ℕ → A × Bool) where
  abbrev pub then_visit : (A → Option (ℕ × A)) → Option (ℕ × A) → Option (ℕ × A)
  then_visit visit none = none
  then_visit visit (some (lnode, arg)) = if lnode == 0 then visit arg else some (lnode, arg)

  -- The last node, or NULL after the whole tree, and the argument record.
  unfoldable pub bt_inorder : ℕ → TreeStore → ℕ → A → Option (ℕ × A)
  bt_inorder zero s tree argbuff = none
  bt_inorder (suc fuel) s tree argbuff =
      let left = (s.node tree).tr_left in
      let right = (s.node tree).tr_right in
      let first = bt_inorder fuel s left argbuff in
      let visit = λ (arg : A).
        (let (arg1, flag) = action arg tree in
          let second = bt_inorder fuel s right arg1 in
          if not flag then some (tree, arg1) else if right == 0 then some (0, arg1) else second) in
      if tree == 0 then none else then_visit visit (if left == 0 then some (0, argbuff) else first)

-- The links of the children are not changed: they still name the old node as their parent.
unfoldable pub bt_replace : TreeStore → ℕ → ℕ → TreeStore
bt_replace s oldnode newnode =
    let parent = (s.node oldnode).tr_parent in
    let linked =
      if s.tree == oldnode
      then record s { tree = newnode }
      else if (s.node parent).tr_left == oldnode
      then set_left s parent newnode
      else set_right s parent newnode in
    let moved = record linked { node = put_node linked.node newnode (linked.node oldnode) } in
    if s.tree == 0 then s else moved

-- The parent's link to `node`, or the root pointer, becomes `repnode`.
abbrev pub relink : TreeStore → ℕ → ℕ → TreeStore
relink s node repnode =
    let parent = (s.node node).tr_parent in
    if parent == 0
    then record s { tree = repnode }
    else if (s.node parent).tr_left == node
    then set_left s parent repnode
    else set_right s parent repnode

-- `p->tr_parent = v` if `p` is not NULL
abbrev pub adopt : TreeStore → ℕ → ℕ → TreeStore
adopt s p v = if p == 0 then s else set_parent s p v

abbrev pub adopt_children : TreeStore → ℕ → TreeStore
adopt_children s repnode =
    let s1 = adopt s (s.node repnode).tr_right repnode in adopt s1 (s1.node repnode).tr_left repnode

-- `repnode` gets the links of `node`, but keeps its own one on the side on which it is the child.
abbrev pub inherit_left : TreeStore → ℕ → ℕ → TreeStore
inherit_left s2 node repnode =
    let s3 = set_parent s2 repnode (s2.node node).tr_parent in
    let s4 =
      if (s3.node node).tr_left == repnode
      then s3
      else set_left s3 repnode (s3.node node).tr_left in
    set_right s4 repnode (s4.node node).tr_right

abbrev pub inherit_right : TreeStore → ℕ → ℕ → TreeStore
inherit_right s2 node repnode =
    let s3 = set_parent s2 repnode (s2.node node).tr_parent in
    let s4 =
      if (s3.node node).tr_right == repnode
      then s3
      else set_right s3 repnode (s3.node node).tr_right in
    set_left s4 repnode (s4.node node).tr_left

-- `repnode`, whose only child is on the left, is taken out below `parent`.
abbrev pub unhook_right : TreeStore → ℕ → ℕ → TreeStore
unhook_right s parent repnode =
    let t = set_right s parent (s.node repnode).tr_left in adopt t (t.node parent).tr_right parent

abbrev pub unhook_left : TreeStore → ℕ → ℕ → TreeStore
unhook_left s parent repnode =
    let t = set_left s parent (s.node repnode).tr_right in adopt t (t.node parent).tr_left parent

-- `repnode` is the rightmost node on the left of `node`.
unfoldable pub replace_from_left : TreeStore → ℕ → ℕ → TreeStore
replace_from_left s node repnode =
    let parent = (s.node repnode).tr_parent in
    let s1 = if parent == node then s else unhook_right s parent repnode in
    adopt_children (inherit_left (relink s1 node repnode) node repnode) repnode

-- `repnode` is the leftmost node on the right of `node`.
unfoldable pub replace_from_right : TreeStore → ℕ → ℕ → TreeStore
replace_from_right s node repnode =
    let parent = (s.node repnode).tr_parent in
    let s1 = if parent == node then s else unhook_left s parent repnode in
    adopt_children (inherit_right (relink s1 node repnode) node repnode) repnode

unfoldable pub bt_del : ℕ → TreeStore → ℕ → Option TreeStore
unfolding bt_leftmost bt_rightmost replace_from_left replace_from_right
bt_del fuel s node =
    let left = (s.node node).tr_left in
    let right = (s.node node).tr_right in
    if s.tree == 0
    then some s
    else if not (left == 0)
    then Option.map (replace_from_left s node) (or_child left (bt_rightmost fuel s left))
    else if not (right == 0)
    then Option.map (replace_from_right s node) (or_child right (bt_leftmost fuel s right))
    else some (relink s node 0)

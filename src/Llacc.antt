-- ===== src/Llacc.antt =====
-- ulppk/llacc.c: singly linked lists behind a header with front and back pointers. A pointer is a
-- number, 0 is NULL. The store holds one header and the nodes.
pub mod Shape
pub mod Add
pub mod Take
pub mod Pluck
pub mod Insert
pub mod Drain
mod Tests
use ulppk.Base.{ℕ, zero, suc, ◌+◌, ◌-◌, Bool, true, false, ltb, ◌==◌, if◌then◌else◌, u16}
use ulppk.Base.{Option, none, some, List, [], ◌∷◌}

-- `LL_NODE`, with the address of the user's data.
pub record Node : Type 0 where
  pub link : ℕ
  pub user_data : ℕ

-- `LL_HEAD` and the nodes by address.
pub record Store : Type 0 where
  pub ll_fptr : ℕ
  pub ll_bptr : ℕ
  pub ll_cnt : ℕ
  pub node : ℕ → Node

-- Where a link is stored: `ll_getfront` passes the header itself as a node.
pub data Place : Type 0 where
  header : Place
  node_at : ℕ → Place

infixl 5 ◌>>=◌
abbrev pub ◌>>=◌ : {A B : Type 0} → Option A → (A → Option B) → Option B
none >>= f = none
some a >>= f = f a

abbrev pub put_link : (ℕ → Node) → ℕ → ℕ → ℕ → Node
put_link node p v q = if q == p then record { link = v; user_data = (node q).user_data } else node q

abbrev pub set_link : Store → ℕ → ℕ → Store
set_link s p v = record s { node = put_link s.node p v }

-- The counter is a `ushort`.
abbrev pub count_up : ℕ → ℕ
count_up n = u16 (n + 1)

abbrev pub count_down : ℕ → ℕ
count_down n = u16 (n + 65535)

unfoldable pub ll_init : Store → Store
ll_init s = record s { ll_fptr = 0; ll_bptr = 0; ll_cnt = 0 }

unfoldable pub ll_ins0 : Store → ℕ → ℕ → Store
ll_ins0 s list_node new_node =
    let s1 = set_link s new_node (s.node list_node).link in set_link s1 list_node new_node

-- The node that is unlinked, and the new store.
unfoldable pub ll_plu0 : Store → Place → ℕ × Store
ll_plu0 s header =
    let target = s.ll_fptr in
    if target == 0 then (target, s) else (target, record s { ll_fptr = (s.node target).link })
ll_plu0 s (node_at p) =
    let target = (s.node p).link in
    if target == 0 then (target, s) else (target, set_link s p (s.node target).link)

unfoldable pub ll_addfront : Store → ℕ → Store
ll_addfront s n =
    if s.ll_fptr == 0
    then (let s1 = set_link s n 0 in
        record s1 { ll_fptr = n; ll_bptr = n; ll_cnt = count_up s1.ll_cnt })
    else (let s1 = record s { ll_fptr = n } in
        let s2 = set_link s1 n s.ll_fptr in record s2 { ll_cnt = count_up s2.ll_cnt })

unfoldable pub ll_addback : Store → ℕ → Store
ll_addback s n =
    if s.ll_fptr == 0
    then (let s1 = set_link s n 0 in
        record s1 { ll_fptr = n; ll_bptr = n; ll_cnt = count_up s1.ll_cnt })
    else (let s1 = set_link (record s { ll_bptr = n }) s.ll_bptr n in
        let s2 = set_link s1 n 0 in record s2 { ll_cnt = count_up s2.ll_cnt })

-- The node is 0 if the list is empty.
unfoldable pub ll_getfront : Store → ℕ × Store
unfolding ll_init ll_plu0
ll_getfront s =
    if s.ll_fptr == 0
    then (0, s)
    else if s.ll_fptr == s.ll_bptr
    then (s.ll_fptr, ll_init s)
    else (let s1 = (ll_plu0 s header).1 in (s.ll_fptr, record s1 { ll_cnt = count_down s1.ll_cnt }))

-- The loop of `ll_search` from a node on; the callback sees the address and the node. `none`
-- means that the rounds ran out before the end of the list.
unfoldable pub search_from : (ℕ → Node → Bool) → Store → ℕ → ℕ → Option ℕ
search_from match s zero p = none
search_from match s (suc fuel) p =
    let rest = search_from match s fuel (s.node p).link in
    if p == 0 then some 0 else if match p (s.node p) then some p else rest

unfoldable pub ll_search : ℕ → Store → (ℕ → Node → Bool) → Option ℕ
unfolding search_from
ll_search fuel s match = search_from match s fuel s.ll_fptr

abbrev pub ll_match_link : ℕ → ℕ → Node → Bool
ll_match_link target p current = current.link == target

-- The end of `ll_getback`, with the predecessor of the back node; `none` is the write through NULL.
abbrev cut_behind : Store → ℕ → Option (ℕ × Store)
unfolding ll_plu0
cut_behind s pred =
    let s1 = (ll_plu0 s (node_at pred)).1 in
    if pred == 0
    then none
    else some (s.ll_bptr, record s1 { ll_bptr = pred; ll_cnt = count_down s1.ll_cnt })

-- `none` is a search that does not end, or the write through a NULL predecessor.
unfoldable pub ll_getback : ℕ → Store → Option (ℕ × Store)
unfolding ll_init ll_plu0 ll_search
ll_getback fuel s =
    if s.ll_fptr == 0
    then some (0, s)
    else if s.ll_fptr == s.ll_bptr
    then some (s.ll_bptr, ll_init s)
    else (do pred ← ll_search fuel s (ll_match_link s.ll_bptr); cut_behind s pred)

-- The flag is true if the node is not on the list.
unfoldable pub ll_pluck : ℕ → Store → ℕ → Option (Bool × Store)
unfolding ll_getfront ll_getback ll_search ll_plu0
ll_pluck fuel s n =
    if s.ll_fptr == n
    then some (false, (ll_getfront s).1)
    else if s.ll_bptr == n
    then (do r ← ll_getback fuel s; some (false, r.1))
    else (do
      predecessor ← ll_search fuel s (ll_match_link n)
      if predecessor == 0
          then some (true, s)
          else some (false, (ll_plu0 s (node_at predecessor)).1))

unfoldable pub ll_insert : ℕ → Store → ℕ → ℕ → Option (Bool × Store)
unfolding ll_search ll_ins0
ll_insert fuel s pnode new_node = do
  tnode ← ll_search fuel s (ll_match_link pnode)
  if tnode == 0 then some (true, s) else some (false, ll_ins0 s pnode new_node)

abbrev pub handed : ℕ → Option (List ℕ × Store) → Option (List ℕ × Store)
handed ptr none = none
handed ptr (some (ns, s)) = some (ptr ∷ ns, s)

-- The nodes handed to the return function, in order, and the store afterwards. `none` means that
-- the rounds ran out.
unfoldable pub ll_drain : ℕ → Store → Option (List ℕ × Store)
unfolding ll_getfront
ll_drain zero s = none
ll_drain (suc fuel) s =
    let (ptr, s1) = ll_getfront s in
    let rest = handed ptr (ll_drain fuel s1) in if ptr == 0 then some ([], s1) else rest

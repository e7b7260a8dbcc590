-- ===== src/Llacc/Tests.antt =====
-- Runs of the list functions on three nodes, and the properties there.
use ulppk.Base.{ℕ, ◌≡◌, refl, arith, false, List, [], ◌∷◌, some, if◌then◌else◌, ◌==◌}
use ulppk.Llacc.{Store, Node, ll_pluck, ll_drain}
use ulppk.Llacc.Shape.{IsList, Fresh}
use ulppk.Llacc.Pluck.{Plucked, ll_pluck-Plucked}
use ulppk.Llacc.Insert.{Inserted, ll_insert-Inserted}
use ulppk.Llacc.Drain.{ll_drain_lem}

abbrev three_nodes : ℕ → Node
three_nodes p =
    if p == 10
    then record { link = 20; user_data = 1 }
    else if p == 20
    then record { link = 30; user_data = 2 }
    else record { link = 0; user_data = 3 }

abbrev three : Store
three = record { ll_fptr = 10; ll_bptr = 30; ll_cnt = 3; node = three_nodes }

abbrev names : List ℕ
names = 10 ∷ 20 ∷ 30 ∷ []

three-IsList : IsList three names
three-IsList = record {
  chain = (refl, omega arith, (refl, omega arith, (refl, omega arith, refl)));
  back = refl;
  distinct = ((omega arith, (omega arith, tt)), ((omega arith, tt), (tt, tt)));
}

new_node : Fresh 40 names
new_node = (omega arith, (omega arith, (omega arith, tt)))

ll_pluck-Plucked_example : Plucked 4 three 20 names
ll_pluck-Plucked_example =
    ll_pluck-Plucked 4 three 20 names three-IsList (omega arith) (omega arith)

ll_insert-Inserted_example : Inserted 4 three 20 40 names
ll_insert-Inserted_example =
    ll_insert-Inserted 4 three 20 40 names three-IsList new_node (omega arith) (omega arith)
      (omega arith)

ll_drain_example : (s' : Store) × (ll_drain 4 three ≡ some (names, s')) × IsList s' []
ll_drain_example = ll_drain_lem 4 three names three-IsList (omega arith)

-- The second node goes, and the count still says three.
pluck_second : (s' : Store) × (ll_pluck 4 three 20 ≡ some (false, s')) × (s'.ll_cnt ≡ 3)
unfolding ll_pluck
pluck_second = (_, refl, refl)

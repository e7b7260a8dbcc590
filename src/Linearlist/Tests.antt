-- ===== src/Linearlist/Tests.antt =====
-- The properties on a list of two records of 16 bytes.
use ulppk.Base.{
  ℕ, ◌≡◌, refl, arith, false, List, [], ◌∷◌, ◌++◌, none, some, replicate, ltb, if◌then◌else◌,
}
use mathlib.Core.Path.{subst}
use ulppk.Linearlist.{
  RecordFile, nextx, capacity, linlist_create, linlist_add_record, linlist_delete_recordx,
  mmfor_x2p,
}
use ulppk.Linearlist.Slots.{Holds, items}
use ulppk.Linearlist.Create.{linlist_create-Holds}
use ulppk.Linearlist.Add.{linlist_add_record_lem}
use ulppk.Linearlist.Delete.{linlist_delete_recordx_lem, linlist_delete_recordx_empty, swap_remove}

abbrev fresh : RecordFile
fresh = linlist_create 16 2

fresh-Holds : Holds fresh 0
fresh-Holds = linlist_create-Holds 16 2 (omega arith) (omega arith) (omega arith)

two_free : capacity fresh ≡ 2
unfolding linlist_create
two_free = refl

abbrev ones : List ℕ
ones = replicate 16 1

ones_fit : 16 ≡ fresh.rec_size
unfolding linlist_create
ones_fit = refl

linlist_add_record_example :
    let (recp, f') = linlist_add_record fresh ones in
    let free = ltb 0 (capacity fresh) in
    (recp ≡ (if free then some (mmfor_x2p fresh 1) else none))
    × Holds f' (if free then 1 else 0)
    × (items f' (if free then 1 else 0)
        ≡ (if free then items fresh 0 ++ ones ∷ [] else items fresh 0))
linlist_add_record_example = linlist_add_record_lem fresh 0 ones fresh-Holds ones_fit

abbrev one : RecordFile
one = (linlist_add_record fresh ones).1

one-Holds : Holds one 1
one-Holds =
    subst (λ (c : ℕ). Holds one (if ltb 0 c then 1 else 0)) two_free
      (linlist_add_record_lem fresh 0 ones fresh-Holds ones_fit).1

abbrev twos : List ℕ
twos = replicate 16 2

one_facts : (capacity one ≡ 2) × (16 ≡ one.rec_size)
unfolding linlist_create linlist_add_record
one_facts = (refl, refl)

abbrev two : RecordFile
two = (linlist_add_record one twos).1

two-Holds : Holds two 2
two-Holds =
    subst (λ (c : ℕ). Holds two (if ltb 1 c then 2 else 1)) one_facts.0
      (linlist_add_record_lem one 1 twos one-Holds one_facts.1).1

linlist_delete_recordx_example :
    let (flag, f') = linlist_delete_recordx two 0 in
    (flag ≡ ltb 1 0) × Holds f' 1 × (items f' 1 ≡ swap_remove 0 (items two 2))
linlist_delete_recordx_example = linlist_delete_recordx_lem two 1 0 two-Holds

linlist_delete_recordx_empty_example :
    let (flag, f') = linlist_delete_recordx fresh 1 in (flag ≡ false) × (nextx f' ≡ 0)
linlist_delete_recordx_empty_example =
    linlist_delete_recordx_empty fresh 1 fresh-Holds (omega (arith, two_free))

abbrev first_x : ℕ
first_x = 1

abbrev second_x : ℕ
second_x = 2

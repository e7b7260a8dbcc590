-- ===== src/Dqacc/Tests.antt =====
-- Runs of the deque functions, and the properties at concrete deques.
use ulppk.Base.{ℕ, ◌*◌, ◌<◌, ◌≡◌, refl, arith, true, false, List, [], ◌∷◌, none, some}
use ulppk.Base.{length, replicate, ◌&&◌, not, if◌then◌else◌}
use ulppk.Dqacc.{Deque, dq_init, dq_close, dq_atd, dq_abd, dq_rtd, dq_rbd, dq_isempty}
use ulppk.Dqacc.Spec
use ulppk.Dqacc.Spec.{add_top, add_bottom, remove_top, remove_bottom}
use ulppk.Dqacc.Spec.{Op, to_top, to_bottom, from_top, from_bottom, ask_empty}
use ulppk.Dqacc.Memory.{IsValid}
use ulppk.Dqacc.Refine.{contents}
use ulppk.Dqacc.Run.{run, run_refines, step, step_refines}
use ulppk.Dqacc.Init.{dq_init_undersized, dq_close_lem}

-- Two items of two bytes, the lower one in the last of three slots.
abbrev wrapped : Deque
wrapped = record {
  dq_open = true;
  dqslots = 3;
  dquse = 2;
  dqtop = 0;
  dqbottom = 2;
  dqitem_size = 2;
  memmapped = false;
  buffctrl = false;
  dqbuff = 7 ∷ 8 ∷ 0 ∷ 0 ∷ 5 ∷ 6 ∷ [];
  dqbuffx = 0;
  region = [];
}

abbrev script : List (Op (List ℕ))
script =
    to_top (1 ∷ 2 ∷ [])
    ∷ to_bottom (3 ∷ 4 ∷ [])
    ∷ from_bottom
    ∷ to_bottom (3 ∷ 4 ∷ [])
    ∷ from_top
    ∷ from_top
    ∷ ask_empty
    ∷ from_top
    ∷ from_top
    ∷ ask_empty
    ∷ []

wrapped-IsValid : IsValid wrapped
wrapped-IsValid = record {
  opened = refl;
  use_in = omega arith;
  slots_fit = omega arith;
  bottom_in = omega arith;
  top_at = refl;
  offsets_fit = omega arith;
  room = omega arith;
}

contents-wrapped : contents wrapped ≡ (7 ∷ 8 ∷ []) ∷ (5 ∷ 6 ∷ []) ∷ []
contents-wrapped = refl

run-script :
    run wrapped script
    ≡ (false, none)
      ∷ (true, none)
      ∷ (false, some (5 ∷ 6 ∷ []))
      ∷ (false, none)
      ∷ (false, some (1 ∷ 2 ∷ []))
      ∷ (false, some (7 ∷ 8 ∷ []))
      ∷ (false, none)
      ∷ (false, some (3 ∷ 4 ∷ []))
      ∷ (true, none)
      ∷ (true, none)
      ∷ []
unfolding run dq_atd dq_abd dq_rtd dq_rbd dq_isempty
run-script = refl

run_refines_example : run wrapped script ≡ Spec.run 3 ((7 ∷ 8 ∷ []) ∷ (5 ∷ 6 ∷ []) ∷ []) script
run_refines_example = run_refines script wrapped wrapped-IsValid (omega arith)

step_refines_example :
    let (reply, d') = step wrapped from_bottom in
    ((reply, contents d') ≡ Spec.step 3 (contents wrapped) from_bottom)
    × IsValid d'
    × (d'.dqslots ≡ 3)
    × (d'.dqitem_size ≡ 2)
step_refines_example = step_refines wrapped from_bottom wrapped-IsValid tt

dq_init_undersized_example :
    let d = dq_init 1024 64 wrapped in (length d.dqbuff < d.dqslots * d.dqitem_size) × (¬ IsValid d)
dq_init_undersized_example =
    dq_init_undersized 1024 64 wrapped (omega arith) (omega arith) (omega arith)

abbrev mapped : Deque
mapped = record wrapped { region = replicate 60 0 }

dq_close_example :
    let c = dq_close wrapped in
    (dq_atd c (1 ∷ 1 ∷ []) ≡ (true, c))
    × (dq_abd c (1 ∷ 1 ∷ []) ≡ (true, c))
    × (dq_rtd c ≡ (none, c))
    × (dq_rbd c ≡ (none, c))
    × (dq_close c ≡ c)
    × (c.dqbuff ≡ (if true && (not false && not false) then [] else 7 ∷ 8 ∷ 0 ∷ 0 ∷ 5 ∷ 6 ∷ []))
dq_close_example = dq_close_lem wrapped (1 ∷ 1 ∷ [])

-- ===== src/Statemachine/Machines.antt =====
-- ulppk/statemachine.c: new machines, machines that start again, and the stock events.
use ulppk.Base.{◌≡◌, refl, Bool, true, [], ◌∷◌, none, take}
use ulppk.Statemachine.{
  Name, StateTable, Machine, sm_no_error, find_event, clear_err, sm_register_event,
}
use ulppk.Statemachine.Transition.{ev_null, ev_abort}

abbrev pub ev_init : Name
ev_init = b'E' ∷ b'V' ∷ b'i' ∷ b'n' ∷ b'i' ∷ b't' ∷ []

abbrev pub ev_clock : Name
ev_clock = b'E' ∷ b'V' ∷ b'C' ∷ b'l' ∷ b'o' ∷ b'c' ∷ b'k' ∷ []

-- A machine on the heap or in the caller's memory; what was in it is gone.
unfoldable pub sm_new_machine : StateTable → Name → Machine
unfolding find_event
sm_new_machine stdefp machine_name =
    let blank : Machine = record {
      name = take 31 machine_name;
      curr_state = 0;
      prev_state = 0;
      last_event = none;
      stdefp = stdefp;
      event_queue = [];
      txerrors = [];
      smerrno = sm_no_error;
      object_name = [];
    } in
    record blank { last_event = find_event blank ev_init }

unfoldable pub sm_reset_machine : Machine → Machine
unfolding find_event
sm_reset_machine m =
    let m1 : Machine = record m { curr_state = 0; prev_state = 0 } in
    let m2 : Machine = record m1 { last_event = find_event m1 ev_init } in
    clear_err (record m2 { event_queue = []; txerrors = [] })

unfoldable pub sm_register_stock_defs : Machine → Machine
unfolding sm_register_event
sm_register_stock_defs m =
    let m1 = (sm_register_event m ev_null).1 in
    let m2 = (sm_register_event m1 ev_init).1 in
    let m3 = (sm_register_event m2 ev_abort).1 in (sm_register_event m3 ev_clock).1

unfoldable pub sm_set_definition_complete : Machine → Machine
sm_set_definition_complete m =
    let t = m.stdefp in record m { stdefp = record t { statedef_complete = true } }

unfoldable pub sm_get_definition_complete : Machine → Bool
sm_get_definition_complete m = m.stdefp.statedef_complete

-- A machine that starts again is a new one of that name with the same tables. The name is one that a
-- machine can have, of at most 31 characters.
pub sm_reset_machine_lem :
    (m : Machine) → take 31 m.name ≡ m.name → sm_reset_machine m ≡ sm_new_machine m.stdefp m.name
unfolding sm_reset_machine sm_new_machine find_event
sm_reset_machine_lem m e = rw e refl

-- ===== src/Statemachine/Tests.antt =====
-- A machine with two states, and the properties there.
use ulppk.Base.{
  ℕ, ◌+◌, ◌<◌, ◌≤◌, ◌≡◌, refl, arith, true, List, [], ◌∷◌, none, some, length, ltb, All,
  if◌then◌else◌, All-replicate,
}
use ulppk.Statemachine.{
  Name, Machine, sm_no_error, sm_too_many_objects, blank_table, find_event, sm_register_event,
  sm_register_state,
}
use ulppk.Statemachine.{sm_register_action_list, SmTransition, blank_state}
use ulppk.Statemachine.Transition.{
  Handler, sm_register_action, sm_register_transition, sm_register_global_transition, sm_transition,
  ev_null, ev_abort,
}
use ulppk.Statemachine.Transition.{is_named_event, select, own_transitions}
use ulppk.Statemachine.Names.{HoldsEvents, register_name, find_event-index_from}
use ulppk.Statemachine.Registered.{sm_register_event_refines, find_event-sm_register_event}
use ulppk.Statemachine.Reachable.{Closed, KeepsStates, StateLeadsBelow, sm_transition-Closed}
use ulppk.Statemachine.Effect.{
  Ready, NullEvent, Quiet, perform, actions_of, arrived, sm_transition-matched,
}

abbrev start : Machine
start = record {
  name = b'm' ∷ [];
  curr_state = 0;
  prev_state = 0;
  last_event = none;
  stdefp = blank_table;
  event_queue = [];
  txerrors = [];
  smerrno = sm_no_error;
  object_name = [];
}

abbrev go : Name
go = b'g' ∷ b'o' ∷ []

abbrev halt : Name
halt = b'h' ∷ []

-- Events 0 to 3, one action list with two actions, two states, and `go` from the first to the
-- second.
machine : Machine
unfolding sm_register_event sm_register_action_list sm_register_action sm_register_state
    sm_register_transition
machine =
    let m1 = (sm_register_event start ev_null).1 in
    let m2 = (sm_register_event m1 ev_abort).1 in
    let m3 = (sm_register_event m2 go).1 in
    let m4 = (sm_register_event m3 halt).1 in
    let m5 = (sm_register_action_list m4 (b'l' ∷ [])).1 in
    let m6 = (sm_register_action m5 (b'l' ∷ []) (b'a' ∷ []) 5).1 in
    let m7 = (sm_register_action m6 (b'l' ∷ []) (b'b' ∷ []) 7).1 in
    let m8 = (sm_register_state m7 (b's' ∷ [])).1 in
    let m9 = (sm_register_state m8 (b't' ∷ [])).1 in
    let m10 = (sm_register_transition m9 (b's' ∷ []) (b't' ∷ []) go (b'l' ∷ [])).1 in
    record m10 { stdefp = record (m10.stdefp) { statedef_complete = true } }

-- Every action returns the null event and adds its number to the data.
abbrev add_number : Handler ℕ
add_number handlerp m d = (0, m, d + handlerp)

add_number_keeps : KeepsStates add_number
add_number_keeps a m d i = (i, omega arith)

go-Ready : Ready machine go 2
unfolding machine find_event is_named_event
go-Ready = record { found = refl; not_null = refl; not_abort = refl; complete = refl; idle = refl }

run_go :
    (m' : Machine) × (sm_transition add_number 3 machine go 1 ≡ some (sm_no_error, m', 13))
    × (m'.curr_state ≡ 1)
unfolding machine sm_transition
run_go = (_, refl, refl)

abbrev names : List Name
names = ev_null ∷ ev_abort ∷ go ∷ halt ∷ []

machine-HoldsEvents : HoldsEvents machine names
unfolding machine
machine-HoldsEvents = record { table = refl; next = refl; room = omega arith }

abbrev clock : Name
clock = b'c' ∷ []

find_event-index_from_example : find_event machine halt ≡ some 3
find_event-index_from_example =
    find_event-index_from machine names machine-HoldsEvents halt (omega arith)

sm_register_event_example :
    let (h, m') = sm_register_event machine clock in
    let (spec, evs') = register_name names clock in (h ≡ spec) × HoldsEvents m' evs'
sm_register_event_example =
    sm_register_event_refines machine names clock machine-HoldsEvents (omega arith)

clock_missing : find_event machine clock ≡ none
unfolding machine find_event
clock_missing = refl

find_registered_example :
    let (h, m') = sm_register_event machine clock in
    (h ≡ some 4) × (find_event m' clock ≡ (if ltb 31 1 then none else h))
find_registered_example =
    find_event-sm_register_event machine names clock machine-HoldsEvents (omega arith) (omega arith)
      clock_missing

machine-Closed : Closed machine.stdefp
unfolding machine
machine-Closed = ((omega arith, tt), (tt, All-replicate (StateLeadsBelow 2) 126 blank_state tt))

at_start : machine.curr_state < machine.stdefp.next_stateh
unfolding machine
at_start = omega arith

abbrev s_to_t : SmTransition
s_to_t = record {
  transition_name = b's' ∷ b'-' ∷ b'g' ∷ b'o' ∷ b'-' ∷ b't' ∷ [];
  eventh = 2;
  alisth = 0;
  s1 = 0;
  s2 = 1;
}

go_matched : select 2 (own_transitions machine) ≡ some s_to_t
unfolding machine
go_matched = refl

machine-NullEvent : NullEvent machine 0
unfolding machine find_event
machine-NullEvent = record { found = refl; named = refl }

go-Quiet : All (Quiet add_number 0) (actions_of add_number machine go 2 1 go-Ready s_to_t)
unfolding machine
go-Quiet = ((λ m d. (refl, refl)), ((λ m d. (refl, refl)), tt))

two_actions : length (actions_of add_number machine go 2 1 go-Ready s_to_t) ≡ 2
unfolding machine
two_actions = refl

sm_transition-matched_example :
    sm_transition add_number 3 machine go 1
    ≡ some (
      sm_no_error,
      arrived add_number machine go 2 1 go-Ready s_to_t,
      perform add_number 0 (actions_of add_number machine go 2 1 go-Ready s_to_t) machine 1,
    )
sm_transition-matched_example =
    sm_transition-matched add_number machine go 2 1 go-Ready 3 0 s_to_t go_matched machine-NullEvent
      go-Quiet (omega (arith, two_actions)) (omega (arith, two_actions))

abbrev second_state : Machine
second_state = arrived add_number machine go 2 1 go-Ready s_to_t

go_arrives :
    sm_transition add_number 3 machine go 1
    ≡ some (
      sm_no_error,
      second_state,
      perform add_number 0 (actions_of add_number machine go 2 1 go-Ready s_to_t) machine 1,
    )
go_arrives =
    sm_transition-matched add_number machine go 2 1 go-Ready 3 0 s_to_t go_matched machine-NullEvent
      go-Quiet (omega (arith, two_actions)) (omega (arith, two_actions))

sm_transition-Closed_example :
    Closed second_state.stdefp
    × (second_state.curr_state < second_state.stdefp.next_stateh)
    × (machine.stdefp.next_stateh ≤ second_state.stdefp.next_stateh)
sm_transition-Closed_example =
    sm_transition-Closed add_number 3 machine second_state go 1
      (perform add_number 0 (actions_of add_number machine go 2 1 go-Ready s_to_t) machine 1)
      sm_no_error add_number_keeps machine-Closed at_start go_arrives

-- A global transition over all slots, two of them registered, fills the first state and fails.
global_fails :
    (m' : Machine) × (sm_register_global_transition machine (b't' ∷ []) halt (b'l' ∷ [])
      ≡ (true, m'))
    × (m'.smerrno ≡ sm_too_many_objects)
unfolding machine sm_register_global_transition
global_fails = (_, refl, refl)

-- ===== src/Statemachine/Transition.antt =====
-- Registering actions and transitions, and running the machine. The action handlers are the
-- application's: a parameter that maps a handler and the application's data to the returned event
-- handle and the new data. They are taken not to change the machine themselves.
use ulppk.Base.{ℕ, zero, suc, ◌+◌, Bool, true, false, not, List, [], ◌∷◌, ◌++◌, Option, none, some}
use ulppk.Base.{leb, ◌==◌, if◌then◌else◌, get_or, set, take, str_eq}
use ulppk.Dqacc.Spec.{add_bottom, remove_top}
use ulppk.Dqacc.Spec.{is_none}
use ulppk.Statemachine.{Name, SmError, SmAction, SmActionList, SmTransition, Machine}
use ulppk.Statemachine.{
  sm_no_error, sm_register_duplicate, sm_object_not_found, sm_parent_object_not_found,
}
use ulppk.Statemachine.{sm_too_many_objects, sm_machine_abort, sm_machine_def_not_complete}
use ulppk.Statemachine.{
  blank_event, blank_list, blank_state, stored_name, set_diag, clear_err, find_event, find_state,
  find_action_list,
}

-- `ll_search` with `match_actname` on the list of actions.
unfoldable pub find_action : List SmAction → Name → Bool
find_action [] action_name = false
find_action (a ∷ acts) action_name =
    if str_eq a.action_name action_name then true else find_action acts action_name

unfoldable pub sm_register_action : Machine → Name → Name → ℕ → Option ℕ × Machine
unfolding find_action find_action_list
sm_register_action machine actlist_name name handlerp =
    let m = clear_err machine in go m (find_action_list m actlist_name)
  where
    add : Machine → ℕ → SmActionList → Option ℕ × Machine
    add m alh l = (
      some m.stdefp.next_acth,
      record m {
        stdefp = record (m.stdefp) {
          next_acth = m.stdefp.next_acth + 1;
          actlists = set m.stdefp.actlists alh (record l {
            actions =
                l.actions
                ++ record {
                  actionh = m.stdefp.next_acth;
                  action_name = stored_name name;
                  handlerp = handlerp;
                }
                  ∷ [];
          });
        };
      },
    )

    go : Machine → Option ℕ → Option ℕ × Machine
    go m none = (none, set_diag m sm_parent_object_not_found actlist_name)
    go m (some alh) =
        let l = get_or m.stdefp.actlists alh blank_list in
        if find_action l.actions name
        then (none, set_diag m sm_register_duplicate name)
        else add m alh l

abbrev pub make_transition_name : Name → Name → Name → Name
make_transition_name s1name evname s2name =
    take 31 s1name ++ b'-' ∷ (take 31 evname ++ b'-' ∷ take 31 s2name)

unfoldable pub add_transition : Machine → Name → ℕ → ℕ → ℕ → ℕ → Option ℕ × Machine
add_transition m txname st1h st2h evh alh =
    let st = get_or m.stdefp.states st1h blank_state in
    if leb 32 st.next_txh then (none, set_diag m sm_too_many_objects txname) else (
      some st.next_txh,
      record m {
        stdefp = record (m.stdefp) {
          states = set m.stdefp.states st1h (record st {
            next_txh = st.next_txh + 1;
            transitions = set st.transitions st.next_txh (record {
              transition_name = txname;
              eventh = evh;
              alisth = alh;
              s1 = st1h;
              s2 = st2h;
            });
          });
        };
      },
    )

-- The four names are checked in the source's order.
unfoldable pub sm_register_transition : Machine → Name → Name → Name → Name → Option ℕ × Machine
unfolding find_state find_event find_action_list add_transition
sm_register_transition m s1name s2name evname actlist_name = elim (find_state m s1name) [
  | none ↦ (none, set_diag m sm_object_not_found s1name)
  | some st1h ↦ elim (find_state m s2name) [
    | none ↦ (none, set_diag m sm_object_not_found s2name)
    | some st2h ↦ elim (find_event m evname) [
      | none ↦ (none, set_diag m sm_object_not_found evname)
      | some evh ↦ elim (find_action_list m actlist_name) [
        | none ↦ (none, set_diag m sm_object_not_found actlist_name)
        | some alh ↦ add_transition m (make_transition_name s1name evname s2name) st1h st2h evh alh
      ]
    ]
  ]
]

-- The loop over the slots from `st1h` on, registered or not; true is a failure.
unfoldable pub register_from : ℕ → ℕ → Machine → Name → Name → Name → Bool × Machine
unfolding sm_register_transition
register_from zero st1h m s2name evname actlist_name = (false, m)
register_from (suc slots) st1h m s2name evname actlist_name =
    let s1name = (get_or m.stdefp.states st1h blank_state).state_name in
    let (stxh, m1) = sm_register_transition m s1name s2name evname actlist_name in
    let rest = register_from slots (suc st1h) m1 s2name evname actlist_name in
    if is_none stxh then (true, m1) else rest

unfoldable pub sm_register_global_transition : Machine → Name → Name → Name → Bool × Machine
unfolding register_from
sm_register_global_transition m s2name evname actlist_name =
    register_from 128 0 m s2name evname actlist_name

abbrev pub ev_null : Name
ev_null = b'E' ∷ b'V' ∷ b'n' ∷ b'u' ∷ b'l' ∷ b'l' ∷ []

abbrev pub ev_abort : Name
ev_abort = b'E' ∷ b'V' ∷ b'a' ∷ b'b' ∷ b'o' ∷ b'r' ∷ b't' ∷ []

abbrev pub event_named : Machine → ℕ → Name
event_named m evh = (get_or m.stdefp.events evh blank_event).event_name

unfoldable pub is_named_event : Machine → ℕ → Name → Bool
is_named_event m evh name = str_eq (event_named m evh) name

-- The error queue holds 16; when it is full the error is lost.
unfoldable pub push_txdiag : Machine → SmError → ℕ → Machine
unfolding add_bottom
push_txdiag m err evh = record m {
  txerrors =
      (add_bottom 16 m.txerrors (record {
        smerror = err;
        state_name = (get_or m.stdefp.states m.curr_state blank_state).state_name;
        event_name = event_named m evh;
      })).1;
}

-- The first transition for the event.
abbrev pub select : ℕ → List SmTransition → Option SmTransition
select evh [] = none
select evh (t ∷ ts) = if t.eventh == evh then some t else select evh ts

-- The transitions of the current state that are registered.
abbrev pub own_transitions : Machine → List SmTransition
own_transitions m =
    let state1 = get_or m.stdefp.states m.curr_state blank_state in
    take state1.next_txh state1.transitions

-- What a call has come to when it has looked the event up: a return, or the loop over the queue.
pub data Entry (D : Type 0) : Type 0 where
  returned : SmError → Machine → D → Entry D
  entered : Machine → D → Entry D

-- The result of a call; `none` means that the rounds ran out.
abbrev pub Result : Type 0 → Type 0
Result D = Option (SmError × Machine × D)

-- The handler of an action gets the machine, and may change it; the number is the pointer to the
-- function.
abbrev pub Handler : Type 0 → Type 0
Handler D = ℕ → Machine → D → ℕ × Machine × D

-- The queue of events holds 32; when it is full the event is lost.
abbrev pub queue_event : Machine → ℕ → Machine
queue_event m evh = record m { event_queue = (add_bottom 32 m.event_queue evh).1 }

module _ {D : Type 0} (handler : Handler D) where
  -- Runs the actions in order and queues their events. The list is the one at the start: an action
  -- is taken not to change the transition that is under way or its list, nor to point the machine to
  -- other tables; it may add to these and change the rest of the machine.
  unfoldable pub run_actions : List SmAction → Machine → D → Machine × D
  unfolding add_bottom
  run_actions [] m d = (m, d)
  run_actions (a ∷ acts) m d =
      let (evh, m1, d1) = handler a.handlerp m d in run_actions acts (queue_event m1 evh) d1

  unfoldable pub take_transition : Machine → SmTransition → D → Machine × D
  unfolding run_actions
  take_transition m t d =
      let actions = (get_or m.stdefp.actlists t.alisth blank_list).actions in
      let (m1, d1) = run_actions actions m d in
      (record m1 { prev_state = m1.curr_state; curr_state = t.s2; last_event = some t.eventh }, d1)

  unfoldable pub fire : Machine → Option SmTransition → D → Entry D
  unfolding take_transition
  fire m none d = entered m d
  fire m (some t) d = let (m1, d1) = take_transition m t d in entered m1 d1

  -- The tests on an event that was found, in the source's order.
  unfoldable pub enter_found : Machine → Name → D → Option ℕ → Entry D
  unfolding is_named_event fire
  enter_found m event_name d none =
      returned sm_object_not_found (set_diag m sm_object_not_found event_name) d
  enter_found m event_name d (some evh) =
      if is_named_event m evh ev_null
      then returned sm_no_error m d
      else if is_named_event m evh ev_abort
      then returned sm_machine_abort m d
      else if not m.stdefp.statedef_complete
      then returned sm_machine_def_not_complete (set_diag m sm_machine_def_not_complete m.name) d
      else fire m (select evh (own_transitions m)) d

  -- The first half of `sm_transition`, up to the loop over the queue.
  unfoldable pub enter : Machine → Name → D → Entry D
  unfolding find_event enter_found
  enter m event_name d = enter_found m event_name d (find_event m event_name)

  abbrev pub after_entry : (Machine → D → Result D) → Entry D → Result D
  after_entry loop (returned status m d) = some (status, m, d)
  after_entry loop (entered m d) = loop m d

  -- The end of a round: the next one, or the diagnosis of a failed status.
  unfoldable pub after_call : (Machine → D → Result D) → ℕ → Result D → Result D
  unfolding push_txdiag
  after_call loop evh none = none
  after_call loop evh (some (sm_no_error, m, d)) = loop m d
  after_call loop evh (some (status, m, d)) =
      some (status, push_txdiag (set_diag m status m.name) status evh, d)

  unfoldable pub next_round : (Machine → D → Result D) → Machine → D → Option ℕ × List ℕ → Result D
  unfolding enter after_call
  next_round loop m d (none, queue) = some (sm_no_error, m, d)
  next_round loop m d (some evh, queue) =
      let m1 = record m { event_queue = queue } in
      after_call loop evh (after_entry loop (enter m1 (event_named m1 evh) d))

  -- The loop over the queue; each round calls `sm_transition`, which empties the queue itself.
  unfoldable pub drain : ℕ → Machine → D → Result D
  unfolding remove_top next_round
  drain zero m d = none
  drain (suc rounds) m d = next_round (λ m1 d1. drain rounds m1 d1) m d (remove_top m.event_queue)

  unfoldable pub sm_transition : ℕ → Machine → Name → D → Result D
  unfolding drain enter
  sm_transition rounds m event_name d =
      after_entry (λ m1 d1. drain rounds m1 d1) (enter m event_name d)

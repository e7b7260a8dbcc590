-- ===== src/Statemachine.antt =====
-- ulppk/statemachine.c: tables of events, states, action lists and transitions, and the machine
-- that runs on them. `none` is SM_NULL_HANDLE. The names, which are cut to 31 characters, are
-- lists of bytes. A queue is the bounded sequence that a deque made by `dq_init` behaves as.
pub mod Names
pub mod Transition
pub mod Registered
pub mod Reachable
pub mod Effect
pub mod Machines
mod Tests
use ulppk.Base.{
  ℕ, zero, suc, ◌+◌, ◌∙◌, Bool, true, false, not, List, [], ◌∷◌, ◌++◌, Option, none, some,
}
use ulppk.Base.{ltb, ◌==◌, if◌then◌else◌, length, get_or, set, replicate, take, str_eq}
use ulppk.Dqacc.Spec.{add_bottom, remove_top}
use ulppk.Dqacc.Spec.{is_none}

abbrev pub Name : Type 0
Name = List ℕ

-- `SM_ERROR`
pub data SmError : Type 0 where
  sm_no_error : SmError
  sm_register_duplicate : SmError
  sm_object_not_found : SmError
  sm_parent_object_not_found : SmError
  sm_too_many_objects : SmError
  sm_machine_abort : SmError
  sm_machine_def_not_complete : SmError

pub record SmEvent : Type 0 where
  pub eventh : ℕ
  pub event_name : Name

-- The handler is the number that the application's actions go by.
pub record SmAction : Type 0 where
  pub actionh : ℕ
  pub action_name : Name
  pub handlerp : ℕ

pub record SmActionList : Type 0 where
  pub alh : ℕ
  pub al_name : Name
  pub actions : List SmAction

pub record SmTransition : Type 0 where
  pub transition_name : Name
  pub eventh : ℕ
  pub alisth : ℕ
  pub s1 : ℕ
  pub s2 : ℕ

pub record SmState : Type 0 where
  pub stateh : ℕ
  pub state_name : Name
  pub next_txh : ℕ
  pub transitions : List SmTransition

pub record StateTable : Type 0 where
  pub statedef_complete : Bool
  pub next_stateh : ℕ
  pub next_eventh : ℕ
  pub next_alx : ℕ
  pub next_acth : ℕ
  pub states : List SmState
  pub events : List SmEvent
  pub actlists : List SmActionList

pub record TxError : Type 0 where
  pub smerror : SmError
  pub state_name : Name
  pub event_name : Name

pub record Machine : Type 0 where
  pub name : Name
  pub curr_state : ℕ
  pub prev_state : ℕ
  pub last_event : Option ℕ
  pub stdefp : StateTable
  pub event_queue : List ℕ
  pub txerrors : List TxError
  pub smerrno : SmError
  pub object_name : Name

abbrev pub blank_event : SmEvent
blank_event = record { eventh = 0; event_name = [] }

abbrev pub blank_list : SmActionList
blank_list = record { alh = 0; al_name = []; actions = [] }

abbrev pub blank_transition : SmTransition
blank_transition = record { transition_name = []; eventh = 0; alisth = 0; s1 = 0; s2 = 0 }

abbrev pub blank_state : SmState
blank_state = record {
  stateh = 0;
  state_name = [];
  next_txh = 0;
  transitions = replicate 32 blank_transition;
}

-- A zeroed table.
abbrev pub blank_table : StateTable
blank_table = record {
  statedef_complete = false;
  next_stateh = 0;
  next_eventh = 0;
  next_alx = 0;
  next_acth = 0;
  states = replicate 128 blank_state;
  events = replicate 256 blank_event;
  actlists = replicate 256 blank_list;
}

-- `strncpy` into a zeroed name field of 32 bytes.
abbrev pub stored_name : Name → Name
stored_name name = take 31 name

abbrev pub set_diag : Machine → SmError → Name → Machine
set_diag m err objname = record m { smerrno = err; object_name = objname }

abbrev pub clear_err : Machine → Machine
clear_err m = record m { smerrno = sm_no_error; object_name = [] }

-- The search of a whole table, registered or not, for a name.
module _ {A : Type 0} (key : A → Name) (handle : A → ℕ) where
  abbrev pub find_by : List A → Name → Option ℕ
  find_by [] name = none
  find_by (x ∷ xs) name = if str_eq name (key x) then some (handle x) else find_by xs name

unfoldable pub find_event : Machine → Name → Option ℕ
find_event m eventname = find_by (λ e. e.event_name) (λ e. e.eventh) m.stdefp.events eventname

unfoldable pub find_state : Machine → Name → Option ℕ
find_state m statename = find_by (λ s. s.state_name) (λ s. s.stateh) m.stdefp.states statename

unfoldable pub find_action_list : Machine → Name → Option ℕ
find_action_list m actlist_name =
    find_by (λ l. l.al_name) (λ l. l.alh) m.stdefp.actlists actlist_name

-- A full table gives the null handle and no diagnosis.
unfoldable pub sm_register_event : Machine → Name → Option ℕ × Machine
unfolding find_event
sm_register_event machine name =
    let m = clear_err machine in
    let h = m.stdefp.next_eventh in
    if is_none (find_event m name)
    then (if ltb h 256
        then (
          some h,
          record m {
            stdefp = record (m.stdefp) {
              events = set m.stdefp.events h (record { eventh = h; event_name = stored_name name });
              next_eventh = h + 1;
            };
          },
        )
        else (none, m))
    else (none, set_diag m sm_register_duplicate name)

unfoldable pub sm_register_action_list : Machine → Name → Option ℕ × Machine
unfolding find_action_list
sm_register_action_list machine name =
    let m = clear_err machine in
    let h = m.stdefp.next_alx in
    if is_none (find_action_list m name)
    then (if ltb h 256
        then (
          some h,
          record m {
            stdefp = record (m.stdefp) {
              actlists =
                  set m.stdefp.actlists h
                    (record { alh = h; al_name = stored_name name; actions = [] });
              next_alx = h + 1;
            };
          },
        )
        else (none, m))
    else (none, set_diag m sm_register_duplicate name)

-- The table has no bound here: past 128 states the record is written behind the array, which is
-- modelled as a write that is lost.
unfoldable pub sm_register_state : Machine → Name → Option ℕ × Machine
unfolding find_state
sm_register_state m name =
    let sth = m.stdefp.next_stateh in
    let slot = get_or m.stdefp.states sth blank_state in
    if is_none (find_state m name)
    then (
      some sth,
      record m {
        stdefp = record (m.stdefp) {
          next_stateh = sth + 1;
          states =
              set m.stdefp.states sth
                (record slot { next_txh = 0; stateh = sth; state_name = stored_name name });
        };
      },
    )
    else (none, set_diag m sm_register_duplicate name)

-- ===== src/Statemachine/Reachable.antt =====
-- What every call of `sm_transition` keeps.
use ulppk.Base.{ℕ, zero, suc, ◌<◌, ◌≤◌, arith, ◌≡◌, sym, Bool, true, false, not, ◌==◌}
use ulppk.Base.{List, [], ◌∷◌, Option, none, some, get_or, take, All, All-get_or}
use ulppk.Base.{if◌then◌else◌, if-true, if-false, inl, inr, Bool-cases}
use mathlib.Core.Path.{subst}
use ulppk.Dqacc.Spec.{remove_top}
use ulppk.Statemachine.{Name, SmError, SmTransition, SmState, StateTable, Machine, find_event}
use ulppk.Statemachine.{
  sm_no_error, sm_register_duplicate, sm_object_not_found, sm_parent_object_not_found,
  sm_too_many_objects, sm_machine_abort, sm_machine_def_not_complete, blank_state, blank_list,
  SmAction,
}
use ulppk.Statemachine.Transition.{
  Handler, Entry, returned, entered, Result, queue_event, run_actions, take_transition, fire, enter,
  enter_found, after_entry,
}
use ulppk.Statemachine.Transition.{
  after_call, next_round, drain, sm_transition, select, own_transitions, ev_null, ev_abort,
}
use ulppk.Statemachine.Transition.{is_named_event, event_named, push_txdiag}

-- Every registered transition leads to a state below `n`.
abbrev pub LeadBelow : ℕ → List SmTransition → Type 0
LeadBelow n = All (λ t. t.s2 < n)

abbrev pub StateLeadsBelow : ℕ → SmState → Type 0
StateLeadsBelow n st = LeadBelow n (take st.next_txh st.transitions)

-- Every registered transition leads to a registered state.
abbrev pub Closed : StateTable → Type 0
Closed table = All (StateLeadsBelow table.next_stateh) table.states

-- Every registered transition leads to a registered state, and the machine is in one.
abbrev pub InRegistered : Machine → Type 0
InRegistered m = Closed m.stdefp × (m.curr_state < m.stdefp.next_stateh)

-- What a handler does to a machine in a registered state: it may register more states, but leaves
-- every transition to a registered state, and the machine in one.
abbrev pub KeepsStates : {D : Type 0} → Handler D → Type 0
KeepsStates {D} handler =
    (a : ℕ) (m : Machine) (d : D)
    → InRegistered m
    → InRegistered (handler a m d).1 × (m.stdefp.next_stateh ≤ (handler a m d).1.stdefp.next_stateh)

module _ {D : Type 0} (handler : Handler D) (keeps_states : KeepsStates handler) (n : ℕ) where
  -- The machine is in a registered state, and at least `n` states are registered.
  abbrev InTable : Machine → Type 0
  InTable m = InRegistered m × (n ≤ m.stdefp.next_stateh)

  abbrev Kept : Result D → Type 0
  Kept none = Unit
  Kept (some (status, m, d)) = InTable m

  abbrev KeptEntry : Entry D → Type 0
  KeptEntry (returned status m d) = InTable m
  KeptEntry (entered m d) = InTable m

  abbrev KeptOption : ℕ → Option SmTransition → Type 0
  KeptOption k none = Unit
  KeptOption k (some t) = t.s2 < k

  select_lem : (k evh : ℕ) (ts : List SmTransition) → LeadBelow k ts → KeptOption k (select evh ts)
  select_lem k evh [] h = tt
  select_lem k evh (t ∷ ts) h = elim (Bool-cases (t.eventh == evh)) [
    | inl q ↦ subst (KeptOption k) (sym (if-true _ _ q)) h.0
    | inr q ↦ subst (KeptOption k) (sym (if-false _ _ q)) (select_lem k evh ts h.1)
  ]

  run_actions_lem :
      (acts : List SmAction) (m : Machine) (d : D)
      → InRegistered m
      → InRegistered (run_actions handler acts m d).0
        × (m.stdefp.next_stateh ≤ (run_actions handler acts m d).0.stdefp.next_stateh)
  unfolding run_actions
  run_actions_lem [] m d i = (i, omega arith)
  run_actions_lem (a ∷ acts) m d i =
      let (i1, le1) = keeps_states a.handlerp m d i in
      let m1 = (handler a.handlerp m d).1 in
      let (i2, le2) =
        run_actions_lem acts (queue_event m1 (handler a.handlerp m d).0) (handler a.handlerp m d).2
          i1 in
      (i2, omega (arith, le1, le2))

  fire_lem :
      (m : Machine) (t : Option SmTransition) (d : D)
      → InTable m
      → KeptOption m.stdefp.next_stateh t
      → KeptEntry (fire handler m t d)
  unfolding fire take_transition
  fire_lem m none d i k = i
  fire_lem m (some t) d (i, le) k =
      let acts = (get_or m.stdefp.actlists t.alisth blank_list).actions in
      let (i1, le1) = run_actions_lem acts m d i in
      ((i1.0, omega (arith, k, le1)), omega (arith, le, le1))

  own :
      (m : Machine) (evh : ℕ)
      → InTable m
      → KeptOption m.stdefp.next_stateh (select evh (own_transitions m))
  own m evh (i, le) = select_lem m.stdefp.next_stateh evh (own_transitions m) (
      All-get_or (StateLeadsBelow m.stdefp.next_stateh) m.stdefp.states m.curr_state blank_state i.0
        tt)

  kept_if : (b : Bool) (x y : Entry D) → KeptEntry x → KeptEntry y → KeptEntry (if b then x else y)
  kept_if true x y p q = p
  kept_if false x y p q = q

  enter_found_lem :
      (m : Machine) (name : Name) (d : D) (e : Option ℕ)
      → InTable m
      → KeptEntry (enter_found handler m name d e)
  unfolding enter_found
  enter_found_lem m name d none i = i
  enter_found_lem m name d (some evh) i = kept_if (is_named_event m evh ev_null) _ _ i (
      kept_if (is_named_event m evh ev_abort) _ _ i (
        kept_if (not m.stdefp.statedef_complete) _ _ i
          (fire_lem m (select evh (own_transitions m)) d i (own m evh i))))

  enter_lem : (m : Machine) (name : Name) (d : D) → InTable m → KeptEntry (enter handler m name d)
  unfolding enter
  enter_lem m name d i = enter_found_lem m name d (find_event m name) i

  module _ (loop : Machine → D → Result D)
      (keeps : (m : Machine) (d : D) → InTable m → Kept (loop m d)) where
    after_entry_lem : (e : Entry D) → KeptEntry e → Kept (after_entry handler loop e)
    after_entry_lem (returned status m d) k = k
    after_entry_lem (entered m d) k = keeps m d k

    after_call_lem : (evh : ℕ) (r : Result D) → Kept r → Kept (after_call handler loop evh r)
    unfolding after_call push_txdiag
    after_call_lem evh none k = tt
    after_call_lem evh (some (sm_no_error, m, d)) k = keeps m d k
    after_call_lem evh (some (sm_register_duplicate, m, d)) k = k
    after_call_lem evh (some (sm_object_not_found, m, d)) k = k
    after_call_lem evh (some (sm_parent_object_not_found, m, d)) k = k
    after_call_lem evh (some (sm_too_many_objects, m, d)) k = k
    after_call_lem evh (some (sm_machine_abort, m, d)) k = k
    after_call_lem evh (some (sm_machine_def_not_complete, m, d)) k = k

    next_round_lem :
        (m : Machine) (d : D) (r : Option ℕ × List ℕ)
        → InTable m
        → Kept (next_round handler loop m d r)
    unfolding next_round
    next_round_lem m d (none, queue) i = i
    next_round_lem m d (some evh, queue) i =
        let m1 = record m { event_queue = queue } in
        after_call_lem evh (after_entry handler loop (enter handler m1 (event_named m1 evh) d)) (
          after_entry_lem (enter handler m1 (event_named m1 evh) d)
            (enter_lem m1 (event_named m1 evh) d i))

  drain_lem : (rounds : ℕ) (m : Machine) (d : D) → InTable m → Kept (drain handler rounds m d)
  unfolding drain
  drain_lem zero m d i = tt
  drain_lem (suc rounds) m d i =
      next_round_lem (λ m1 d1. drain handler rounds m1 d1) (drain_lem rounds) m d
        (remove_top m.event_queue) i

  transition_lem :
      (rounds : ℕ) (m : Machine) (name : Name) (d : D)
      → InTable m
      → Kept (sm_transition handler rounds m name d)
  unfolding sm_transition
  transition_lem rounds m name d i =
      after_entry_lem (λ m1 d1. drain handler rounds m1 d1) (drain_lem rounds)
        (enter handler m name d) (enter_lem m name d i)

-- If the machine is in a registered state, every registered transition leads to one, and the
-- handlers keep that and take no state away, a call of `sm_transition` that returns, with whatever
-- status, has run the handlers and the events that they queue without leaving the registered states:
-- every transition still leads to one, the machine is in one, and no state was taken away.
pub sm_transition-Closed :
    {D : Type 0} (handler : Handler D) (rounds : ℕ) (m m' : Machine) (name : Name) (d d' : D)
    (status : SmError)
    → KeepsStates handler
    → Closed m.stdefp
    → m.curr_state < m.stdefp.next_stateh
    → sm_transition handler rounds m name d ≡ some (status, m', d')
    → Closed m'.stdefp
      × (m'.curr_state < m'.stdefp.next_stateh)
      × (m.stdefp.next_stateh ≤ m'.stdefp.next_stateh)
sm_transition-Closed handler rounds m m' name d d' status keeps_states closed here e =
    let (i, le) = subst (Kept handler keeps_states m.stdefp.next_stateh) e (
      transition_lem handler keeps_states m.stdefp.next_stateh rounds m name d
        ((closed, here), omega arith)) in
    (i.0, i.1, le)

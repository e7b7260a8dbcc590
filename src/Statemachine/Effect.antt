-- ===== src/Statemachine/Effect.antt =====
-- What one call of `sm_transition` does.
use ulppk.Base.{
  ℕ, zero, suc, ◌+◌, ◌<◌, ◌≤◌, ◌≡◌, refl, ap, ap₂, ◌∙◌, sym, arith, Bool, true, false, not,
}
use ulppk.Base.{
  List, [], ◌∷◌, ◌++◌, some, length, get_or, All, append_assoc, length-append, append-nil,
  replicate,
}
use ulppk.Base.{if-true, if-false, lt→ltb, str_eq, str_eq_refl}
use ulppk.Dqacc.Spec.{add_bottom, remove_top}
use ulppk.Statemachine.{
  Name, SmAction, SmTransition, Machine, StateTable, find_event, find_by, sm_no_error, blank_list,
  blank_event,
}
use ulppk.Statemachine.Transition.{
  Handler, returned, Result, queue_event, run_actions, take_transition, fire, enter, enter_found,
  after_entry,
}
use ulppk.Statemachine.Transition.{
  after_call, next_round, drain, sm_transition, select, own_transitions, ev_null, ev_abort,
}
use ulppk.Statemachine.Transition.{is_named_event, event_named}

-- A machine that may take a transition for the event `evh`, named `name`, with no event queued.
pub record Ready (m : Machine) (name : Name) (evh : ℕ) : Type 0 where
  pub found : find_event m name ≡ some evh
  pub not_null : is_named_event m evh ev_null ≡ false
  pub not_abort : is_named_event m evh ev_abort ≡ false
  pub complete : m.stdefp.statedef_complete ≡ true
  pub idle : m.event_queue ≡ []

-- `nul` is the handle of the null event.
pub record NullEvent (m : Machine) (nul : ℕ) : Type 0 where
  pub found : find_event m ev_null ≡ some nul
  pub named : event_named m nul ≡ ev_null

NullEvent-stdefp :
    (m m1 : Machine) (nul : ℕ) → m.stdefp ≡ m1.stdefp → NullEvent m nul → NullEvent m1 nul
unfolding find_event
NullEvent-stdefp m m1 nul e n = record {
  found =
      ap (λ (tb : StateTable). find_by (λ v. v.event_name) (λ v. v.eventh) tb.events ev_null)
        (sym e)
      ∙ n.found;
  named = ap (λ (tb : StateTable). (get_or tb.events nul blank_event).event_name) (sym e) ∙ n.named;
}

module _ {D : Type 0} (handler : Handler D) where
  enter-Ready :
      (m : Machine) (name : Name) (evh : ℕ) (d : D)
      → Ready m name evh
      → enter handler m name d ≡ fire handler m (select evh (own_transitions m)) d
  unfolding enter enter_found
  enter-Ready m name evh d r =
      ap (enter_found handler m name d) r.found
      ∙ if-false _ _ r.not_null
      ∙ if-false _ _ r.not_abort
      ∙ if-false _ _ (ap not r.complete)

  -- An action that returns the event `nul` and leaves the machine as it is, whatever the data.
  abbrev pub Quiet : ℕ → SmAction → Type 0
  Quiet nul a =
      (m : Machine) (d : D) → ((handler a.handlerp m d).0 ≡ nul) × ((handler a.handlerp m d).1 ≡ m)

  abbrev one_more : ℕ → Machine → Machine
  one_more nul m = record m { event_queue = m.event_queue ++ nul ∷ [] }

  -- The effect of quiet actions on the application's data. Each gets the machine with the events of
  -- those before it in the queue.
  abbrev pub perform : ℕ → List SmAction → Machine → D → D
  perform nul [] m d = d
  perform nul (a ∷ acts) m d = perform nul acts (one_more nul m) (handler a.handlerp m d).2

  queue_free :
      (m : Machine) (evh : ℕ) → length m.event_queue < 32 → queue_event m evh ≡ one_more evh m
  unfolding add_bottom
  queue_free m evh free =
      ap (λ (r : Bool × List ℕ). record m { event_queue = r.1 })
        (if-true (false, m.event_queue ++ evh ∷ []) (true, m.event_queue)
          (lt→ltb (length m.event_queue) 32 free))

  queued :
      (nul : ℕ) (acts : List SmAction) (m : Machine) (d : D)
      → All (Quiet nul) acts
      → length m.event_queue + length acts ≤ 32
      → run_actions handler acts m d ≡ (
        record m { event_queue = m.event_queue ++ replicate (length acts) nul },
        perform nul acts m d,
      )
  unfolding run_actions
  queued nul [] m d q fit =
      ap (λ (l : List ℕ). (record m { event_queue = l }, d)) (sym (append-nil m.event_queue))
  queued nul (a ∷ acts) m d q fit =
      let d1 = (handler a.handlerp m d).2 in
      ap (λ (m1 : Machine). run_actions handler acts m1 d1)
        (ap₂ queue_event (q.0 m d).1 (q.0 m d).0 ∙ queue_free m nul (omega arith))
      ∙ queued nul acts (one_more nul m) d1 q.1
          (omega (arith, length-append {0} m.event_queue (nul ∷ [])))
      ∙ ap (λ (l : List ℕ). (record m { event_queue = l }, perform nul acts (one_more nul m) d1))
          (append_assoc m.event_queue (nul ∷ []) (replicate (length acts) nul))

  null_returns :
      (m : Machine) (nul : ℕ) (d : D)
      → NullEvent m nul
      → enter handler m (event_named m nul) d ≡ returned sm_no_error m d
  unfolding enter enter_found is_named_event
  null_returns m nul d n =
      ap (λ name. enter_found handler m name d (find_event m name)) n.named
      ∙ ap (enter_found handler m ev_null d) n.found
      ∙ if-true _ _ (ap (λ name. str_eq name ev_null) n.named ∙ str_eq_refl ev_null)

  drain_nulls :
      (nul k rounds : ℕ) (m : Machine) (d : D)
      → NullEvent m nul
      → m.event_queue ≡ replicate k nul
      → k < rounds
      → drain handler rounds m d ≡ some (sm_no_error, record m { event_queue = [] }, d)
  unfolding drain next_round remove_top after_call
  drain_nulls nul k zero m d n e h = absurd (omega arith)
  drain_nulls nul zero (suc rounds) m d n e h =
      ap (λ q. next_round handler (λ m1 d1. drain handler rounds m1 d1) m d (remove_top q)) e
      ∙ ap (λ q. some (sm_no_error, record m { event_queue = q }, d)) e
  drain_nulls nul (suc k) (suc rounds) m d n e h =
      let m1 = record m { event_queue = replicate k nul } in
      let loop : Machine → D → Result D = λ m2 d2. drain handler rounds m2 d2 in
      ap (λ q. next_round handler loop m d (remove_top q)) e
      ∙ ap (λ r. after_call handler loop nul (after_entry handler loop r))
          (null_returns m1 nul d (NullEvent-stdefp m m1 nul refl n))
      ∙ drain_nulls nul k rounds m1 d (NullEvent-stdefp m m1 nul refl n) refl (omega arith)

  module _ (m : Machine) (name : Name) (evh : ℕ) (d : D) (r : Ready m name evh) where
    abbrev pub actions_of : SmTransition → List SmAction
    actions_of t = (get_or m.stdefp.actlists t.alisth blank_list).actions

    abbrev pub arrived : SmTransition → Machine
    arrived t = record m {
      event_queue = [];
      prev_state = m.curr_state;
      curr_state = t.s2;
      last_event = some t.eventh;
    }

    -- On an event that the current state has a transition for, the actions of the first such
    -- transition are run in order and the machine arrives in its final state, without an error and
    -- with no event queued, if the actions only return the null event and leave the machine alone,
    -- and there are at most 32 of them. One round more than there are actions is enough. The event
    -- must be registered, other than the null and the abort event, the tables complete and no event
    -- queued.
    pub sm_transition-matched :
        (rounds nul : ℕ) (t : SmTransition)
        → select evh (own_transitions m) ≡ some t
        → NullEvent m nul
        → All (Quiet nul) (actions_of t)
        → length (actions_of t) ≤ 32
        → length (actions_of t) < rounds
        → sm_transition handler rounds m name d
          ≡ some (sm_no_error, arrived t, perform nul (actions_of t) m d)
    unfolding sm_transition fire take_transition
    sm_transition-matched rounds nul t e n quiet fit enough =
        let acts = actions_of t in
        let loop : Machine → D → Result D = λ m2 d2. drain handler rounds m2 d2 in
        let queue = m.event_queue ++ replicate (length acts) nul in
        let m1 = record (arrived t) { event_queue = queue } in
        let ends : Machine × D → Result D = λ (q : Machine × D).
          (let m2 = q.0 in
            drain handler rounds
              (record m2 {
                prev_state = m2.curr_state;
                curr_state = t.s2;
                last_event = some t.eventh;
              })
              q.1) in
        ap (after_entry handler loop) (enter-Ready m name evh d r ∙ ap (λ o. fire handler m o d) e)
        ∙ ap ends (queued nul acts m d quiet (omega (arith, ap length r.idle)))
        ∙ drain_nulls nul (length acts) rounds m1 (perform nul acts m d)
            (NullEvent-stdefp m m1 nul refl n) (ap (λ q. q ++ replicate (length acts) nul) r.idle)
            enough

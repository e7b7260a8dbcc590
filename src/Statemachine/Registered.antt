-- ===== src/Statemachine/Registered.antt =====
-- Registering an event, and finding it again.
use ulppk.Base.{
  ℕ, zero, suc, ◌+◌, ◌<◌, ◌≤◌, ◌≡◌, refl, ap, ◌∙◌, sym, arith, true, false, not, ==-refl,
}
use ulppk.Base.{List, [], ◌∷◌, ◌++◌, Option, none, some, length, take}
use ulppk.Base.{
  ltb, if◌then◌else◌, if-true, if-false, lt→ltb, le→ltb-false, inl, inr, Bool-cases, str_eq,
}
use mathlib.Core.Path.{subst}
use native.Mathlib.Decide.{dec_lt}
use ulppk.Dqacc.Spec.{is_none}
use ulppk.Statemachine.{
  Name, Machine, stored_name, find_event, sm_register_event, clear_err, set_diag,
  sm_register_duplicate,
}
use ulppk.Statemachine.Names.{
  HoldsEvents, register_name, index_from, find_event-index_from, registered, registered-HoldsEvents,
}

module _ (m : Machine) (name : Name) where
  found_same : find_event (clear_err m) name ≡ find_event m name
  unfolding find_event
  found_same = refl

  register_new :
      is_none (find_event m name) ≡ true
      → m.stdefp.next_eventh < 256
      → sm_register_event m name ≡ (some m.stdefp.next_eventh, registered m name)
  register_new e free =
      let new = ap is_none found_same ∙ e in
      unfold sm_register_event in
      (if-true _ _ new ∙ if-true _ _ (lt→ltb m.stdefp.next_eventh 256 free))

  register_full :
      is_none (find_event m name) ≡ true
      → 256 ≤ m.stdefp.next_eventh
      → sm_register_event m name ≡ (none, clear_err m)
  register_full e full =
      let new = ap is_none found_same ∙ e in
      unfold sm_register_event in
      (if-true _ _ new ∙ if-false _ _ (le→ltb-false m.stdefp.next_eventh 256 full))

  register_again :
      is_none (find_event m name) ≡ false
      → sm_register_event m name ≡ (none, set_diag (clear_err m) sm_register_duplicate name)
  register_again e =
      let old = ap is_none found_same ∙ e in unfold sm_register_event in if-false _ _ old

same_events :
    (m m' : Machine) (evs : List Name)
    → m'.stdefp ≡ m.stdefp
    → HoldsEvents m evs
    → HoldsEvents m' evs
same_events m m' evs e h = record {
  table = ap (λ t. t.events) e ∙ h.table;
  next = ap (λ t. t.next_eventh) e ∙ h.next;
  room = h.room;
}

-- On a table of registered names, `sm_register_event` with a name that is not empty registers it,
-- cut to 31 characters, at the next position, unless it finds the name among the registered ones
-- or 256 are registered; then it returns the null handle and the events stay.
pub sm_register_event_refines :
    (m : Machine) (evs : List Name) (name : Name)
    → HoldsEvents m evs
    → 0 < length name
    → let (h, m') = sm_register_event m name in
      let (spec, evs') = register_name evs name in (h ≡ spec) × HoldsEvents m' evs'
sm_register_event_refines m evs name h some_char =
    elim (Bool-cases (is_none (index_from 0 evs name))) [
      | inl new ↦ elim (dec_lt (length evs) 256) [
        | yes free ↦
            let spec : register_name evs name ≡ (some (length evs), evs ++ stored_name name ∷ []) =
              if-true _ _ new ∙ if-true _ _ (lt→ltb (length evs) 256 free) in
            subst (λ r. Agree r (register_name evs name))
              (sym (register_new m name (ap is_none found ∙ new) (omega (arith, h.next))))
              (subst (λ r. Agree (some m.stdefp.next_eventh, registered m name) r) (sym spec)
                (ap some h.next, registered-HoldsEvents m evs name h free))
        | no full ↦
            let spec : register_name evs name ≡ (none, evs) =
              if-true _ _ new ∙ if-false _ _ (le→ltb-false (length evs) 256 (omega arith)) in
            subst (λ r. Agree r (register_name evs name))
              (sym (register_full m name (ap is_none found ∙ new) (omega (arith, h.next))))
              (subst (λ r. Agree (none, clear_err m) r) (sym spec)
                (refl, same_events m (clear_err m) evs refl h))
      ]
      | inr old ↦
          let spec : register_name evs name ≡ (none, evs) = if-false _ _ old in
          let m1 = set_diag (clear_err m) sm_register_duplicate name in
          subst (λ r. Agree r (register_name evs name))
            (sym (register_again m name (ap is_none found ∙ old)))
            (subst (λ r. Agree (none, m1) r) (sym spec) (refl, same_events m m1 evs refl h))
    ]
  where
    found : find_event m name ≡ index_from 0 evs name
    found = find_event-index_from m evs h name some_char

    Agree : Option ℕ × Machine → Option ℕ × List Name → Type 0
    Agree (h, m') (spec, evs') = (h ≡ spec) × HoldsEvents m' evs'

-- A name that is longer than the stored one differs from it.
str_eq-take : (n : ℕ) (s : Name) → str_eq s (take n s) ≡ not (ltb n (length s))
str_eq-take zero [] = refl
str_eq-take zero (c ∷ s) = sym (ap not (lt→ltb 0 (suc (length s)) (omega arith)))
str_eq-take (suc n) [] = sym (ap not (le→ltb-false (suc n) 0 (omega arith)))
str_eq-take (suc n) (c ∷ s) = ground (arith, str_eq-take n s, ==-refl c)

index_from-snoc :
    (i : ℕ) (evs : List Name) (name : Name)
    → index_from i evs name ≡ none
    → index_from i (evs ++ stored_name name ∷ []) name
      ≡ (if ltb 31 (length name) then none else some (i + length evs))
index_from-snoc i [] name h = elim (dec_lt 31 (length name)) [
  | yes long ↦
      if-false _ _ (str_eq-take 31 name ∙ ap not (lt→ltb 31 (length name) long))
      ∙ sym (if-true _ _ (lt→ltb 31 (length name) long))
  | no short ↦
      let z : i ≡ i + 0 = omega arith in
      if-true _ _ (str_eq-take 31 name ∙ ap not (le→ltb-false 31 (length name) (omega arith)))
      ∙ ap some z
      ∙ sym (if-false _ _ (le→ltb-false 31 (length name) (omega arith)))
]
index_from-snoc i (n ∷ evs) name h = elim (Bool-cases (str_eq name n)) [
  | inl same ↦ cc (h, if-true (some i) (index_from (suc i) evs name) same)
  | inr other ↦
      let z : suc i + length evs ≡ i + suc (length evs) = omega arith in
      if-false _ _ other
      ∙ index_from-snoc (suc i) evs name (sym (if-false _ _ other) ∙ h)
      ∙ ap (λ k. if ltb 31 (length name) then none else some k) z
]

-- On a table of fewer than 256 registered names, an event that is not found is found at its
-- handle after it is registered if its name, which is not empty, has at most 31 characters. A
-- longer name is registered all the same, but is not found.
pub find_event-sm_register_event :
    (m : Machine) (evs : List Name) (name : Name)
    → HoldsEvents m evs
    → 0 < length name
    → length evs < 256
    → find_event m name ≡ none
    → let (h, m') = sm_register_event m name in
      (h ≡ some (length evs)) × (find_event m' name ≡ (if ltb 31 (length name) then none else h))
find_event-sm_register_event m evs name h some_char free missing =
    let absent = sym (find_event-index_from m evs h name some_char) ∙ missing in
    let h1 = registered-HoldsEvents m evs name h free in
    rw (register_new m name (ap is_none missing) (omega (arith, h.next))) (
      ap some h.next,
      find_event-index_from (registered m name) (evs ++ stored_name name ∷ []) h1 name some_char
          ∙ index_from-snoc 0 evs name absent
          ∙ ap (λ k. if ltb 31 (length name) then none else some k) (omega (arith, h.next)),
    )

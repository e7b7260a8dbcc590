-- ===== src/Statemachine/Names.antt =====
-- The event table as the list of the registered names.
use ulppk.Base.{ℕ, zero, suc, ◌+◌, ◌-◌, ◌<◌, ◌≤◌, ◌≡◌, refl, ap, ap₂, ◌∙◌, sym, arith}
use ulppk.Base.{List, [], ◌∷◌, ◌++◌, Option, none, some, length, set, replicate, length-append}
use ulppk.Base.{ltb, if◌then◌else◌, str_eq}
use ulppk.Dqacc.Spec.{is_none}
use ulppk.Statemachine.{
  Name, SmEvent, Machine, blank_event, stored_name, find_by, find_event, sm_no_error,
}

-- The slots of the registered names, numbered from `i` on.
abbrev pub entries : ℕ → List Name → List SmEvent
entries i [] = []
entries i (n ∷ ns) = record { eventh = i; event_name = n } ∷ entries (suc i) ns

-- The number of the first such name.
abbrev pub index_from : ℕ → List Name → Name → Option ℕ
index_from i [] name = none
index_from i (n ∷ ns) name = if str_eq name n then some i else index_from (suc i) ns name

-- The whole table holds the names `evs`.
pub record HoldsEvents (m : Machine) (evs : List Name) : Type 0 where
  pub table : m.stdefp.events ≡ entries 0 evs ++ replicate (256 - length evs) blank_event
  pub next : m.stdefp.next_eventh ≡ length evs
  pub room : length evs ≤ 256

-- What registering a name does to the list: the handle is its position.
abbrev pub register_name : List Name → Name → Option ℕ × List Name
register_name evs name =
    if is_none (index_from 0 evs name)
    then (if ltb (length evs) 256
        then (some (length evs), evs ++ stored_name name ∷ [])
        else (none, evs))
    else (none, evs)

abbrev find_in : List SmEvent → Name → Option ℕ
find_in = find_by (λ e. e.event_name) (λ e. e.eventh)

find_blank : (k : ℕ) (name : Name) → 0 < length name → find_in (replicate k blank_event) name ≡ none
find_blank zero name h = refl
find_blank (suc k) [] h = absurd (omega arith)
find_blank (suc k) (c ∷ name) h = find_blank k (c ∷ name) h

find_entries :
    (i k : ℕ) (ns : List Name) (name : Name)
    → 0 < length name
    → find_in (entries i ns ++ replicate k blank_event) name ≡ index_from i ns name
find_entries i k [] name h = find_blank k name h
find_entries i k (n ∷ ns) name h =
    ap (λ r. if str_eq name n then some i else r) (find_entries (suc i) k ns name h)

module _ (m : Machine) (evs : List Name) (h : HoldsEvents m evs) where
  -- On a table of registered names, `find_event` gives the position of a name that is not empty.
  pub find_event-index_from :
      (name : Name) → 0 < length name → find_event m name ≡ index_from 0 evs name
  unfolding find_event
  find_event-index_from name some_char =
      ap (λ t. find_in t name) h.table ∙ find_entries 0 (256 - length evs) evs name some_char

set-entries :
    (i k : ℕ) (ns : List Name) (v : SmEvent)
    → set (entries i ns ++ replicate (suc k) blank_event) (length ns) v
      ≡ entries i ns ++ v ∷ replicate k blank_event
set-entries i k [] v = refl
set-entries i k (n ∷ ns) v =
    ap (λ r. record { eventh = i; event_name = n } ∷ r) (set-entries (suc i) k ns v)

entries-snoc :
    (i : ℕ) (ns : List Name) (n : Name) (rest : List SmEvent)
    → entries i (ns ++ n ∷ []) ++ rest
      ≡ entries i ns ++ record { eventh = i + length ns; event_name = n } ∷ rest
entries-snoc i [] n rest =
    let e : i ≡ i + 0 = omega arith in ap (λ k. record { eventh = k; event_name = n } ∷ rest) e
entries-snoc i (m ∷ ns) n rest =
    let e : suc i + length ns ≡ i + suc (length ns) = omega arith in
    ap (λ r. record { eventh = i; event_name = m } ∷ r)
      (entries-snoc (suc i) ns n rest
        ∙ ap (λ k. entries (suc i) ns ++ record { eventh = k; event_name = n } ∷ rest) e)

module _ (m : Machine) (name : Name) where
  abbrev pub registered : Machine
  registered = record m {
    stdefp = record (m.stdefp) {
      events =
          set m.stdefp.events m.stdefp.next_eventh
            (record { eventh = m.stdefp.next_eventh; event_name = stored_name name });
      next_eventh = m.stdefp.next_eventh + 1;
    };
    smerrno = sm_no_error;
    object_name = [];
  }

pub registered-HoldsEvents :
    (m : Machine) (evs : List Name) (name : Name)
    → HoldsEvents m evs
    → length evs < 256
    → HoldsEvents (registered m name) (evs ++ stored_name name ∷ [])
registered-HoldsEvents m evs name h free = record {
  table =
      ap₂ (λ t i. set t i (record { eventh = i; event_name = stored_name name })) h.table h.next
      ∙ ap (λ k. set (entries 0 evs ++ replicate k blank_event) (length evs) slot) one_less
      ∙ set-entries 0 (255 - length evs) evs slot
      ∙ sym (
          entries-snoc 0 evs (stored_name name) (replicate (255 - length evs) blank_event)
          ∙ ap
              (λ k.
                entries 0 evs
                ++ record { eventh = k; event_name = stored_name name }
                  ∷ replicate (255 - length evs) blank_event)
              zero_more)
      ∙ ap (λ k. entries 0 (evs ++ stored_name name ∷ []) ++ replicate k blank_event) rest;
  next = omega (arith, h.next, longer);
  room = omega (arith, longer);
}
  where
    slot : SmEvent
    slot = record { eventh = length evs; event_name = stored_name name }

    one_less : 256 - length evs ≡ suc (255 - length evs)
    one_less = omega arith

    zero_more : 0 + length evs ≡ length evs
    zero_more = omega arith

    longer : length (evs ++ stored_name name ∷ []) ≡ suc (length evs)
    longer = length-append evs (stored_name name ∷ []) ∙ omega arith

    rest : 255 - length evs ≡ 256 - length (evs ++ stored_name name ∷ [])
    rest = omega (arith, longer)

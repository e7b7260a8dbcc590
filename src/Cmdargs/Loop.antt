-- ===== src/Cmdargs/Loop.antt =====
-- ulppk/cmdargs.c: the loop over the arguments, the check of the required options and what a program
-- fetches.
use ulppk.Base.{ℕ, zero, suc, Bool, true, false, List, [], ◌∷◌, Option, none, some}
use ulppk.Base.{◌==◌, if◌then◌else◌, not, ◌&&◌}
use ulppk.Cmdargs.{
  ca_root, ca_switch, ca_default_arg, ca_required_arg, ca_optional_arg, CmdArg, CmdArgs, root,
  find_option, valid_option, no_option, option_text, overrun, clean_option_text, mark_child_options,
  provide, set_value,
}

-- What the loop does with the option `argp`, given the next argument. It goes on with `next`, or with
-- `after` behind the value. The flag is the parse error.
abbrev pub take_value :
    CmdArgs → ℕ → Option (List ℕ) → (CmdArgs → Option (Bool × CmdArgs)) → Option (Bool × CmdArgs)
take_value s argp none after = some (true, mark_child_options s argp)
take_value s argp (some value) after =
    if valid_option value
    then some (true, mark_child_options s argp)
    else after (mark_child_options (set_value s argp value) argp)

unfoldable pub visit_option :
    CmdArgs
    → ℕ
    → Option (List ℕ)
    → (CmdArgs → Option (Bool × CmdArgs))
    → (CmdArgs → Option (Bool × CmdArgs))
    → Option (Bool × CmdArgs)
visit_option s argp value next after = elim (s.arg argp).mode [
  | ca_root ↦ next (mark_child_options s argp)
  | ca_switch ↦ next (mark_child_options (provide s argp) argp)
  | ca_default_arg ↦ take_value s argp value after
  | ca_required_arg ↦ take_value s argp value after
  | ca_optional_arg ↦ take_value s argp value after
]

unfoldable pub parse_option :
    ℕ
    → CmdArgs
    → List ℕ
    → Option (List ℕ)
    → (CmdArgs → Option (Bool × CmdArgs))
    → (CmdArgs → Option (Bool × CmdArgs))
    → Option (Bool × CmdArgs)
unfolding visit_option
parse_option fuel s text value next after = elim (clean_option_text text) [
  | no_option ↦ next s
  | overrun ↦ none
  | option_text name ↦ elim (find_option fuel s name root) [
    | none ↦ none
    | some argp ↦ if argp == 0 then some (true, s) else visit_option s argp value next after
  ]
]

unfoldable pub parse_args : ℕ → List (List ℕ) → CmdArgs → Option (Bool × CmdArgs)
unfolding parse_option
parse_args fuel [] s = some (false, s)
parse_args fuel (a ∷ []) s = parse_option fuel s a none (parse_args fuel []) (parse_args fuel [])
parse_args fuel (a ∷ b ∷ rest) s =
    parse_option fuel s a (some b) (parse_args fuel (b ∷ rest)) (parse_args fuel rest)

unfoldable pub required_status_ok : CmdArg → Bool
required_status_ok a = elim a.mode [
  | ca_root ↦ true
  | ca_switch ↦ true
  | ca_default_arg ↦ true
  | ca_required_arg ↦ if a.option_enabled then a.option_provided else true
  | ca_optional_arg ↦ true
]

abbrev pub and_rest : Option Bool → Option Bool → Option Bool
and_rest none rest = none
and_rest (some status) rest = if status then rest else some false

-- The rest of the loop over the children, which ends at the first that is not as required.
unfoldable pub verify_children : (ℕ → Option Bool) → CmdArgs → List ℕ → Option Bool
verify_children verify s [] = some true
verify_children verify s (child ∷ children) =
    let rest = verify_children verify s children in
    let a = s.arg child in
    if a.option_enabled && a.option_provided then and_rest (verify child) rest else rest

unfoldable pub verify_required_args : ℕ → CmdArgs → ℕ → Option Bool
unfolding required_status_ok verify_children
verify_required_args zero s argp = none
verify_required_args (suc fuel) s argp =
    let status = verify_children (verify_required_args fuel s) s (s.arg argp).options in
    if required_status_ok (s.arg argp) then status else some false

-- `exit(1)`, or the parse error and the state.
pub data Outcome : Type 0 where
  exited : Outcome
  returned : Bool → CmdArgs → Outcome

-- What follows the loop, whose flag is the parse error.
unfoldable pub finish_parse : ℕ → Option (Bool × CmdArgs) → Option Outcome
unfolding verify_required_args
finish_parse fuel none = none
finish_parse fuel (some (parse_error, s1)) = elim (verify_required_args fuel s1 root) [
  | none ↦ none
  | some status ↦
      if status
      then some (returned parse_error (record s1 { parsing_complete = true }))
      else some (returned true s1)
]

-- The arguments behind the program name.
unfoldable pub cmdarg_parse : ℕ → CmdArgs → List (List ℕ) → Option Outcome
unfolding parse_args finish_parse
cmdarg_parse fuel s args =
    let run = finish_parse fuel (parse_args fuel args (mark_child_options s root)) in
    if s.parsing_complete
    then some (returned false s)
    else if s.register_error
    then some exited
    else run

-- `argp` is not NULL.
unfoldable pub cmdarg_fetch_switch : ℕ → CmdArgs → ℕ → List ℕ → Option Bool
cmdarg_fetch_switch fuel s argp opt_name = elim (find_option fuel s opt_name argp) [
  | none ↦ none
  | some xargp ↦ some (not (xargp == 0) && (s.arg xargp).option_provided)
]

abbrev pub value_or_default : CmdArg → Option (List ℕ)
value_or_default a = elim a.opt_value [
  | none ↦ elim a.mode [
    | ca_root ↦ none
    | ca_switch ↦ none
    | ca_default_arg ↦ a.default_value
    | ca_required_arg ↦ none
    | ca_optional_arg ↦ none
  ]
  | some value ↦ some value
]

unfoldable pub cmdarg_fetch_string : ℕ → CmdArgs → ℕ → List ℕ → Option (Option (List ℕ))
cmdarg_fetch_string fuel s argp opt_name = elim (find_option fuel s opt_name argp) [
  | none ↦ none
  | some xargp ↦ some (if xargp == 0 then none else value_or_default (s.arg xargp))
]

-- ===== src/Cmdargs/Tests.antt =====
-- Runs of ulppk/cmdargs.c and the theorems at concrete inputs.
use ulppk.Base.{
  replicate, inr, ◌+◌, ℕ, ◌≡◌, ◌≤◌, refl, arith, Bool, true, false, List, [], ◌∷◌, Option, none,
  some,
}
use ulppk.Cmdargs.{
  ca_root, ca_switch, ca_required_arg, CmdArg, CmdArgs, root, add_option, cmdarg_init,
  cmdarg_register_option, mark_child_options, find_option, clean_option_text,
}
use ulppk.Cmdargs.Loop.{parse_args, verify_required_args, Outcome, exited, returned, cmdarg_parse}
use ulppk.Cmdargs.Tree.{IsForest, add_option-IsForest}
use ulppk.Cmdargs.Lookup.{find_option-cmdarg_register_option}
use ulppk.Cmdargs.Calls.{
  cmdarg_parse_lem, cmdarg_register_option_lem, cmdarg_init-IsForest, Registered,
}

abbrev null_arg : CmdArg
null_arg = record {
  opt_name = [];
  opt_vname = [];
  default_value = none;
  opt_value = none;
  mode = ca_root;
  option_provided = false;
  option_enabled = false;
  parentp = 0;
  options = [];
}

abbrev nothing : CmdArgs
nothing = record { arg = λ q. null_arg; used = 0; register_error = false; parsing_complete = false }

abbrev prog : List ℕ
prog = b'p' ∷ []

-- A program with a required option `-f`.
abbrev file_name : List ℕ
file_name = b'f' ∷ []

abbrev start : CmdArgs
start = cmdarg_init nothing prog

start-IsForest : IsForest start
start-IsForest = cmdarg_init-IsForest nothing prog

abbrev with_file : CmdArgs
with_file = add_option start root file_name none ca_required_arg none

with_file-IsForest : IsForest with_file
unfolding cmdarg_init
with_file-IsForest =
    add_option-IsForest start root file_name none ca_required_arg none start-IsForest (omega arith)
      (omega arith)

with_file-fits : with_file.used ≤ 2
unfolding cmdarg_init add_option
with_file-fits = omega arith

with_file-fresh : with_file.parsing_complete ≡ false
unfolding cmdarg_init add_option
with_file-fresh = refl

with_file-fine : with_file.register_error ≡ false
unfolding cmdarg_init add_option
with_file-fine = refl

abbrev arguments : List (List ℕ)
arguments = (b'-' ∷ b'f' ∷ []) ∷ (b'x' ∷ []) ∷ []

cmdarg_parse_example :
    (e : Bool) × (s1 : CmdArgs) × (parse_args 2 arguments (mark_child_options with_file root)
      ≡ some (e, s1))
    × IsForest s1
    × (verify_required_args 2 s1 root ≡ some true)
    × (let s' : CmdArgs = record s1 { parsing_complete = true } in
        (cmdarg_parse 2 with_file arguments ≡ some (returned e s'))
        × ((again : ℕ) (later : List (List ℕ))
            → cmdarg_parse again s' later ≡ some (returned false s')))
cmdarg_parse_example =
    cmdarg_parse_lem 2 with_file arguments with_file-IsForest with_file-fits
      (inr (omega arith), (inr (omega arith), tt)) with_file-fresh with_file-fine

cmdarg_register_option_example :
    Registered 2 with_file
      (b'v' ∷ [])
      none
      ca_switch
      none
      (some file_name)
      (cmdarg_register_option 2 with_file (b'v' ∷ []) none ca_switch none (some file_name))
cmdarg_register_option_example =
    cmdarg_register_option_lem 2 with_file (b'v' ∷ []) none ca_switch none (some file_name)
      with_file-IsForest with_file-fits

no_verbose : find_option 2 with_file (b'v' ∷ []) root ≡ some 0
unfolding cmdarg_init add_option find_option
no_verbose = refl

find_registered_option_example :
    (s' : CmdArgs) × (cmdarg_register_option 2 with_file (b'v' ∷ []) none ca_switch none none
      ≡ some (false, s'))
    × (find_option 2 s' (b'v' ∷ []) root ≡ some (with_file.used + 1))
    × (s'.used ≡ with_file.used + 1)
find_registered_option_example =
    find_option-cmdarg_register_option 0 with_file (b'v' ∷ []) none ca_switch none
      with_file-IsForest refl no_verbose

-- The parse error of a call.
abbrev error_of : Option Outcome → Option Bool
error_of none = none
error_of (some exited) = none
error_of (some (returned e s)) = some e

-- The required option is missing.
missing : error_of (cmdarg_parse 2 with_file []) ≡ some false
unfolding cmdarg_parse cmdarg_init add_option mark_child_options
missing = refl

-- An option of 34 characters has no result.
abbrev long_option : List ℕ
long_option = b'-' ∷ replicate 33 b'f'

overruns : cmdarg_parse 2 with_file (long_option ∷ []) ≡ none
unfolding cmdarg_parse cmdarg_init add_option mark_child_options clean_option_text
overruns = refl

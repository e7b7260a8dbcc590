-- ===== src/Cmdargs.antt =====
-- ulppk/cmdargs.c: the options of a command line, registered as a tree below the program name. An
-- option is a number in the store, 0 is NULL and 1 the root; `used` is the last one that is in use.
-- A list of options is the list of the options that its nodes point to, in order. A search goes as
-- deep as its first argument. `none` is a call without a result: a search that goes deeper, or a
-- write past the buffer of `cmdarg_parse`.
pub mod Loop
pub mod Tree
pub mod Parse
pub mod Required
pub mod Lookup
pub mod Added
pub mod Calls
mod Tests
use ulppk.Base.{ℕ, zero, suc, ◌+◌, Bool, true, false, List, [], ◌∷◌, ◌++◌, Option, none, some}
use ulppk.Base.{◌==◌, if◌then◌else◌, not, ◌&&◌, ◌||◌, str_eq, take, length, leb}

-- `CA_MODE`
pub data CaMode : Type 0 where
  ca_root : CaMode
  ca_switch : CaMode
  ca_default_arg : CaMode
  ca_required_arg : CaMode
  ca_optional_arg : CaMode

-- `CMD_ARG` without the description. A NULL string is `none`.
pub record CmdArg : Type 0 where
  pub opt_name : List ℕ
  pub opt_vname : List ℕ
  pub default_value : Option (List ℕ)
  pub opt_value : Option (List ℕ)
  pub mode : CaMode
  pub option_provided : Bool
  pub option_enabled : Bool
  pub parentp : ℕ
  pub options : List ℕ

pub record CmdArgs : Type 0 where
  pub arg : ℕ → CmdArg
  pub used : ℕ
  pub register_error : Bool
  pub parsing_complete : Bool

abbrev pub root : ℕ
root = 1

abbrev pub put_arg : CmdArgs → ℕ → CmdArg → CmdArgs
put_arg s p a = record s { arg = λ q. if q == p then a else s.arg q }

unfoldable pub cmdarg_init : CmdArgs → List ℕ → CmdArgs
cmdarg_init s argv0 =
    let new : CmdArg = record {
      opt_name = b'@' ∷ [];
      opt_vname = take 31 argv0;
      default_value = none;
      opt_value = none;
      mode = ca_root;
      option_provided = true;
      option_enabled = false;
      parentp = 0;
      options = [];
    } in
    put_arg (record s { used = 1; register_error = false; parsing_complete = false }) root new

unfoldable pub test_option : CmdArg → List ℕ → Bool
test_option a name = str_eq a.opt_name name || str_eq a.opt_vname name

-- The match among the first of the children, or else among the rest of them.
abbrev pub or_next : Option ℕ → Option ℕ → Option ℕ
or_next none rest = none
or_next (some match) rest = if match == 0 then rest else some match

-- The rest of the loop over the children, which ends at the first match.
unfoldable pub find_child : (ℕ → Option ℕ) → List ℕ → Option ℕ
find_child find [] = some 0
find_child find (child ∷ children) = or_next (find child) (find_child find children)

unfoldable pub find_option : ℕ → CmdArgs → List ℕ → ℕ → Option ℕ
unfolding test_option find_child
find_option zero s name argp = none
find_option (suc fuel) s name argp =
    let match = find_child (find_option fuel s name) (s.arg argp).options in
    if test_option (s.arg argp) name then some argp else match

-- A NULL or empty string is stored as NULL.
abbrev pub text_or_null : Option (List ℕ) → Option (List ℕ)
text_or_null none = none
text_or_null (some []) = none
text_or_null (some (c ∷ cs)) = some (c ∷ cs)

abbrev pub or_empty : Option (List ℕ) → List ℕ
or_empty none = []
or_empty (some t) = t

-- The new option is the next number, and the last child of `argp`.
unfoldable pub add_option :
    CmdArgs → ℕ → List ℕ → Option (List ℕ) → CaMode → Option (List ℕ) → CmdArgs
add_option s argp opt_name opt_vname mode default_value =
    let newargp = s.used + 1 in
    let new : CmdArg = record {
      opt_name = take 1 opt_name;
      opt_vname = take 31 (or_empty opt_vname);
      default_value = text_or_null default_value;
      opt_value = none;
      mode = mode;
      option_provided = false;
      option_enabled = false;
      parentp = argp;
      options = [];
    } in
    let s1 = put_arg (record s { used = newargp }) newargp new in
    let parent = s1.arg argp in
    put_arg s1 argp (record parent { options = parent.options ++ newargp ∷ [] })

-- The flag is true if the option is there already, or its parent is not.
unfoldable pub cmdarg_register_option :
    ℕ
    → CmdArgs
    → List ℕ
    → Option (List ℕ)
    → CaMode
    → Option (List ℕ)
    → Option (List ℕ)
    → Option (Bool × CmdArgs)
unfolding find_option add_option
cmdarg_register_option fuel s opt_name verbose_name mode default_value parent_opt_name =
    elim (find_option fuel s opt_name root) [
      | none ↦ none
      | some found ↦
          if not (found == 0)
          then some (true, record s { register_error = true })
          else elim parent_opt_name [
            | none ↦ some (false, add_option s root opt_name verbose_name mode default_value)
            | some parent ↦ elim (find_option fuel s parent root) [
              | none ↦ none
              | some optionp ↦
                  if optionp == 0
                  then some (true, record s { register_error = true })
                  else some (false, add_option s optionp opt_name verbose_name mode default_value)
            ]
          ]
    ]

unfoldable pub valid_option : List ℕ → Bool
valid_option [] = false
valid_option (c ∷ cs) = c == b'-'

-- What `clean_option_text` comes to: NULL, the text in the buffer, or a write past the buffer, which
-- has `MAX_OPTION_NAME_LEN + 1` bytes.
pub data Cleaned : Type 0 where
  no_option : Cleaned
  option_text : List ℕ → Cleaned
  overrun : Cleaned

-- The text with its NUL.
abbrev pub copy_text : List ℕ → Cleaned
copy_text text = if leb (length text + 1) 33 then option_text text else overrun

unfoldable pub clean_option_text : List ℕ → Cleaned
clean_option_text [] = no_option
clean_option_text (c ∷ []) = if c == b'-' then copy_text [] else no_option
clean_option_text (c ∷ d ∷ cs) =
    if c == b'-' then (if d == b'-' then copy_text cs else copy_text (d ∷ cs)) else no_option

abbrev pub enable : CmdArgs → ℕ → CmdArgs
enable s p = let a = s.arg p in put_arg s p (record a { option_enabled = true })

-- The children of a list of options.
unfoldable pub mark_options : CmdArgs → List ℕ → CmdArgs
mark_options s [] = s
mark_options s (child ∷ children) = mark_options (enable s child) children

unfoldable pub mark_child_options : CmdArgs → ℕ → CmdArgs
unfolding mark_options
mark_child_options s argp = mark_options s (s.arg argp).options

abbrev pub provide : CmdArgs → ℕ → CmdArgs
provide s p = let a = s.arg p in put_arg s p (record a { option_provided = true })

abbrev pub set_value : CmdArgs → ℕ → List ℕ → CmdArgs
set_value s p v =
    let a = s.arg p in put_arg s p (record a { option_provided = true; opt_value = some v })

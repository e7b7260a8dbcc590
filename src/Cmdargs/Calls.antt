-- ===== src/Cmdargs/Calls.antt =====
-- The calls of ulppk/cmdargs.c as a whole: starting, registering an option and parsing.
use ulppk.Base.{
  ℕ, ◌≤◌, ◌≡◌, refl, ap, ◌∙◌, arith, Bool, true, false, List, Option, none, some, ◌⊎◌, inl, inr,
  ◌==◌, ◌≢◌, Bool-cases, All, if-false,
}
use mathlib.Core.Path.{subst}
use ulppk.Cmdargs.{
  CaMode, CmdArgs, root, find_option, add_option, cmdarg_init, cmdarg_register_option,
  mark_child_options,
}
use ulppk.Cmdargs.Loop.{parse_args, verify_required_args, returned, finish_parse, cmdarg_parse}
use ulppk.Cmdargs.Tree.{IsChild, IsForest, Finds, find_option_returns, add_option-IsForest}
use ulppk.Cmdargs.Added.{Added, add_option-Added}
use ulppk.Cmdargs.Required.{verify_required_args-true}
use ulppk.Cmdargs.Parse.{Follows, Loops, Short, mark_child_options-Follows, parse_args_returns}

finish_parse-some :
    (fuel : ℕ) (e : Bool) (s : CmdArgs)
    → verify_required_args fuel s root ≡ some true
    → finish_parse fuel (some (e, s)) ≡ some (returned e (record s { parsing_complete = true }))
unfolding finish_parse
finish_parse-some fuel e s v = rw (v, finish_parse) refl

-- On a tree of options with a root and no error in registering, with arguments that are no option or
-- have at most 33 characters, and with a depth of at least the options in use, a first `cmdarg_parse` returns, with the error of the loop alone: the check of the
-- required options never fails. Parsing then counts as complete, also after an error, and whatever
-- arguments come later, another call changes nothing and reports no error.
pub cmdarg_parse_lem :
    (fuel : ℕ) (s : CmdArgs) (args : List (List ℕ))
    → IsForest s
    → s.used ≤ fuel
    → All Short args
    → s.parsing_complete ≡ false
    → s.register_error ≡ false
    → (e : Bool) × (s1 : CmdArgs) × (parse_args fuel args (mark_child_options s root)
        ≡ some (e, s1))
      × IsForest s1
      × (verify_required_args fuel s1 root ≡ some true)
      × (let s' : CmdArgs = record s1 { parsing_complete = true } in
          (cmdarg_parse fuel s args ≡ some (returned e s'))
          × ((again : ℕ) (later : List (List ℕ))
              → cmdarg_parse again s' later ≡ some (returned false s')))
unfolding cmdarg_parse Follows Loops
cmdarg_parse_lem fuel s args h le short fresh fine =
    let (hm, um) = mark_child_options-Follows s root h in
    let (e, s1, run, (h1, u1)) =
      parse_args_returns fuel args (mark_child_options s root) hm (omega (arith, um, le)) short in
    let v =
      verify_required_args-true fuel s1 root h1 (omega arith) h1.some_root
        (omega (arith, u1, um, le)) (inl h1.root_mode) in
    (
      e,
      s1,
      run,
      h1,
      v,
      (
        if-false _ _ fresh
            ∙ if-false _ _ fine
            ∙ ap (finish_parse fuel) run
            ∙ finish_parse-some fuel e s1 v,
        λ again later. refl,
      ),
    )

null : (m : ℕ) → (m == 0) ≡ true → m ≡ 0
null m z = ground (arith, z)

not_null : (m : ℕ) → (m == 0) ≡ false → m ≢ 0
not_null m z e = ground (arith, z, e)

noted : (s : CmdArgs) → IsForest s → IsForest (record s { register_error = true })
noted s h = record { some_root = h.some_root; root_mode = h.root_mode; children = h.children }

-- Where a new option goes: below the root, or below the named parent, if the search comes to it.
pub target : ℕ → CmdArgs → Option (List ℕ) → Option ℕ
target fuel s none = some root
target fuel s (some name) = find_option fuel s name root

module _ (fuel : ℕ) (s : CmdArgs) (opt_name : List ℕ) (verbose_name : Option (List ℕ))
    (mode : CaMode) (default_value parent : Option (List ℕ)) where
  -- The option is there already, or its parent is not.
  pub Refused : Type 0
  Refused =
      ((m : ℕ) × (find_option fuel s opt_name root ≡ some m) × (m ≢ 0))
      ⊎ ((find_option fuel s opt_name root ≡ some 0) × (target fuel s parent ≡ some 0))

  -- It is not, and `argp` is its parent.
  pub Free : ℕ → Type 0
  Free argp =
      (find_option fuel s opt_name root ≡ some 0) × (target fuel s parent ≡ some argp) × (argp ≢ 0)

  -- What a call of `cmdarg_register_option` gives.
  pub Registered : Option (Bool × CmdArgs) → Type 0
  Registered o =
      (s' : CmdArgs) × IsForest s'
      × (((o ≡ some (true, s')) × Refused × (s' ≡ record s { register_error = true }))
          ⊎ ((o ≡ some (false, s'))
              × ((argp : ℕ) × Free argp
                  × Added s argp opt_name verbose_name mode default_value s')))

-- With a depth of at least the options in use, `cmdarg_register_option` on a tree of options with a
-- root returns and leaves such a tree. It reports an error exactly if the search for the name comes to
-- an option, or that for the parent's name to none, and then only notes that there was an error. Else
-- the new option, of the first character of the name and the first 31 of the verbose one, is the last
-- child of the parent, or of the root if no parent is named, and no other option changes.
pub cmdarg_register_option_lem :
    (fuel : ℕ) (s : CmdArgs) (opt_name : List ℕ) (verbose_name : Option (List ℕ)) (mode : CaMode)
    (default_value parent : Option (List ℕ))
    → IsForest s
    → s.used ≤ fuel
    → Registered fuel s opt_name verbose_name mode default_value parent
        (cmdarg_register_option fuel s opt_name verbose_name mode default_value parent)
unfolding Registered Refused Free target Finds
cmdarg_register_option_lem fuel s opt_name verbose_name mode default_value parent h le =
    let (m, em, lem, test) =
      find_option_returns fuel s opt_name root h (omega arith) h.some_root (omega (arith, le)) in
    elim (Bool-cases (m == 0)) [
      | inr z ↦ (
        record s { register_error = true },
        noted s h,
        inl (known_name m em z parent, inl (m, em, not_null m z), refl),
      )
      | inl z ↦ below m em z parent
    ]
  where
    known_name :
        (m : ℕ)
        → find_option fuel s opt_name root ≡ some m
        → (m == 0) ≡ false
        → (parent : Option (List ℕ))
        → cmdarg_register_option fuel s opt_name verbose_name mode default_value parent
          ≡ some (true, record s { register_error = true })
    known_name m em z parent =
        unfold cmdarg_register_option in rw (em, cmdarg_register_option, z) refl

    below :
        (m : ℕ)
        → find_option fuel s opt_name root ≡ some m
        → (m == 0) ≡ true
        → (parent : Option (List ℕ))
        → Registered fuel s opt_name verbose_name mode default_value parent
            (cmdarg_register_option fuel s opt_name verbose_name mode default_value parent)
    below m em z none = (
      add_option s root opt_name verbose_name mode default_value,
      add_option-IsForest s root opt_name verbose_name mode default_value h (omega arith)
          h.some_root,
      inr (
        (unfold cmdarg_register_option in rw (em, cmdarg_register_option, z) refl),
        (
          root,
          (em ∙ ap some (null m z), refl, omega arith),
          add_option-Added s root opt_name verbose_name mode default_value h.some_root,
        ),
      ),
    )
    below m em z (some name) =
        let (n, en, len, test) =
          find_option_returns fuel s name root h (omega arith) h.some_root (omega (arith, le)) in
        elim (Bool-cases (n == 0)) [
          | inl t ↦ (
            record s { register_error = true },
            noted s h,
            inl (
              (unfold cmdarg_register_option in rw (em, cmdarg_register_option, z, en, t) refl),
              inr (em ∙ ap some (null m z), en ∙ ap some (null n t)),
              refl,
            ),
          )
          | inr t ↦ (
            add_option s n opt_name verbose_name mode default_value,
            add_option-IsForest s n opt_name verbose_name mode default_value h (ground (arith, t))
                len,
            inr (
              (unfold cmdarg_register_option in rw (em, cmdarg_register_option, z, en, t) refl),
              (
                n,
                (em ∙ ap some (null m z), en, not_null n t),
                add_option-Added s n opt_name verbose_name mode default_value len,
              ),
            ),
          )
        ]

pub cmdarg_init-IsForest : (s : CmdArgs) (argv0 : List ℕ) → IsForest (cmdarg_init s argv0)
unfolding cmdarg_init IsChild
cmdarg_init-IsForest s argv0 = record {
  some_root = omega arith;
  root_mode = refl;
  children = λ p pos le.
      subst (λ q. All (IsChild 1 q) ((cmdarg_init s argv0).arg q).options) {x = 1}
        (omega (arith, pos, le)) tt;
}

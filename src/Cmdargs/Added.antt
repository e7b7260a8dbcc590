-- ===== src/Cmdargs/Added.antt =====
-- What `add_option` of ulppk/cmdargs.c writes.
use ulppk.Base.{
  ℕ, ◌+◌, ◌≤◌, ◌≡◌, ◌≢◌, refl, ap, ◌∙◌, arith, false, List, [], ◌∷◌, ◌++◌, Option, none, ◌==◌, take,
  if-true, if-false, ne→==, ==-refl,
}
use ulppk.Cmdargs.{CaMode, CmdArg, CmdArgs, or_empty, text_or_null, add_option}

-- `s'` is `s` with one option more, the last child of `argp`; no other option changes.
pub record Added (s : CmdArgs) (argp : ℕ) (opt_name : List ℕ) (opt_vname : Option (List ℕ))
    (mode : CaMode) (default_value : Option (List ℕ)) (s' : CmdArgs) : Type 0 where
  pub count : s'.used ≡ s.used + 1
  pub new : s'.arg (s.used + 1) ≡ record {
    opt_name = take 1 opt_name;
    opt_vname = take 31 (or_empty opt_vname);
    default_value = text_or_null default_value;
    opt_value = none;
    mode = mode;
    option_provided = false;
    option_enabled = false;
    parentp = argp;
    options = [];
  }
  pub parent :
      s'.arg argp ≡ (let a = s.arg argp in record a { options = a.options ++ (s.used + 1) ∷ [] })
  pub others : (q : ℕ) → q ≤ s.used → q ≢ argp → s'.arg q ≡ s.arg q
  pub no_error : s'.register_error ≡ s.register_error
  pub not_parsed : s'.parsing_complete ≡ s.parsing_complete

pub add_option-Added :
    (s : CmdArgs) (argp : ℕ) (opt_name : List ℕ) (opt_vname : Option (List ℕ)) (mode : CaMode)
    (default_value : Option (List ℕ))
    → argp ≤ s.used
    → Added s argp opt_name opt_vname mode default_value
        (add_option s argp opt_name opt_vname mode default_value)
unfolding add_option
add_option-Added s argp opt_name opt_vname mode default_value le =
    let apart : (argp == s.used + 1) ≡ false =
      ne→== argp (s.used + 1) (λ e. omega (arith, e, le)) in
    record {
      count = refl;
      new =
          if-false _ _ (ne→== (s.used + 1) argp (λ e. omega (arith, e, le)))
          ∙ if-true _ _ (==-refl (s.used + 1));
      parent =
          if-true _ _ (==-refl argp)
          ∙ ap (λ (a : CmdArg). record a { options = a.options ++ (s.used + 1) ∷ [] })
              (if-false _ _ apart);
      others = λ q small ne.
          if-false _ _ (ne→== q argp ne)
          ∙ if-false _ _ (ne→== q (s.used + 1) (λ e. omega (arith, e, small)));
      no_error = refl;
      not_parsed = refl;
    }

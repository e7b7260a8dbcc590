-- ===== src/Cmdargs/Parse.antt =====
-- The loop of `cmdarg_parse` in ulppk/cmdargs.c returns if the options fit its buffer.
use ulppk.Base.{
  ℕ, ◌≤◌, ◌≡◌, refl, sym, ◌∙◌, arith, Bool, true, false, List, [], ◌∷◌, Option, none, some, inl,
  inr, ◌==◌, Bool-cases, if-true, if-false, All, length, leb, ◌⊎◌, ◌+◌, ◌≢◌,
}
use mathlib.Core.Path.{subst}
use ulppk.Cmdargs.{
  Cleaned, no_option, option_text, overrun, copy_text, CaMode, ca_root, ca_switch, ca_default_arg,
  ca_required_arg, ca_optional_arg, CmdArgs, root, find_option, valid_option, clean_option_text,
  enable, mark_options, mark_child_options, provide, set_value,
}
use ulppk.Cmdargs.Loop.{take_value, visit_option, parse_option, parse_args}
use ulppk.Cmdargs.Tree.{IsForest, Finds, find_option_returns, put_arg-IsForest}

-- A state with the same options as before.
unfoldable pub Follows : CmdArgs → CmdArgs → Type 0
Follows s s' = IsForest s' × (s'.used ≡ s.used)

mark_options-Follows : (s : CmdArgs) (cs : List ℕ) → IsForest s → Follows s (mark_options s cs)
unfolding mark_options Follows
mark_options-Follows s [] h = (h, refl)
mark_options-Follows s (c ∷ cs) h =
    let a = s.arg c in
    mark_options-Follows (enable s c) cs
      (put_arg-IsForest s c (record a { option_enabled = true }) h refl refl)

pub mark_child_options-Follows :
    (s : CmdArgs) (p : ℕ) → IsForest s → Follows s (mark_child_options s p)
unfolding mark_child_options
mark_child_options-Follows s p h = mark_options-Follows s (s.arg p).options h

-- What a part of the loop gives: it returns, with the same options.
unfoldable pub Loops : CmdArgs → Option (Bool × CmdArgs) → Type 0
Loops s o = (e : Bool) × (s' : CmdArgs) × (o ≡ some (e, s')) × Follows s s'

Continues : CmdArgs → (CmdArgs → Option (Bool × CmdArgs)) → Type 0
Continues s next = (t : CmdArgs) → Follows s t → Loops s (next t)

take_value-Loops :
    (s : CmdArgs) (p : ℕ) (value : Option (List ℕ)) (after : CmdArgs → Option (Bool × CmdArgs))
    → IsForest s
    → Continues s after
    → Loops s (take_value s p value after)
unfolding Loops Continues
take_value-Loops s p none after h k =
    (true, mark_child_options s p, refl, mark_child_options-Follows s p h)
take_value-Loops s p (some v) after h k =
    let a = s.arg p in
    let hv =
      put_arg-IsForest s p (record a { option_provided = true; opt_value = some v }) h refl refl in
    let (e, s', eq, f) =
      k (mark_child_options (set_value s p v) p)
        (unfold Follows in mark_child_options-Follows (set_value s p v) p hv) in
    elim (Bool-cases (valid_option v)) [
      | inl t ↦ (true, mark_child_options s p, if-true _ _ t, mark_child_options-Follows s p h)
      | inr t ↦ (e, s', if-false _ _ t ∙ eq, f)
    ]

-- The cases of `visit_option`, for the mode.
by_mode :
    CaMode
    → CmdArgs
    → ℕ
    → Option (List ℕ)
    → (CmdArgs → Option (Bool × CmdArgs))
    → (CmdArgs → Option (Bool × CmdArgs))
    → Option (Bool × CmdArgs)
by_mode mode s argp value next after = elim mode [
  | ca_root ↦ next (mark_child_options s argp)
  | ca_switch ↦ next (mark_child_options (provide s argp) argp)
  | ca_default_arg ↦ take_value s argp value after
  | ca_required_arg ↦ take_value s argp value after
  | ca_optional_arg ↦ take_value s argp value after
]

by_mode-Loops :
    (m : CaMode) (s : CmdArgs) (p : ℕ) (value : Option (List ℕ))
    (next after : CmdArgs → Option (Bool × CmdArgs))
    → IsForest s
    → Continues s next
    → Continues s after
    → Loops s (by_mode m s p value next after)
unfolding by_mode Continues
by_mode-Loops ca_root s p value next after h k l =
    k (mark_child_options s p) (mark_child_options-Follows s p h)
by_mode-Loops ca_switch s p value next after h k l =
    let a = s.arg p in
    k (mark_child_options (provide s p) p) (
      unfold Follows in
      mark_child_options-Follows (provide s p) p
        (put_arg-IsForest s p (record a { option_provided = true }) h refl refl))
by_mode-Loops ca_default_arg s p value next after h k l = take_value-Loops s p value after h l
by_mode-Loops ca_required_arg s p value next after h k l = take_value-Loops s p value after h l
by_mode-Loops ca_optional_arg s p value next after h k l = take_value-Loops s p value after h l

-- An argument that is no option, or fits the buffer with the dash in front of it.
abbrev pub Short : List ℕ → Type 0
Short text = (valid_option text ≡ false) ⊎ (length text ≤ 33)

copy-fits : (text : List ℕ) → length text ≤ 32 → copy_text text ≢ overrun
copy-fits text fits e =
    absurd (cc (sym (if-true (option_text text) overrun (leb_small (length text) fits)) ∙ e))
  where
    leb_small : (n : ℕ) → n ≤ 32 → leb (n + 1) 33 ≡ true
    leb_small n h = ground arith

Short-fits : (text : List ℕ) → Short text → clean_option_text text ≢ overrun
unfolding clean_option_text valid_option
Short-fits [] short e = cc e
Short-fits (c ∷ []) short e = elim (Bool-cases (c == b'-')) [
  | inl z ↦ copy-fits [] (omega arith) (sym (if-true _ _ z) ∙ e)
  | inr z ↦ cc (sym (if-false _ _ z) ∙ e)
]
Short-fits (c ∷ d ∷ cs) (inl plain) e = cc (sym (if-false _ _ plain) ∙ e)
Short-fits (c ∷ d ∷ cs) (inr few) e = elim (Bool-cases (c == b'-')) [
  | inl z ↦ elim (Bool-cases (d == b'-')) [
    | inl y ↦ copy-fits cs (omega (arith, few)) (sym (if-true _ _ z ∙ if-true _ _ y) ∙ e)
    | inr y ↦ copy-fits (d ∷ cs) (omega (arith, few)) (sym (if-true _ _ z ∙ if-false _ _ y) ∙ e)
  ]
  | inr z ↦ cc (sym (if-false _ _ z) ∙ e)
]

module _ (fuel : ℕ) (s : CmdArgs) (text : List ℕ) (value : Option (List ℕ))
    (next after : CmdArgs → Option (Bool × CmdArgs)) (h : IsForest s) (le : s.used ≤ fuel)
    (k : Continues s next) (l : Continues s after) (short : Short text) where
  skipped : clean_option_text text ≡ no_option → parse_option fuel s text value next after ≡ next s
  unfolding parse_option
  skipped e = rw (e, parse_option) refl

  unknown :
      (name : List ℕ) (m : ℕ)
      → clean_option_text text ≡ option_text name
      → find_option fuel s name root ≡ some m
      → (m == 0) ≡ true
      → parse_option fuel s text value next after ≡ some (true, s)
  unfolding parse_option
  unknown name m e f z = rw (e, parse_option, f, z) refl

  known :
      (name : List ℕ) (m : ℕ)
      → clean_option_text text ≡ option_text name
      → find_option fuel s name root ≡ some m
      → (m == 0) ≡ false
      → parse_option fuel s text value next after ≡ by_mode (s.arg m).mode s m value next after
  unfolding parse_option visit_option by_mode
  known name m e f z = rw (e, parse_option, f, z) refl

  option-Loops :
      (o : Cleaned)
      → clean_option_text text ≡ o
      → Loops s (parse_option fuel s text value next after)
  unfolding Continues Follows Finds
  option-Loops overrun e = absurd (Short-fits text short e)
  option-Loops no_option e = subst (Loops s) (sym (skipped e)) (k s (h, refl))
  option-Loops (option_text name) e =
      let (m, ef, lem, test) =
        find_option_returns fuel s name root h (omega arith) h.some_root (omega (arith, le)) in
      elim (Bool-cases (m == 0)) [
        | inl z ↦
            subst (Loops s) (sym (unknown name m e ef z))
              (unfold Loops in (true, s, refl, (h, refl)))
        | inr z ↦
            subst (Loops s) (sym (known name m e ef z))
              (by_mode-Loops (s.arg m).mode s m value next after h k l)
      ]

  parse_option-Loops : Loops s (parse_option fuel s text value next after)
  parse_option-Loops = option-Loops (clean_option_text text) refl

Loops-Follows : (s t : CmdArgs) (o : Option (Bool × CmdArgs)) → Follows s t → Loops t o → Loops s o
unfolding Loops Follows
Loops-Follows s t o (h, u) (e, s', eq, (h', u')) = (e, s', eq, (h', u' ∙ u))

pub parse_args_returns :
    (fuel : ℕ) (args : List (List ℕ)) (s : CmdArgs)
    → IsForest s
    → s.used ≤ fuel
    → All Short args
    → Loops s (parse_args fuel args s)
unfolding parse_args Continues Follows Loops
parse_args_returns fuel [] s h le short = (false, s, refl, (h, refl))
parse_args_returns fuel (a ∷ []) s h le short =
    parse_option-Loops fuel s a none (parse_args fuel []) (parse_args fuel []) h le
      (λ t f.
        Loops-Follows s t (parse_args fuel [] t) f
          (parse_args_returns fuel [] t f.0 (omega (arith, f.1, le)) tt))
      (λ t f.
        Loops-Follows s t (parse_args fuel [] t) f
          (parse_args_returns fuel [] t f.0 (omega (arith, f.1, le)) tt))
      short.0
parse_args_returns fuel (a ∷ b ∷ rest) s h le short =
    parse_option-Loops fuel s a (some b) (parse_args fuel (b ∷ rest)) (parse_args fuel rest) h le
      (λ t f.
        Loops-Follows s t (parse_args fuel (b ∷ rest) t) f
          (parse_args_returns fuel (b ∷ rest) t f.0 (omega (arith, f.1, le)) short.1))
      (λ t f.
        Loops-Follows s t (parse_args fuel rest t) f
          (parse_args_returns fuel rest t f.0 (omega (arith, f.1, le)) short.1.1))
      short.0

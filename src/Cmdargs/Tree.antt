-- ===== src/Cmdargs/Tree.antt =====
-- The options of ulppk/cmdargs.c as a tree, its searches and its growth.
use ulppk.Base.{
  ℕ, zero, suc, ◌+◌, ◌≤◌, ◌<◌, ◌≡◌, refl, sym, ap, ◌∙◌, arith, true, false, List, [], ◌∷◌, ◌++◌,
  Option, none, some, ◌⊎◌, inl, inr, ◌==◌, take, Bool-cases, All, All-append, if-true, if-false,
  ==-refl, ne→==, ◌≢◌,
}
use mathlib.Core.Path.{subst}
use native.Mathlib.Decide.{ℕ_discrete}
use ulppk.Cmdargs.{
  CaMode, ca_root, CmdArg, CmdArgs, root, put_arg, or_next, or_empty, text_or_null, test_option,
  find_child, find_option, add_option,
}

-- A child comes after its parent, and the root is no option of its own.
unfoldable pub IsChild : ℕ → ℕ → ℕ → Type 0
IsChild used p c = (p < c) × (c ≤ used)

pub record IsForest (s : CmdArgs) : Type 0 where
  pub some_root : 1 ≤ s.used
  pub root_mode : (s.arg root).mode ≡ ca_root
  pub children : (p : ℕ) → 1 ≤ p → p ≤ s.used → All (IsChild s.used p) (s.arg p).options

-- What a search comes to: an option with that name, or NULL.
unfoldable pub Finds : CmdArgs → List ℕ → Option ℕ → Type 0
Finds s name o =
    (m : ℕ) × (o ≡ some m) × (m ≤ s.used) × ((m ≡ 0) ⊎ (test_option (s.arg m) name ≡ true))

find_child_returns :
    (s : CmdArgs) (name : List ℕ) (find : ℕ → Option ℕ) (p : ℕ) (cs : List ℕ)
    → All (IsChild s.used p) cs
    → ((c : ℕ) → IsChild s.used p c → Finds s name (find c))
    → Finds s name (find_child find cs)
unfolding find_child Finds
find_child_returns s name find p [] a f = (0, refl, omega arith, inl refl)
find_child_returns s name find p (c ∷ cs) a f =
    let (m, e, le, test) = f c a.0 in
    let (n, er, ler, testr) = find_child_returns s name find p cs a.1 f in
    elim (Bool-cases (m == 0)) [
      | inl z ↦ (n, ap (λ o. or_next o (find_child find cs)) e ∙ if-true _ _ z ∙ er, ler, testr)
      | inr z ↦ (m, ap (λ o. or_next o (find_child find cs)) e ∙ if-false _ _ z, le, test)
    ]

pub find_option_returns :
    (fuel : ℕ) (s : CmdArgs) (name : List ℕ) (p : ℕ)
    → IsForest s
    → 1 ≤ p
    → p ≤ s.used
    → s.used < fuel + p
    → Finds s name (find_option fuel s name p)
unfolding find_option Finds IsChild
find_option_returns zero s name p h pos le lt = absurd (omega arith)
find_option_returns (suc fuel) s name p h pos le lt =
    let (m, e, lem, test) =
      find_child_returns s name (find_option fuel s name) p (s.arg p).options (h.children p pos le)
        (λ c k.
          find_option_returns fuel s name c h (omega (arith, k.0)) k.1 (omega (arith, k.0))) in
    elim (Bool-cases (test_option (s.arg p) name)) [
      | inl t ↦ (p, rw t refl, le, inr t)
      | inr t ↦ (m, rw t e, lem, test)
    ]

-- Writes that keep the mode and the children.
put_arg_other : (s : CmdArgs) (p q : ℕ) (a : CmdArg) → q ≢ p → (put_arg s p a).arg q ≡ s.arg q
put_arg_other s p q a ne = if-false _ _ (ne→== q p ne)

put_arg_self : (s : CmdArgs) (p : ℕ) (a : CmdArg) → (put_arg s p a).arg p ≡ a
put_arg_self s p a = if-true _ _ (==-refl p)

put_arg-options :
    (s : CmdArgs) (p : ℕ) (a : CmdArg) (q : ℕ)
    → a.options ≡ (s.arg p).options
    → ((put_arg s p a).arg q).options ≡ (s.arg q).options
put_arg-options s p a q e = elim (ℕ_discrete q p) [
  | yes z ↦
      subst (λ r. ((put_arg s p a).arg r).options ≡ (s.arg r).options) (sym z)
        (ap (λ b. b.options) (put_arg_self s p a) ∙ e)
  | no ne ↦ ap (λ b. b.options) (put_arg_other s p q a ne)
]

put_arg-mode :
    (s : CmdArgs) (p : ℕ) (a : CmdArg) (q : ℕ)
    → a.mode ≡ (s.arg p).mode
    → ((put_arg s p a).arg q).mode ≡ (s.arg q).mode
put_arg-mode s p a q e = elim (ℕ_discrete q p) [
  | yes z ↦
      subst (λ r. ((put_arg s p a).arg r).mode ≡ (s.arg r).mode) (sym z)
        (ap (λ b. b.mode) (put_arg_self s p a) ∙ e)
  | no ne ↦ ap (λ b. b.mode) (put_arg_other s p q a ne)
]

pub put_arg-IsForest :
    (s : CmdArgs) (p : ℕ) (a : CmdArg)
    → IsForest s
    → a.options ≡ (s.arg p).options
    → a.mode ≡ (s.arg p).mode
    → IsForest (put_arg s p a)
put_arg-IsForest s p a h eo em = record {
  some_root = h.some_root;
  root_mode = put_arg-mode s p a root em ∙ h.root_mode;
  children = λ q pos le.
      subst (All (IsChild s.used q)) (sym (put_arg-options s p a q eo)) (h.children q pos le);
}

-- A new option without children, and its parent with one more.
raise_children :
    (used p : ℕ) (cs : List ℕ) → All (IsChild used p) cs → All (IsChild (used + 1) p) cs
unfolding IsChild
raise_children used p [] a = tt
raise_children used p (c ∷ cs) a = ((a.0.0, omega (arith, a.0.1)), raise_children used p cs a.1)

module _ (s : CmdArgs) (argp : ℕ) (new : CmdArg) (h : IsForest s) (above : 1 ≤ argp)
    (le : argp ≤ s.used) (empty : new.options ≡ []) where
  with_new : CmdArgs
  with_new = put_arg (record s { used = s.used + 1 }) (s.used + 1) new

  with_child : CmdArgs
  unfolding with_new
  with_child =
      let parent = with_new.arg argp in
      put_arg with_new argp (record parent { options = parent.options ++ (s.used + 1) ∷ [] })

  old_arg : (q : ℕ) → q ≤ s.used → with_new.arg q ≡ s.arg q
  unfolding with_new
  old_arg q small =
      put_arg_other (record s { used = s.used + 1 }) (s.used + 1) q new
        (λ e. omega (arith, e, small))

  last_options : (with_new.arg (s.used + 1)).options ≡ []
  unfolding with_new
  last_options =
      ap (λ b. b.options) (put_arg_self (record s { used = s.used + 1 }) (s.used + 1) new) ∙ empty

  new_children :
      (q : ℕ) → 1 ≤ q → q ≤ s.used + 1 → All (IsChild (s.used + 1) q) (with_new.arg q).options
  new_children q pos small = elim (ℕ_discrete q (s.used + 1)) [
    | yes z ↦
        subst (λ r. All (IsChild (s.used + 1) q) (with_new.arg r).options) (sym z)
          (subst (All (IsChild (s.used + 1) q)) (sym last_options) tt)
    | no ne ↦
        let older : q ≤ s.used = omega (arith, ne, small) in
        subst (λ b. All (IsChild (s.used + 1) q) b.options) (sym (old_arg q older))
          (raise_children s.used q (s.arg q).options (h.children q pos older))
  ]

  with_child-IsForest : IsForest with_child
  unfolding with_child IsChild
  with_child-IsForest =
      let parent = with_new.arg argp in
      let grown : CmdArg = record parent { options = parent.options ++ (s.used + 1) ∷ [] } in
      record {
        some_root = omega (arith, h.some_root);
        root_mode =
            put_arg-mode with_new argp grown root refl
            ∙ ap (λ b. b.mode) (old_arg root h.some_root)
            ∙ h.root_mode;
        children = λ q pos small. elim (ℕ_discrete q argp) [
          | yes z ↦
              subst (λ r. All (IsChild (s.used + 1) r) (with_child.arg r).options) (sym z)
                (subst (λ b. All (IsChild (s.used + 1) argp) b.options)
                  (sym (put_arg_self with_new argp grown))
                  (All-append (IsChild (s.used + 1) argp) (with_new.arg argp).options
                    ((s.used + 1) ∷ []) (new_children argp above (omega (arith, le)))
                    ((omega (arith, le), omega arith), tt)))
          | no ne ↦
              subst (λ b. All (IsChild (s.used + 1) q) b.options)
                (sym (put_arg_other with_new argp q grown ne)) (new_children q pos small)
        ];
      }

pub add_option-IsForest :
    (s : CmdArgs) (argp : ℕ) (opt_name : List ℕ) (opt_vname : Option (List ℕ)) (mode : CaMode)
    (default_value : Option (List ℕ))
    → IsForest s
    → 1 ≤ argp
    → argp ≤ s.used
    → IsForest (add_option s argp opt_name opt_vname mode default_value)
unfolding add_option with_new with_child
add_option-IsForest s argp opt_name opt_vname mode default_value h pos le =
    let new : CmdArg = record {
      opt_name = take 1 opt_name;
      opt_vname = take 31 (or_empty opt_vname);
      default_value = text_or_null default_value;
      opt_value = none;
      mode = mode;
      option_provided = false;
      option_enabled = false;
      parentp = argp;
      options = [];
    } in
    with_child-IsForest s argp new h pos le refl

pub added_name :
    (s : CmdArgs) (argp : ℕ) (opt_name : List ℕ) (opt_vname : Option (List ℕ)) (mode : CaMode)
    (default_value : Option (List ℕ))
    → argp ≤ s.used
    → ((add_option s argp opt_name opt_vname mode default_value).arg (s.used + 1)).opt_name
      ≡ take 1 opt_name
unfolding add_option
added_name s argp opt_name opt_vname mode default_value le =
    if-name (ne→== (s.used + 1) argp (λ e. omega (arith, e, le))) (==-refl (s.used + 1))
  where
    if-name :
        (s.used + 1 == argp) ≡ false
        → (s.used + 1 == s.used + 1) ≡ true
        → ((add_option s argp opt_name opt_vname mode default_value).arg (s.used + 1)).opt_name
          ≡ take 1 opt_name
    if-name e f = rw (e, f) refl

-- ===== src/Cmdargs/Lookup.antt =====
-- Options of ulppk/cmdargs.c that are found again.
use ulppk.Base.{
  ℕ, zero, suc, ◌+◌, ◌≤◌, ◌<◌, ◌≡◌, refl, sym, ap, ◌∙◌, arith, true, false, List, [], ◌∷◌, ◌++◌,
  Option, none, some, inl, inr, ◌==◌, if◌then◌else◌, ◌||◌, take, Bool-cases, All, if-true, if-false,
  str_eq, str_eq_refl, ne→==,
}
use mathlib.Core.Option.{some-injective, none-ne-some}
use ulppk.Cmdargs.{
  CaMode, CmdArgs, root, or_next, test_option, find_child, find_option, add_option,
  cmdarg_register_option,
}
use ulppk.Cmdargs.Tree.{IsChild, IsForest, added_name}

find_child_ext :
    (find find' : ℕ → Option ℕ) (used p : ℕ) (cs : List ℕ)
    → All (IsChild used p) cs
    → ((c : ℕ) → IsChild used p c → find c ≡ find' c)
    → find_child find cs ≡ find_child find' cs
unfolding find_child
find_child_ext find find' used p [] a e = refl
find_child_ext find find' used p (c ∷ cs) a e =
    ap (λ o. or_next o (find_child find cs)) (e c a.0)
    ∙ ap (or_next (find' c)) (find_child_ext find find' used p cs a.1 e)

or_next-null : (o r : Option ℕ) → or_next o r ≡ some 0 → (o ≡ some 0) × (r ≡ some 0)
or_next-null none r e = absurd (none-ne-some 0 e)
or_next-null (some m) r e = elim (Bool-cases (m == 0)) [
  | inl z ↦ (ap some (ground (arith, z)), sym (if-true _ _ z) ∙ e)
  | inr z ↦ absurd (ground (arith, z, some-injective m 0 (sym (if-false _ _ z) ∙ e)))
]

-- Behind children without a match.
find_child_last :
    (find : ℕ → Option ℕ) (cs : List ℕ) (n : ℕ) (m : ℕ)
    → find_child find cs ≡ some 0
    → find n ≡ some m
    → find_child find (cs ++ n ∷ []) ≡ some m
unfolding find_child
find_child_last find [] n m e f = ap (λ o. or_next o (some 0)) f ∙ ground arith
find_child_last find (c ∷ cs) n m e f =
    let (head, tail) = or_next-null (find c) (find_child find cs) e in
    ap (λ o. or_next o (find_child find (cs ++ n ∷ []))) head ∙ find_child_last find cs n m tail f

-- Below an option that is not the root, a child more of the root changes nothing.
module _ (s s' : CmdArgs) (key : List ℕ) (h : IsForest s)
    (same : (c : ℕ) → 1 < c → c ≤ s.used → s'.arg c ≡ s.arg c) where
  find_below :
      (fuel c : ℕ) → 1 < c → c ≤ s.used → find_option fuel s' key c ≡ find_option fuel s key c
  unfolding find_option IsChild
  find_below zero c lt le = refl
  find_below (suc fuel) c lt le =
      ap (λ a. if test_option a key then some c else find_child (find_option fuel s' key) a.options)
        (same c lt le)
      ∙ ap (λ o. if test_option (s.arg c) key then some c else o)
          (find_child_ext (find_option fuel s' key) (find_option fuel s key) s.used c
            (s.arg c).options (h.children c (omega (arith, lt)) le)
            (λ d k. find_below fuel d (omega (arith, lt, k.0)) k.1))

  find_added :
      (fuel : ℕ)
      → test_option (s'.arg root) key ≡ test_option (s.arg root) key
      → (s'.arg root).options ≡ (s.arg root).options ++ (s.used + 1) ∷ []
      → test_option (s'.arg (s.used + 1)) key ≡ true
      → find_option (suc (suc fuel)) s key root ≡ some 0
      → find_option (suc (suc fuel)) s' key root ≡ some (s.used + 1)
  unfolding find_option IsChild
  find_added fuel t o n e = elim (Bool-cases (test_option (s.arg root) key)) [
    | inl u ↦ absurd (omega (arith, some-injective root 0 (sym (if-true _ _ u) ∙ e)))
    | inr u ↦
        let old : find_child (find_option (suc fuel) s key) (s.arg root).options ≡ some 0 =
          sym (if-false _ _ u) ∙ e in
        let kept : find_child (find_option (suc fuel) s' key) (s.arg root).options ≡ some 0 =
          find_child_ext (find_option (suc fuel) s' key) (find_option (suc fuel) s key) s.used root
            (s.arg root).options (h.children root (omega arith) h.some_root)
            (λ d k. find_below (suc fuel) d k.0 k.1)
          ∙ old in
        if-false _ _ (t ∙ u)
        ∙ ap (find_child (find_option (suc fuel) s' key)) o
        ∙ find_child_last (find_option (suc fuel) s' key) (s.arg root).options (s.used + 1)
            (s.used + 1) kept (if-true _ _ n)
  ]

-- An option that is added below the root.
module _ (s : CmdArgs) (opt_name : List ℕ) (opt_vname : Option (List ℕ)) (mode : CaMode)
    (default_value : Option (List ℕ)) (h : IsForest s) where
  added_keeps :
      (c : ℕ)
      → 1 < c
      → c ≤ s.used
      → (add_option s root opt_name opt_vname mode default_value).arg c ≡ s.arg c
  unfolding add_option
  added_keeps c lt le =
      if-false _ _ (ne→== c root (λ e. omega (arith, e, lt)))
      ∙ if-false _ _ (ne→== c (s.used + 1) (λ e. omega (arith, e, le)))

  old_root : (root == s.used + 1) ≡ false
  old_root = ne→== root (s.used + 1) (λ e. omega (arith, e, h.some_root))

  added_root :
      (key : List ℕ)
      → test_option ((add_option s root opt_name opt_vname mode default_value).arg root) key
        ≡ test_option (s.arg root) key
  unfolding add_option test_option
  added_root key = rw old_root refl

  added_options :
      ((add_option s root opt_name opt_vname mode default_value).arg root).options
      ≡ (s.arg root).options ++ (s.used + 1) ∷ []
  unfolding add_option
  added_options = rw old_root refl

  added_test :
      take 1 opt_name ≡ opt_name
      → test_option
          ((add_option s root opt_name opt_vname mode default_value).arg (s.used + 1))
          opt_name
        ≡ true
  unfolding test_option
  added_test short =
      let a = (add_option s root opt_name opt_vname mode default_value).arg (s.used + 1) in
      ap (λ b. b || str_eq a.opt_vname opt_name)
        (ap (λ n. str_eq n opt_name)
            (added_name s root opt_name opt_vname mode default_value h.some_root ∙ short)
          ∙ str_eq_refl opt_name)

register_free :
    (fuel : ℕ) (s : CmdArgs) (opt_name : List ℕ) (verbose_name : Option (List ℕ)) (mode : CaMode)
    (default_value : Option (List ℕ))
    → find_option fuel s opt_name root ≡ some 0
    → cmdarg_register_option fuel s opt_name verbose_name mode default_value none
      ≡ some (false, add_option s root opt_name verbose_name mode default_value)
unfolding cmdarg_register_option
register_free fuel s opt_name verbose_name mode default_value e =
    rw (e, cmdarg_register_option) refl

-- In a tree of options with a root, an option with a name of at most one character that is not there
-- yet, by a search with a depth of at least two, is registered below the program name without an
-- error. A search for the name of the same depth then comes to it: it is the new last option.
pub find_option-cmdarg_register_option :
    (fuel : ℕ) (s : CmdArgs) (opt_name : List ℕ) (verbose_name : Option (List ℕ)) (mode : CaMode)
    (default_value : Option (List ℕ))
    → IsForest s
    → take 1 opt_name ≡ opt_name
    → find_option (suc (suc fuel)) s opt_name root ≡ some 0
    → (s' : CmdArgs) × (cmdarg_register_option
          (suc (suc fuel))
          s
          opt_name
          verbose_name
          mode
          default_value
          none
        ≡ some (false, s'))
      × (find_option (suc (suc fuel)) s' opt_name root ≡ some (s.used + 1))
      × (s'.used ≡ s.used + 1)
find_option-cmdarg_register_option fuel s opt_name verbose_name mode default_value h short e = (
  add_option s root opt_name verbose_name mode default_value,
  register_free (suc (suc fuel)) s opt_name verbose_name mode default_value e,
  find_added s (add_option s root opt_name verbose_name mode default_value) opt_name h
      (added_keeps s opt_name verbose_name mode default_value h) fuel
      (added_root s opt_name verbose_name mode default_value h opt_name)
      (added_options s opt_name verbose_name mode default_value h)
      (added_test s opt_name verbose_name mode default_value h short) e,
  unfold add_option in refl,
)

-- ===== src/Cmdargs/Required.antt =====
-- The check of the required options in ulppk/cmdargs.c.
use ulppk.Base.{
  ℕ, zero, suc, ◌+◌, ◌≤◌, ◌<◌, ◌≡◌, refl, ap, ◌∙◌, arith, Bool, true, List, [], ◌∷◌, Option, some,
  ◌⊎◌, inl, inr, ◌&&◌, Bool-cases, All, if-true, if-false,
}
use ulppk.Cmdargs.{
  CaMode, ca_root, ca_switch, ca_default_arg, ca_required_arg, ca_optional_arg, CmdArg, CmdArgs,
}
use ulppk.Cmdargs.Loop.{required_status_ok, and_rest, verify_children, verify_required_args}
use ulppk.Cmdargs.Tree.{IsChild, IsForest}

-- An option that is provided, or the root, is as required.
required-provided :
    (a : CmdArg) (m : CaMode)
    → a.mode ≡ m
    → (m ≡ ca_root) ⊎ (a.option_provided ≡ true)
    → required_status_ok a ≡ true
unfolding required_status_ok
required-provided a ca_root e h = rw e refl
required-provided a ca_switch e h = rw e refl
required-provided a ca_default_arg e h = rw e refl
required-provided a ca_required_arg e (inl r) = absurd (cc r)
required-provided a ca_required_arg e (inr p) = elim (Bool-cases a.option_enabled) [
  | inl t ↦ rw (e, t) p
  | inr t ↦ rw (e, t) refl
]
required-provided a ca_optional_arg e h = rw e refl

verify_children-true :
    (verify : ℕ → Option Bool) (s : CmdArgs) (p : ℕ) (cs : List ℕ)
    → All (IsChild s.used p) cs
    → ((c : ℕ) → IsChild s.used p c → (s.arg c).option_provided ≡ true → verify c ≡ some true)
    → verify_children verify s cs ≡ some true
unfolding verify_children
verify_children-true verify s p [] a f = refl
verify_children-true verify s p (c ∷ cs) a f =
    let rest = verify_children-true verify s p cs a.1 f in
    elim (Bool-cases ((s.arg c).option_enabled && (s.arg c).option_provided)) [
      | inl t ↦
          if-true _ _ t
          ∙ ap (λ o. and_rest o (verify_children verify s cs)) (f c a.0 (ground (arith, t)))
          ∙ rest
      | inr t ↦ if-false _ _ t ∙ rest
    ]

pub verify_required_args-true :
    (fuel : ℕ) (s : CmdArgs) (p : ℕ)
    → IsForest s
    → 1 ≤ p
    → p ≤ s.used
    → s.used < fuel + p
    → ((s.arg p).mode ≡ ca_root) ⊎ ((s.arg p).option_provided ≡ true)
    → verify_required_args fuel s p ≡ some true
unfolding verify_required_args IsChild
verify_required_args-true zero s p h pos le lt m = absurd (omega arith)
verify_required_args-true (suc fuel) s p h pos le lt m =
    if-true _ _ (required-provided (s.arg p) (s.arg p).mode refl m)
    ∙ verify_children-true (verify_required_args fuel s) s p (s.arg p).options (h.children p pos le)
        (λ c k provided.
          verify_required_args-true fuel s c h (omega (arith, k.0)) k.1 (omega (arith, k.0))
            (inr provided))

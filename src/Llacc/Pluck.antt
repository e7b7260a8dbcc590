-- ===== src/Llacc/Pluck.antt =====
-- Taking a given node off the list.
use ulppk.Base.{ℕ, ◌<◌, ◌≡◌, ap, ◌∙◌, ◌≢◌, sym, arith}
use ulppk.Base.{
  Bool, true, false, not, ◌||◌, ◌==◌, List, [], ◌∷◌, length, if-true, if-false, ==-iff, eq→==,
  ne→==,
}
use ulppk.Base.{Option, some, inl, inr, Bool-cases, if◌then◌else◌}
use mathlib.Core.Path.{subst}
use native.Mathlib.Decide.{ℕ_discrete}
use ulppk.Llacc.{Store, ll_pluck, ll_getfront, ll_getback, ll_search, ll_plu0, node_at, ◌>>=◌}
use ulppk.Llacc.{put_link, ll_match_link}
use ulppk.Llacc.Shape.{last, erase, pred_of, pred_of-elem, IsList, elem, erase-absent}
use ulppk.Llacc.Shape.{Distinct-erase, last-erase, elem-last}
use ulppk.Llacc.Take.{ll_getfront_lem, ll_getback_lem, first, count_without, found_before}
use ulppk.Llacc.Take.{before-ne-zero, link-before, erase-tail, cut-Chain}

module _ (fuel : ℕ) (s : Store) (n : ℕ) where
  pluck_front : s.ll_fptr ≡ n → ll_pluck fuel s n ≡ some (false, (ll_getfront s).1)
  unfolding ll_pluck
  pluck_front e = if-true _ _ (eq→== s.ll_fptr n e)

  abbrev flagged : ℕ × Store → Option (Bool × Store)
  flagged r = some (false, r.1)

  pluck_back : s.ll_fptr ≢ n → s.ll_bptr ≡ n → ll_pluck fuel s n ≡ (ll_getback fuel s >>= flagged)
  unfolding ll_pluck
  pluck_back e f = if-false _ _ (ne→== s.ll_fptr n e) ∙ if-true _ _ (eq→== s.ll_bptr n f)

  abbrev pub plucked : ℕ → Store
  plucked p = record s { node = put_link s.node p (s.node (s.node p).link).link }

  pluck_absent :
      s.ll_fptr ≢ n
      → s.ll_bptr ≢ n
      → ll_search fuel s (ll_match_link n) ≡ some 0
      → ll_pluck fuel s n ≡ some (true, s)
  pluck_absent e f q =
      unfold ll_pluck in
      (if-false _ _ (ne→== s.ll_fptr n e)
        ∙ if-false _ _ (ne→== s.ll_bptr n f)
        ∙ ap (λ r. r >>= after) q)
    where
      after : ℕ → Option (Bool × Store)
      after p = if p == 0 then some (true, s) else some (false, (ll_plu0 s (node_at p)).1)

  pluck_middle :
      (p : ℕ)
      → s.ll_fptr ≢ n
      → s.ll_bptr ≢ n
      → ll_search fuel s (ll_match_link n) ≡ some p
      → p ≢ 0
      → (s.node p).link ≢ 0
      → ll_pluck fuel s n ≡ some (false, plucked p)
  pluck_middle p e f q nz lz =
      unfold ll_pluck in
      (if-false _ _ (ne→== s.ll_fptr n e)
        ∙ if-false _ _ (ne→== s.ll_bptr n f)
        ∙ ap (λ r. r >>= after) q
        ∙ if-false _ _ (ne→== p 0 nz)
        ∙ ap (λ (r : ℕ × Store). some (false, r.1)) (if-false _ _ (ne→== (s.node p).link 0 lz)))
    where
      after : ℕ → Option (Bool × Store)
      after p = if p == 0 then some (true, s) else some (false, (ll_plu0 s (node_at p)).1)

-- The count after `ll_pluck`: it goes down at either end of the list, and stays in between.
abbrev pub count_plucked : ℕ → List ℕ → ℕ → ℕ
count_plucked n xs c = if first xs == n || last xs == n then count_without xs c else c

elem-head : (n x : ℕ) (xs : List ℕ) → x ≡ n → elem n (x ∷ xs) ≡ true
elem-head n x xs e = ground arith

elem-tail : (n x : ℕ) (xs : List ℕ) → x ≢ n → elem n (x ∷ xs) ≡ elem n xs
elem-tail n x xs h = ground arith

-- What `ll_pluck` does to the list `xs`.
pub record Plucked (fuel : ℕ) (s : Store) (n : ℕ) (xs : List ℕ) : Type 0 where
  pub after : Store
  pub returns : ll_pluck fuel s n ≡ some (not (elem n xs), after)
  pub holds : IsList after (erase n xs)
  pub counts : after.ll_cnt ≡ count_plucked n xs s.ll_cnt

module _ (fuel : ℕ) (s : Store) (n x : ℕ) (xs : List ℕ) (l : IsList s (x ∷ xs)) (nz : n ≢ 0)
    (h : length (x ∷ xs) < fuel) where
  at_front : x ≡ n → Plucked fuel s n (x ∷ xs)
  at_front e =
      let (_, holds, counts) = ll_getfront_lem s (x ∷ xs) l in
      record {
        after = (ll_getfront s).1;
        returns =
            pluck_front fuel s n (l.chain.0 ∙ e)
            ∙ ap (λ b. some (not b, (ll_getfront s).1)) (sym (elem-head n x xs e));
        holds = subst (IsList (ll_getfront s).1) (sym (if-true _ _ (eq→== x n e))) holds;
        counts =
            counts ∙ sym (ap (λ b. if b then count_without (x ∷ xs) s.ll_cnt else s.ll_cnt) hit);
      }
    where
      hit : (x == n || last (x ∷ xs) == n) ≡ true
      hit = ground (arith, eq→== x n e)

  at_back : x ≢ n → last (x ∷ xs) ≡ n → Plucked fuel s n (x ∷ xs)
  at_back ne e =
      let (s', returns, holds, counts) = ll_getback_lem fuel s (x ∷ xs) l h in
      record {
        after = s';
        returns =
            pluck_back fuel s n (λ q. ne (sym l.chain.0 ∙ q)) (l.back ∙ e)
            ∙ ap (λ r. r >>= flagged fuel s n) returns
            ∙ ap (λ b. some (not b, s')) (sym found);
        holds = subst (λ t. IsList s' (erase t (x ∷ xs))) e holds;
        counts =
            counts ∙ sym (ap (λ b. if b then count_without (x ∷ xs) s.ll_cnt else s.ll_cnt) hit);
      }
    where
      hit : (x == n || last (x ∷ xs) == n) ≡ true
      hit = ground (arith, eq→== (last (x ∷ xs)) n e)

      found : elem n (x ∷ xs) ≡ true
      found = subst (λ t. elem t (x ∷ xs) ≡ true) e (elem-last x xs)

  module _ (ne : x ≢ n) (nl : last (x ∷ xs) ≢ n) where
    missed : (x == n || last (x ∷ xs) == n) ≡ false
    missed = ground (arith, ne→== x n ne, ne→== (last (x ∷ xs)) n nl)

    not_front : s.ll_fptr ≢ n
    not_front q = ne (sym l.chain.0 ∙ q)

    not_back : s.ll_bptr ≢ n
    not_back q = nl (sym l.back ∙ q)

    in_between : elem n xs ≡ true → Plucked fuel s n (x ∷ xs)
    in_between q = record {
      after = plucked fuel s n p;
      returns =
          pluck_middle fuel s n p not_front not_back (found_before fuel n s (x ∷ xs) l nz h)
            (before-ne-zero s x n xs l ne q) (λ z. nz (sym (link-before s x n xs l ne q) ∙ z))
          ∙ ap (λ b. some (not b, plucked fuel s n p)) (sym (elem-tail n x xs ne ∙ q));
      holds = record {
        chain = cut-Chain s x n xs l ne q;
        back = l.back ∙ sym (last-erase n x xs nl) ∙ ap last (sym (erase-tail s x n xs l ne q));
        distinct = Distinct-erase n (x ∷ xs) l.distinct;
      };
      counts = sym (ap (λ b. if b then count_without (x ∷ xs) s.ll_cnt else s.ll_cnt) missed);
    }
      where
        p : ℕ
        p = pred_of n (x ∷ xs)

    not_there : elem n xs ≡ false → Plucked fuel s n (x ∷ xs)
    not_there q = record {
      after = s;
      returns =
          pluck_absent fuel s n not_front not_back
            (found_before fuel n s (x ∷ xs) l nz h ∙ ap some no_pred)
          ∙ ap (λ b. some (not b, s)) (sym absent);
      holds = subst (IsList s) (sym (erase-absent n (x ∷ xs) absent)) l;
      counts = sym (ap (λ b. if b then count_without (x ∷ xs) s.ll_cnt else s.ll_cnt) missed);
    }
      where
        absent : elem n (x ∷ xs) ≡ false
        absent = elem-tail n x xs ne ∙ q

        no_pred : pred_of n (x ∷ xs) ≡ 0
        no_pred =
            (==-iff (pred_of n (x ∷ xs)) 0).0
              (pred_of-elem s.node s.ll_fptr n x xs l.chain ∙ ap not q)

-- `ll_pluck` of a node that is not NULL, with one round more than the well-formed list has nodes,
-- reports whether the node is missing and leaves the list without it, in order. The count goes
-- down only if the node was the front or the back one; a node in between is not counted off.
pub ll_pluck-Plucked :
    (fuel : ℕ) (s : Store) (n : ℕ) (xs : List ℕ)
    → IsList s xs
    → n ≢ 0
    → length xs < fuel
    → Plucked fuel s n xs
ll_pluck-Plucked fuel s n [] l nz h = record {
  after = s;
  returns =
      pluck_absent fuel s n (λ e. nz (sym e ∙ l.chain)) (λ e. nz (sym e ∙ l.back))
        (found_before fuel n s [] l nz h);
  holds = l;
  counts = ground arith;
}
ll_pluck-Plucked fuel s n (x ∷ xs) l nz h = elim (ℕ_discrete x n) [
  | yes e ↦ at_front fuel s n x xs l nz h e
  | no ne ↦ elim (ℕ_discrete (last (x ∷ xs)) n) [
    | yes e ↦ at_back fuel s n x xs l nz h ne e
    | no nl ↦ elim (Bool-cases (elem n xs)) [
      | inl q ↦ in_between fuel s n x xs l nz h ne nl q
      | inr q ↦ not_there fuel s n x xs l nz h ne nl q
    ]
  ]
]

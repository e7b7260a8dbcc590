-- ===== src/Llacc/Insert.antt =====
-- Inserting a node behind a given one.
use ulppk.Base.{ℕ, ◌<◌, ◌≡◌, refl, ap, ◌∙◌, ◌≢◌, sym, arith}
use ulppk.Base.{
  Bool, true, false, not, ◌==◌, List, [], ◌∷◌, length, if-true, if-false, ==-iff, eq→==, ne→==,
}
use ulppk.Base.{Option, some, inl, inr, Bool-cases, if◌then◌else◌}
use mathlib.Core.Path.{subst}
use ulppk.Llacc.{Store, Node, ll_insert, ll_ins0, ll_search, put_link, ll_match_link, ◌>>=◌}
use ulppk.Llacc.Shape.{Chain, Fresh, Distinct, last, pred_of, pred_of-elem, IsList, elem}
use ulppk.Llacc.Shape.{put_link_self, put_link_ne, Chain-put_link}
use ulppk.Llacc.Take.{behind, found_before}

-- The list with `n` behind the first `p`.
abbrev pub insert_behind : ℕ → ℕ → List ℕ → List ℕ
insert_behind p n [] = []
insert_behind p n (x ∷ xs) = if x == p then x ∷ n ∷ xs else x ∷ insert_behind p n xs

abbrev inserted : (ℕ → Node) → ℕ → ℕ → ℕ → Node
inserted node p n = put_link (put_link node n (node p).link) p n

-- Linking a fresh node between a node and its successor.
Chain-insert :
    (node : ℕ → Node) (q p n : ℕ) (xs : List ℕ)
    → n ≢ 0
    → elem p xs ≡ true
    → Fresh n xs
    → Distinct xs
    → Chain node q xs
    → Chain (inserted node p n) q (insert_behind p n xs)
Chain-insert node q p n [] nz here f d c = cc
Chain-insert node q p n (x ∷ xs) nz here f d c = elim (Bool-cases (x == p)) [
  | inl e ↦
      let xp : x ≡ p = (==-iff x p).0 e in
      subst (Chain (inserted node p n) q) (sym (if-true _ _ e)) (
        c.0,
        c.1,
        (
          ap (λ y. (inserted node p n y).link) xp
              ∙ put_link_self (put_link node n (node p).link) p n,
          nz,
          rw
              (
                put_link_ne (put_link node n (node p).link) p n n (λ z. f.0 (xp ∙ sym z)),
                put_link_self node n (node p).link,
              )
              (Chain-put_link (put_link node n (node p).link) (node p).link p n xs
                (subst (λ y. Fresh y xs) xp d.0)
                (Chain-put_link node (node p).link n (node p).link xs f.1
                  (subst (λ y. Chain node (node y).link xs) xp c.2))),
        ),
      )
  | inr e ↦
      let xp : x ≢ p = λ z. cc (e, eq→== x p z) in
      subst (Chain (inserted node p n) q) (sym (if-false _ _ e)) (
        c.0,
        c.1,
        rw
            (
              put_link_ne (put_link node n (node p).link) p n x xp,
              put_link_ne node n (node p).link x f.0,
            )
            (Chain-insert node (node x).link p n xs nz (elem_tail e) f.1 d.1 c.2),
      )
]
  where
    elem_tail : (x == p) ≡ false → elem p xs ≡ true
    elem_tail e = ground arith

-- What `ll_insert` of `n` behind `p` does to the list `xs`.
pub record Inserted (fuel : ℕ) (s : Store) (p n : ℕ) (xs : List ℕ) : Type 0 where
  pub after : Store
  pub returns : ll_insert fuel s p n ≡ some (not (elem p (behind xs)), after)
  pub chain :
      Chain after.node after.ll_fptr (if elem p (behind xs) then insert_behind p n xs else xs)
  pub back : after.ll_bptr ≡ last xs
  pub count : after.ll_cnt ≡ s.ll_cnt

module _ (fuel : ℕ) (s : Store) (p n : ℕ) where
  insert_absent :
      ll_search fuel s (ll_match_link p) ≡ some 0 → ll_insert fuel s p n ≡ some (true, s)
  insert_absent q = unfold ll_insert in ap (λ r. r >>= after) q
    where
      after : ℕ → Option (Bool × Store)
      after t = if t == 0 then some (true, s) else some (false, ll_ins0 s p n)

  abbrev put_in : Store
  put_in = record s { node = inserted s.node p n }

  insert_present :
      (t : ℕ)
      → ll_search fuel s (ll_match_link p) ≡ some t
      → t ≢ 0
      → ll_insert fuel s p n ≡ some (false, put_in)
  insert_present t q tz =
      unfold ll_insert in (ap (λ r. r >>= after) q ∙ if-false _ _ (ne→== t 0 tz))
    where
      after : ℕ → Option (Bool × Store)
      after t = if t == 0 then some (true, s) else some (false, ll_ins0 s p n)

  module _ (x : ℕ) (xs : List ℕ) (pz : p ≢ 0) (nz : n ≢ 0) (f : Fresh n (x ∷ xs))
      (l : IsList s (x ∷ xs)) (h : length (x ∷ xs) < fuel) where
    found : ll_search fuel s (ll_match_link p) ≡ some (pred_of p (x ∷ xs))
    found = found_before fuel p s (x ∷ xs) l pz h

    has_pred : (pred_of p (x ∷ xs) == 0) ≡ not (elem p xs)
    has_pred = pred_of-elem s.node s.ll_fptr p x xs l.chain

    behind_node : elem p xs ≡ true → Inserted fuel s p n (x ∷ xs)
    behind_node e = record {
      after = put_in;
      returns =
          insert_present (pred_of p (x ∷ xs)) found
            (λ z. cc (has_pred, ap not e, eq→== (pred_of p (x ∷ xs)) 0 z))
          ∙ ap (λ b. some (not b, put_in)) (sym e);
      chain =
          subst (Chain (inserted s.node p n) s.ll_fptr) (sym (if-true _ _ e)) (
            Chain-insert s.node s.ll_fptr p n (x ∷ xs) nz (ground (arith, e)) f l.distinct l.chain);
      back = l.back;
      count = refl;
    }

    refused : elem p xs ≡ false → Inserted fuel s p n (x ∷ xs)
    refused e = record {
      after = s;
      returns =
          insert_absent (found ∙ ap some ((==-iff (pred_of p (x ∷ xs)) 0).0 (has_pred ∙ ap not e)))
          ∙ ap (λ b. some (not b, s)) (sym e);
      chain = subst (Chain s.node s.ll_fptr) (sym (if-false _ _ e)) l.chain;
      back = l.back;
      count = refl;
    }

-- `ll_insert` of a new node behind a node of a well-formed list other than the first, with one
-- round more than the list has nodes, links it there, but leaves the count, and leaves the back
-- pointer at the old last node. Behind the first node, as behind a node that is not on the list,
-- it changes nothing and reports an error. Neither node is NULL.
pub ll_insert-Inserted :
    (fuel : ℕ) (s : Store) (p n : ℕ) (xs : List ℕ)
    → IsList s xs
    → Fresh n xs
    → p ≢ 0
    → n ≢ 0
    → length xs < fuel
    → Inserted fuel s p n xs
ll_insert-Inserted fuel s p n [] l f pz nz h = record {
  after = s;
  returns = insert_absent fuel s p n (found_before fuel p s [] l pz h);
  chain = l.chain;
  back = l.back;
  count = refl;
}
ll_insert-Inserted fuel s p n (x ∷ xs) l f pz nz h = elim (Bool-cases (elem p xs)) [
  | inl e ↦ behind_node fuel s p n x xs pz nz f l h e
  | inr e ↦ refused fuel s p n x xs pz nz f l h e
]

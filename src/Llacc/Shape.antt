-- ===== src/Llacc/Shape.antt =====
-- The chain of nodes from a pointer on, as a list of addresses.
use ulppk.Base.{ℕ, zero, suc, ◌<◌, ◌≡◌, refl, ap, ◌∙◌, ◌≢◌, sym, arith}
use ulppk.Base.{
  Bool, true, false, not, ◌||◌, ◌==◌, if◌then◌else◌, List, [], ◌∷◌, ◌++◌, All, length, some,
}
use ulppk.Base.{inl, inr, Bool-cases, ==-iff, if-true, if-false}
use mathlib.Core.Path.{subst, subst₂}
use ulppk.Llacc.{Node, Store, put_link, search_from, ll_match_link}

abbrev pub Chain : (ℕ → Node) → ℕ → List ℕ → Type 0
Chain node p [] = p ≡ 0
Chain node p (x ∷ xs) = (p ≡ x) × (x ≢ 0) × Chain node (node x).link xs

abbrev pub Fresh : ℕ → List ℕ → Type 0
Fresh n = All (λ x. x ≢ n)

abbrev pub Distinct : List ℕ → Type 0
Distinct [] = Unit
Distinct (x ∷ xs) = Fresh x xs × Distinct xs

abbrev pub last : List ℕ → ℕ
last [] = 0
last (x ∷ []) = x
last (x ∷ y ∷ xs) = last (y ∷ xs)

-- The list without the first `t`.
abbrev pub erase : ℕ → List ℕ → List ℕ
erase t [] = []
erase t (x ∷ xs) = if x == t then xs else x ∷ erase t xs

-- The node before `t`, 0 if there is none.
abbrev pub pred_of : ℕ → List ℕ → ℕ
pred_of t [] = 0
pred_of t (x ∷ []) = 0
pred_of t (x ∷ y ∷ xs) = if y == t then x else pred_of t (y ∷ xs)

-- The header and its chain are the list `xs` of different nodes.
pub record IsList (s : Store) (xs : List ℕ) : Type 0 where
  pub chain : Chain s.node s.ll_fptr xs
  pub back : s.ll_bptr ≡ last xs
  pub distinct : Distinct xs

pub put_link_self : (node : ℕ → Node) (p v : ℕ) → (put_link node p v p).link ≡ v
put_link_self node p v = ground arith

pub put_link_ne : (node : ℕ → Node) (p v q : ℕ) → q ≢ p → (put_link node p v q).link ≡ (node q).link
put_link_ne node p v q h = ground arith

-- A write to a node outside the chain leaves it.
pub Chain-put_link :
    (node : ℕ → Node) (p n v : ℕ) (xs : List ℕ)
    → Fresh n xs
    → Chain node p xs
    → Chain (put_link node n v) p xs
Chain-put_link node p n v [] f c = c
Chain-put_link node p n v (x ∷ xs) f c =
    (c.0, c.1, rw (put_link_ne node n v x f.0) (Chain-put_link node (node x).link n v xs f.1 c.2))

pub Fresh-last : (x y : ℕ) (xs : List ℕ) → Fresh x (y ∷ xs) → last (y ∷ xs) ≢ x
Fresh-last x y [] f = f.0
Fresh-last x y (z ∷ xs) f = Fresh-last x z xs f.1

-- Linking a fresh node behind the last one.
pub Chain-append :
    (node : ℕ → Node) (p n x : ℕ) (xs : List ℕ)
    → n ≢ 0
    → Fresh n (x ∷ xs)
    → Distinct (x ∷ xs)
    → Chain node p (x ∷ xs)
    → Chain (put_link (put_link node (last (x ∷ xs)) n) n 0) p (x ∷ (xs ++ n ∷ []))
Chain-append node p n x [] nz f d c = (
  c.0,
  c.1,
  (
    rw (put_link_ne (put_link node x n) n 0 x f.0) (put_link_self node x n),
    nz,
    put_link_self (put_link node x n) n 0,
  ),
)
Chain-append node p n x (y ∷ xs) nz f d c = (
  c.0,
  c.1,
  rw
      (
        put_link_ne (put_link node (last (y ∷ xs)) n) n 0 x f.0,
        put_link_ne node (last (y ∷ xs)) n x (λ e. Fresh-last x y xs d.0 (sym e)),
      )
      (Chain-append node (node x).link n y xs nz f.1 d.1 c.2),
)

-- The search for the predecessor of a node ends within the length of the list and finds it.
pub search_from-pred_of :
    (s : Store) (t p fuel : ℕ) (xs : List ℕ)
    → t ≢ 0
    → length xs < fuel
    → Chain s.node p xs
    → search_from (ll_match_link t) s fuel p ≡ some (pred_of t xs)
unfolding search_from
search_from-pred_of s t p zero xs tz h c = absurd (omega arith)
search_from-pred_of s t p (suc fuel) [] tz h c = ground arith
search_from-pred_of s t p (suc fuel) (x ∷ []) tz h c =
    ground (arith, search_from-pred_of s t (s.node x).link fuel [] tz (omega arith) c.2)
search_from-pred_of s t p (suc fuel) (x ∷ y ∷ xs) tz h c =
    ground (arith, search_from-pred_of s t (s.node x).link fuel (y ∷ xs) tz (omega arith) c.2)

pub pred_of-ne : (x t : ℕ) (xs : List ℕ) → x ≢ 0 → Fresh x xs → pred_of t xs ≢ x
pred_of-ne x t [] h f = λ e. h (sym e)
pred_of-ne x t (y ∷ []) h f = λ e. h (sym e)
pred_of-ne x t (y ∷ z ∷ xs) h f = ground (arith, pred_of-ne x t (z ∷ xs) h f.1, f.0)

-- Unlinking the node behind its predecessor takes it out of the chain.
pub Chain-unlink :
    (node : ℕ → Node) (t p x : ℕ) (xs : List ℕ)
    → pred_of t (x ∷ xs) ≢ 0
    → x ≢ t
    → Distinct (x ∷ xs)
    → Chain node p (x ∷ xs)
    → ((node (pred_of t (x ∷ xs))).link ≡ t)
      × Chain (put_link node (pred_of t (x ∷ xs)) (node t).link) p (x ∷ erase t xs)
Chain-unlink node t p x [] h ne d c = absurd (h refl)
Chain-unlink node t p x (y ∷ xs) h ne d c = elim (Bool-cases (y == t)) [
  | inl q ↦
      let e : y ≡ t = (==-iff y t).0 q in
      subst₂ Unlinked (sym (if-true _ _ q)) (sym (if-true _ _ q)) (
        c.2.0 ∙ e,
        (
          c.0,
          c.1,
          rw (put_link_self node x (node t).link) (
              Chain-put_link node (node t).link x (node t).link xs d.0.1
                (subst (λ z. Chain node (node z).link xs) e c.2.2)),
        ),
      )
  | inr q ↦
      let rest =
        Chain-unlink node t (node x).link y xs (subst (λ w. w ≢ 0) (if-false _ _ q) h)
          (λ e. cc (q, (==-iff y t).1 e)) d.1 c.2 in
      subst₂ Unlinked (sym (if-false _ _ q)) (sym (if-false _ _ q)) (
        rest.0,
        (
          c.0,
          c.1,
          rw
              (put_link_ne node (pred_of t (y ∷ xs)) (node t).link x
                (λ e. pred_of-ne x t (y ∷ xs) c.1 d.0 (sym e)))
              rest.1,
        ),
      )
]
  where
    Unlinked : ℕ → List ℕ → Type 0
    Unlinked w l = ((node w).link ≡ t) × Chain (put_link node w (node t).link) p (x ∷ l)

Fresh-erase : (x t : ℕ) (xs : List ℕ) → Fresh x xs → Fresh x (erase t xs)
Fresh-erase x t [] f = tt
Fresh-erase x t (y ∷ xs) f = elim (Bool-cases (y == t)) [
  | inl q ↦ subst (Fresh x) (sym (if-true _ _ q)) f.1
  | inr q ↦ subst (Fresh x) (sym (if-false _ _ q)) (f.0, Fresh-erase x t xs f.1)
]

pub Distinct-erase : (t : ℕ) (xs : List ℕ) → Distinct xs → Distinct (erase t xs)
Distinct-erase t [] d = tt
Distinct-erase t (y ∷ xs) d = elim (Bool-cases (y == t)) [
  | inl q ↦ subst Distinct (sym (if-true _ _ q)) d.1
  | inr q ↦ subst Distinct (sym (if-false _ _ q)) (Fresh-erase y t xs d.0, Distinct-erase t xs d.1)
]

abbrev pub elem : ℕ → List ℕ → Bool
elem t [] = false
elem t (x ∷ xs) = x == t || elem t xs

pub erase-absent : (t : ℕ) (xs : List ℕ) → elem t xs ≡ false → erase t xs ≡ xs
erase-absent t [] h = refl
erase-absent t (x ∷ xs) h = ground (arith, erase-absent t xs)

-- A node of the tail has a predecessor, and no other.
pub pred_of-elem :
    (node : ℕ → Node) (p t x : ℕ) (xs : List ℕ)
    → Chain node p (x ∷ xs)
    → (pred_of t (x ∷ xs) == 0) ≡ not (elem t xs)
pred_of-elem node p t x [] c = refl
pred_of-elem node p t x (y ∷ xs) c = ground (arith, pred_of-elem node (node x).link t y xs c.2, c.1)

-- Taking out a node that is not the last leaves the last.
pub last-erase : (t x : ℕ) (xs : List ℕ) → last (x ∷ xs) ≢ t → last (x ∷ erase t xs) ≡ last (x ∷ xs)
last-erase t x [] h = refl
last-erase t x (y ∷ []) h = ground arith
last-erase t x (y ∷ z ∷ xs) h = elim (Bool-cases (y == t)) [
  | inl q ↦ ap (λ l. last (x ∷ l)) (if-true _ _ q)
  | inr q ↦ ap (λ l. last (x ∷ l)) (if-false _ _ q) ∙ last-erase t y (z ∷ xs) h
]

-- Taking out the last leaves its predecessor last.
pub last-erase-last :
    (x y : ℕ) (xs : List ℕ)
    → Distinct (x ∷ y ∷ xs)
    → last (x ∷ erase (last (y ∷ xs)) (y ∷ xs)) ≡ pred_of (last (y ∷ xs)) (x ∷ y ∷ xs)
last-erase-last x y [] d = ground arith
last-erase-last x y (z ∷ xs) d =
    ap (λ l. last (x ∷ l)) (if-false _ _ apart)
    ∙ last-erase-last y z xs d.1
    ∙ sym (if-false _ _ apart)
  where
    apart : (y == last (z ∷ xs)) ≡ false
    apart = ground (arith, Fresh-last y z xs d.1.0)

-- The nodes of a chain are not NULL.
pub last-ne-zero :
    (node : ℕ → Node) (p x : ℕ) (xs : List ℕ) → Chain node p (x ∷ xs) → last (x ∷ xs) ≢ 0
last-ne-zero node p x [] c = c.1
last-ne-zero node p x (y ∷ xs) c = last-ne-zero node (node x).link y xs c.2

pub elem-last : (y : ℕ) (xs : List ℕ) → elem (last (y ∷ xs)) (y ∷ xs) ≡ true
elem-last y [] = ground arith
elem-last y (z ∷ xs) = ground (arith, elem-last z xs)

-- ===== src/Llacc/Take.antt =====
-- Taking a node off either end.
use ulppk.Base.{ℕ, ◌<◌, ◌≡◌, refl, ap, ◌∙◌, ◌≢◌, sym, arith}
use ulppk.Base.{
  true, false, not, ◌==◌, List, [], ◌∷◌, length, if-true, if-false, ==-refl, eq→==, ne→==,
}
use ulppk.Base.{Option, some}
use mathlib.Core.Path.{subst, subst₂}
use ulppk.Llacc.{Store, ll_getfront, ll_getback, ll_search, ◌>>=◌}
use ulppk.Llacc.{put_link, count_down, ll_match_link, cut_behind}
use ulppk.Llacc.Shape.{Chain, last, erase, pred_of, IsList, Chain-unlink, Fresh-last}
use ulppk.Llacc.Shape.{
  search_from-pred_of, Distinct-erase, last-erase-last, pred_of-elem, elem, elem-last, last-ne-zero,
}

-- What is left of a list without its front.
abbrev pub behind : List ℕ → List ℕ
behind [] = []
behind (x ∷ xs) = xs

abbrev pub first : List ℕ → ℕ
first [] = 0
first (x ∷ xs) = x

-- The count after one node of the list is taken: none without a node, 0 with the last one.
abbrev pub count_without : List ℕ → ℕ → ℕ
count_without [] c = c
count_without (x ∷ []) c = 0
count_without (x ∷ y ∷ xs) c = count_down c

pub is_one :
    (s : Store) (x : ℕ)
    → IsList s (x ∷ [])
    → ((s.ll_fptr == 0) ≡ false) × ((s.ll_fptr == s.ll_bptr) ≡ true)
is_one s x l = (ground (arith, l.chain.0, l.chain.1), ground (arith, l.chain.0, l.back))

pub is_more :
    (s : Store) (x y : ℕ) (xs : List ℕ)
    → IsList s (x ∷ y ∷ xs)
    → ((s.ll_fptr == 0) ≡ false) × ((s.ll_fptr == s.ll_bptr) ≡ false)
is_more s x y xs l = (
  ground (arith, l.chain.0, l.chain.1),
  ground (arith, l.chain.0, l.back, Fresh-last x y xs l.distinct.0),
)

module _ (s : Store) where
  pub getfront_none : s.ll_fptr ≡ 0 → ll_getfront s ≡ (0, s)
  unfolding ll_getfront
  getfront_none e = if-true _ _ (eq→== s.ll_fptr 0 e)

  pub getfront_one :
      (s.ll_fptr == 0) ≡ false
      → (s.ll_fptr == s.ll_bptr) ≡ true
      → ll_getfront s ≡ (s.ll_fptr, record s { ll_fptr = 0; ll_bptr = 0; ll_cnt = 0 })
  unfolding ll_getfront
  getfront_one e f = if-false _ _ e ∙ if-true _ _ f

  abbrev pub front_taken : Store
  front_taken = record s { ll_fptr = (s.node s.ll_fptr).link; ll_cnt = count_down s.ll_cnt }

  pub getfront_more :
      (s.ll_fptr == 0) ≡ false
      → (s.ll_fptr == s.ll_bptr) ≡ false
      → ll_getfront s ≡ (s.ll_fptr, front_taken)
  unfolding ll_getfront
  getfront_more e f = if-false _ _ e ∙ if-false _ _ f ∙ ap after (if-false _ _ e)
    where
      after : ℕ × Store → ℕ × Store
      after r = (s.ll_fptr, record (r.1) { ll_cnt = count_down r.1.ll_cnt })

-- `ll_getfront` on a well-formed list returns the front node, or NULL if there is none, and
-- leaves the rest; the count goes down by one, to 0 with the last node.
pub ll_getfront_lem :
    (s : Store) (xs : List ℕ)
    → IsList s xs
    → let (n, s') = ll_getfront s in
      (n ≡ first xs) × IsList s' (behind xs) × (s'.ll_cnt ≡ count_without xs s.ll_cnt)
ll_getfront_lem s [] l = rw (getfront_none s l.chain) (refl, l, refl)
ll_getfront_lem s (x ∷ []) l =
    rw (getfront_one s (is_one s x l).0 (is_one s x l).1)
      (l.chain.0, record { chain = refl; back = refl; distinct = tt }, refl)
ll_getfront_lem s (x ∷ y ∷ xs) l =
    rw (getfront_more s (is_more s x y xs l).0 (is_more s x y xs l).1) (
      l.chain.0,
      record {
        chain = subst (λ z. Chain s.node (s.node z).link (y ∷ xs)) (sym l.chain.0) l.chain.2;
        back = l.back;
        distinct = l.distinct.1;
      },
      refl,
    )

module _ (fuel : ℕ) (s : Store) where
  pub getback_none : s.ll_fptr ≡ 0 → ll_getback fuel s ≡ some (0, s)
  unfolding ll_getback
  getback_none e = if-true _ _ (eq→== s.ll_fptr 0 e)

  pub getback_one :
      (s.ll_fptr == 0) ≡ false
      → (s.ll_fptr == s.ll_bptr) ≡ true
      → ll_getback fuel s ≡ some (s.ll_bptr, record s { ll_fptr = 0; ll_bptr = 0; ll_cnt = 0 })
  unfolding ll_getback
  getback_one e f = if-false _ _ e ∙ if-true _ _ f

  abbrev pub back_taken : ℕ → Store
  back_taken pred = record s {
    ll_bptr = pred;
    ll_cnt = count_down s.ll_cnt;
    node = put_link s.node pred (s.node (s.node pred).link).link;
  }

  pub getback_more :
      (pred : ℕ)
      → (s.ll_fptr == 0) ≡ false
      → (s.ll_fptr == s.ll_bptr) ≡ false
      → ll_search fuel s (ll_match_link s.ll_bptr) ≡ some pred
      → pred ≢ 0
      → (s.node pred).link ≢ 0
      → ll_getback fuel s ≡ some (s.ll_bptr, back_taken pred)
  getback_more pred e f found nz lz =
      unfold ll_getback in
      (if-false _ _ e
        ∙ if-false _ _ f
        ∙ ap (λ r. r >>= cut_behind s) found
        ∙ if-false _ _ (ne→== pred 0 nz)
        ∙ ap after (if-false _ _ (ne→== (s.node pred).link 0 lz)))
    where
      after : ℕ × Store → Option (ℕ × Store)
      after r = some (s.ll_bptr, record (r.1) { ll_bptr = pred; ll_cnt = count_down r.1.ll_cnt })

-- Cutting out a node of the tail, behind the predecessor that the search finds.
module _ (s : Store) (x t : ℕ) (xs : List ℕ) (l : IsList s (x ∷ xs)) (tx : x ≢ t)
    (here : elem t xs ≡ true) where
  abbrev pub before : ℕ
  before = pred_of t (x ∷ xs)

  pub before-ne-zero : before ≢ 0
  before-ne-zero e =
      cc (eq→== before 0 e, pred_of-elem s.node s.ll_fptr t x xs l.chain, ap not here)

  pub link-before : (s.node before).link ≡ t
  link-before = (Chain-unlink s.node t s.ll_fptr x xs before-ne-zero tx l.distinct l.chain).0

  pub erase-tail : erase t (x ∷ xs) ≡ x ∷ erase t xs
  erase-tail = if-false _ _ (ne→== x t tx)

  pub cut-Chain :
      Chain (put_link s.node before (s.node (s.node before).link).link) s.ll_fptr (erase t (x ∷ xs))
  cut-Chain =
      subst₂ (λ z ys. Chain (put_link s.node before (s.node z).link) s.ll_fptr ys) (sym link-before)
        (sym erase-tail)
        (Chain-unlink s.node t s.ll_fptr x xs before-ne-zero tx l.distinct l.chain).1

-- The search of a list for the predecessor of a node.
pub found_before :
    (fuel t : ℕ) (s : Store) (xs : List ℕ)
    → IsList s xs
    → t ≢ 0
    → length xs < fuel
    → ll_search fuel s (ll_match_link t) ≡ some (pred_of t xs)
unfolding ll_search
found_before fuel t s xs l tz h = search_from-pred_of s t s.ll_fptr fuel xs tz h l.chain

-- `ll_getback` on a well-formed list returns the back node, or NULL if there is none, and leaves
-- those before it, if the search for its predecessor may take a round for each node and one more;
-- the count goes down by one, to 0 with the last node.
pub ll_getback_lem :
    (fuel : ℕ) (s : Store) (xs : List ℕ)
    → IsList s xs
    → length xs < fuel
    → (s' : Store) × (ll_getback fuel s ≡ some (last xs, s'))
      × IsList s' (erase (last xs) xs)
      × (s'.ll_cnt ≡ count_without xs s.ll_cnt)
ll_getback_lem fuel s [] l h = (s, getback_none fuel s l.chain, l, refl)
ll_getback_lem fuel s (x ∷ []) l h = (
  record s { ll_fptr = 0; ll_bptr = 0; ll_cnt = 0 },
  getback_one fuel s (is_one s x l).0 (is_one s x l).1 ∙ ap (λ b. some (b, emptied)) l.back,
  subst (IsList emptied) (sym (if-true _ _ (==-refl x)))
      (record { chain = refl; back = refl; distinct = tt }),
  refl,
)
  where
    emptied : Store
    emptied = record s { ll_fptr = 0; ll_bptr = 0; ll_cnt = 0 }
ll_getback_lem fuel s (x ∷ y ∷ xs) l h = (
  back_taken fuel s pred,
  getback_more fuel s pred (is_more s x y xs l).0 (is_more s x y xs l).1 found
        (before-ne-zero s x t (y ∷ xs) l apart (elem-last y xs))
        (λ e. last_nz (sym (link-before s x t (y ∷ xs) l apart (elem-last y xs)) ∙ e))
      ∙ ap (λ b. some (b, back_taken fuel s pred)) l.back,
  record {
    chain = cut-Chain s x t (y ∷ xs) l apart (elem-last y xs);
    back =
        sym (last-erase-last x y xs l.distinct)
        ∙ ap last (sym (erase-tail s x t (y ∷ xs) l apart (elem-last y xs)));
    distinct = Distinct-erase t (x ∷ y ∷ xs) l.distinct;
  },
  refl,
)
  where
    t : ℕ
    t = last (y ∷ xs)

    pred : ℕ
    pred = pred_of t (x ∷ y ∷ xs)

    apart : x ≢ t
    apart e = Fresh-last x y xs l.distinct.0 (sym e)

    last_nz : t ≢ 0
    last_nz = last-ne-zero s.node (s.node x).link y xs l.chain.2

    found : ll_search fuel s (ll_match_link s.ll_bptr) ≡ some pred
    found =
        ap (λ b. ll_search fuel s (ll_match_link b)) l.back
        ∙ found_before fuel t s (x ∷ y ∷ xs) l last_nz h

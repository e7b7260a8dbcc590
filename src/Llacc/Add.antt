-- ===== src/Llacc/Add.antt =====
-- Adding at either end.
use ulppk.Base.{ℕ, ◌≡◌, refl, ◌∙◌, ◌≢◌, sym}
use ulppk.Base.{List, [], ◌∷◌, ◌++◌, if-true, if-false, ==-iff, ne→==}
use mathlib.Core.Path.{subst}
use ulppk.Llacc.{Store, ll_addfront, ll_addback, put_link, count_up}
use ulppk.Llacc.Shape.{
  Chain, Fresh, Distinct, last, IsList, put_link_self, Chain-put_link, Chain-append,
}

last-snoc : (n : ℕ) (xs : List ℕ) → last (xs ++ n ∷ []) ≡ n
last-snoc n [] = refl
last-snoc n (x ∷ []) = refl
last-snoc n (x ∷ y ∷ xs) = last-snoc n (y ∷ xs)

Fresh-snoc : (x n : ℕ) (xs : List ℕ) → Fresh x xs → n ≢ x → Fresh x (xs ++ n ∷ [])
Fresh-snoc x n [] f h = (h, tt)
Fresh-snoc x n (y ∷ xs) f h = (f.0, Fresh-snoc x n xs f.1 h)

Distinct-snoc : (n : ℕ) (xs : List ℕ) → Fresh n xs → Distinct xs → Distinct (xs ++ n ∷ [])
Distinct-snoc n [] f d = (tt, tt)
Distinct-snoc n (x ∷ xs) f d =
    (Fresh-snoc x n xs d.0 (λ e. f.0 (sym e)), Distinct-snoc n xs f.1 d.1)

module _ (s : Store) (n : ℕ) (nz : n ≢ 0) where
  front_empty :
      s.ll_fptr ≡ 0
      → ll_addfront s n ≡ record s {
        ll_fptr = n;
        ll_bptr = n;
        ll_cnt = count_up s.ll_cnt;
        node = put_link s.node n 0;
      }
  unfolding ll_addfront
  front_empty e = if-true _ _ ((==-iff s.ll_fptr 0).1 e)

  front_more :
      s.ll_fptr ≢ 0
      → ll_addfront s n
        ≡ record s { ll_fptr = n; ll_cnt = count_up s.ll_cnt; node = put_link s.node n s.ll_fptr }
  unfolding ll_addfront
  front_more e = if-false _ _ (ne→== s.ll_fptr 0 e)

  back_empty :
      s.ll_fptr ≡ 0
      → ll_addback s n ≡ record s {
        ll_fptr = n;
        ll_bptr = n;
        ll_cnt = count_up s.ll_cnt;
        node = put_link s.node n 0;
      }
  unfolding ll_addback
  back_empty e = if-true _ _ ((==-iff s.ll_fptr 0).1 e)

  back_more :
      s.ll_fptr ≢ 0
      → ll_addback s n ≡ record s {
        ll_bptr = n;
        ll_cnt = count_up s.ll_cnt;
        node = put_link (put_link s.node s.ll_bptr n) n 0;
      }
  unfolding ll_addback
  back_more e = if-false _ _ (ne→== s.ll_fptr 0 e)

  -- `ll_addfront` puts a node that is not NULL and not on the well-formed list in front of it and
  -- counts it.
  pub ll_addfront_lem :
      (xs : List ℕ)
      → Fresh n xs
      → IsList s xs
      → IsList (ll_addfront s n) (n ∷ xs) × ((ll_addfront s n).ll_cnt ≡ count_up s.ll_cnt)
  ll_addfront_lem [] f l = rw (front_empty l.chain) (
    record { chain = (refl, nz, put_link_self s.node n 0); back = refl; distinct = (tt, tt) },
    refl,
  )
  ll_addfront_lem (x ∷ xs) f l = rw (front_more (λ e. l.chain.1 (sym l.chain.0 ∙ e))) (
    record {
      chain = (
        refl,
        nz,
        rw (put_link_self s.node n s.ll_fptr)
            (Chain-put_link s.node s.ll_fptr n s.ll_fptr (x ∷ xs) f l.chain),
      );
      back = l.back;
      distinct = (f, l.distinct);
    },
    refl,
  )

  -- `ll_addback` puts a node that is not NULL and not on the well-formed list behind it and
  -- counts it.
  pub ll_addback_lem :
      (xs : List ℕ)
      → Fresh n xs
      → IsList s xs
      → IsList (ll_addback s n) (xs ++ n ∷ []) × ((ll_addback s n).ll_cnt ≡ count_up s.ll_cnt)
  ll_addback_lem [] f l = rw (back_empty l.chain) (
    record { chain = (refl, nz, put_link_self s.node n 0); back = refl; distinct = (tt, tt) },
    refl,
  )
  ll_addback_lem (x ∷ xs) f l = rw (back_more (λ e. l.chain.1 (sym l.chain.0 ∙ e))) (
    record {
      chain =
          subst (λ b. Chain (put_link (put_link s.node b n) n 0) s.ll_fptr (x ∷ (xs ++ n ∷ [])))
            (sym l.back) (Chain-append s.node s.ll_fptr n x xs nz f l.distinct l.chain);
      back = sym (last-snoc n (x ∷ xs));
      distinct = Distinct-snoc n (x ∷ xs) f l.distinct;
    },
    refl,
  )

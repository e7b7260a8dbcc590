-- ===== src/Msgdeque/Fixed.antt =====
-- Records of fixed length.
use ulppk.Base.{ℕ, suc, ◌+◌, ◌<◌, ◌≡◌, refl, ap, ◌∙◌, sym, arith, Bool, true, false, not}
use ulppk.Base.{
  List, [], ◌∷◌, ◌++◌, Option, length, lt→ltb, le→ltb-false, if-true, if-false, ne→==,
  if◌then◌else◌,
}
use mathlib.Core.Path.{subst}
use native.Mathlib.Decide.{dec_lt}
use ulppk.Dqacc.{Deque, dq_stats, dq_rtd}
use ulppk.Dqacc.Memory.{IsValid}
use ulppk.Dqacc.Spec.{add_bottom, remove_top}
use ulppk.Dqacc.Refine.{contents, dq_abd_refines, length-contents}
use ulppk.Dqacc.Remove.{dq_rtd_refines}
use ulppk.Mmdeque.{mmdq_abd, mmdq_rtd, mmdq_stats}
use ulppk.Msgdeque.{MsgDeque, received, msgdeque_send, msgdeque_rec, rec_attempt}
use ulppk.Msgdeque.{msgdeque_datacheck, after_attempt}
use ulppk.Msgdeque.Stream.{posted, attempt_gets}

module _ (s : MsgDeque) (item : List ℕ) where
  abbrev added : MsgDeque
  added = record s { deque = (mmdq_abd s.deque item).1 }

  send_full : (mmdq_abd s.deque item).0 ≡ true → msgdeque_send s item ≡ (true, added)
  unfolding msgdeque_send
  send_full e = if-true _ _ e

  send_posts :
      (mmdq_abd s.deque item).0 ≡ false
      → msgdeque_datacheck added.deque ≡ true
      → msgdeque_send s item ≡ (false, record added { posts = s.posts + 1 })
  unfolding msgdeque_send
  send_posts e f = if-false _ _ e ∙ ap (λ r. (false, r)) (posted added f)

has_data : (d : Deque) → 0 < length (contents d) → msgdeque_datacheck d ≡ true
unfolding msgdeque_datacheck mmdq_stats
has_data d h = unfold dq_stats in lt→ltb 0 d.dquse (omega (arith, length-contents d))

snoc_some : (q : List (List ℕ)) (x : List ℕ) → 0 < length (q ++ x ∷ [])
snoc_some [] x = omega arith
snoc_some (y ∷ q) x = omega arith

-- `msgdeque_send` of a record of the item size to a valid deque adds it behind the others and
-- posts, or reports a full deque and does neither; the deque stays valid.
pub msgdeque_send_lem :
    (s : MsgDeque) (item : List ℕ)
    → IsValid s.deque
    → length item ≡ s.deque.dqitem_size
    → let (flag, s') = msgdeque_send s item in
      ((flag, contents s'.deque) ≡ add_bottom s.deque.dqslots (contents s.deque) item)
      × IsValid s'.deque
      × (s'.posts ≡ (if flag then s.posts else s.posts + 1))
unfolding mmdq_abd add_bottom
msgdeque_send_lem s item v e = elim (dec_lt (length q) s.deque.dqslots) [
  | yes free ↦
      let spec = r.0 ∙ if-true _ _ (lt→ltb (length q) s.deque.dqslots free) in
      let more = ap (λ (p : Bool × List (List ℕ)). p.1) spec in
      rw
        (send_posts s item (ap (λ (p : Bool × List (List ℕ)). p.0) spec)
          (has_data d1 (subst (λ l. 0 < length l) (sym more) (snoc_some q item))))
        (
          ap (λ c. (false, c)) more ∙ sym (if-true _ _ (lt→ltb (length q) s.deque.dqslots free)),
          r.1,
          refl,
        )
  | no full ↦
      let closed = le→ltb-false (length q) s.deque.dqslots (omega arith) in
      let spec = r.0 ∙ if-false _ _ closed in
      rw (send_full s item (ap (λ (p : Bool × List (List ℕ)). p.0) spec)) (
        ap (λ c. (true, c)) (ap (λ (p : Bool × List (List ℕ)). p.1) spec)
            ∙ sym (if-false _ _ closed),
        r.1,
        refl,
      )
]
  where
    q : List (List ℕ)
    q = contents s.deque

    d1 : Deque
    d1 = (mmdq_abd s.deque item).1

    r : (((mmdq_abd s.deque item).0, contents d1) ≡ add_bottom s.deque.dqslots q item) × IsValid d1
    r = unfold mmdq_abd in let (e1, v1, s1, z1) = dq_abd_refines s.deque item v e in (e1, v1)

-- `msgdeque_rec` on a valid deque that is not empty returns its first record in the first round
-- and leaves the rest; the deque stays valid.
pub msgdeque_rec_lem :
    (rounds : ℕ) (s : MsgDeque) (x : List ℕ) (q : List (List ℕ))
    → IsValid s.deque
    → contents s.deque ≡ x ∷ q
    → (d : Deque) × (msgdeque_rec (suc rounds) s ≡ received x (record s { deque = d }))
      × IsValid d
      × (contents d ≡ q)
msgdeque_rec_lem rounds s x q v e =
    let (e1, v1, s1, z1) = dq_rtd_refines s.deque v in
    let spec = e1 ∙ ap remove_top e in
    (
      (dq_rtd s.deque).1,
      (unfold msgdeque_rec in
          (ap (after_attempt (λ s1. msgdeque_rec rounds s1) s) attempt
            ∙ attempt_gets (λ s1. msgdeque_rec rounds s1) s (dq_rtd s.deque) x
                (unfold remove_top in ap (λ (p : Option (List ℕ) × List (List ℕ)). p.0) spec))),
      v1,
      (unfold remove_top in ap (λ (p : Option (List ℕ) × List (List ℕ)). p.1) spec),
    )
  where
    used : 0 < s.deque.dquse
    used = omega (arith, length-contents s.deque, ap length e)

    attempt : rec_attempt s.deque ≡ dq_rtd s.deque
    attempt =
        unfold rec_attempt in
        (unfold mmdq_stats in
          (unfold mmdq_rtd in
            (unfold dq_stats in
              if-true _ _ (ap not (ne→== s.deque.dquse 0 (omega (arith, used)))))))

-- ===== src/Mmdeque/Bytes.antt =====
-- Deques of single bytes: the two packet loops on the bytes that a deque holds.
use ulppk.Base.{ℕ, zero, suc, ◌+◌, ◌<◌, ◌≤◌, ◌≡◌, refl, ap, ap₂, ◌∙◌, sym, arith, Bool, true, false}
use ulppk.Base.{
  List, [], ◌∷◌, ◌++◌, Option, none, some, length, take, drop, take_all, take-append,
  take-append_short,
}
use ulppk.Base.{length-append, append_assoc, append-nil, ltb, if◌then◌else◌, lt→ltb, le→ltb-false}
use ulppk.Base.{if-true, if-false}
use mathlib.Core.Path.{subst}
use native.Mathlib.Decide.{dec_lt}
use ulppk.Dqacc.{Deque}
use ulppk.Dqacc.Memory.{IsValid}
use ulppk.Dqacc.Spec.{add_bottom, remove_top}
use ulppk.Dqacc.Refine.{contents, dq_abd_refines, length-contents}
use ulppk.Dqacc.Remove.{dq_rtd_refines}
use ulppk.Mmdeque.{mmdq_abd, mmdq_rtd, push_packet, pop_packet, popped}

abbrev pub cells : List ℕ → List (List ℕ)
cells [] = []
cells (b ∷ bs) = (b ∷ []) ∷ cells bs

cells-snoc : (bs : List ℕ) (b : ℕ) → cells (bs ++ b ∷ []) ≡ cells bs ++ (b ∷ []) ∷ []
cells-snoc [] b = refl
cells-snoc (c ∷ bs) b = ap (λ r. (c ∷ []) ∷ r) (cells-snoc bs b)

length-cells : (bs : List ℕ) → length (cells bs) ≡ length bs
length-cells [] = refl
length-cells (c ∷ bs) = ap suc (length-cells bs)

-- A valid deque of single bytes with room for `cap` of them that holds `bs`, oldest first.
pub record Holds (cap : ℕ) (d : Deque) (bs : List ℕ) : Type 0 where
  pub valid : IsValid d
  pub bytes : d.dqitem_size ≡ 1
  pub slots : d.dqslots ≡ cap
  pub items : contents d ≡ cells bs

pub Holds-use : {cap : ℕ} {d : Deque} {bs : List ℕ} → Holds cap d bs → d.dquse ≡ length bs
Holds-use {cap} {d} {bs} h = sym (length-contents d) ∙ ap length h.items ∙ length-cells bs

pub Holds-fit : {cap : ℕ} {d : Deque} {bs : List ℕ} → Holds cap d bs → length bs ≤ cap
Holds-fit {cap} {d} {bs} h = omega (arith, Holds-use h, h.valid.use_in, h.slots)

module _ {cap : ℕ} {d : Deque} {bs : List ℕ} (h : Holds cap d bs) where
  pub abd_free :
      (b : ℕ)
      → length bs < cap
      → ((mmdq_abd d (b ∷ [])).0 ≡ false) × Holds cap (mmdq_abd d (b ∷ [])).1 (bs ++ b ∷ [])
  unfolding mmdq_abd add_bottom
  abd_free b free =
      let (e, v, s, z) = dq_abd_refines d (b ∷ []) h.valid (sym h.bytes) in
      let spec =
        e
        ∙ ap₂ (λ s q. add_bottom s q (b ∷ [])) h.slots h.items
        ∙ if-true _ _ (ap (λ l. ltb l cap) (length-cells bs) ∙ lt→ltb (length bs) cap free) in
      (
        ap (λ r. r.0) spec,
        record {
          valid = v;
          bytes = z ∙ h.bytes;
          slots = s ∙ h.slots;
          items = ap (λ r. r.1) spec ∙ sym (cells-snoc bs b);
        },
      )

  pub abd_full :
      (b : ℕ)
      → cap ≤ length bs
      → ((mmdq_abd d (b ∷ [])).0 ≡ true) × Holds cap (mmdq_abd d (b ∷ [])).1 bs
  unfolding mmdq_abd add_bottom
  abd_full b full =
      let (e, v, s, z) = dq_abd_refines d (b ∷ []) h.valid (sym h.bytes) in
      let spec =
        e
        ∙ ap₂ (λ s q. add_bottom s q (b ∷ [])) h.slots h.items
        ∙ if-false _ _
            (ap (λ l. ltb l cap) (length-cells bs) ∙ le→ltb-false (length bs) cap full) in
      (
        ap (λ r. r.0) spec,
        record { valid = v; bytes = z ∙ h.bytes; slots = s ∙ h.slots; items = ap (λ r. r.1) spec },
      )

-- Popping a byte off a deque that holds none, or `b` first.
pub rtd_empty :
    {cap : ℕ} {d : Deque} → Holds cap d [] → ((mmdq_rtd d).0 ≡ none) × Holds cap (mmdq_rtd d).1 []
unfolding mmdq_rtd remove_top
rtd_empty {cap} {d} h =
    let (e, v, s, z) = dq_rtd_refines d h.valid in
    let spec = e ∙ ap remove_top h.items in
    (
      ap (λ r. r.0) spec,
      record { valid = v; bytes = z ∙ h.bytes; slots = s ∙ h.slots; items = ap (λ r. r.1) spec },
    )

pub rtd_byte :
    {cap : ℕ} {d : Deque} (b : ℕ) {bs : List ℕ}
    → Holds cap d (b ∷ bs)
    → ((mmdq_rtd d).0 ≡ some (b ∷ [])) × Holds cap (mmdq_rtd d).1 bs
unfolding mmdq_rtd remove_top
rtd_byte {cap} {d} b {bs} h =
    let (e, v, s, z) = dq_rtd_refines d h.valid in
    let spec = e ∙ ap remove_top h.items in
    (
      ap (λ r. r.0) spec,
      record { valid = v; bytes = z ∙ h.bytes; slots = s ∙ h.slots; items = ap (λ r. r.1) spec },
    )

module _ (d : Deque) (b : ℕ) (ps : List ℕ) where
  push_on :
      (mmdq_abd d (b ∷ [])).0 ≡ false
      → push_packet d (b ∷ ps) ≡ push_packet (mmdq_abd d (b ∷ [])).1 ps
  unfolding push_packet
  push_on e = if-false _ _ e

  push_off :
      (mmdq_abd d (b ∷ [])).0 ≡ true → push_packet d (b ∷ ps) ≡ (true, (mmdq_abd d (b ∷ [])).1)
  unfolding push_packet
  push_off e = if-true _ _ e

-- Pushing bytes adds what fits behind those that are there, and reports whether some did not.
pub push_packet_lem :
    {cap : ℕ} (ps : List ℕ) {d : Deque} {bs : List ℕ}
    → Holds cap d bs
    → ((push_packet d ps).0 ≡ ltb cap (length bs + length ps))
      × Holds cap (push_packet d ps).1 (take cap (bs ++ ps))
push_packet_lem {cap} [] {d} {bs} h =
    unfold push_packet in
    (
      sym (le→ltb-false cap (length bs + 0) (omega (arith, Holds-fit h))),
      subst (Holds cap d) (sym (ap (take cap) (append-nil bs) ∙ take_all cap bs (Holds-fit h))) h,
    )
push_packet_lem {cap} (p ∷ ps) {d} {bs} h = elim (dec_lt (length bs) cap) [
  | yes free ↦
      let (e, h1) = abd_free h p free in
      let (flag, h2) = push_packet_lem ps h1 in
      rw (push_on d p ps e) (
        flag ∙ ap (ltb cap) (omega (arith, length-append {0} bs (p ∷ []))),
        subst (λ l. Holds cap (push_packet (mmdq_abd d (p ∷ [])).1 ps).1 (take cap l))
            (append_assoc bs (p ∷ []) ps) h2,
      )
  | no full ↦
      let (e, h1) = abd_full h p (omega arith) in
      rw (push_off d p ps e) (
        sym (lt→ltb cap (length bs + suc (length ps)) (omega arith)),
        subst (Holds cap (mmdq_abd d (p ∷ [])).1)
            (sym (take-append cap bs (p ∷ ps) (omega (arith, Holds-fit h)))) h1,
      )
]

-- A head and a body that are pushed one after the other, the body only if the head fitted.
abbrev pub push_both : Deque → List ℕ → List ℕ → Bool × Deque
push_both d head body =
    let pushed = push_packet d head in
    let whole = push_packet pushed.1 body in if pushed.0 then (true, pushed.1) else whole

pub push_both_lem :
    {cap : ℕ} {d : Deque} {bs : List ℕ} (head body : List ℕ)
    → Holds cap d bs
    → ((push_both d head body).0 ≡ ltb cap (length bs + length head + length body))
      × Holds cap (push_both d head body).1 (take cap (bs ++ (head ++ body)))
push_both_lem {cap} {d} {bs} head body h =
    let (flag, h1) = push_packet_lem head h in
    elim (dec_lt cap (length bs + length head)) [
      | yes short ↦
          rw
            (if-true (true, (push_packet d head).1) (push_packet (push_packet d head).1 body)
              (flag ∙ lt→ltb cap (length bs + length head) short))
            (
              sym (lt→ltb cap (length bs + length head + length body) (omega arith)),
              subst (Holds cap (push_packet d head).1)
                  (sym (
                      take-append_short cap (bs ++ head) body
                        (omega (arith, length-append {0} bs head)))
                    ∙ ap (take cap) (append_assoc bs head body))
                  h1,
            )
      | no fits ↦
          let whole : take cap (bs ++ head) ≡ bs ++ head =
            take_all cap (bs ++ head) (omega (arith, length-append {0} bs head)) in
          let (flag2, h2) =
            push_packet_lem body (subst (Holds cap (push_packet d head).1) whole h1) in
          rw
            (if-false (true, (push_packet d head).1) (push_packet (push_packet d head).1 body)
              (flag ∙ le→ltb-false cap (length bs + length head) (omega arith)))
            (
              flag2 ∙ ap (λ k. ltb cap (k + length body)) (length-append bs head),
              subst (λ l. Holds cap (push_packet (push_packet d head).1 body).1 (take cap l))
                  (append_assoc bs head body) h2,
            )
    ]

abbrev pub first_bytes : ℕ → List ℕ → Option (List ℕ)
first_bytes n bs = if ltb (length bs) n then none else some (take n bs)

abbrev one_more : ℕ → Option (List ℕ) → Option (List ℕ)
one_more b none = none
one_more b (some bytes) = some (b ∷ bytes)

one_more-first_bytes :
    (b n : ℕ) (bs : List ℕ) → one_more b (first_bytes n bs) ≡ first_bytes (suc n) (b ∷ bs)
one_more-first_bytes b n bs = elim (dec_lt (length bs) n) [
  | yes h ↦
      ap (one_more b) (if-true _ _ (lt→ltb (length bs) n h))
      ∙ sym (if-true _ _ (lt→ltb (suc (length bs)) (suc n) (omega arith)))
  | no h ↦
      ap (one_more b) (if-false _ _ (le→ltb-false (length bs) n (omega arith)))
      ∙ sym (if-false _ _ (le→ltb-false (suc (length bs)) (suc n) (omega arith)))
]

popped_lem :
    (b : ℕ) (d : Deque) (rest : Option (List ℕ) × Deque)
    → popped (some (b ∷ [])) d rest ≡ (one_more b rest.0, rest.1)
popped_lem b d (none, d1) = refl
popped_lem b d (some bytes, d1) = refl

-- Popping `n` bytes gives the first `n`, or none if there are not as many, and leaves the rest.
pub pop_packet_lem :
    {cap : ℕ} (n : ℕ) {d : Deque} (bs : List ℕ)
    → Holds cap d bs
    → ((pop_packet d n).0 ≡ first_bytes n bs) × Holds cap (pop_packet d n).1 (drop n bs)
pop_packet_lem zero bs h =
    unfold pop_packet in (sym (if-false _ _ (le→ltb-false (length bs) 0 (omega arith))), h)
pop_packet_lem {cap} (suc n) {d} [] h =
    let (e, h1) = rtd_empty h in
    unfold pop_packet in rw e (sym (if-true _ _ (lt→ltb 0 (suc n) (omega arith))), h1)
pop_packet_lem {cap} (suc n) {d} (b ∷ bs) h =
    let (e, h1) = rtd_byte b h in
    let (r, h2) = pop_packet_lem n bs h1 in
    let step : pop_packet d (suc n)
        ≡ (one_more b (pop_packet (mmdq_rtd d).1 n).0, (pop_packet (mmdq_rtd d).1 n).1) =
      unfold pop_packet in
      (ap (λ i. popped i (mmdq_rtd d).1 (pop_packet (mmdq_rtd d).1 n)) e
        ∙ popped_lem b (mmdq_rtd d).1 (pop_packet (mmdq_rtd d).1 n)) in
    rw step (ap (one_more b) r ∙ one_more-first_bytes b n bs, h2)

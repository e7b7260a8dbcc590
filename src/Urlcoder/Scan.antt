-- ===== src/Urlcoder/Scan.antt =====
-- The round trip of argument lists, and the lists that do not survive it.
use ulppk.Base.{ℕ, ◌≤◌, ◌≡◌, refl, ap, ◌∙◌, arith, sym}
use ulppk.Base.{true, false, List, [], ◌∷◌, ◌++◌, none, some}
use ulppk.Base.{length, All, append_assoc}
use mathlib.Core.Path.{subst}
use ulppk.Urlcoder.{Arguments, url_encode, c_string, url_encode_arguments}
use ulppk.Urlcoder.{add_name_value, scan_arguments, url_decode_arguments, unreserved}
use ulppk.Urlcoder.Coding.{IsChar, IsUrlChar, url_decode-url_encode, c_string_lem, char_pos}
use ulppk.Urlcoder.Coding.{url_encode-All-IsUrlChar, length-url_encode}
use ulppk.Urlcoder.Arguments.{IsName, NoAmp, scan-name, scan-value, scan-last}

-- Further pairs, one call each.
abbrev pub encode_more : List ℕ → Arguments → List ℕ
encode_more args [] = args
encode_more args ((n, v) ∷ ps) = encode_more (url_encode_arguments (some args) n v) ps

-- A first pair and further ones.
abbrev pub encode_all : List ℕ → List ℕ → Arguments → List ℕ
encode_all n v ps = encode_more (url_encode_arguments none n v) ps

-- A pair that is taken apart again: a name with no `=` and a value that is not empty.
abbrev pub IsPair : List ℕ × List ℕ → Type 0
IsPair (n, v) = IsName n × All IsChar v × (1 ≤ length v)

-- The value of the last pair must be encoded to two characters or more.
abbrev pub LastFits : List ℕ → Arguments → Type 0
LastFits v [] = 2 ≤ length (url_encode v)
LastFits v ((n, u) ∷ ps) = LastFits u ps

encode_more-append :
    (s t : List ℕ) (ps : Arguments) → encode_more (s ++ t) ps ≡ s ++ encode_more t ps
unfolding url_encode_arguments
encode_more-append s t [] = refl
encode_more-append s t ((n, v) ∷ ps) =
    ap (λ x. encode_more x ps) (append_assoc s t (b'&' ∷ (n ++ b'=' ∷ url_encode v)))
    ∙ encode_more-append s (t ++ b'&' ∷ (n ++ b'=' ∷ url_encode v)) ps

NoAmp-of_url : (s : List ℕ) → All IsUrlChar s → NoAmp s
NoAmp-of_url [] h = tt
NoAmp-of_url (c ∷ s) h = (ground arith, NoAmp-of_url s h.1)

-- The added pair has the value that was encoded.
add_encoded :
    (listp : Arguments) (n v : List ℕ)
    → All IsChar v
    → add_name_value listp n (url_encode v) ≡ listp ++ (n, v) ∷ []
unfolding add_name_value
add_encoded listp n v h =
    ap (λ x. listp ++ (n, x) ∷ [])
      (ap c_string (url_decode-url_encode v h) ∙ c_string_lem v (char_pos v h))

encode_all-cons :
    (n v : List ℕ) (ps : Arguments) → (e : ℕ) × (cp : List ℕ) × (encode_all n v ps ≡ e ∷ cp)
encode_all-cons [] v ps = (
  b'=',
  encode_more (url_encode v) ps,
  unfold url_encode_arguments in encode_more-append (b'=' ∷ []) (url_encode v) ps,
)
encode_all-cons (c ∷ n) v ps = (
  c,
  encode_more (n ++ b'=' ∷ url_encode v) ps,
  unfold url_encode_arguments in encode_more-append (c ∷ []) (n ++ b'=' ∷ url_encode v) ps,
)

-- A list of two or more items, with its first and its last.
ends : (s : List ℕ) → 2 ≤ length s → (d : ℕ) × (w : List ℕ) × (c : ℕ) × (s ≡ d ∷ (w ++ c ∷ []))
ends [] h = absurd (omega arith)
ends (d ∷ []) h = absurd (omega arith)
ends (d ∷ c ∷ []) h = (d, [], c, refl)
ends (d ∷ e ∷ f ∷ s) h =
    let (e', w, c, q) = ends (e ∷ f ∷ s) (omega arith) in (d, e' ∷ w, c, ap (λ x. d ∷ x) q)

NoAmp-init : (w : List ℕ) (c : ℕ) → NoAmp (w ++ c ∷ []) → NoAmp w
NoAmp-init [] c h = tt
NoAmp-init (b ∷ w) c h = (h.0, NoAmp-init w c h.1)

module _ (n : List ℕ) (listp : Arguments) (name : IsName n) where
  last_pair :
      (s : List ℕ)
      → All IsUrlChar s
      → 2 ≤ length s
      → scan_arguments false [] [] listp (n ++ b'=' ∷ s) ≡ some (add_name_value listp n s)
  last_pair s u h =
      let (d, w, c, q) = ends s h in
      rw q (
        scan-name n [] [] d listp (w ++ c ∷ []) name
        ∙ scan-last w n (d ∷ []) c listp
            (NoAmp-init w c (NoAmp-of_url (w ++ c ∷ []) (subst (All IsUrlChar) q u).1)))

  next_pair :
      (s : List ℕ) (e : ℕ) (cp : List ℕ)
      → All IsUrlChar s
      → 1 ≤ length s
      → scan_arguments false [] [] listp (n ++ b'=' ∷ (s ++ b'&' ∷ e ∷ cp))
        ≡ scan_arguments false [] [] (add_name_value listp n s) (e ∷ cp)
  next_pair [] e cp u h = absurd (omega arith)
  next_pair (d ∷ w) e cp u h =
      scan-name n [] [] d listp (w ++ b'&' ∷ e ∷ cp) name
      ∙ scan-value w n (d ∷ []) e listp cp (NoAmp-of_url w u.1)

scan-encode_all :
    (n v : List ℕ) (ps listp : Arguments)
    → IsPair (n, v)
    → All IsPair ps
    → LastFits v ps
    → scan_arguments false [] [] listp (encode_all n v ps) ≡ some (listp ++ (n, v) ∷ ps)
unfolding url_encode_arguments
scan-encode_all n v [] listp p h l =
    last_pair n listp p.0 (url_encode v) (url_encode-All-IsUrlChar v p.1) l
    ∙ ap some (add_encoded listp n v p.1)
scan-encode_all n v ((m, u) ∷ ps) listp p h l =
    let (e, cp, q) = encode_all-cons m u ps in
    ap (scan_arguments false [] [] listp) split
    ∙ ap (λ x. scan_arguments false [] [] listp (n ++ b'=' ∷ (url_encode v ++ b'&' ∷ x))) q
    ∙ next_pair n listp p.0 (url_encode v) e cp (url_encode-All-IsUrlChar v p.1)
        (omega (arith, length-url_encode v, p.2))
    ∙ ap (scan_arguments false [] [] (add_name_value listp n (url_encode v))) (sym q)
    ∙ ap (λ x. scan_arguments false [] [] x (encode_all m u ps)) (add_encoded listp n v p.1)
    ∙ scan-encode_all m u ps (listp ++ (n, v) ∷ []) h.0 h.1 l
    ∙ ap some (append_assoc listp ((n, v) ∷ []) ((m, u) ∷ ps))
  where
    split : encode_all n v ((m, u) ∷ ps) ≡ n ++ b'=' ∷ (url_encode v ++ b'&' ∷ encode_all m u ps)
    split =
        encode_more-append (n ++ b'=' ∷ url_encode v) (b'&' ∷ (m ++ b'=' ∷ url_encode u)) ps
        ∙ ap (λ x. (n ++ b'=' ∷ url_encode v) ++ x)
            (encode_more-append (b'&' ∷ []) (m ++ b'=' ∷ url_encode u) ps)
        ∙ append_assoc n (b'=' ∷ url_encode v) (b'&' ∷ encode_more (m ++ b'=' ∷ url_encode u) ps)

-- A list of pairs that `url_encode_arguments` builds up is decoded to the same pairs in order, if
-- no name holds an `=`, the values are C strings, no value is empty and the last value is encoded
-- to two characters or more.
pub url_decode_arguments-encode_all :
    (n v : List ℕ) (ps : Arguments)
    → IsPair (n, v)
    → All IsPair ps
    → LastFits v ps
    → url_decode_arguments (encode_all n v ps) ≡ some ((n, v) ∷ ps)
unfolding url_decode_arguments
url_decode_arguments-encode_all n v ps p h l = scan-encode_all n v ps [] p h l

-- A single pair whose name holds no `=` and whose value is one unreserved character is lost: the
-- decoded list is empty. With an empty value the decoder reads behind its string.
pub url_decode_arguments-short_value :
    (n : List ℕ) (c : ℕ)
    → IsName n
    → unreserved c ≡ true
    → (url_decode_arguments (encode_all n (c ∷ []) []) ≡ some [])
      × (url_decode_arguments (encode_all n [] []) ≡ none)
unfolding url_decode_arguments url_encode_arguments url_encode
url_decode_arguments-short_value n c h u =
    (rw (one_char c u) (scan-name n [] [] c [] [] h), no_value n [] [] h)
  where
    one_char : (c : ℕ) → unreserved c ≡ true → url_encode (c ∷ []) ≡ c ∷ []
    one_char c u = unfold url_encode in rw u refl

    no_value :
        (n name : List ℕ) (listp : Arguments)
        → IsName n
        → scan_arguments false name [] listp (n ++ b'=' ∷ []) ≡ none
    no_value [] name listp h = unfold scan_arguments in refl
    no_value (c ∷ []) name listp h = unfold scan_arguments in rw h.0 refl
    no_value (c ∷ e ∷ n) name listp h =
        unfold scan_arguments in rw h.0 (no_value (e ∷ n) (name ++ c ∷ []) listp h.1)

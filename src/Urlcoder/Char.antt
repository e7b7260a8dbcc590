-- ===== src/Urlcoder/Char.antt =====
-- One character there and back.
use ulppk.Base.{ℕ, zero, suc, ◌*◌, ◌/◌, ◌<◌, ◌≡◌, refl, ap, ◌∙◌, arith}
use ulppk.Base.{
  Bool, true, false, ◌&&◌, ◌||◌, ◌==◌, ==-iff, u8, if◌then◌else◌, inl, inr, Bool-cases,
}
use ulppk.Base.{List, [], ◌∷◌, ◌++◌}
use Prim.Native.Nat.{bit_or, bit_and}
use ulppk.Urlcoder.{url_from_hex, url_to_hex, encode_char, url_decode, unreserved}

-- A test on every number under a bound, by evaluation.
passes_under : (ℕ → Bool) → ℕ → Bool
passes_under test zero = true
passes_under test (suc k) = if test k then passes_under test k else false

pass_at :
    (test : ℕ → Bool) (v bound : ℕ) → v < bound → passes_under test bound ≡ true → test v ≡ true
unfolding passes_under
pass_at test v zero below e = absurd (omega arith)
pass_at test v (suc k) below e = ground (arith, pass_at test v k)

hex_pair : ℕ → ℕ
unfolding url_from_hex url_to_hex
hex_pair c =
    u8 (bit_or (url_from_hex (url_to_hex (c / 16)) * 16) (url_from_hex (url_to_hex (bit_and c 15))))

hex_table : passes_under (λ c. hex_pair c == c) 256 ≡ true
unfolding passes_under hex_pair
hex_table = refl

-- The two hex digits of a byte decode to it.
pub hex_pair_lem :
    (c : ℕ)
    → c < 256
    → u8 (
        bit_or (url_from_hex (url_to_hex (c / 16)) * 16) (url_from_hex (url_to_hex (bit_and c 15))))
      ≡ c
unfolding hex_pair
hex_pair_lem c h = (==-iff (hex_pair c) c).0 (pass_at (λ c. hex_pair c == c) c 256 h hex_table)

-- What an encoding consists of: unreserved characters, `+` and `%`.
abbrev pub is_url_char : ℕ → Bool
is_url_char c = unreserved c || (c == b'+' || c == b'%')

digits_url : ℕ → Bool
unfolding url_to_hex
digits_url c = is_url_char (url_to_hex (c / 16)) && is_url_char (url_to_hex (bit_and c 15))

digits_table : passes_under digits_url 256 ≡ true
unfolding passes_under digits_url
digits_table = refl

pub digits_url_lem :
    (c : ℕ)
    → c < 256
    → (is_url_char (url_to_hex (c / 16)) ≡ true) × (is_url_char (url_to_hex (bit_and c 15)) ≡ true)
digits_url_lem c h =
    both (is_url_char (url_to_hex (c / 16))) (is_url_char (url_to_hex (bit_and c 15))) whole
  where
    both : (a b : Bool) → (a && b) ≡ true → (a ≡ true) × (b ≡ true)
    both a b e = ground arith

    whole : (is_url_char (url_to_hex (c / 16)) && is_url_char (url_to_hex (bit_and c 15))) ≡ true
    whole = unfold digits_url in pass_at digits_url c 256 h digits_table

-- A character that is neither `%` nor `+` decodes to itself.
pub url_decode-plain :
    (c : ℕ) (str : List ℕ)
    → (c == b'%') ≡ false
    → (c == b'+') ≡ false
    → url_decode (c ∷ str) ≡ c ∷ url_decode str
unfolding url_decode
url_decode-plain c [] p q = rw (p, q)
url_decode-plain c (a ∷ []) p q = rw (p, q)
url_decode-plain c (a ∷ b ∷ str) p q = rw (p, q)

url_decode-plus : (str : List ℕ) → url_decode (b'+' ∷ str) ≡ b' ' ∷ url_decode str
unfolding url_decode
url_decode-plus [] = refl
url_decode-plus (a ∷ []) = refl
url_decode-plus (a ∷ b ∷ str) = refl

unreserved-plain : (c : ℕ) → unreserved c ≡ true → ((c == b'%') ≡ false) × ((c == b'+') ≡ false)
unreserved-plain c h = ground arith

-- What a character is encoded to decodes to that character, whatever follows.
pub url_decode-encode_char :
    (c : ℕ) (str : List ℕ) → c < 256 → url_decode (encode_char c ++ str) ≡ c ∷ url_decode str
unfolding encode_char
url_decode-encode_char c str h = elim (Bool-cases (unreserved c)) [
  | inl u ↦ let (p, q) = unreserved-plain c u in rw u (url_decode-plain c str p q)
  | inr n ↦ elim (Bool-cases (c == b' ')) [
    | inl s ↦ rw (n, s) (url_decode-plus str ∙ rw ((==-iff c b' ').0 s) refl)
    | inr t ↦ rw (n, t) (unfold url_decode in ap (λ x. x ∷ url_decode str) (hex_pair_lem c h))
  ]
]

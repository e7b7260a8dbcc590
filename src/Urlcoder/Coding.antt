-- ===== src/Urlcoder/Coding.antt =====
-- Whole strings: the round trip, the sizes of the buffers, and the characters of an encoding.
use ulppk.Base.{ℕ, ◌+◌, ◌*◌, ◌<◌, ◌≤◌, ◌≡◌, refl, ap, ◌∙◌, arith}
use ulppk.Base.{true, ltb, ◌==◌, if◌then◌else◌, inl, inr, Bool-cases, le→ltb-false}
use ulppk.Base.{List, [], ◌∷◌, none, some, length, length-append, All, All-append}
use ulppk.Urlcoder.{encode_char, url_encode, url_decode, unreserved, c_string}
use ulppk.Urlcoder.{url_encode2buffer, url_decode2buffer}
use ulppk.Urlcoder.Char.{url_decode-encode_char, is_url_char, digits_url_lem}

-- A character of a C string.
abbrev pub IsChar : ℕ → Type 0
IsChar c = (0 < c) × (c < 256)

-- Decoding an encoded C string gives the string back.
pub url_decode-url_encode : (str : List ℕ) → All IsChar str → url_decode (url_encode str) ≡ str
unfolding url_encode
url_decode-url_encode [] h = unfold url_decode in refl
url_decode-url_encode (c ∷ str) h =
    url_decode-encode_char c (url_encode str) h.0.1
    ∙ ap (λ s. c ∷ s) (url_decode-url_encode str h.1)

length-encode_char : (c : ℕ) → (1 ≤ length (encode_char c)) × (length (encode_char c) ≤ 3)
unfolding encode_char
length-encode_char c = ground arith

-- An encoding is at least as long as the string and fits the buffer of `url_encode`, which is
-- three times the string and a NUL.
pub length-url_encode :
    (str : List ℕ)
    → (length str ≤ length (url_encode str)) × (length (url_encode str) ≤ length str * 3)
unfolding url_encode
length-url_encode [] = omega arith
length-url_encode (c ∷ str) = omega (
  arith,
  length-append {0} (encode_char c) (url_encode str),
  length-encode_char c,
  length-url_encode str,
)

-- A decoding is at most as long as the string, and so fits the buffer of `url_decode`.
pub length-url_decode : (str : List ℕ) → length (url_decode str) ≤ length str
unfolding url_decode
length-url_decode [] = omega arith
length-url_decode (c ∷ []) = ground arith
length-url_decode (c ∷ a ∷ []) = ground (arith, length-url_decode (a ∷ []))
length-url_decode (c ∷ a ∷ b ∷ str) =
    ground (arith, length-url_decode str, length-url_decode (a ∷ b ∷ str))

abbrev pub IsUrlChar : ℕ → Type 0
IsUrlChar c = is_url_char c ≡ true

url_chars_of_char : (c : ℕ) → c < 256 → All IsUrlChar (encode_char c)
unfolding encode_char
url_chars_of_char c h = elim (Bool-cases (unreserved c)) [
  | inl u ↦ rw u (ground arith, tt)
  | inr n ↦ elim (Bool-cases (c == b' ')) [
    | inl s ↦ rw (n, s) (refl, tt)
    | inr t ↦ rw (n, t) (refl, ((digits_url_lem c h).0, ((digits_url_lem c h).1, tt)))
  ]
]

-- An encoding consists of unreserved characters, `+` and `%`.
pub url_encode-All-IsUrlChar : (str : List ℕ) → All IsChar str → All IsUrlChar (url_encode str)
unfolding url_encode
url_encode-All-IsUrlChar [] h = tt
url_encode-All-IsUrlChar (c ∷ str) h =
    All-append IsUrlChar (encode_char c) (url_encode str) (url_chars_of_char c h.0.1)
      (url_encode-All-IsUrlChar str h.1)

pub c_string_lem : (str : List ℕ) → All (λ c. 0 < c) str → c_string str ≡ str
unfolding c_string
c_string_lem [] h = refl
c_string_lem (c ∷ str) h = ground (arith, c_string_lem str h.1)

url_char_pos : (str : List ℕ) → All IsUrlChar str → All (λ c. 0 < c) str
url_char_pos [] h = tt
url_char_pos (c ∷ str) h = (ground arith, url_char_pos str h.1)

pub char_pos : (str : List ℕ) → All IsChar str → All (λ c. 0 < c) str
char_pos [] h = tt
char_pos (c ∷ str) h = (h.0.0, char_pos str h.1)

-- A C string is encoded to a buffer that holds three times the string and a NUL, and refused for
-- a smaller one; decoding the encoding to a buffer of that size gives the string back.
pub buffer_round_trip :
    (str : List ℕ) (size : ℕ)
    → All IsChar str
    → (url_encode2buffer size str
        ≡ (if ltb size (length str * 3 + 1) then none else some (url_encode str)))
      × (url_decode2buffer (length str * 3 + 1) (url_encode str) ≡ some str)
unfolding url_encode2buffer url_decode2buffer
buffer_round_trip str size h = (
  ap (λ s. if ltb size (length str * 3 + 1) then none else some s)
      (c_string_lem (url_encode str)
        (url_char_pos (url_encode str) (url_encode-All-IsUrlChar str h))),
  rw
      (
        url_decode-url_encode str h,
        c_string_lem str (char_pos str h),
        le→ltb-false (length str * 3 + 1) (length (url_encode str) + 1)
            (omega (arith, length-url_encode str)),
      )
      refl,
)

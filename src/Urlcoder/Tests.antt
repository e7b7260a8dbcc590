-- ===== src/Urlcoder/Tests.antt =====
-- Runs of the URL coder, and the properties at concrete strings.
use ulppk.Base.{ℕ, ◌≡◌, refl, arith, List, [], ◌∷◌, none, some}
use ulppk.Urlcoder.{
  url_encode, url_decode, url_encode_arguments, url_decode_arguments, url_get_arg_value,
}
use ulppk.Urlcoder.{url_encode2buffer, url_decode2buffer, Arguments}
use ulppk.Urlcoder.Coding.{url_decode-url_encode}
use ulppk.Urlcoder.Coding.{buffer_round_trip}
use ulppk.Urlcoder.Scan.{
  encode_all, url_decode_arguments-encode_all, url_decode_arguments-short_value,
}

-- `a b%` and a byte above 127
abbrev text : List ℕ
text = b'a' ∷ b' ' ∷ b'b' ∷ b'%' ∷ 200 ∷ []

text_encoded : url_encode text ≡ b'a' ∷ b'+' ∷ b'b' ∷ b'%' ∷ b'2' ∷ b'5' ∷ b'%' ∷ b'c' ∷ b'8' ∷ []
unfolding url_encode
text_encoded = refl

-- Upper case digits, and a `%` at the end.
text_decoded : url_decode (b'%' ∷ b'4' ∷ b'F' ∷ b'%' ∷ b'4' ∷ []) ≡ b'O' ∷ b'4' ∷ []
unfolding url_decode
text_decoded = refl

url_decode-url_encode_example : url_decode (url_encode text) ≡ text
url_decode-url_encode_example = url_decode-url_encode text (omega arith)

buffer_round_trip_example :
    (url_encode2buffer 15 text ≡ none) × (url_decode2buffer 16 (url_encode text) ≡ some text)
buffer_round_trip_example = buffer_round_trip text 15 (omega arith)

-- x=1+&yy=ab
abbrev further : Arguments
further = (b'y' ∷ b'y' ∷ [], b'a' ∷ b'b' ∷ []) ∷ []

further_encoded :
    encode_all (b'x' ∷ []) (b'1' ∷ b' ' ∷ []) further
    ≡ b'x' ∷ b'=' ∷ b'1' ∷ b'+' ∷ b'&' ∷ b'y' ∷ b'y' ∷ b'=' ∷ b'a' ∷ b'b' ∷ []
unfolding url_encode_arguments url_encode
further_encoded = refl

further_value :
    url_get_arg_value ((b'x' ∷ [], b'1' ∷ []) ∷ further) (b'y' ∷ b'y' ∷ [])
    ≡ some (b'a' ∷ b'b' ∷ [])
unfolding url_get_arg_value
further_value = refl

url_decode_arguments-encode_all_example :
    url_decode_arguments (encode_all (b'x' ∷ []) (b'1' ∷ b' ' ∷ []) further)
    ≡ some ((b'x' ∷ [], b'1' ∷ b' ' ∷ []) ∷ further)
unfolding url_encode
url_decode_arguments-encode_all_example =
    url_decode_arguments-encode_all (b'x' ∷ []) (b'1' ∷ b' ' ∷ []) further
      ((refl, tt), ((omega arith, omega arith), ((omega arith, omega arith), tt)), omega arith)
      (
        (
          (refl, (refl, tt)),
          ((omega arith, omega arith), ((omega arith, omega arith), tt)),
          omega arith,
        ),
        tt,
      )
      (omega arith)

url_decode_arguments-short_value_example :
    (url_decode_arguments (encode_all (b'x' ∷ []) (b'1' ∷ []) []) ≡ some [])
    × (url_decode_arguments (encode_all (b'x' ∷ []) [] []) ≡ none)
url_decode_arguments-short_value_example =
    url_decode_arguments-short_value (b'x' ∷ []) b'1' (refl, tt) refl

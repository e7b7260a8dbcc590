-- ===== src/Urlcoder.antt =====
-- ulppk/urlcoder.c: percent encoding of strings and lists of arguments. A C string is the list of
-- its bytes before the NUL; a byte is a number below 256.
pub mod Char
pub mod Coding
pub mod Arguments
pub mod Scan
mod Tests
use ulppk.Base.{
  ℕ, zero, suc, ◌+◌, ◌-◌, ◌*◌, ◌/◌, ◌%◌, Bool, true, false, ◌&&◌, ◌||◌, ltb, leb, ◌==◌,
}
use ulppk.Base.{if◌then◌else◌, List, [], ◌∷◌, ◌++◌, Option, none, some, length, u8, u16}
use Prim.Native.Nat.{bit_or, bit_and}

-- `isdigit`, `isalnum` and `tolower` of the C locale.
abbrev pub isdigit : ℕ → Bool
isdigit c = leb b'0' c && leb c b'9'

abbrev pub isupper : ℕ → Bool
isupper c = leb b'A' c && leb c b'Z'

abbrev pub islower : ℕ → Bool
islower c = leb b'a' c && leb c b'z'

abbrev pub isalnum : ℕ → Bool
isalnum c = isdigit c || (isupper c || islower c)

abbrev pub tolower : ℕ → ℕ
tolower c = if isupper c then c + 32 else c

-- The result is a `char`: the subtraction wraps in a byte.
unfoldable pub url_from_hex : ℕ → ℕ
url_from_hex ch = if isdigit ch then ch - b'0' else u8 (tolower ch + 256 - b'a' + 10)

abbrev hex : List ℕ
hex =
    b'0' ∷ b'1' ∷ b'2' ∷ b'3' ∷ b'4' ∷ b'5' ∷ b'6' ∷ b'7' ∷ b'8' ∷ b'9' ∷ b'a' ∷ b'b' ∷ b'c' ∷ b'd'
    ∷ b'e' ∷ b'f' ∷ []

unfoldable pub url_to_hex : ℕ → ℕ
url_to_hex code = nth hex (bit_and code 15)
  where
    nth : List ℕ → ℕ → ℕ
    nth [] i = 0
    nth (x ∷ xs) zero = x
    nth (x ∷ xs) (suc i) = nth xs i

-- The characters that the encoder leaves alone.
abbrev pub unreserved : ℕ → Bool
unreserved c = isalnum c || (c == b'-' || (c == b'_' || (c == b'.' || c == b'~')))

-- What one character is encoded to. A `char` above 127 is negative; its shift by 4 and the mask
-- with 15 are those of its byte.
unfoldable pub encode_char : ℕ → List ℕ
unfolding url_to_hex
encode_char c =
    if unreserved c
    then c ∷ []
    else if c == b' '
    then b'+' ∷ []
    else b'%' ∷ url_to_hex (c / 16) ∷ url_to_hex (bit_and c 15) ∷ []

unfoldable pub url_encode : List ℕ → List ℕ
unfolding encode_char
url_encode [] = []
url_encode (c ∷ str) = encode_char c ++ url_encode str

-- A `%` that two more characters do not follow is dropped.
unfoldable pub url_decode : List ℕ → List ℕ
unfolding url_from_hex
url_decode [] = []
url_decode (c ∷ []) = if c == b'%' then [] else if c == b'+' then b' ' ∷ [] else c ∷ []
url_decode (c ∷ a ∷ []) =
    let rest = url_decode (a ∷ []) in
    if c == b'%' then rest else if c == b'+' then b' ' ∷ rest else c ∷ rest
url_decode (c ∷ a ∷ b ∷ str) =
    let coded = u8 (bit_or (url_from_hex a * 16) (url_from_hex b)) ∷ url_decode str in
    let rest = url_decode (a ∷ b ∷ str) in
    if c == b'%' then coded else if c == b'+' then b' ' ∷ rest else c ∷ rest

-- The C string in a buffer: its bytes before the first NUL.
unfoldable pub c_string : List ℕ → List ℕ
c_string [] = []
c_string (c ∷ str) = if c == 0 then [] else c ∷ c_string str

-- `none` is the NULL for a buffer that is too small; `some` is what `strcpy` puts there.
unfoldable pub url_encode2buffer : ℕ → List ℕ → Option (List ℕ)
url_encode2buffer buffsize str =
    if ltb buffsize (length str * 3 + 1) then none else some (c_string (url_encode str))

unfoldable pub url_decode2buffer : ℕ → List ℕ → Option (List ℕ)
url_decode2buffer buffsize str =
    if ltb buffsize (length str + 1) then none else some (c_string (url_decode str))

-- A list of name/value pairs, as the nodes of the argument list hold them.
abbrev pub Arguments : Type 0
Arguments = List (List ℕ × List ℕ)

-- `none` is the NULL of the first call.
unfoldable pub url_encode_arguments : Option (List ℕ) → List ℕ → List ℕ → List ℕ
url_encode_arguments none name val = name ++ b'=' ∷ url_encode val
url_encode_arguments (some args) name val = args ++ b'&' ∷ (name ++ b'=' ∷ url_encode val)

-- The node is added to the back of the list.
unfoldable pub add_name_value : Arguments → List ℕ → List ℕ → Arguments
unfolding c_string
add_name_value listp name value = listp ++ (name, c_string (url_decode value)) ∷ []

-- The loop of `url_decode_arguments`: the state (true while a value is accumulated), the two
-- working buffers, the list so far and the characters from `cp` on. After an `=` the next
-- character is taken unseen; if that is the terminator, the loop reads on behind it: `none`.
pub scan_arguments : Bool → List ℕ → List ℕ → Arguments → List ℕ → Option Arguments
unfolding add_name_value
scan_arguments state name val listp [] = some listp
scan_arguments false name val listp (c ∷ []) = if c == b'=' then none else some listp
scan_arguments false name val listp (c ∷ d ∷ cp) =
    let value = scan_arguments true name (val ++ d ∷ []) listp cp in
    let longer = scan_arguments false (name ++ c ∷ []) val listp (d ∷ cp) in
    if c == b'=' then value else longer
scan_arguments true name val listp (c ∷ []) = some (add_name_value listp name (val ++ c ∷ []))
scan_arguments true name val listp (c ∷ d ∷ cp) =
    let next = scan_arguments false [] [] (add_name_value listp name val) (d ∷ cp) in
    let longer = scan_arguments true name (val ++ c ∷ []) listp (d ∷ cp) in
    if c == b'&' then next else longer

unfoldable pub url_decode_arguments : List ℕ → Option Arguments
unfolding scan_arguments
url_decode_arguments urlargs = scan_arguments false [] [] [] urlargs

-- `strcmp` with 0
unfoldable pub match_arg_name : List ℕ → List ℕ → Bool
match_arg_name [] [] = true
match_arg_name [] (c ∷ namep) = false
match_arg_name (c ∷ namep) [] = false
match_arg_name (c ∷ pdata) (d ∷ namep) = c == d && match_arg_name pdata namep

-- The value of the first pair of that name.
unfoldable pub url_get_arg_value : Arguments → List ℕ → Option (List ℕ)
unfolding match_arg_name
url_get_arg_value [] name = none
url_get_arg_value ((n, v) ∷ listp) name =
    if match_arg_name name n then some v else url_get_arg_value listp name

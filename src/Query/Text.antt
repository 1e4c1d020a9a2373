-- ===== src/Query/Text.antt =====
-- strconv.Atoi, strings.Contains and url.URL.String.
use Prim.Native.Char.{code}
use sailfish.Resource.Escape.{escape_bytes, is_unreserved, utf8}
use sailfish.Base.{
  Bool, Option, String, false, if◌then◌else◌, leb, ltb, negsuc, none, pos, refl, some, str_eq,
  sub_ℕ, true, ℕ, ℤ, ◌&&◌, ◌*◌, ◌+◌, ◌-◌, ◌<>◌, ◌==◌, ◌^◌, ◌||◌, ◌≡◌,
}

-- The largest int of 64 bits, and one more.
abbrev pub int_bound : ℕ
int_bound = 2 ^ 63

-- The value of decimal digits after those that gave `acc`.
unfoldable pub digits_from : ℕ → String → Option ℕ
digits_from acc String.[] = some acc
digits_from acc (String.◌∷◌ c s) =
    let rest = digits_from (acc * 10 + (code c - b'0')) s in
    if leb b'0' (code c) && leb (code c) b'9' then rest else none

unfoldable pub digits : String → Option ℕ
unfolding digits_from
digits s = if str_eq s "" then none else digits_from 0 s

-- A number out of range gives the nearest int, and an error.
abbrev pub signed : Bool → Option ℕ → ℤ × Bool
signed minus none = (pos 0, false)
signed false (some n) = if ltb n int_bound then (pos n, true) else (pos (int_bound - 1), false)
signed true (some n) =
    if leb n int_bound then (sub_ℕ 0 n, true) else (negsuc (int_bound - 1), false)

-- strconv.Atoi: the number, and whether there was no error.
unfoldable pub atoi : String → ℤ × Bool
unfolding digits
atoi String.[] = signed false none
atoi (String.◌∷◌ c s) =
    if code c == b'-'
    then signed true (digits s)
    else if code c == b'+'
    then signed false (digits s)
    else signed false (digits (String.◌∷◌ c s))

unfoldable pub has_prefix : String → String → Bool
has_prefix String.[] s = true
has_prefix (String.◌∷◌ p ps) String.[] = false
has_prefix (String.◌∷◌ p ps) (String.◌∷◌ c s) = code p == code c && has_prefix ps s

-- strings.Contains(s, part)
unfoldable pub contains : String → String → Bool
unfolding has_prefix
contains part String.[] = has_prefix part String.[]
contains part (String.◌∷◌ c s) = has_prefix part (String.◌∷◌ c s) || contains part s

-- What a URL's path may hold as it is.
abbrev pub is_path_char : ℕ → Bool
is_path_char c = is_unreserved c || (c == b'/' || (c == b';' || c == b','))

unfoldable pub escape_path : String → String
escape_path String.[] = ""
escape_path (String.◌∷◌ c s) =
    let rest = escape_path s in
    if is_path_char (code c) then String.◌∷◌ c rest else escape_bytes (utf8 (code c)) <> rest

-- url.URL{Path: path, RawQuery: query}.String(), for a path that begins with a slash.
unfoldable pub url_string : String → String → String
unfolding escape_path
url_string path query = escape_path path <> (if str_eq query "" then "" else "?" <> query)

atoi_test : atoi "-12" ≡ (sub_ℕ 0 12, true)
unfolding atoi
atoi_test = refl

contains_test : contains "Inf" "MyInfo" ≡ true
unfolding contains
contains_test = refl

-- ===== src/Resource/Escape.antt =====
-- strings.Split, strings.Join and url.PathEscape, as CreateRedfishResource uses them on URIs.
use Prim.Native.Char.{code}
use sailfish.Base.{
  Bool, List, String, [], any, get_elem?, if◌then◌else◌, leb, ltb, map, none, refl, some, ℕ, ◌%◌,
  ◌&&◌, ◌+◌, ◌/◌, ◌<>◌, ◌==◌, ◌||◌, ◌∷◌, ◌≡◌,
}

-- The first piece of the text and the other ones.
unfoldable pub split_from : ℕ → String → String × List String
split_from sep String.[] = ("", [])
split_from sep (String.◌∷◌ c s) =
    let rest = split_from sep s in
    if code c == sep then ("", rest.0 ∷ rest.1) else (String.◌∷◌ c rest.0, rest.1)

-- strings.Split(s, sep) for a separator of one character.
unfoldable pub split : ℕ → String → List String
unfolding split_from
split sep s = let pieces = split_from sep s in pieces.0 ∷ pieces.1

-- strings.Join(pieces, sep)
unfoldable pub join_strings : String → List String → String
join_strings sep [] = ""
join_strings sep (s ∷ []) = s
join_strings sep (s ∷ t ∷ rest) = s <> (sep <> join_strings sep (t ∷ rest))

-- One of the characters of "0123456789ABCDEF".
unfoldable pub hex_digit : ℕ → String
hex_digit n =
    elim (get_elem? {A = String}
      ("0" ∷ "1" ∷ "2" ∷ "3" ∷ "4" ∷ "5" ∷ "6" ∷ "7" ∷ "8" ∷ "9" ∷ "A" ∷ "B" ∷ "C" ∷ "D" ∷ "E" ∷ "F"
        ∷ [])
      n) [ none ↦ "" | some d ↦ d ]

-- The bytes of a character in UTF-8.
unfoldable pub utf8 : ℕ → List ℕ
utf8 c =
    if ltb c 0x80
    then c ∷ []
    else if ltb c 0x800
    then (0xC0 + c / 64) ∷ (0x80 + c % 64) ∷ []
    else if ltb c 0x10000
    then (0xE0 + c / 4096) ∷ (0x80 + c / 64 % 64) ∷ (0x80 + c % 64) ∷ []
    else (0xF0 + c / 262144) ∷ (0x80 + c / 4096 % 64) ∷ (0x80 + c / 64 % 64) ∷ (0x80 + c % 64) ∷ []

between : ℕ → ℕ → ℕ → Bool
between lo hi c = leb lo c && leb c hi

-- What a path segment may hold as it is: letters, digits, and - _ . ~ $ & + = : @
unfoldable pub is_unreserved : ℕ → Bool
unfolding between
is_unreserved c =
    between b'a' b'z' c
    || between b'A' b'Z' c
    || between b'0' b'9' c
    || any (λ d. c == d) (b'-' ∷ b'_' ∷ b'.' ∷ b'~' ∷ b'$' ∷ b'&' ∷ b'+' ∷ b'=' ∷ b':' ∷ b'@' ∷ [])

unfoldable pub escape_bytes : List ℕ → String
unfolding hex_digit
escape_bytes [] = ""
escape_bytes (b ∷ bs) = "%" <> (hex_digit (b / 16) <> (hex_digit (b % 16) <> escape_bytes bs))

-- url.PathEscape
unfoldable pub path_escape : String → String
unfolding is_unreserved utf8 escape_bytes
path_escape String.[] = ""
path_escape (String.◌∷◌ c s) =
    let rest = path_escape s in
    if is_unreserved (code c) then String.◌∷◌ c rest else escape_bytes (utf8 (code c)) <> rest

-- The value of "@odata.id": each segment of the URI escaped, the slashes kept.
unfoldable pub escape_uri : String → String
unfolding split join_strings path_escape
escape_uri uri = join_strings "/" (map path_escape (split b'/' uri))

split_test : escape_uri "/a b/é" ≡ "/a%20b/%C3%A9"
unfolding escape_uri
split_test = refl

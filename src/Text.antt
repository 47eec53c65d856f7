-- ===== src/Text.antt =====
-- The functions of Go's `strings` package that the servers use on paths, keys and codes. A string is
-- a sequence of code points here; the characters that they look for are ASCII, or spaces of Unicode.
use Prim.Native.Char.{Char, code}
use vibe_deck.Prelude.{
  zero, suc, ◌+◌, ◌/◌, ◌%◌, ◌-◌, true, false, ℕ, Bool, ◌&&◌, ◌||◌, List, [], ◌∷◌, String, ◌≡◌, refl,
  ◌==◌, leb, str_eq, if◌then◌else◌,
}

abbrev pub slash : ℕ
slash = b'/'

-- unicode.IsSpace
unfoldable pub is_space : ℕ → Bool
is_space c =
    (leb 9 c && leb c 13)
    || c == 32
    || c == 0x85
    || c == 0xa0
    || c == 0x1680
    || (leb 0x2000 c && leb c 0x200a)
    || c == 0x2028
    || c == 0x2029
    || c == 0x202f
    || c == 0x205f
    || c == 0x3000

unfoldable pub trim_left : (ℕ → Bool) → String → String
trim_left test String.[] = ""
trim_left test (String.◌∷◌ c s) =
    let rest = trim_left test s in if test (code c) then rest else String.◌∷◌ c s

-- A character is dropped at the right end if all that follows it is dropped.
unfoldable pub trim_right : (ℕ → Bool) → String → String
trim_right test String.[] = ""
trim_right test (String.◌∷◌ c s) =
    let rest = trim_right test s in
    if test (code c) && str_eq rest "" then "" else String.◌∷◌ c rest

-- strings.TrimSpace, and strings.Trim(s, "/")
unfoldable pub trim_space : String → String
unfolding is_space trim_left trim_right
trim_space s = trim_right is_space (trim_left is_space s)

unfoldable pub trim_slashes : String → String
unfolding trim_left trim_right
trim_slashes s = trim_right (λ c. c == slash) (trim_left (λ c. c == slash) s)

abbrev add_to_first : Char → List String → List String
add_to_first c [] = (String.◌∷◌ c "") ∷ []
add_to_first c (w ∷ ws) = (String.◌∷◌ c w) ∷ ws

-- strings.Split(s, "/")
unfoldable pub split_slash : String → List String
split_slash String.[] = "" ∷ []
split_slash (String.◌∷◌ c s) =
    let rest = split_slash s in if code c == slash then "" ∷ rest else add_to_first c rest

unfoldable pub has_suffix : String → String → Bool
has_suffix t String.[] = str_eq t ""
has_suffix t (String.◌∷◌ c s) = let rest = has_suffix t s in str_eq t (String.◌∷◌ c s) || rest

unfoldable pub map_chars : (Char → Char) → String → String
map_chars f String.[] = ""
map_chars f (String.◌∷◌ c s) = String.◌∷◌ (f c) (map_chars f s)

abbrev pick : ℕ → String → Char
pick n String.[] = "0"
pick zero (String.◌∷◌ c s) = c
pick (suc n) (String.◌∷◌ c s) = pick n s

-- strings.ToLower, for ASCII letters. No other character has a lower case among the letters of the
-- names that the code compares with.
unfoldable pub to_lower : String → String
unfolding map_chars
to_lower s =
    map_chars
      (λ c.
        if leb b'A' (code c) && leb (code c) b'Z'
        then pick (code c - b'A') "abcdefghijklmnopqrstuvwxyz"
        else c)
      s

to_lower_example : to_lower "P2p é" ≡ "p2p é"
unfolding to_lower
to_lower_example = refl

split_example : split_slash (trim_slashes "/v1/relay/s1/ws") ≡ "v1" ∷ "relay" ∷ "s1" ∷ "ws" ∷ []
unfolding split_slash trim_slashes
split_example = refl

-- `%d` of fmt for a number that is not negative: each round divides by ten, so `n + 1` rounds suffice.
abbrev pub digits : ℕ → ℕ → String → String
digits zero n rest = rest
digits (suc rounds) n rest = elim (n / 10 == 0) [
  | true ↦ String.◌∷◌ (pick (n % 10) "0123456789") rest
  | false ↦ digits rounds (n / 10) (String.◌∷◌ (pick (n % 10) "0123456789") rest)
]

unfoldable pub decimal : ℕ → String
decimal n = digits (n + 1) n ""

decimal_example : decimal 1700000000000000042 ≡ "1700000000000000042"
unfolding decimal
decimal_example = refl

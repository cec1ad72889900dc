-- ===== src/Base/Text.antt =====
-- Text as the native `String`, whose characters are Unicode scalar values, with the operations of
-- `str` that the code calls. What rests on the Unicode tables is a parameter, `Unicode`.
use Prim.Native.Nat.{ℕ}
use Prim.Native.Char.{Char, code}
use Prim.Native.String
use Prim.Native.String.{String}
use mathlib.Core.Option.{Option, none, some}
use mathlib.Core.Bool.{Bool, true, false, ◌&&◌, ◌||◌}
use mathlib.Core.List.{List, [], ◌∷◌}
use text.Mathlib.Text
use v2ray_rs.Base.Tests.{is_some, leb, ◌==◌, if◌then◌else◌}

infixl 65 ◌⧺◌
abbrev pub ◌⧺◌ : String → String → String
s ⧺ t = String.◌++◌ s t

abbrev pub str_eq : String → String → Bool
str_eq s t = Text.◌==◌ s t

abbrev pub chars : String → List Char
chars String.[] = []
chars (String.◌∷◌ c s) = c ∷ chars s

abbrev pub is_empty_str : String → Bool
is_empty_str String.[] = true
is_empty_str (String.◌∷◌ c s) = false

-- `char::is_ascii_uppercase`, `is_ascii_lowercase`, `is_ascii_digit`, on the code point
abbrev pub is_ascii_uppercase : Char → Bool
is_ascii_uppercase c = leb b'A' (code c) && leb (code c) b'Z'

abbrev pub is_ascii_lowercase : Char → Bool
is_ascii_lowercase c = leb b'a' (code c) && leb (code c) b'z'

abbrev pub is_ascii_digit : Char → Bool
is_ascii_digit c = leb b'0' (code c) && leb (code c) b'9'

abbrev pub char_is : ℕ → Char → Bool
char_is n c = code c == n

-- The two functions of the standard library that read the Unicode tables: `str::to_lowercase` and
-- `char::is_alphanumeric`.
pub record Unicode : Type 0 where
  pub to_lowercase : String → String
  pub is_alphanumeric : Char → Bool

-- `char::is_whitespace`: the characters with the property White_Space
abbrev pub is_whitespace : Char → Bool
is_whitespace c =
    let n = code c in
    (leb 9 n && leb n 13)
    || n == 32
    || n == 0x85
    || n == 0xa0
    || n == 0x1680
    || (leb 0x2000 n && leb n 0x200a)
    || n == 0x2028
    || n == 0x2029
    || n == 0x202f
    || n == 0x205f
    || n == 0x3000

abbrev pub trim_start : String → String
trim_start String.[] = String.[]
trim_start (String.◌∷◌ c s) =
    let rest = trim_start s in if is_whitespace c then rest else String.◌∷◌ c s

-- keeps what stands before the trailing white space
abbrev pub trim_end : String → String
trim_end String.[] = String.[]
trim_end (String.◌∷◌ c s) =
    let rest = trim_end s in
    if is_empty_str rest && is_whitespace c then String.[] else String.◌∷◌ c rest

-- `str::trim`
abbrev pub trim : String → String
trim s = trim_end (trim_start s)

-- `str::strip_prefix`
abbrev pub strip_prefix : String → String → Option String
strip_prefix String.[] s = some s
strip_prefix (String.◌∷◌ c p) String.[] = none
strip_prefix (String.◌∷◌ c p) (String.◌∷◌ d s) = if code c == code d then strip_prefix p s else none

abbrev first_half : Char → Option (String × String) → Option (String × String)
first_half c none = none
first_half c (some (a, b)) = some (String.◌∷◌ c a, b)

-- `str::split_once` at an ASCII character
abbrev pub split_once : ℕ → String → Option (String × String)
split_once n String.[] = none
split_once n (String.◌∷◌ c s) =
    let rest = split_once n s in if code c == n then some (String.[], s) else first_half c rest

abbrev last_half : ℕ → Char → String → Option (String × String) → Option (String × String)
last_half n c s none = if code c == n then some (String.[], s) else none
last_half n c s (some (a, b)) = some (String.◌∷◌ c a, b)

-- `str::rsplit_once` at an ASCII character
abbrev pub rsplit_once : ℕ → String → Option (String × String)
rsplit_once n String.[] = none
rsplit_once n (String.◌∷◌ c s) = last_half n c s (rsplit_once n s)

abbrev pub extend_head : Char → List String → List String
extend_head c [] = String.◌∷◌ c String.[] ∷ []
extend_head c (w ∷ ws) = String.◌∷◌ c w ∷ ws

-- `str::split` at an ASCII character
abbrev pub split : ℕ → String → List String
split n String.[] = String.[] ∷ []
split n (String.◌∷◌ c s) =
    let rest = split n s in if code c == n then String.[] ∷ rest else extend_head c rest

-- `str::contains` of a text
abbrev pub contains_str : String → String → Bool
contains_str String.[] p = is_some (strip_prefix p String.[])
contains_str (String.◌∷◌ c s) p = is_some (strip_prefix p (String.◌∷◌ c s)) || contains_str s p

-- ===== src/Prelude/Text.antt =====
-- Text as its code points, for the patterns that the services match.
use Prim.Native.Nat.{ℕ, ◌+◌}
use Prim.Native.Char.{Char, code}
use Prim.Native.String.{String}
use mathlib.Core.Bool.{Bool, true, false, ◌&&◌, ◌||◌}
use mathlib.Core.Option.{Option, none, some}
use mathlib.Core.List.{List, [], ◌∷◌}
use aether_edit.Prelude.Tests.{leb, ltb, ◌==◌, if◌then◌else◌}

-- The code points of a text.
abbrev pub codes : String → List ℕ
codes String.[] = []
codes (String.◌∷◌ c s) = code c ∷ codes s

-- The class [A-Za-z0-9].
unfoldable pub is_alnum : ℕ → Bool
is_alnum c = leb b'A' c && leb c b'Z' || (leb b'a' c && leb c b'z' || leb b'0' c && leb c b'9')

unfoldable pub all_codes : (ℕ → Bool) → List ℕ → Bool
all_codes p [] = true
all_codes p (c ∷ cs) = p c && all_codes p cs

-- `strings.HasPrefix`, of the text after the prefix.
unfoldable pub has_prefix : String → String → Bool
has_prefix String.[] s = true
has_prefix (String.◌∷◌ c p) String.[] = false
has_prefix (String.◌∷◌ c p) (String.◌∷◌ d s) = (code c == code d) && has_prefix p s

-- `strings.Contains`, for a single character.
unfoldable pub contains : String → ℕ → Bool
contains String.[] x = false
contains (String.◌∷◌ c s) x = (code c == x) || contains s x

-- `unicode.IsSpace`
unfoldable pub is_space : ℕ → Bool
is_space c =
    leb 9 c && leb c 13
    || (c == 32)
    || (c == 133)
    || (c == 160)
    || (c == 5760)
    || leb 8192 c && leb c 8202
    || (c == 8232)
    || (c == 8233)
    || (c == 8239)
    || (c == 8287)
    || (c == 12288)

unfoldable pub trim_left : String → String
trim_left String.[] = ""
trim_left (String.◌∷◌ c s) =
    let rest = trim_left s in if is_space (code c) then rest else String.◌∷◌ c s

abbrev pub unless_blank : Char → String → String
unless_blank c String.[] = if is_space (code c) then "" else String.◌∷◌ c ""
unless_blank c (String.◌∷◌ d s) = String.◌∷◌ c (String.◌∷◌ d s)

unfoldable pub trim_right : String → String
trim_right String.[] = ""
trim_right (String.◌∷◌ c s) = unless_blank c (trim_right s)

-- `strings.TrimSpace`
abbrev pub trim_space : String → String
trim_space s = trim_left (trim_right s)

-- `strings.ToLower`, over the table of the Unicode characters.
unfoldable pub to_lower : (Char → Char) → String → String
to_lower lower String.[] = ""
to_lower lower (String.◌∷◌ c s) = String.◌∷◌ (lower c) (to_lower lower s)

-- The bytes of a character in UTF-8.
unfoldable pub utf8_bytes : ℕ → ℕ
utf8_bytes c = if ltb c 128 then 1 else if ltb c 2048 then 2 else if ltb c 65536 then 3 else 4

-- `len` of a text.
unfoldable pub byte_length : String → ℕ
byte_length String.[] = 0
byte_length (String.◌∷◌ c s) = utf8_bytes (code c) + byte_length s

abbrev pub push : Char → Option (String × String) → Option (String × String)
push c none = none
push c (some (before, after)) = some (String.◌∷◌ c before, after)

-- `strings.Cut`, at a single character.
unfoldable pub cut : ℕ → String → Option (String × String)
cut x String.[] = none
cut x (String.◌∷◌ c s) = let rest = cut x s in if code c == x then some ("", s) else push c rest

-- `strings.TrimPrefix`, of a text that has the prefix.
unfoldable pub trim_prefix : String → String → String
trim_prefix String.[] s = s
trim_prefix (String.◌∷◌ c p) String.[] = ""
trim_prefix (String.◌∷◌ c p) (String.◌∷◌ d s) = trim_prefix p s

-- ===== src/Prelude/Texts.antt =====
-- What the code uses of JavaScript's texts: a text as the list of its code points, `trim`, `length`
-- in UTF-16 units, the number of fields that `split(/\s+/u)` gives, and encodeURIComponent.
use Prim.Native.Nat.{ℕ, suc, ◌+◌, ◌/◌, ◌%◌}
use Prim.Native.Char.{Char, code}
use Prim.Native.String.{String, slice, ◌++◌ as ◌++ˢ◌, ◌∷◌ as ◌∷ˢ◌}
use mathlib.Core.Bool.{Bool, true, false, not, ◌&&◌, ◌||◌}
use mathlib.Core.List.{List, [], ◌∷◌}
use text.Mathlib.TextBridge.{to_list, of_list}
use package.imgent.Prelude.Tests.{ltb, leb, nat_beq, if◌then◌else◌}

abbrev pub in_range : ℕ → ℕ → ℕ → Bool
in_range lo hi n = leb lo n && leb n hi

-- WhiteSpace and LineTerminator of ECMAScript
abbrev pub is_space : ℕ → Bool
is_space n =
    in_range 9 13 n
    || nat_beq n 32
    || nat_beq n 160
    || nat_beq n 5760
    || in_range 8192 8202 n
    || in_range 8232 8233 n
    || nat_beq n 8239
    || nat_beq n 8287
    || nat_beq n 12288
    || nat_beq n 65279

unfoldable pub trim_start : List Char → List Char
trim_start [] = []
trim_start (c ∷ cs) = elim (is_space (code c)) [ true ↦ trim_start cs | false ↦ c ∷ cs ]

-- Whether only whitespace is left.
unfoldable pub is_blank : List Char → Bool
is_blank [] = true
is_blank (c ∷ cs) = is_space (code c) && is_blank cs

unfoldable pub trim_end : List Char → List Char
trim_end [] = []
trim_end (c ∷ cs) = let rest = trim_end cs in if is_blank (c ∷ cs) then [] else c ∷ rest

-- s.trim()
unfoldable pub trim : String → String
trim s = of_list (trim_end (trim_start (to_list s)))

unfoldable pub utf16_units : List Char → ℕ
utf16_units [] = 0
utf16_units (c ∷ cs) = (if leb 65536 (code c) then 2 else 1) + utf16_units cs

-- s.length
unfoldable pub utf16_length : String → ℕ
utf16_length s = utf16_units (to_list s)

-- The runs of whitespace; the first argument says whether the last character was one.
unfoldable pub space_runs : Bool → List Char → ℕ
space_runs within [] = 0
space_runs within (c ∷ cs) =
    let here = is_space (code c) in (if here && not within then 1 else 0) + space_runs here cs

-- s.split(/\s+/u).length
unfoldable pub field_count : String → ℕ
field_count s = suc (space_runs false (to_list s))

abbrev pub is_digit : ℕ → Bool
is_digit n = in_range 48 57 n

-- The letters, the digits and - _ . ! ~ * ' ( ), which encodeURIComponent leaves alone
abbrev pub is_unreserved : ℕ → Bool
is_unreserved n =
    in_range 65 90 n
    || in_range 97 122 n
    || is_digit n
    || nat_beq n 45
    || nat_beq n 95
    || nat_beq n 46
    || nat_beq n 33
    || nat_beq n 126
    || in_range 39 42 n

-- The UTF-8 bytes of a code point.
unfoldable pub utf8 : ℕ → List ℕ
utf8 n =
    if ltb n 128
    then n ∷ []
    else if ltb n 2048
    then (192 + n / 64) ∷ (128 + n % 64) ∷ []
    else if ltb n 65536
    then (224 + n / 4096) ∷ (128 + n / 64 % 64) ∷ (128 + n % 64) ∷ []
    else (240 + n / 262144) ∷ (128 + n / 4096 % 64) ∷ (128 + n / 64 % 64) ∷ (128 + n % 64) ∷ []

-- "0123456789ABCDEF"[n]
abbrev hex_digit : ℕ → String
hex_digit n = slice "0123456789ABCDEF" n (n + 1)

unfoldable pub percent : List ℕ → String
percent [] = ""
percent (b ∷ bytes) = "%" ++ˢ (hex_digit (b / 16) ++ˢ (hex_digit (b % 16) ++ˢ percent bytes))

unfoldable pub encode_chars : List Char → String
encode_chars [] = ""
encode_chars (c ∷ cs) =
    let rest = encode_chars cs in
    if is_unreserved (code c) then c ∷ˢ rest else percent (utf8 (code c)) ++ˢ rest

-- encodeURIComponent(s)
unfoldable pub encode_uri_component : String → String
encode_uri_component s = encode_chars (to_list s)

-- ===== src/Server/Text.antt =====
-- The standard library's text functions that server/config.go calls, on a text's bytes: strconv.Atoi
-- and ParseBool, strings.ToLower and ToUpper, slog's Level.UnmarshalText and base64's StdEncoding.
-- Letters outside ASCII keep their case.
use Prim.Native.Char.{code}
use Prim.Native.String.{String}
use panaudia_lasa.Prelude.{
  ℕ, ◌+◌, ◌-◌, ◌*◌, ◌/◌, ◌%◌, ◌^◌, Bool, true, false, ◌&&◌, ◌||◌, Option, none, some, List, [], ◌∷◌,
  ◌++◌, map, ltb, leb, ◌==◌, if◌then◌else◌,
}
use panaudia_lasa.Prelude.Int.{ℤ, pos, sub_ℕ, ◌+ℤ◌}

-- A literal's bytes.
abbrev pub bytes : String → List ℕ
bytes String.[] = []
bytes (String.◌∷◌ c s) = code c ∷ bytes s

abbrev pub same_text : List ℕ → List ℕ → Bool
same_text [] [] = true
same_text [] (y ∷ ys) = false
same_text (x ∷ xs) [] = false
same_text (x ∷ xs) (y ∷ ys) = x == y && same_text xs ys

abbrev pub one_of : List ℕ → List (List ℕ) → Bool
one_of s [] = false
one_of s (t ∷ ts) = same_text s t || one_of s ts

abbrev pub to_lower : List ℕ → List ℕ
to_lower s = map (λ c. if leb b'A' c && leb c b'Z' then c + 32 else c) s

abbrev pub to_upper : List ℕ → List ℕ
to_upper s = map (λ c. if leb b'a' c && leb c b'z' then c - 32 else c) s

abbrev is_digit : ℕ → Bool
is_digit c = leb b'0' c && leb c b'9'

-- The number of the digits, after `n`.
unfoldable pub digits : ℕ → List ℕ → Option ℕ
digits n [] = some n
digits n (c ∷ s) = let rest = digits (n * 10 + (c - b'0')) s in if is_digit c then rest else none

abbrev magnitude : List ℕ → Option ℕ
magnitude [] = none
magnitude (c ∷ s) = digits 0 (c ∷ s)

-- An int of 64 bits; `none` is a syntax or a range error.
unfoldable pub atoi : List ℕ → Option ℤ
unfolding digits
atoi s =
    let positive = λ (t : List ℕ). elim (magnitude t) as (λ _. Option ℤ) [
      | none ↦ none
      | some n ↦ if ltb n (2 ^ 63) then some (pos n) else none
    ] in
    let negative = λ (t : List ℕ). elim (magnitude t) as (λ _. Option ℤ) [
      | none ↦ none
      | some n ↦ if leb n (2 ^ 63) then some (sub_ℕ 0 n) else none
    ] in
    elim s [
      | [] ↦ none
      | c ∷ t ↦ if c == b'-' then negative t else if c == b'+' then positive t else positive (c ∷ t)
    ]

unfoldable pub parse_bool : List ℕ → Option Bool
parse_bool s =
    if one_of s
      (bytes "1" ∷ bytes "t" ∷ bytes "T" ∷ bytes "TRUE" ∷ bytes "true" ∷ bytes "True" ∷ [])
    then some true
    else if one_of s
        (bytes "0" ∷ bytes "f" ∷ bytes "F" ∷ bytes "FALSE" ∷ bytes "false" ∷ bytes "False" ∷ [])
    then some false
    else none

-- The text before the first sign, and from it on.
abbrev before_sign : List ℕ → List ℕ
before_sign [] = []
before_sign (c ∷ s) = let rest = before_sign s in if c == b'+' || c == b'-' then [] else c ∷ rest

abbrev from_sign : List ℕ → List ℕ
from_sign [] = []
from_sign (c ∷ s) = let rest = from_sign s in if c == b'+' || c == b'-' then c ∷ s else rest

-- Debug is -4, info 0, warn 4 and error 8.
abbrev level_named : List ℕ → Option ℤ
level_named s =
    if same_text s (bytes "DEBUG")
    then some (sub_ℕ 0 4)
    else if same_text s (bytes "INFO")
    then some (pos 0)
    else if same_text s (bytes "WARN")
    then some (pos 4)
    else if same_text s (bytes "ERROR")
    then some (pos 8)
    else none

abbrev offset_of : List ℕ → Option ℤ
offset_of [] = some (pos 0)
offset_of (c ∷ s) = atoi (c ∷ s)

unfoldable pub parse_level : List ℕ → Option ℤ
unfolding ◌+ℤ◌ atoi
parse_level s = elim (offset_of (from_sign s)) [
  | none ↦ none
  | some n ↦ elim (level_named (to_upper (before_sign s))) [ none ↦ none | some l ↦ some (l +ℤ n) ]
]

-- The six bits of a letter of the alphabet.
abbrev sextet : ℕ → Option ℕ
sextet c =
    if leb b'A' c && leb c b'Z'
    then some (c - b'A')
    else if leb b'a' c && leb c b'z'
    then some (c - b'a' + 26)
    else if leb b'0' c && leb c b'9'
    then some (c - b'0' + 52)
    else if c == b'+'
    then some 62
    else if c == b'/'
    then some 63
    else none

abbrev no_newlines : List ℕ → List ℕ
no_newlines [] = []
no_newlines (c ∷ s) = let rest = no_newlines s in if c == 10 || c == 13 then rest else c ∷ rest

abbrev two : Option ℕ → Option ℕ → Option (List ℕ)
two none y = none
two (some a) none = none
two (some a) (some b) = some ((a * 4 + b / 16) ∷ [])

abbrev three : Option ℕ → Option ℕ → Option ℕ → Option (List ℕ)
three x y none = none
three x y (some c) = elim (two x y) [
  | none ↦ none
  | some h ↦ elim y [ none ↦ none | some b ↦ some (h ++ ((b % 16 * 16 + c / 4) ∷ [])) ]
]

abbrev four : Option ℕ → Option ℕ → Option ℕ → Option ℕ → Option (List ℕ)
four x y z none = none
four x y z (some d) = elim (three x y z) [
  | none ↦ none
  | some h ↦ elim z [ none ↦ none | some c ↦ some (h ++ ((c % 4 * 64 + d) ∷ [])) ]
]

abbrev last_group : List ℕ → Bool
last_group [] = true
last_group (c ∷ s) = false

unfoldable pub groups : List ℕ → Option (List ℕ)
groups (a ∷ b ∷ c ∷ d ∷ s) =
    let rest : Option (List ℕ) = elim (groups s) [
      | none ↦ none
      | some t ↦ elim (four (sextet a) (sextet b) (sextet c) (sextet d)) [
        | none ↦ none
        | some h ↦ some (h ++ t)
      ]
    ] in
    if c == b'='
    then (if d == b'=' && last_group s then two (sextet a) (sextet b) else none)
    else if d == b'='
    then (if last_group s then three (sextet a) (sextet b) (sextet c) else none)
    else rest
groups [] = some []
groups s = none

-- StdEncoding.DecodeString: padded, newlines skipped; `none` is corrupt input.
unfoldable pub decode64 : List ℕ → Option (List ℕ)
unfolding groups
decode64 s = groups (no_newlines s)

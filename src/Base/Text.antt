-- ===== src/Base/Text.antt =====
-- Texts of the program: emptiness, defaults, concatenation and `strings.TrimSpace`.
use Prim.Native.Char.{Char, code}
use Prim.Native.Nat.{ℕ, zero, suc, ◌/◌, ◌%◌}
use Prim.Native.String.append
use Prim.Native.String.{String, ◌++◌ as append}
use mathlib.Core.Path.{◌≡◌, refl}
use mathlib.Core.Bool.{Bool, true, false, ◌&&◌, ◌||◌}
use realtime_speech_pipeline.Base.Int.{ℤ, pos, negsuc}
use realtime_speech_pipeline.Base.Tests.{leb, eqb, if◌then◌else◌}

-- `s == ""`
abbrev pub is_empty : String → Bool
is_empty String.[] = true
is_empty (String.◌∷◌ c s) = false

-- `if value == "" { return default }; return value`
abbrev pub fallback : String → String → String
fallback value default = if is_empty value then default else value

pub is_empty-fallback :
    (value default : String) → is_empty default ≡ false → is_empty (fallback value default) ≡ false
is_empty-fallback String.[] default h = h
is_empty-fallback (String.◌∷◌ c s) default h = refl

abbrev pub concat : String → String → String
concat s t = append s t

pub is_empty-concat : (s t : String) → is_empty s ≡ false → is_empty (concat s t) ≡ false
is_empty-concat String.[] t h = cc
is_empty-concat (String.◌∷◌ c s) t h = rw (append.cons c s t) refl

-- Go's `unicode.IsSpace`.
pub is_space : Char → Bool
is_space c =
    let n = code c in
    leb 9 n && leb n 13
    || eqb n 32
    || eqb n 0x85
    || eqb n 0xa0
    || eqb n 0x1680
    || leb 0x2000 n && leb n 0x200a
    || eqb n 0x2028
    || eqb n 0x2029
    || eqb n 0x202f
    || eqb n 0x205f
    || eqb n 0x3000

trim_left : String → String
trim_left String.[] = String.[]
trim_left (String.◌∷◌ c s) = if is_space c then trim_left s else String.◌∷◌ c s

-- Drops the white space at the end.
trim_right : String → String
trim_right String.[] = String.[]
trim_right (String.◌∷◌ c s) =
    let rest = trim_right s in if is_space c && is_empty rest then String.[] else String.◌∷◌ c rest

unfoldable pub trim_space : String → String
unfolding trim_left trim_right is_space
trim_space s = trim_right (trim_left s)

digit : ℕ → String
digit n =
    if eqb n 0
    then "0"
    else if eqb n 1
    then "1"
    else if eqb n 2
    then "2"
    else if eqb n 3
    then "3"
    else if eqb n 4
    then "4"
    else if eqb n 5
    then "5"
    else if eqb n 6
    then "6"
    else if eqb n 7
    then "7"
    else if eqb n 8
    then "8"
    else "9"

-- Fuel above the number is enough: each round divides it by ten.
decimal_from : ℕ → ℕ → String
decimal_from zero n = ""
decimal_from (suc fuel) n =
    let front = decimal_from fuel (n / 10) in
    if leb n 9 then digit n else concat front (digit (n % 10))

-- `%d` of a number that is not negative.
unfoldable pub decimal : ℕ → String
unfolding decimal_from digit
decimal n = decimal_from (suc n) n

-- `%d` of an int64.
unfoldable pub decimal_int : ℤ → String
unfolding decimal
decimal_int (pos n) = decimal n
decimal_int (negsuc n) = concat "-" (decimal (suc n))

decimal_test : decimal 4096 ≡ "4096"
unfolding decimal
decimal_test = refl

trim_space_test : trim_space "  ab c\n " ≡ "ab c"
unfolding trim_space
trim_space_test = refl

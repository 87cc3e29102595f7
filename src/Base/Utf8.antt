-- ===== src/Base/Utf8.antt =====
-- UTF-8, as the standard library of the program checks and decodes it.
use Prim.Native.Nat.{ℕ, ◌+◌, ◌-◌, ◌*◌, ◌%◌, Ordering, compare}
use Prim.Native.Char.{Char, char, IsScalar}
use Prim.Native.String.{String, [] as no_text, ◌∷◌ as cons_text}
use mathlib.Core.Path.{◌≡◌, refl}
use mathlib.Core.Bool.{Bool, false, ◌&&◌}
use mathlib.Core.Option.{Option, none, some}
use mathlib.Core.List.{List, [], ◌∷◌}
use wasmtiny.Base.Tests.{ltb, leb, ◌==◌, if◌then◌else◌}

-- What a sequence still needs: a number of continuation bytes, and the range of the next one.
pub record Expected : Type 0 where
  pub more : ℕ
  pub low : ℕ
  pub high : ℕ

abbrev within : ℕ → ℕ → ℕ → Bool
within lo hi b = leb lo b && leb b hi

abbrev expect : ℕ → ℕ → ℕ → Expected
expect more low high = record { more = more; low = low; high = high }

-- The first byte of a sequence: no surrogates, no overlong forms and nothing above U+10FFFF.
abbrev first_of : ℕ → Option Expected
first_of b =
    if ltb b 0x80
    then some (expect 0 0x80 0xBF)
    else if within 0xC2 0xDF b
    then some (expect 1 0x80 0xBF)
    else if b == 0xE0
    then some (expect 2 0xA0 0xBF)
    else if b == 0xED
    then some (expect 2 0x80 0x9F)
    else if within 0xE1 0xEF b
    then some (expect 2 0x80 0xBF)
    else if b == 0xF0
    then some (expect 3 0x90 0xBF)
    else if within 0xF1 0xF3 b
    then some (expect 3 0x80 0xBF)
    else if b == 0xF4
    then some (expect 3 0x80 0x8F)
    else none

abbrev next_of : Expected → ℕ → Option Expected
next_of e b =
    if e.more == 0
    then first_of b
    else if within e.low e.high b
    then some (expect (e.more - 1) 0x80 0xBF)
    else none

unfoldable pub utf8_from : Option Expected → List ℕ → Bool
utf8_from none bytes = false
utf8_from (some e) [] = e.more == 0
utf8_from (some e) (b ∷ bytes) = utf8_from (next_of e b) bytes

-- `from_utf8` accepts the bytes.
unfoldable pub is_utf8 : List ℕ → Bool
unfolding utf8_from
is_utf8 = utf8_from (some (expect 0 0x80 0xBF))

-- A number outside the surrogates and below 0x110000 is a scalar value.
abbrev scalar :
    (n : ℕ) (o p q : Ordering)
    → compare n 55296 ≡ o
    → compare 57343 n ≡ p
    → compare n 1114112 ≡ q
    → Option (IsScalar n)
scalar n Ordering.lt p q e f g = some (rw e tt)
scalar n Ordering.eq Ordering.lt Ordering.lt e f g = some (rw (e, f, g) tt)
scalar n Ordering.gt Ordering.lt Ordering.lt e f g = some (rw (e, f, g) tt)
scalar n _ _ _ e f g = none

abbrev char_of : ℕ → Option Char
char_of n = elim (scalar n (compare n 55296) (compare 57343 n) (compare n 1114112) refl refl refl) [
  | none ↦ none
  | some p ↦ some (char n p)
]

abbrev put_char : Option Char → Option String → Option String
put_char (some c) (some text) = some (cons_text c text)
put_char _ _ = none

-- How many bytes of a sequence follow, and its bits so far.
abbrev payload : ℕ → ℕ → ℕ → ℕ × ℕ
payload more bits b =
    if more == 0
    then (if ltb b 0x80
        then (0, b)
        else if ltb b 0xE0
        then (1, b % 32)
        else if ltb b 0xF0
        then (2, b % 16)
        else (3, b % 8))
    else (more - 1, bits * 64 + b % 64)

unfoldable pub decode_from : ℕ → ℕ → List ℕ → Option String
decode_from more bits [] = some no_text
decode_from more bits (b ∷ bytes) =
    let (more', bits') = payload more bits b in
    let rest = decode_from more' bits' bytes in
    if more' == 0 then put_char (char_of bits') rest else rest

unfoldable pub from_utf8 : List ℕ → Option String
unfolding decode_from is_utf8
from_utf8 bytes = if is_utf8 bytes then decode_from 0 0 bytes else none

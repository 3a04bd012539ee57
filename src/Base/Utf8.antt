-- ===== src/Base/Utf8.antt =====
-- The test that bytes are UTF-8, as `OsStr::to_str` and `Path::to_str` make it.
use remotefs.Base.{ℕ, zero, suc, Bool, true, false, ◌&&◌, Option, none, some, [], ◌∷◌}
use remotefs.Base.{if◌then◌else◌, ltb, leb, ◌==◌, nat_eq}
use remotefs.Base.Text.{Text}

-- The bytes that must follow in a character: how many, and the range of the next one.
record Expected : Type 0 where
  more : ℕ
  low : ℕ
  high : ℕ

abbrev expect : ℕ → ℕ → ℕ → Option Expected
expect more low high = some (record { more = more; low = low; high = high })

-- The first byte of a well-formed character: no overlong form, no surrogate, none beyond U+10FFFF.
expected_after : ℕ → Option Expected
expected_after c =
    if ltb c 0x80
    then expect 0 0x80 0xBF
    else if ltb c 0xC2
    then none
    else if ltb c 0xE0
    then expect 1 0x80 0xBF
    else if c == 0xE0
    then expect 2 0xA0 0xBF
    else if c == 0xED
    then expect 2 0x80 0x9F
    else if ltb c 0xF0
    then expect 2 0x80 0xBF
    else if c == 0xF0
    then expect 3 0x90 0xBF
    else if ltb c 0xF4
    then expect 3 0x80 0xBF
    else if c == 0xF4
    then expect 3 0x80 0x8F
    else none

is_utf8_from : ℕ → ℕ → ℕ → Text → Bool
unfolding expected_after
is_utf8_from zero low high [] = true
is_utf8_from zero low high (c ∷ s) = elim (expected_after c) [
  | none ↦ false
  | some e ↦ is_utf8_from e.more e.low e.high s
]
is_utf8_from (suc more) low high [] = false
is_utf8_from (suc more) low high (c ∷ s) =
    (leb low c && leb c high) && is_utf8_from more 0x80 0xBF s

-- `OsStr::to_str`, which fails on bytes that are no UTF-8.
unfoldable pub to_str : Text → Option Text
unfolding is_utf8_from
to_str bytes = if is_utf8_from 0 0x80 0xBF bytes then some bytes else none

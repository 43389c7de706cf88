-- ===== src/Protocol/Utf8.antt =====
-- `std::str::from_utf8` and `String::from_utf8_lossy` of the standard library, on lists of bytes.
use ferrium.Common.{
  ℕ, zero, suc, Bool, true, false, ◌&&◌, if◌then◌else◌, ltb, leb, Option, none, some, [], ◌∷◌, ◌++◌,
  Bytes,
}

-- What may follow a lead byte: the bounds of the next byte, and how many come after that one.
pub record Tail : Type 0 where
  pub low : ℕ
  pub high : ℕ
  pub more : ℕ

-- The lead bytes of two, three and four byte characters.
unfoldable pub lead : ℕ → Option Tail
lead b =
    if ltb b 0xC2
    then none
    else if ltb b 0xE0
    then some (record { low = 0x80; high = 0xBF; more = 0 })
    else if ltb b 0xE1
    then some (record { low = 0xA0; high = 0xBF; more = 1 })
    else if ltb b 0xED
    then some (record { low = 0x80; high = 0xBF; more = 1 })
    else if ltb b 0xEE
    then some (record { low = 0x80; high = 0x9F; more = 1 })
    else if ltb b 0xF0
    then some (record { low = 0x80; high = 0xBF; more = 1 })
    else if ltb b 0xF1
    then some (record { low = 0x90; high = 0xBF; more = 2 })
    else if ltb b 0xF4
    then some (record { low = 0x80; high = 0xBF; more = 2 })
    else if ltb b 0xF5
    then some (record { low = 0x80; high = 0x8F; more = 2 })
    else none

abbrev within : ℕ → Tail → Bool
within b t = leb t.low b && leb b t.high

-- The state after a continuation byte: `none` between characters.
abbrev next : Tail → Option Tail
next t = elim t.more [ zero ↦ none | suc k ↦ some (record { low = 0x80; high = 0xBF; more = k }) ]

unfoldable pub is_utf8_from : Option Tail → Bytes → Bool
is_utf8_from none [] = true
is_utf8_from (some t) [] = false
is_utf8_from none (b ∷ s) =
    if ltb b 0x80
    then is_utf8_from none s
    else elim (lead b) [ none ↦ false | some t ↦ is_utf8_from (some t) s ]
is_utf8_from (some t) (b ∷ s) = within b t && is_utf8_from (next t) s

-- `std::str::from_utf8(s).is_ok()`
abbrev pub is_utf8 : Bytes → Bool
is_utf8 s = is_utf8_from none s

-- U+FFFD
abbrev pub replacement : Bytes
replacement = 0xEF ∷ 0xBF ∷ 0xBD ∷ []

-- Each maximal part that is not UTF-8 becomes U+FFFD; `pending` is the character read so far.
unfoldable pub lossy_from : Option Tail → Bytes → Bytes → Bytes
lossy_from none pending [] = []
lossy_from (some t) pending [] = replacement
lossy_from none pending (b ∷ s) = if ltb b 0x80 then b ∷ lossy_from none [] s else elim (lead b) [
  | none ↦ replacement ++ lossy_from none [] s
  | some t ↦ lossy_from (some t) (b ∷ []) s
]
lossy_from (some t) pending (b ∷ s) =
    if within b t
    then elim t.more [
      | zero ↦ (pending ++ b ∷ []) ++ lossy_from none [] s
      | suc k ↦
          lossy_from (some (record { low = 0x80; high = 0xBF; more = k })) (pending ++ b ∷ []) s
    ]
    else if ltb b 0x80
    then replacement ++ b ∷ lossy_from none [] s
    else elim (lead b) [
      | none ↦ replacement ++ replacement ++ lossy_from none [] s
      | some t' ↦ replacement ++ lossy_from (some t') (b ∷ []) s
    ]

-- `String::from_utf8_lossy`
abbrev pub from_utf8_lossy : Bytes → Bytes
from_utf8_lossy s = lossy_from none [] s

-- ===== src/Prelude/Text/Utf8.antt =====
-- `String::from_utf8`: the well-formed byte sequences of RFC 3629, one byte at a time.
use Prim.Native.Nat.{ℕ, zero, suc}
use mathlib.Core.Bool.{Bool, true, false, ◌&&◌}
use mathlib.Core.Option.{Option, none, some}
use mathlib.Core.List.{List, [], ◌∷◌}
use krata.Prelude.Tests.{ltb, leb, if◌then◌else◌}

-- Before a character, or before `more + 1` continuation bytes the next of which is from `lo` to `hi`.
pub data Utf8State : Type 0 where
  start : Utf8State
  within : (more lo hi : ℕ) → Utf8State

pub utf8_lead : ℕ → Option Utf8State
utf8_lead b =
    if ltb b 0x80
    then some start
    else if ltb b 0xc2
    then none
    else if ltb b 0xe0
    then some (within 0 0x80 0xbf)
    else if ltb b 0xe1
    then some (within 1 0xa0 0xbf)
    else if ltb b 0xed
    then some (within 1 0x80 0xbf)
    else if ltb b 0xee
    then some (within 1 0x80 0x9f)
    else if ltb b 0xf0
    then some (within 1 0x80 0xbf)
    else if ltb b 0xf1
    then some (within 2 0x90 0xbf)
    else if ltb b 0xf4
    then some (within 2 0x80 0xbf)
    else if ltb b 0xf5
    then some (within 2 0x80 0x8f)
    else none

pub utf8_step : Utf8State → ℕ → Option Utf8State
unfolding utf8_lead
utf8_step start b = utf8_lead b
utf8_step (within zero lo hi) b = if leb lo b && leb b hi then some start else none
utf8_step (within (suc more) lo hi) b =
    if leb lo b && leb b hi then some (within more 0x80 0xbf) else none

pub utf8_run : Utf8State → List ℕ → Bool
unfolding utf8_step
utf8_run start [] = true
utf8_run (within more lo hi) [] = false
utf8_run s (b ∷ bs) = elim (utf8_step s b) [ none ↦ false | some s' ↦ utf8_run s' bs ]

unfoldable pub is_utf8 : List ℕ → Bool
unfolding utf8_run
is_utf8 = utf8_run start

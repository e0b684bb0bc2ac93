-- ===== src/Utf8.antt =====
-- Text as the standard library checks it: `String::from_utf8`, `str::from_utf8` and
-- `str::is_char_boundary`. A text is its bytes, which the automaton below accepts.
pub mod Boundary
use eliot_search.Prelude.{
  ℕ, ◌≡◌, Bool, true, ◌&&◌, ◌||◌, Option, none, some, List, [], ◌∷◌, Bytes, length, get_elem?, ltb,
  leb, ◌==◌, if◌then◌else◌,
}

-- What has to follow the bytes read so far: nothing, so many continuation bytes, or the restricted
-- second byte behind the lead bytes E0, ED, F0 and F4.
pub data Decoder : Type 0 where
  start tail1 tail2 tail3 after_e0 after_ed after_f0 after_f4 : Decoder

abbrev pub within : ℕ → ℕ → ℕ → Bool
within lo hi b = leb lo b && leb b hi

lead : ℕ → Option Decoder
lead b =
    if ltb b 0x80
    then some start
    else if within 0xc2 0xdf b
    then some tail1
    else if b == 0xe0
    then some after_e0
    else if b == 0xed
    then some after_ed
    else if within 0xe1 0xef b
    then some tail2
    else if b == 0xf0
    then some after_f0
    else if within 0xf1 0xf3 b
    then some tail3
    else if b == 0xf4
    then some after_f4
    else none

unfoldable pub step : Decoder → ℕ → Option Decoder
unfolding lead
step start b = lead b
step tail1 b = if within 0x80 0xbf b then some start else none
step tail2 b = if within 0x80 0xbf b then some tail1 else none
step tail3 b = if within 0x80 0xbf b then some tail2 else none
step after_e0 b = if within 0xa0 0xbf b then some tail1 else none
step after_ed b = if within 0x80 0x9f b then some tail1 else none
step after_f0 b = if within 0x90 0xbf b then some tail2 else none
step after_f4 b = if within 0x80 0x8f b then some tail2 else none

abbrev pub and_then : Option Decoder → (Decoder → Option Decoder) → Option Decoder
and_then none f = none
and_then (some s) f = f s

unfoldable pub run : Decoder → Bytes → Option Decoder
unfolding step
run s [] = some s
run s (b ∷ bs) = and_then (step s b) (λ t. run t bs)

abbrev accepted : Option Decoder → Bool
accepted (some start) = true
accepted _ = Bool.false

unfoldable pub is_utf8 : Bytes → Bool
unfolding run
is_utf8 bs = accepted (run start bs)

-- `String::from_utf8(bytes).ok()` and `str::from_utf8(bytes).ok()`.
unfoldable pub from_utf8 : Bytes → Option Bytes
unfolding is_utf8
from_utf8 bs = if is_utf8 bs then some bs else none

abbrev boundary_byte : ℕ → ℕ → Option ℕ → Bool
boundary_byte i len none = i == len
boundary_byte i len (some b) = ltb b 0x80 || leb 0xc0 b

-- `text.is_char_boundary(i)`.
unfoldable pub is_char_boundary : Bytes → ℕ → Bool
is_char_boundary text i = if i == 0 then true else boundary_byte i (length text) (get_elem? text i)

-- ===== src/Auth/Utf8.antt =====
-- `core::str::from_utf8`: the characters of bytes, or none if they are no UTF-8.
use mathlib.Core.Option
use nut_webgui.Prelude.{
  ℕ, zero, suc, ◌+◌, ◌-◌, ◌*◌, if◌then◌else◌, ltb, ◌==◌, Option, none, some, List, [], ◌∷◌,
  and_then,
}
use nut_webgui.Upsmc.Text.{Bytes, within}

-- Between two bytes: how many bytes of the character are still to come, between which bounds the
-- next one lies, and the bits read so far.
pub record Decoder : Type 0 where
  pub pending : ℕ
  pub low : ℕ
  pub high : ℕ
  pub bits : ℕ

abbrev pub idle : Decoder
idle = record { pending = 0; low = 128; high = 191; bits = 0 }

abbrev expects : ℕ → ℕ → ℕ → ℕ → Option Decoder
expects pending low high bits =
    some (record { pending = pending; low = low; high = high; bits = bits })

unfoldable pub first_byte : ℕ → Option Decoder
first_byte b =
    if within 194 223 b
    then expects 1 128 191 (b - 192)
    else if b == 224
    then expects 2 160 191 0
    else if b == 237
    then expects 2 128 159 13
    else if within 225 239 b
    then expects 2 128 191 (b - 224)
    else if b == 240
    then expects 3 144 191 0
    else if within 241 243 b
    then expects 3 128 191 (b - 240)
    else if b == 244
    then expects 3 128 143 4
    else none

-- The next state, with the character that a byte ends.
unfoldable pub decode_byte : ℕ → Decoder → ℕ → Option (Decoder × Option ℕ)
decode_byte zero d b =
    if ltb b 128 then some (idle, some b) else Option.map (λ e. (e, none)) (first_byte b)
decode_byte (suc zero) d b =
    if within d.low d.high b then some (idle, some (d.bits * 64 + (b - 128))) else none
decode_byte (suc (suc n)) d b =
    if within d.low d.high b
    then some
        (record { pending = suc n; low = 128; high = 191; bits = d.bits * 64 + (b - 128) }, none)
    else none

unfoldable pub push_char : Option ℕ → List ℕ → List ℕ
push_char none cs = cs
push_char (some c) cs = c ∷ cs

unfoldable pub decode_loop : Decoder → Bytes → Option (List ℕ)
decode_loop d [] = if d.pending == 0 then some [] else none
decode_loop d (b ∷ bs) =
    and_then (decode_byte d.pending d b)
      λ step. Option.map (push_char step.1) (decode_loop step.0 bs)

unfoldable pub from_utf8 : Bytes → Option (List ℕ)
from_utf8 = decode_loop idle

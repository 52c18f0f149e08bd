-- ===== src/Upsmc/Status.antt =====
-- ups_status.rs: the flags of a device's status, read from and printed as a text. A text is the
-- list of its characters here.
pub mod Laws
pub mod Words
pub mod RoundTrip
mod Tests
use nut_webgui.Prelude.{
  ℕ, zero, suc, Bool, true, false, ◌&&◌, ◌||◌, if◌then◌else◌, ◌==◌, leb, ltb, Option, none, some,
  List, [], ◌∷◌, ◌++◌, map,
}
use Prim.Native.String.{String}
use nut_webgui.Upsmc.Text.{Bytes, codes, text_eq, within}
use nut_webgui.Upsmc.Bits.{Word, zeros, single, word_eq, set, iter, count_ones}

abbrev pub Chars : Type 0
Chars = List ℕ

-- The names in the order of `impl_status!`, which is the order of the bits.
abbrev pub status_names : List String
status_names =
    "ALARM" ∷ "BOOST" ∷ "BYPASS" ∷ "CAL" ∷ "CHRG" ∷ "COMM" ∷ "DISCHRG" ∷ "FSD" ∷ "LB" ∷ "NOCOMM"
    ∷ "OFF" ∷ "OL" ∷ "OB" ∷ "OVER" ∷ "RB" ∷ "TEST" ∷ "TICK" ∷ "TOCK" ∷ "TRIM" ∷ []

abbrev pub UpsStatus : Type 0
UpsStatus = Word 32

-- `char::is_whitespace`.
unfoldable pub is_whitespace : ℕ → Bool
is_whitespace c =
    within 9 13 c
    || c == 32
    || c == 133
    || c == 160
    || c == 5760
    || within 8192 8202 c
    || c == 8232
    || c == 8233
    || c == 8239
    || c == 8287
    || c == 12288

-- `str::split_whitespace`; `word` is what has been read of the word at hand.
unfoldable pub flush : Chars → List Chars → List Chars
flush [] rest = rest
flush (c ∷ cs) rest = (c ∷ cs) ∷ rest

unfoldable pub split_loop : Chars → Chars → List Chars
split_loop word [] = flush word []
split_loop word (c ∷ cs) =
    if is_whitespace c then flush word (split_loop [] cs) else split_loop (word ++ (c ∷ [])) cs

unfoldable pub split_whitespace : Chars → List Chars
split_whitespace = split_loop []

-- The `match` of `new`: the flag of a name, if it has one.
unfoldable pub flag_from : ℕ → List String → Chars → Option ℕ
flag_from k [] t = none
flag_from k (name ∷ names) t = if text_eq (codes name) t then some k else flag_from (suc k) names t

unfoldable pub flag_of : Chars → Option ℕ
flag_of = flag_from 0 status_names

unfoldable pub add_word : UpsStatus → Chars → UpsStatus
add_word result t = elim (flag_of t) [ none ↦ result | some k ↦ set 32 result (single 32 k) ]

unfoldable pub add_words : UpsStatus → List Chars → UpsStatus
add_words result [] = result
add_words result (t ∷ ts) = add_words (add_word result t) ts

-- `UpsStatus::new`.
unfoldable pub status_new : Chars → UpsStatus
status_new value = add_words (zeros 32) (split_whitespace value)

unfoldable pub state_str_from : ℕ → List String → UpsStatus → Chars
state_str_from k [] value = codes "UnknownStatus"
state_str_from k (name ∷ names) value =
    if word_eq 32 value (single 32 k) then codes name else state_str_from (suc k) names value

unfoldable pub get_state_str : UpsStatus → Chars
get_state_str value =
    if word_eq 32 value (zeros 32) then [] else state_str_from 0 status_names value

-- The `while` loop of `fmt`: a blank between two names.
unfoldable pub join_names : List UpsStatus → Chars
join_names [] = []
join_names (v ∷ []) = get_state_str v
join_names (v ∷ w ∷ vs) = get_state_str v ++ (b' ' ∷ join_names (w ∷ vs))

-- `Display::fmt`.
unfoldable pub to_string : UpsStatus → Chars
to_string self =
    if ltb 1 (count_ones 32 self) then join_names (iter 32 self) else get_state_str self

-- The bit of each constant.
abbrev pub status_alarm : ℕ
status_alarm = 0

abbrev pub status_boost : ℕ
status_boost = 1

abbrev pub status_bypass : ℕ
status_bypass = 2

abbrev pub status_calibrating : ℕ
status_calibrating = 3

abbrev pub status_charging : ℕ
status_charging = 4

abbrev pub status_comm : ℕ
status_comm = 5

abbrev pub status_discharge : ℕ
status_discharge = 6

abbrev pub status_forced_shutdown : ℕ
status_forced_shutdown = 7

abbrev pub status_low_battery : ℕ
status_low_battery = 8

abbrev pub status_nocomm : ℕ
status_nocomm = 9

abbrev pub status_offline : ℕ
status_offline = 10

abbrev pub status_online : ℕ
status_online = 11

abbrev pub status_on_battery : ℕ
status_on_battery = 12

abbrev pub status_overloaded : ℕ
status_overloaded = 13

abbrev pub status_replace_battery : ℕ
status_replace_battery = 14

abbrev pub status_test : ℕ
status_test = 15

abbrev pub status_tick : ℕ
status_tick = 16

abbrev pub status_tock : ℕ
status_tock = 17

abbrev pub status_trim : ℕ
status_trim = 18

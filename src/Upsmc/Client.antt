-- ===== src/Upsmc/Client.antt =====
-- client/client_base.rs: how a request is sent and its response is read from the connection.
pub mod Lines
pub mod ListUps
pub mod Truncated
pub mod Pooled
pub mod Errors
mod Tests
use mathlib.Core.Option
use nut_webgui.Prelude.{
  ℕ, zero, suc, ◌+◌, [], ◌∷◌, ◌++◌, Bool, true, false, ◌==◌, if◌then◌else◌, Option, none, some,
  length, drop,
}
use nut_webgui.Upsmc.Text.{Bytes, codes, strip_prefix}
use nut_webgui.Upsmc.Str.{trim, as_bytes}
use nut_webgui.Upsmc.Error.{
  Result, ok, err, io_error, protocol_error, empty_response, request_timeout,
}
use nut_webgui.Upsmc.Lexer.{M, init}
use nut_webgui.Upsmc.Client.Errors.{protocol_error_from}
use nut_webgui.Auth.Utf8.{from_utf8}

-- The bytes that the peer has sent or will send, and whether it closes the connection behind them;
-- if not, a reader waits for ever.
pub record Stream : Type 0 where
  pub incoming : Bytes
  pub closed : Bool

-- Up to the first line feed, and what is behind it.
unfoldable pub split_line : Bytes → Option (Bytes × Bytes)
split_line [] = none
split_line (c ∷ cs) =
    if c == b'\n' then some (c ∷ [], cs) else Option.map (λ p. (c ∷ p.0, p.1)) (split_line cs)

-- `read_line`: a text, no UTF-8, or a wait without end, in which the bytes of the line are lost.
pub data Line : Type 0 where
  line : Bytes → Stream → Line
  no_utf8 : Stream → Line
  waits : Stream → Line

unfoldable pub checked_line : Bytes → Stream → Line
checked_line t s = elim (from_utf8 t) [ none ↦ no_utf8 s | some cs ↦ line t s ]

unfoldable pub read_line : Stream → Line
read_line s = elim (split_line s.incoming) [
  | some p ↦ checked_line p.0 (record s { incoming = p.1 })
  | none ↦
      if s.closed
      then checked_line s.incoming (record s { incoming = [] })
      else waits (record s { incoming = [] })
]

-- `unfinished` is a request that never returns by itself.
pub data Reply (A : Type 0) : Type 0 where
  replied : Result A → Stream → Reply A
  unfinished : Stream → Reply A

-- `std::io::ErrorKind::InvalidData`.
abbrev pub invalid_data : ℕ
invalid_data = 21

unfoldable pub starts_with : Bytes → Bytes → Bool
starts_with prefix t = elim (strip_prefix prefix t) [ none ↦ false | some rest ↦ true ]

-- The loop over the lines of a list, on fuel.
unfoldable pub read_list_lines : ℕ → Stream → Bytes → ℕ → Reply Bytes
read_list_lines zero s response_buf start_pos = unfinished s
read_list_lines (suc fuel) s response_buf start_pos = elim (read_line s) [
  | waits s' ↦ unfinished s'
  | no_utf8 s' ↦ replied (err (io_error invalid_data)) s'
  | line t s' ↦ elim (starts_with (codes "END LIST") (drop start_pos (response_buf ++ t))) [
    | true ↦ replied (ok (response_buf ++ t)) s'
    | false ↦ read_list_lines fuel s' (response_buf ++ t) (start_pos + length t)
  ]
]

-- `trim` of a text that is well-formed UTF-8.
unfoldable pub trim_bytes : Bytes → Bytes
trim_bytes t = elim (from_utf8 t) [ none ↦ t | some cs ↦ as_bytes (trim cs) ]

unfoldable pub read_response : ℕ → Bytes → Stream → Reply Bytes
read_response fuel first s = elim (starts_with (codes "BEGIN LIST") first) [
  | true ↦ read_list_lines fuel s first (length first)
  | false ↦ elim (strip_prefix (codes "ERR") first) [
    | some message ↦ replied (err (protocol_error (protocol_error_from (trim_bytes message)))) s
    | none ↦ replied (ok first) s
  ]
]

-- `inner_send_raw`; `written` is the outcome of `write_all` and `flush`.
unfoldable pub inner_send_raw : ℕ → Option ℕ → Stream → Reply Bytes
inner_send_raw fuel (some kind) s = replied (err (io_error kind)) s
inner_send_raw fuel none s = elim (read_line s) [
  | waits s' ↦ unfinished s'
  | no_utf8 s' ↦ replied (err (io_error invalid_data)) s'
  | line first s' ↦ read_response fuel first s'
]

-- `send_raw`: the timeout ends what never returns. A line that is there has a byte, so that the
-- fuel is enough.
unfoldable pub send_raw : Option ℕ → Stream → Result Bytes × Stream
send_raw written s = elim (inner_send_raw (suc (length s.incoming)) written s) [
  | replied r s' ↦ (r, s')
  | unfinished s' ↦ (err request_timeout, s')
]

unfoldable pub deserialized : {A : Type 0} → (Bytes → M A) → Result Bytes → Result A
deserialized read (err e) = err e
deserialized read Result.panic = Result.panic
deserialized read Result.diverged = Result.diverged
deserialized read (ok []) = err empty_response
deserialized read (ok (c ∷ cs)) = (read (c ∷ cs) init).0

-- `send`, over the `deserialize` of the response.
unfoldable pub send : {A : Type 0} → (Bytes → M A) → Option ℕ → Stream → Result A × Stream
send read written s = let (r, s') = send_raw written s in (deserialized read r, s')

unfoldable pub trimmed : Result Bytes → Result Bytes
trimmed (err e) = err e
trimmed Result.panic = Result.panic
trimmed Result.diverged = Result.diverged
trimmed (ok []) = err empty_response
trimmed (ok (c ∷ cs)) = ok (trim_bytes (c ∷ cs))

-- `get_protver` and `get_ver`.
unfoldable pub get_version : Option ℕ → Stream → Result Bytes × Stream
get_version written s = let (r, s') = send_raw written s in (trimmed r, s')

unfoldable pub answers : Result Bytes → Bool
answers (ok []) = false
answers (ok (c ∷ cs)) = true
answers (err e) = false
answers Result.panic = false
answers Result.diverged = false

unfoldable pub is_open : Option ℕ → Stream → Bool × Stream
is_open written s = let (r, s') = send_raw written s in (answers r, s')

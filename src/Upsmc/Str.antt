-- ===== src/Upsmc/Str.antt =====
-- What the crates use of `str` by its characters.
use nut_webgui.Prelude.{ℕ, ◌+◌, ◌/◌, ◌%◌, [], ◌∷◌, ◌++◌, Bool, if◌then◌else◌, ltb}
use nut_webgui.Upsmc.Text.{Bytes}
use nut_webgui.Upsmc.Status.{Chars, is_whitespace}

-- `str::trim_start_matches` and `str::trim_end_matches`.
unfoldable pub trim_start_matches : (ℕ → Bool) → Chars → Chars
trim_start_matches p [] = []
trim_start_matches p (c ∷ cs) = let rest = trim_start_matches p cs in if p c then rest else c ∷ cs

unfoldable pub trim_last : (ℕ → Bool) → ℕ → Chars → Chars
trim_last p c [] = if p c then [] else c ∷ []
trim_last p c (d ∷ ds) = c ∷ (d ∷ ds)

unfoldable pub trim_end_matches : (ℕ → Bool) → Chars → Chars
trim_end_matches p [] = []
trim_end_matches p (c ∷ cs) = trim_last p c (trim_end_matches p cs)

abbrev pub trim : Chars → Chars
trim t = trim_end_matches is_whitespace (trim_start_matches is_whitespace t)

-- `char::encode_utf8`.
unfoldable pub continuation : ℕ → ℕ
continuation c = 128 + c % 64

unfoldable pub encode_utf8 : ℕ → Bytes
encode_utf8 c =
    if ltb c 128
    then c ∷ []
    else if ltb c 2048
    then (192 + c / 64) ∷ (continuation c ∷ [])
    else if ltb c 65536
    then (224 + c / 4096) ∷ (continuation (c / 64) ∷ (continuation c ∷ []))
    else (240 + c / 262144)
      ∷ (continuation (c / 4096) ∷ (continuation (c / 64) ∷ (continuation c ∷ [])))

unfoldable pub as_bytes : Chars → Bytes
as_bytes [] = []
as_bytes (c ∷ cs) = encode_utf8 c ++ as_bytes cs

-- ===== src/Upsmc/Escape/RoundTrip.antt =====
-- What internal/escape.rs prepares for sending, internal/lexer.rs reads back.
use mathlib.Core.Option
use nut_webgui.Prelude.{◌≡◌, some, ◌∷◌, ◌++◌, ◌∙◌, sym, subst}
use nut_webgui.Upsmc.Text.{Bytes}
use nut_webgui.Upsmc.Text.Slices.{Starts, IsText}
use nut_webgui.Upsmc.Escape.{escape_nut_str, as_ref}
use nut_webgui.Upsmc.Escape.Laws.{escaped, as_ref-escape_nut_str, escaped-Scans}
use nut_webgui.Upsmc.Lexer.{State, next_token}
use nut_webgui.Upsmc.Lexer.Tokens.{Faces, Extracts, next_token-Extracts}

-- Between double quotes, the escaped text is one token in front of any rest, and its text is the
-- text that was escaped, if both the text and the buffer are well-formed UTF-8.
pub next_token-escape_nut_str :
    (t q rest buffer : Bytes) (s : State)
    → IsText t
    → Starts t
    → Option.map as_ref (escape_nut_str t) ≡ some q
    → Faces buffer s (b'"' ∷ (q ++ (b'"' ∷ rest)))
    → Extracts buffer t rest (next_token buffer s)
next_token-escape_nut_str t q rest buffer s i h e v =
    let same : escaped t ≡ q = cc (sym (as_ref-escape_nut_str t i h) ∙ e) in
    let (k, r, a) = escaped-Scans t rest in
    let ahead = subst (λ x. Faces buffer s (b'"' ∷ (x ++ (b'"' ∷ rest)))) (sym same) v in
    subst (λ x. Extracts buffer x rest (next_token buffer s)) r (next_token-Extracts s k ahead a)

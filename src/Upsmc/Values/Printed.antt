-- ===== src/Upsmc/Values/Printed.antt =====
-- What upsd prints for list_var.rs and list_rw.rs of response/ to read.
use nut_webgui.Upsmc.Lexer.Scan.{IsWordByte}
use nut_webgui.Upsmc.Names.{is_ascii_rfc9271}
use nut_webgui.Upsmc.Names.Laws.{IsName}
use nut_webgui.Upsmc.Escape.Laws.{escaped}
use nut_webgui.Upsmc.Text.{Bytes, codes, text_eq, is_ascii_whitespace, is_ascii_alphabetic}
use nut_webgui.Upsmc.Parser.Accepts.{IsWord}
use nut_webgui.Prelude.{
  length-append, ◌≤◌, ◌⊎◌, inl, inr, length, ℕ, ◌≡◌, refl, [], ◌∷◌, ◌++◌, List, true, false, All,
  length, arith,
}

-- `rest` behind a line `VAR <ups> <name> "<value>"` of upsd's, or one that begins with RW.
unfoldable pub variable_text : Bytes → Bytes → Bytes × Bytes → Bytes → Bytes
variable_text key ups entry rest =
    key
    ++ (b' '
        ∷ (ups
            ++ (b' '
                ∷ (entry.0 ++ (b' ' ∷ (b'"' ∷ (escaped entry.1 ++ (b'"' ∷ (b'\n' ∷ rest)))))))))

unfoldable pub variable_texts : Bytes → Bytes → List (Bytes × Bytes) → Bytes → Bytes
variable_texts key ups [] rest = rest
variable_texts key ups (entry ∷ entries) rest =
    variable_text key ups entry (variable_texts key ups entries rest)

-- `rest` behind the line before or behind the list.
unfoldable pub frame : Bytes → Bytes → Bytes → Bytes → Bytes
frame what key ups rest =
    what ++ (b' ' ∷ (codes "LIST" ++ (b' ' ∷ (key ++ (b' ' ∷ (ups ++ (b'\n' ∷ rest)))))))

-- What upsd answers to `LIST VAR <ups>` or `LIST RW <ups>`.
unfoldable pub print_variables : Bytes → Bytes → List (Bytes × Bytes) → Bytes
print_variables key ups entries =
    frame (codes "BEGIN") key ups (variable_texts key ups entries (frame (codes "END") key ups []))

IsWordByte-rfc : (c : ℕ) → is_ascii_rfc9271 c ≡ true → IsWordByte c
unfolding is_ascii_rfc9271 is_ascii_whitespace
IsWordByte-rfc c h = ground arith

pub IsWord-IsName : (name : Bytes) → IsName name → IsWord name
unfolding is_ascii_alphabetic
IsWord-IsName [] h = h
IsWord-IsName (c ∷ cs) h = (ground (arith, h.0), solid (c ∷ cs) h.1)
  where
    solid : (t : Bytes) → All (λ x. is_ascii_rfc9271 x ≡ true) t → All IsWordByte t
    solid [] h = tt
    solid (x ∷ xs) h = (IsWordByte-rfc x h.0, solid xs h.1)

pub length-variable_texts :
    (key ups : Bytes) (entries : List (Bytes × Bytes)) (rest : Bytes)
    → length entries ≤ length (variable_texts key ups entries rest)
unfolding variable_texts variable_text
length-variable_texts key ups [] rest = omega arith
length-variable_texts key ups (entry ∷ entries) rest =
    let later = variable_texts key ups entries rest in
    let value = b' ' ∷ (b'"' ∷ (escaped entry.1 ++ (b'"' ∷ (b'\n' ∷ later)))) in
    omega (
      arith,
      length-variable_texts key ups entries rest,
      length-append (escaped entry.1) (b'"' ∷ (b'\n' ∷ later)),
      length-append entry.0 value,
      length-append ups (b' ' ∷ (entry.0 ++ value)),
      length-append key (b' ' ∷ (ups ++ (b' ' ∷ (entry.0 ++ value)))),
    )

-- The words with which the lines of the two lists begin.
abbrev pub IsKey : Bytes → Type 0
IsKey key = (key ≡ codes "VAR") ⊎ (key ≡ codes "RW")

pub IsWord-IsKey : (key : Bytes) → IsKey key → IsWord key × (text_eq key (codes "END") ≡ false)
unfolding is_ascii_whitespace text_eq
IsWord-IsKey key (inl e) = rw e ((refl, (refl, (refl, (refl, tt)))), refl)
IsWord-IsKey key (inr e) = rw e ((refl, (refl, (refl, tt))), refl)

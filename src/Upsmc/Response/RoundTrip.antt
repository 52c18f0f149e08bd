-- ===== src/Upsmc/Response/RoundTrip.antt =====
-- response.rs on what upsd sends for a list of devices: the list comes back.
use nut_webgui.Upsmc.Response.Returns.{init-At}
use nut_webgui.Upsmc.Lexer.Cursor.{At-length, isize_max}
use nut_webgui.Upsmc.Text.Slices.{IsText}
use nut_webgui.Upsmc.Parser.{extract_ups_name, extract_quoted_text, end_parser, cmp_literal}
use nut_webgui.Upsmc.Response.{UpsDevice, ups_device, list_ups, list_loop, read_list, is_key}
use nut_webgui.Prelude.{
  length-append, append_assoc, ◌≤◌, subst, append-nil, sym, ◌<◌, ap, [], ◌∷◌, ◌++◌, List, ◌≡◌, refl,
  All, length, ℕ, zero, suc, arith,
}
use nut_webgui.Upsmc.Text.{text_eq, is_ascii_whitespace, Bytes, codes}
use nut_webgui.Upsmc.Error.{Result, ok}
use nut_webgui.Upsmc.Lexer.{◌>>=◌, ◌>>◌, State, M, init}
use nut_webgui.Upsmc.Lexer.Tokens.{Faces}
use nut_webgui.Upsmc.Lexer.Scan.{IsBlank, Ends, at_line_feed}
use nut_webgui.Upsmc.Escape.Laws.{escaped, escaped-Quotable}
use nut_webgui.Upsmc.Names.Laws.{IsUpsName}
use nut_webgui.Upsmc.Parser.Accepts.{
  Accepts, Accepts-bind, IsWord, Scans-word, cmp_literal-Accepts, extract_ups_name-Accepts,
  extract_quoted_text-Accepts, end_parser-Accepts, finish-Accepts, peek_as_str-word, BeginsLine,
}

-- `rest` behind a line `UPS <name> "<desc>"` of upsd's.
unfoldable pub device_line : UpsDevice → Bytes → Bytes
device_line d rest =
    codes "UPS"
    ++ (b' ' ∷ (d.ups_name ++ (b' ' ∷ (b'"' ∷ (escaped d.desc ++ (b'"' ∷ (b'\n' ∷ rest)))))))

unfoldable pub device_lines : List UpsDevice → Bytes → Bytes
device_lines [] rest = rest
device_lines (d ∷ ds) rest = device_line d (device_lines ds rest)

-- `rest` behind a line of three words.
unfoldable pub list_line : Bytes → Bytes → Bytes
list_line what rest = what ++ (b' ' ∷ (codes "LIST" ++ (b' ' ∷ (codes "UPS" ++ (b'\n' ∷ rest)))))

-- What upsd answers to `LIST UPS`.
unfoldable pub print_list_ups : List UpsDevice → Bytes
print_list_ups ds = list_line (codes "BEGIN") (device_lines ds (list_line (codes "END") []))

-- A name that upsd can print: a UPS name that does not begin with a double quote.
abbrev pub IsPrintable : UpsDevice → Type 0
IsPrintable d = IsUpsName d.ups_name × IsWord d.ups_name

IsWord-ups : IsWord (codes "UPS")
unfolding is_ascii_whitespace
IsWord-ups = (refl, (refl, (refl, (refl, tt))))

pub IsWord-list : IsWord (codes "LIST")
unfolding is_ascii_whitespace
IsWord-list = (refl, (refl, (refl, (refl, (refl, tt)))))

pub IsWord-end : IsWord (codes "END")
unfolding is_ascii_whitespace
IsWord-end = (refl, (refl, (refl, (refl, tt))))

pub IsWord-begin : IsWord (codes "BEGIN")
unfolding is_ascii_whitespace
IsWord-begin = (refl, (refl, (refl, (refl, (refl, (refl, tt))))))

pub space : All IsBlank (b' ' ∷ [])
unfolding is_ascii_whitespace
space = ((refl, refl), tt)

module _ {A : Type 0} {buffer rest last : Bytes} {a : A} (s : State) where
  pub literal-reads :
      (ws w : Bytes) (k : M A)
      → All IsBlank ws
      → IsWord w
      → Ends rest
      → Faces buffer s (ws ++ (w ++ rest))
      → ((t : State) → Faces buffer t rest → Accepts buffer a last (k t))
      → Accepts buffer a last ((cmp_literal buffer w >> k) s)
  literal-reads ws w k h i e v g =
      Accepts-bind s (cmp_literal buffer w) (λ _. k)
        (cmp_literal-Accepts s (Scans-word ws w rest h i e) v) g

  pub ups_name-reads :
      (w : Bytes) (k : Bytes → M A)
      → IsUpsName w
      → IsWord w
      → Ends rest
      → Faces buffer s (b' ' ∷ (w ++ rest))
      → ((t : State) → Faces buffer t rest → Accepts buffer a last (k w t))
      → Accepts buffer a last ((extract_ups_name buffer >>= k) s)
  ups_name-reads w k n i e v g =
      Accepts-bind s (extract_ups_name buffer) k
        (extract_ups_name-Accepts s n (Scans-word (b' ' ∷ []) w rest space i e) v) g

  pub quoted-reads :
      (t : Bytes) (k : Bytes → M A)
      → Faces buffer s (b' ' ∷ (b'"' ∷ (escaped t ++ (b'"' ∷ rest))))
      → ((u : State) → Faces buffer u rest → Accepts buffer a last (k t u))
      → Accepts buffer a last ((extract_quoted_text buffer >>= k) s)
  quoted-reads t k v g =
      let q = escaped-Quotable t in
      let (u, e, w) = extract_quoted_text-Accepts s (b' ' ∷ []) space q.body q.ascii v in
      rw (e, q.reads) (g u w)

  pub end_parser-reads :
      (k : M A)
      → BeginsLine rest
      → Faces buffer s (b'\n' ∷ rest)
      → ((t : State) → Faces buffer t rest → Accepts buffer a last (k t))
      → Accepts buffer a last ((end_parser buffer >> k) s)
  end_parser-reads k b v g =
      Accepts-bind s (end_parser buffer) (λ _. k)
        (end_parser-Accepts s (at_line_feed [] tt refl) v b) g

lines_BeginsLine : (ds : List UpsDevice) → BeginsLine (device_lines ds (list_line (codes "END") []))
unfolding device_lines device_line list_line is_ascii_whitespace
lines_BeginsLine [] = refl
lines_BeginsLine (d ∷ ds) = refl

module _ {buffer : Bytes} where
  list_line-reads :
      {A : Type 0} {rest last : Bytes} {a : A} (what : Bytes) (k : M A) (s : State)
      → IsWord what
      → BeginsLine rest
      → Faces buffer s (list_line what rest)
      → ((t : State) → Faces buffer t rest → Accepts buffer a last (k t))
      → Accepts buffer a last (
          (cmp_literal buffer what
              >> (cmp_literal buffer (codes "LIST")
                  >> (cmp_literal buffer (codes "UPS") >> (end_parser buffer >> k))))
            s)
  unfolding list_line is_ascii_whitespace
  list_line-reads what k s i b v g = literal-reads s [] what _ tt i refl v λ t v.
      literal-reads t (b' ' ∷ []) (codes "LIST") _ space IsWord-list refl v λ t v.
        literal-reads t (b' ' ∷ []) (codes "UPS") _ space IsWord-ups refl v
          λ t v. end_parser-reads t k b v g

  ups_device-Accepts :
      (d : UpsDevice) (rest : Bytes) (s : State)
      → IsPrintable d
      → BeginsLine rest
      → Faces buffer s (device_line d rest)
      → Accepts buffer d rest (ups_device buffer s)
  unfolding ups_device device_line is_ascii_whitespace
  ups_device-Accepts d rest s p b v = literal-reads s [] (codes "UPS") _ tt IsWord-ups refl v λ t v.
      ups_name-reads t d.ups_name _ p.0 p.1 refl v
        λ t v. quoted-reads t d.desc _ v λ t v. end_parser-reads t _ b v λ t v. (t, refl, v)

  -- The loop reads every line of the list and stops at the line behind it.
  list_loop-Accepts :
      (ds found : List UpsDevice) (fuel : ℕ) (s : State)
      → All IsPrintable ds
      → length ds < fuel
      → Faces buffer s (device_lines ds (list_line (codes "END") []))
      → Accepts buffer
          (found ++ ds)
          (list_line (codes "END") [])
          (list_loop fuel buffer (codes "UPS") (ups_device buffer) found s)
  unfolding list_loop device_lines device_line list_line is_key text_eq is_ascii_whitespace
  list_loop-Accepts ds found zero s p l v = absurd (omega arith)
  list_loop-Accepts [] found (suc fuel) s p l v =
      rw (peek_as_str-word s (Scans-word [] (codes "END") _ tt IsWord-end refl) v)
        (s, ap (λ x. (ok x, s)) (sym (append-nil found)), v)
  list_loop-Accepts (d ∷ ds) found (suc fuel) s p l v =
      rw (peek_as_str-word s (Scans-word [] (codes "UPS") _ tt IsWord-ups refl) v) (
        Accepts-bind s (ups_device buffer)
          (λ item. list_loop fuel buffer (codes "UPS") (ups_device buffer) (found ++ (item ∷ [])))
          (ups_device-Accepts d _ s p.0 (lines_BeginsLine ds) v)
          λ t v.
            subst
              (λ x.
                Accepts buffer x (list_line (codes "END") [])
                  (list_loop fuel buffer (codes "UPS") (ups_device buffer) (found ++ (d ∷ [])) t))
              (append_assoc found (d ∷ []) ds)
              (list_loop-Accepts ds (found ++ (d ∷ [])) fuel t p.1 (omega arith) v))

length-device_lines :
    (ds : List UpsDevice) (rest : Bytes) → length ds ≤ length (device_lines ds rest)
unfolding device_lines device_line
length-device_lines [] rest = omega arith
length-device_lines (d ∷ ds) rest =
    let tail = escaped d.desc ++ (b'"' ∷ (b'\n' ∷ device_lines ds rest)) in
    omega (
      arith,
      length-device_lines ds rest,
      length-append (escaped d.desc) (b'"' ∷ (b'\n' ∷ device_lines ds rest)),
      length-append d.ups_name (b' ' ∷ (b'"' ∷ tail)),
    )

-- The list of devices that upsd prints is the list that the client reads, whatever the
-- descriptions hold, if each name is valid and does not begin with a double quote, and the
-- response is well-formed UTF-8 of at most isize::MAX bytes.
pub list_ups-print_list_ups :
    (ds : List UpsDevice)
    → All IsPrintable ds
    → IsText (print_list_ups ds)
    → length (print_list_ups ds) ≤ isize_max
    → (list_ups (print_list_ups ds) init).0 ≡ ok ds
unfolding list_ups print_list_ups read_list list_line
list_ups-print_list_ups ds p i h = result (list_ups (print_list_ups ds) init) all
  where
    buffer : Bytes
    buffer = print_list_ups ds

    end : Bytes
    end = list_line (codes "END") []

    result : (r : Result (List UpsDevice) × State) → Accepts buffer ds [] r → r.0 ≡ ok ds
    result r (t, e, v) = ap (λ x. x.0) e

    front : Faces buffer init buffer
    front = record { at = init-At buffer h; starts = refl; is_text = i }

    all : Accepts buffer ds [] (list_ups buffer init)
    all = list_line-reads (codes "BEGIN") _ init IsWord-begin (lines_BeginsLine ds) front λ t v.
        Accepts-bind t (read_list buffer (codes "UPS") (ups_device buffer)) _
          (list_loop-Accepts ds [] (suc (length buffer)) t p
            (omega (arith, length-device_lines ds end, At-length v.at)) v)
          λ t v. list_line-reads (codes "END") _ t IsWord-end tt v λ t v. finish-Accepts t ds v

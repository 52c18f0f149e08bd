-- ===== src/Upsmc/Values/RoundTrip.antt =====
-- list_var.rs and list_rw.rs of response/ on what upsd sends for the variables of a device.
use nut_webgui.Upsmc.Values.Printed.{
  variable_text, variable_texts, frame, print_variables, IsWord-IsName, length-variable_texts,
  IsKey, IsWord-IsKey,
}
use nut_webgui.Upsmc.Values.{
  variable_line, extract_value, UpsVarList, UpsVariables, insert_all, get, list_variables,
}
use nut_webgui.Upsmc.Values.Variables.{last_value, get-variables}
use nut_webgui.Upsmc.Response.Returns.{init-At}
use nut_webgui.Upsmc.Lexer.Cursor.{At-length, isize_max}
use nut_webgui.Upsmc.Text.Slices.{IsText}
use nut_webgui.Upsmc.Response.{list_loop, is_key, read_list}
use nut_webgui.Upsmc.Value.{Value, infer_from}
use nut_webgui.Upsmc.Lexer.{init, State, M, bind, ◌>>=◌, ◌>>◌}
use nut_webgui.Upsmc.Parser.{extract_var_name, extract_ups_name, cmp_literal, end_parser}
use nut_webgui.Upsmc.Error.{ok}
use nut_webgui.Upsmc.Lexer.Tokens.{Faces}
use nut_webgui.Upsmc.Names.Laws.{IsName, IsUpsName}
use nut_webgui.Upsmc.Text.{Bytes, codes, text_eq, text_eq_iff, is_ascii_whitespace}
use nut_webgui.Upsmc.Parser.Accepts.{
  Accepts, Accepts-bind, IsWord, Scans-word, BeginsLine, peek_as_str-word, extract_var_name-Accepts,
  finish-Accepts,
}
use nut_webgui.Upsmc.Response.RoundTrip.{
  IsWord-begin, IsWord-list, IsWord-end, space, literal-reads, ups_name-reads, quoted-reads,
  end_parser-reads,
}
use nut_webgui.Prelude.{
  none, ◌≤◌, length, ℕ, zero, suc, ◌≡◌, refl, sym, ap, subst, ◌<◌, [], ◌∷◌, ◌++◌, List, map, Option,
  false, All, length, append_assoc, append-nil, arith,
}

module _ {F : Type 0} (parse_f64 : Bytes → Option F) where
  -- The name and the value of a line.
  abbrev pub listed : Bytes × Bytes → Bytes × Value F
  listed entry = (entry.0, infer_from parse_f64 entry.1)

  module _ (buffer key ups : Bytes) (key_word : IsWord key) (ups_word : IsWord ups) where
    abbrev end : Bytes
    end = frame (codes "END") key ups []

    word_begins : (w rest : Bytes) → IsWord w → BeginsLine (w ++ rest)
    word_begins [] rest h = absurd h
    word_begins (c ∷ cs) rest h = h.1.0

    key_begins : (rest : Bytes) → BeginsLine (key ++ rest)
    key_begins rest = word_begins key rest key_word

    texts_BeginsLine :
        (entries : List (Bytes × Bytes)) → BeginsLine (variable_texts key ups entries end)
    unfolding variable_texts variable_text frame is_ascii_whitespace
    texts_BeginsLine [] = refl
    texts_BeginsLine (entry ∷ entries) = key_begins _

    frame-reads :
        {A : Type 0} {rest last : Bytes} {a : A} (what : Bytes) (k : Bytes → M A) (s : State)
        → IsWord what
        → IsUpsName ups
        → BeginsLine rest
        → Faces buffer s (frame what key ups rest)
        → ((t : State) → Faces buffer t rest → Accepts buffer a last (k ups t))
        → Accepts buffer a last (
            (cmp_literal buffer what
                >> (cmp_literal buffer (codes "LIST")
                    >> (cmp_literal buffer key
                        >> (extract_ups_name buffer >>= λ u. end_parser buffer >> k u))))
              s)
    unfolding frame is_ascii_whitespace
    frame-reads what k s i n b v g = literal-reads s [] what _ tt i refl v λ t v.
        literal-reads t (b' ' ∷ []) (codes "LIST") _ space IsWord-list refl v λ t v.
          literal-reads t (b' ' ∷ []) key _ space key_word refl v
            λ t v. ups_name-reads t ups _ n ups_word refl v λ t v. end_parser-reads t (k ups) b v g

    end-reads :
        {A : Type 0} {rest last : Bytes} {a : A} (k : M A) (s : State)
        → BeginsLine rest
        → Faces buffer s (frame (codes "END") key ups rest)
        → ((t : State) → Faces buffer t rest → Accepts buffer a last (k t))
        → Accepts buffer a last (
            (cmp_literal buffer (codes "END")
                >> (cmp_literal buffer (codes "LIST")
                    >> (cmp_literal buffer key
                        >> (cmp_literal buffer ups >> (end_parser buffer >> k)))))
              s)
    unfolding frame is_ascii_whitespace
    end-reads k s b v g = literal-reads s [] (codes "END") _ tt IsWord-end refl v λ t v.
        literal-reads t (b' ' ∷ []) (codes "LIST") _ space IsWord-list refl v λ t v.
          literal-reads t (b' ' ∷ []) key _ space key_word refl v λ t v.
            literal-reads t (b' ' ∷ []) ups _ space ups_word refl v
              λ t v. end_parser-reads t k b v g

    variable_line-Accepts :
        (entry : Bytes × Bytes) (rest : Bytes) (s : State)
        → IsName entry.0
        → BeginsLine rest
        → Faces buffer s (variable_text key ups entry rest)
        → Accepts buffer (listed entry) rest (variable_line parse_f64 buffer key ups s)
    unfolding variable_line variable_text extract_value is_ascii_whitespace
    variable_line-Accepts entry rest s n b v = literal-reads s [] key _ tt key_word refl v λ t v.
        literal-reads t (b' ' ∷ []) ups _ space ups_word refl v λ t v.
          Accepts-bind t (extract_var_name buffer) _
            (extract_var_name-Accepts t n
              (Scans-word (b' ' ∷ []) entry.0 _ space (IsWord-IsName entry.0 n) refl) v)
            λ t v.
              Accepts-bind t (extract_value parse_f64 buffer) _
                (quoted-reads t entry.1 _ v λ t v. (t, refl, v))
                λ t v. end_parser-reads t _ b v λ t v. (t, refl, v)

    list_loop-Accepts :
        (entries : List (Bytes × Bytes)) (found : List (Bytes × Value F)) (fuel : ℕ) (s : State)
        → text_eq key (codes "END") ≡ false
        → All (λ e. IsName e.0) entries
        → length entries < fuel
        → Faces buffer s (variable_texts key ups entries end)
        → Accepts buffer
            (found ++ map listed entries)
            end
            (list_loop fuel buffer key (variable_line parse_f64 buffer key ups) found s)
    unfolding list_loop variable_texts variable_text frame is_key is_ascii_whitespace
    list_loop-Accepts entries found zero s x p l v = absurd (omega arith)
    list_loop-Accepts [] found (suc fuel) s x p l v =
        rw
          (peek_as_str-word s (Scans-word [] (codes "END") _ tt IsWord-end refl) v, bind, is_key, x)
          (s, ap (λ y. (ok y, s)) (sym (append-nil found)), v)
    list_loop-Accepts (entry ∷ entries) found (suc fuel) s x p l v =
        rw
          (
            peek_as_str-word s (Scans-word [] key _ tt key_word refl) v,
            bind,
            is_key,
            (text_eq_iff key key).1 refl,
          )
          (Accepts-bind s (variable_line parse_f64 buffer key ups)
            (λ item.
              list_loop fuel buffer key (variable_line parse_f64 buffer key ups)
                (found ++ (item ∷ [])))
            (variable_line-Accepts entry _ s p.0 (texts_BeginsLine entries) v)
            λ t v.
              subst
                (λ y. Accepts buffer y end (
                  list_loop fuel buffer key (variable_line parse_f64 buffer key ups)
                    (found ++ (listed entry ∷ [])) t))
                (append_assoc found (listed entry ∷ []) (map listed entries))
                (list_loop-Accepts entries (found ++ (listed entry ∷ [])) fuel t x p.1 (omega arith)
                  v))

module _ {F : Type 0} (parse_f64 : Bytes → Option F) (key ups : Bytes)
    (entries : List (Bytes × Bytes)) where
  abbrev response : Bytes
  response = print_variables key ups entries

  abbrev result : UpsVarList F
  result = record { variables = insert_all [] (map (listed parse_f64) entries); ups_name = ups }

  reads_back :
      IsKey key
      → IsUpsName ups
      → IsWord ups
      → All (λ e. IsName e.0) entries
      → IsText response
      → length response ≤ isize_max
      → Accepts response result [] (list_variables parse_f64 response key init)
  unfolding list_variables read_list print_variables frame
  reads_back k n w p i h =
      let (key_word, other) = IsWord-IsKey key k in
      let front : Faces response init response = record {
        at = init-At response h;
        starts = refl;
        is_text = i;
      } in
      let begins = texts_BeginsLine parse_f64 response key ups key_word w entries in
      frame-reads parse_f64 response key ups key_word w (codes "BEGIN") _ init IsWord-begin n begins
        front
        λ t v.
          Accepts-bind t (read_list response key (variable_line parse_f64 response key ups)) _
            (list_loop-Accepts parse_f64 response key ups key_word w entries []
              (suc (length response)) t other p
              (omega (
                arith,
                length-variable_texts key ups entries (frame (codes "END") key ups []),
                At-length v.at,
              ))
              v)
            λ t v.
              end-reads parse_f64 response key ups key_word w _ t tt v
                λ t v. finish-Accepts t result v

  -- The list of variables that upsd prints for LIST VAR or LIST RW is read: the variables are
  -- those with the last of the values that are listed for a name, each inferred from its text, and
  -- no others, if the UPS name is valid and does not begin with a double quote, the names of the
  -- variables are valid, and the response is well-formed UTF-8 of at most isize::MAX bytes.
  pub list_variables-print_variables :
      IsKey key
      → IsUpsName ups
      → IsWord ups
      → All (λ e. IsName e.0) entries
      → IsText (print_variables key ups entries)
      → length (print_variables key ups entries) ≤ isize_max
      → (variables : UpsVariables F) × ((list_variables parse_f64
            (print_variables key ups entries)
            key
            init).0
          ≡ ok (record { variables = variables; ups_name = ups }))
        × ((name : Bytes)
            → get name variables ≡ last_value name (map (listed parse_f64) entries) none)
  list_variables-print_variables k n w p i h =
      let (t, e, v) = reads_back k n w p i h in
      (
        result.variables,
        ap (λ r. r.0) e,
        λ name. get-variables name (map (listed parse_f64) entries),
      )

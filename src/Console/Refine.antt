-- ===== src/Console/Refine.antt =====
-- A console (Kernel/console.cpp) without a window shows the last lines of what was written to it.
use mathlib.Core.List.{append_assoc}
use mikanos_copy.Common.{
  ℕ, suc, ◌-◌, ◌≤◌, ◌<◌, ◌≡◌, refl, sym, ap, ◌∙◌, true, false, List, [], ◌∷◌, ◌++◌, map, length,
  length-append, set, drop, replicate, ltb, ◌==◌, if◌then◌else◌, arith, Bool-cases, inl, inr,
  dec_lt,
}
use mikanos_copy.Console.{Console, blank_row, init, copy_rows, newline, put_char, put_string}
use mikanos_copy.Console.Rows.{pad, set-pad, scrolled, write_row, drop-append, length-drop}

-- A text as its lines: those that are ended, and the one that is not. A line keeps its first 80
-- characters.
pub record Text : Type 0 where
  pub ended : List (List ℕ)
  pub line : List ℕ

unfoldable pub add_char : Text → ℕ → Text
add_char t c =
    if c == 0x0a
    then record { ended = t.ended ++ (t.line ∷ []); line = [] }
    else if ltb (length t.line) 80
    then record t { line = t.line ++ (c ∷ []) }
    else t

unfoldable pub add_chars : Text → List ℕ → Text
add_chars t [] = t
add_chars t (c ∷ cs) = add_chars (add_char t c) cs

abbrev pub no_text : Text
no_text = record { ended = []; line = [] }

-- The last 24 of the lines that are ended.
abbrev pub shown : List (List ℕ) → List (List ℕ)
shown ended = drop (length ended - 24) ended

abbrev pub padded : List (List ℕ) → List (List ℕ)
padded lines = map (pad 81) lines

-- The console shows the text: the lines that are ended, the one that is not, where the cursor is, and
-- blank rows.
pub record Shows (k : Console) (t : Text) : Type 0 where
  pub no_window : k.has_window ≡ false
  pub row : k.cursor_row ≡ length (shown t.ended)
  pub column : k.cursor_column ≡ length t.line
  pub width : length t.line ≤ 80
  pub buffer :
      k.buffer
      ≡ padded (shown t.ended)
        ++ (pad 81 t.line ∷ replicate (24 - length (shown t.ended)) blank_row)

length-shown : (ended : List (List ℕ)) → length (shown ended) ≡ length ended - (length ended - 24)
length-shown ended = length-drop (length ended - 24) ended

length-padded : (l : List (List ℕ)) → length (padded l) ≡ length l
length-padded [] = refl
length-padded (x ∷ l) = ap suc (length-padded l)

padded-append : (a b : List (List ℕ)) → padded (a ++ b) ≡ padded a ++ padded b
padded-append [] b = refl
padded-append (x ∷ a) b = ap (λ r. pad 81 x ∷ r) (padded-append a b)

-- A new line while there are blank rows.
room_rows :
    (ended : List (List ℕ)) (line : List ℕ)
    → length ended < 24
    → padded (shown ended) ++ (pad 81 line ∷ replicate (24 - length (shown ended)) blank_row)
      ≡ padded (shown (ended ++ (line ∷ [])))
        ++ (pad 81 [] ∷ replicate (24 - length (shown (ended ++ (line ∷ [])))) blank_row)
unfolding pad
room_rows ended line h =
    let ended' = ended ++ (line ∷ []) in
    let none_off : length ended - 24 ≡ 0 = omega (arith, h) in
    let none_off' : length ended' - 24 ≡ 0 = omega (arith, h, length-append ended (line ∷ [])) in
    let blanks : 24 - length (shown ended) ≡ suc (24 - length (shown ended')) =
      omega (arith, h, length-shown ended, length-shown ended', length-append ended (line ∷ [])) in
    let lines : padded (shown ended') ≡ padded (shown ended) ++ (pad 81 line ∷ []) =
      ap (λ n. padded (drop n ended')) none_off'
      ∙ padded-append ended (line ∷ [])
      ∙ ap (λ n. padded (drop n ended) ++ (pad 81 line ∷ [])) (sym none_off) in
    ap (λ n. padded (shown ended) ++ (pad 81 line ∷ replicate n blank_row)) blanks
    ∙ sym (
        append_assoc (padded (shown ended)) (pad 81 line ∷ [])
          (blank_row ∷ replicate (24 - length (shown ended')) blank_row))
    ∙ ap (λ l. l ++ (blank_row ∷ replicate (24 - length (shown ended')) blank_row)) (sym lines)

newline_room :
    (k : Console) (t : Text)
    → Shows k t
    → length t.ended < 24
    → Shows (newline k) (record { ended = t.ended ++ (t.line ∷ []); line = [] })
unfolding newline
newline_room k t s h =
    let e : ltb k.cursor_row 24 ≡ true = ground (arith, h, s.row, length-shown t.ended) in
    let added = length-append t.ended (t.line ∷ []) in
    rw e (record {
      no_window = s.no_window;
      row =
          omega
            (arith, h, s.row, length-shown t.ended, length-shown (t.ended ++ (t.line ∷ [])), added);
      column = refl;
      width = omega arith;
      buffer = s.buffer ∙ room_rows t.ended t.line h;
    })

-- A new line when the last row is in use.
full_rows :
    (buffer ended : List (List ℕ)) (line : List ℕ)
    → 24 ≤ length ended
    → buffer
      ≡ padded (shown ended) ++ (pad 81 line ∷ replicate (24 - length (shown ended)) blank_row)
    → set (copy_rows 24 0 buffer) 24 blank_row
      ≡ padded (shown (ended ++ (line ∷ [])))
        ++ (pad 81 [] ∷ replicate (24 - length (shown (ended ++ (line ∷ [])))) blank_row)
unfolding pad
full_rows buffer ended line h e =
    let ended' = ended ++ (line ∷ []) in
    let added = length-append ended (line ∷ []) in
    let (x, xs, before, after) = drop-append (length ended - 24) ended line (omega (arith, h)) in
    let next : length ended' - 24 ≡ suc (length ended - 24) = omega (arith, h, added) in
    let after' : shown ended' ≡ xs ++ (line ∷ []) = ap (λ n. drop n ended') next ∙ after in
    let blanks : 24 - length (shown ended) ≡ 0 = omega (arith, h, length-shown ended) in
    let blanks' : 24 - length (shown ended') ≡ 0 = omega (arith, h, length-shown ended', added) in
    let used : buffer ≡ pad 81 x ∷ (padded xs ++ (pad 81 line ∷ [])) =
      e
      ∙ ap (λ n. padded (shown ended) ++ (pad 81 line ∷ replicate n blank_row)) blanks
      ∙ ap (λ l. padded l ++ (pad 81 line ∷ [])) before in
    let count : length (padded xs ++ (pad 81 line ∷ [])) ≡ 24 = omega (
      arith,
      h,
      length-append (padded xs) (pad 81 line ∷ []),
      length-padded xs,
      ap length before,
      length-shown ended,
    ) in
    ap (λ b. set (copy_rows 24 0 b) 24 blank_row) used
    ∙ scrolled (pad 81 x) blank_row (padded xs ++ (pad 81 line ∷ [])) 24 count
    ∙ ap (λ l. l ++ (blank_row ∷ [])) (sym (padded-append xs (line ∷ [])) ∙ ap padded (sym after'))
    ∙ ap (λ n. padded (shown ended') ++ (blank_row ∷ replicate n blank_row)) (sym blanks')

newline_full :
    (k : Console) (t : Text)
    → Shows k t
    → 24 ≤ length t.ended
    → Shows (newline k) (record { ended = t.ended ++ (t.line ∷ []); line = [] })
unfolding newline
newline_full k t s h =
    let e : ltb k.cursor_row 24 ≡ false = ground (arith, h, s.row, length-shown t.ended) in
    let added = length-append t.ended (t.line ∷ []) in
    rw (e, s.no_window)
      (record {
        no_window = refl;
        row =
            omega (
              arith,
              h,
              s.row,
              length-shown t.ended,
              length-shown (t.ended ++ (t.line ∷ [])),
              added,
            );
        column = refl;
        width = omega arith;
        buffer = full_rows k.buffer t.ended t.line h s.buffer;
      })

put_char-Shows : (k : Console) (t : Text) (c : ℕ) → Shows k t → Shows (put_char k c) (add_char t c)
unfolding put_char add_char
put_char-Shows k t c s = elim (Bool-cases (c == 0x0a)) [
  | inl line ↦ rw line (elim (dec_lt (length t.ended) 24) [
    | yes room ↦ newline_room k t s room
    | no full ↦ newline_full k t s (omega (arith, full))
  ])
  | inr other ↦ rw other (elim (dec_lt (length t.line) 80) [
    | no full ↦
        let e : ltb (length t.line) 80 ≡ false = ground (arith, full) in
        let e' : ltb k.cursor_column 80 ≡ false = ground (arith, full, s.column) in rw (e, e') s
    | yes room ↦
        let e : ltb (length t.line) 80 ≡ true = ground (arith, room) in
        let e' : ltb k.cursor_column 80 ≡ true = ground (arith, room, s.column) in
        rw (e, e')
          (record {
            no_window = s.no_window;
            row = s.row;
            column = omega (arith, s.column, length-append t.line (c ∷ []));
            width = omega (arith, room, length-append t.line (c ∷ []));
            buffer =
                write_row k.buffer (padded (shown t.ended)) _ (pad 81 t.line) k.cursor_row
                  k.cursor_column c s.buffer (s.row ∙ sym (length-padded (shown t.ended)))
                ∙ ap
                    (λ r.
                      padded (shown t.ended)
                      ++ (r ∷ replicate (24 - length (shown t.ended)) blank_row))
                    (ap (λ n. set (pad 81 t.line) n c) s.column
                      ∙ set-pad 81 t.line c (omega (arith, room)));
          })
  ])
]

init-Shows : Shows init no_text
unfolding pad
init-Shows = record {
  no_window = refl;
  row = refl;
  column = refl;
  width = omega arith;
  buffer = refl;
}

put_string-Shows :
    (k : Console) (t : Text) (cs : List ℕ) → Shows k t → Shows (put_string k cs) (add_chars t cs)
unfolding put_string add_chars
put_string-Shows k t [] s = s
put_string-Shows k t (c ∷ cs) s =
    put_string-Shows (put_char k c) (add_char t c) cs (put_char-Shows k t c s)

-- Whatever is written to a new console without a window, its buffer holds the last 24 lines that were
-- ended and the line that was not, each cut to 80 characters, with blank rows below, and the cursor
-- is at the end of that line.
pub put_string_refines : (cs : List ℕ) → Shows (put_string init cs) (add_chars no_text cs)
put_string_refines cs = put_string-Shows init no_text cs init-Shows

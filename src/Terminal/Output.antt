-- ===== src/Terminal/Output.antt =====
-- What printing and executing a line leave as they were (Kernel/terminal.cpp).
use mikanos_copy.Common.{
  ℕ, ◌-◌, ◌<◌, ◌≡◌, refl, ap, ◌∙◌, List, [], ◌∷◌, Option, none, some, length, length-set, set, ◌==◌,
  arith, Bool-cases, inl, inr,
}
use mikanos_copy.Fat.Directory.{c_string, same_string}
use mikanos_copy.Terminal.{
  Terminal, rows, columns, newline, print, print_all, echo, clear, split_line, end_command, Run,
  execute_line,
}

-- What printing leaves as it was.
pub record Printed (t t' : Terminal) : Type 0 where
  pub row : t'.cursor_y < rows
  pub column : t'.cursor_x < columns
  pub index : t'.linebuf_index ≡ t.linebuf_index
  pub buffer : t'.linebuf ≡ t.linebuf
  pub history : t'.cmd_history ≡ t.cmd_history
  pub latest : t'.cmd_history_index ≡ t.cmd_history_index

pub newline-Printed : (t : Terminal) → t.cursor_y < rows → Printed t (newline t)
unfolding newline
newline-Printed t h = record {
  row = ground (arith, h);
  column = omega arith;
  index = refl;
  buffer = refl;
  history = refl;
  latest = refl;
}

pub print-Printed :
    (t : Terminal) (c : ℕ) → t.cursor_y < rows → t.cursor_x < columns → Printed t (print t c)
unfolding print
print-Printed t c h k = elim (Bool-cases (c == 0x0a)) [
  | inl line ↦ rw line (newline-Printed t h)
  | inr other ↦ rw other (elim (Bool-cases (t.cursor_x == columns - 1)) [
    | inl last ↦ rw last (newline-Printed t h)
    | inr more ↦ rw more (record {
      row = h;
      column = ground (arith, more, k);
      index = refl;
      buffer = refl;
      history = refl;
      latest = refl;
    })
  ])
]

kept_after : {t1 t2 t3 : Terminal} → Printed t1 t2 → Printed t2 t3 → Printed t1 t3
kept_after a b = record {
  row = b.row;
  column = b.column;
  index = b.index ∙ a.index;
  buffer = b.buffer ∙ a.buffer;
  history = b.history ∙ a.history;
  latest = b.latest ∙ a.latest;
}

pub print_all-Printed :
    (t : Terminal) (cs : List ℕ)
    → t.cursor_y < rows
    → t.cursor_x < columns
    → Printed t (print_all t cs)
unfolding print_all
print_all-Printed t [] h k = record {
  row = h;
  column = k;
  index = refl;
  buffer = refl;
  history = refl;
  latest = refl;
}
print_all-Printed t (c ∷ cs) h k =
    let p = print-Printed t c h k in kept_after p (print_all-Printed (print t c) cs p.row p.column)

-- A command leaves the line buffer its length.
abbrev pub KeepsLength : Run → Type 0
KeepsLength run =
    (command : List ℕ) (first_arg : Option (List ℕ)) (linebuf : List ℕ)
    → length (run command first_arg linebuf).1 ≡ length linebuf

-- What executing a line leaves as it was.
pub record Executed (t t' : Terminal) : Type 0 where
  pub row : t'.cursor_y < rows
  pub column : t'.cursor_x < columns
  pub index : t'.linebuf_index ≡ t.linebuf_index
  pub buffer : length t'.linebuf ≡ length t.linebuf
  pub history : t'.cmd_history ≡ t.cmd_history
  pub latest : t'.cmd_history_index ≡ t.cmd_history_index

length-end_command : (l : List ℕ) → length (end_command l) ≡ length l
length-end_command l = ended (split_line (c_string l)).1
  where
    ended :
        (rest : Option (List ℕ))
        → length (elim rest [ none ↦ l | some r ↦ set l (length (split_line (c_string l)).0) 0 ])
          ≡ length l
    ended none = refl
    ended (some r) = length-set l (length (split_line (c_string l)).0) 0

Printed-Executed :
    {t t' : Terminal} (linebuf : List ℕ)
    → length linebuf ≡ length t.linebuf
    → Printed (record t { linebuf = linebuf }) t'
    → Executed t t'
Printed-Executed linebuf e p = record {
  row = p.row;
  column = p.column;
  index = p.index;
  buffer = ap length p.buffer ∙ e;
  history = p.history;
  latest = p.latest;
}

print_line :
    (t : Terminal) (text : Option (List ℕ))
    → t.cursor_y < rows
    → t.cursor_x < columns
    → Printed t (print (print_all t (elim text [ none ↦ [] | some rest ↦ rest ])) 0x0a)
print_line t text h k =
    let p = print_all-Printed t (elim text [ none ↦ [] | some rest ↦ rest ]) h k in
    kept_after p (print-Printed _ 0x0a p.row p.column)

unprinted :
    {t : Terminal} (y : ℕ)
    → y < rows
    → t.cursor_x < columns
    → Executed t (record t { cursor_y = y; linebuf = end_command t.linebuf })
unprinted {t = t} y h k = record {
  row = h;
  column = k;
  index = refl;
  buffer = length-end_command t.linebuf;
  history = refl;
  latest = refl;
}

pub execute_line-Executed :
    (run : Run)
    → KeepsLength run
    → (t : Terminal) → t.cursor_y < rows
    → t.cursor_x < columns
    → Executed t (execute_line run t)
unfolding execute_line
execute_line-Executed run keeps t h k =
    let (command, first_arg) = split_line (c_string t.linebuf) in
    elim (Bool-cases (same_string command echo)) [
      | inl is_echo ↦ rw is_echo (
          Printed-Executed (end_command t.linebuf) (length-end_command t.linebuf) (
            print_line (record t { linebuf = end_command t.linebuf })
              (split_line (c_string t.linebuf)).1 h k))
      | inr not_echo ↦ rw not_echo (elim (Bool-cases (same_string command clear)) [
        | inl is_clear ↦ rw is_clear (unprinted 0 (omega arith) k)
        | inr not_clear ↦ rw not_clear (elim (Bool-cases (same_string command [])) [
          | inl is_empty ↦ rw is_empty (unprinted t.cursor_y h k)
          | inr not_empty ↦ rw not_empty (
              Printed-Executed (run command first_arg (end_command t.linebuf)).1
                (keeps command first_arg (end_command t.linebuf) ∙ length-end_command t.linebuf)
                (print_all-Printed
                  (record t { linebuf = (run command first_arg (end_command t.linebuf)).1 })
                  (run command first_arg (end_command t.linebuf)).0 h k))
        ])
      ])
    ]

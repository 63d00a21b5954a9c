-- ===== src/Terminal/Inv.antt =====
-- What stays true of a terminal (Kernel/terminal.cpp) whatever is typed and printed.
use mikanos_copy.Common.{
  ℕ, zero, suc, ◌+◌, ◌-◌, ◌≤◌, ◌<◌, ◌≡◌, refl, sym, ap, ◌∙◌, subst, List, [], ◌∷◌, length,
  length-set, set, get_or, replicate, ltb, not, ◌&&◌, ◌==◌, if◌then◌else◌, arith, Bool-cases, inl,
  inr,
}
use mikanos_copy.Common.Int.{ℤ, pos, negsuc, plus, minus, ◌+ℤ◌, ◌-ℤ◌, sub_nat, le}
use mikanos_copy.Fat.Directory.{c_string}
use mikanos_copy.Terminal.Output.{
  KeepsLength, newline-Printed, print_all-Printed, execute_line-Executed,
}
use mikanos_copy.Terminal.{
  Terminal, rows, columns, line_max, newline, print, print_all, prompt, Run, execute_line, pop_back,
  str_copy, step_index, history_text, history_up_down, end_line, remember, input_key, init,
}

-- The cursor is in the window, what is typed fits, and so do the commands that can come back.
pub record IsValid (t : Terminal) : Type 0 where
  pub row : t.cursor_y < rows
  pub column : t.cursor_x ≤ columns
  pub index : t.linebuf_index < columns
  pub behind : t.linebuf_index ≤ t.cursor_x
  pub buffer : length t.linebuf ≡ line_max
  pub entries : length t.cmd_history ≡ 8
  pub short : (i : ℕ) → length (c_string (get_or t.cmd_history i [])) < columns
  -- An index from -1, where no command is recalled, to 7.
  pub latest : (plus t.cmd_history_index < 8) × (minus t.cmd_history_index ≤ 1)

-- A string that is ended at a place is no longer than that.
pub length-c_string_end : (l : List ℕ) (i : ℕ) → i < length l → length (c_string (set l i 0)) ≤ i
unfolding c_string
length-c_string_end [] i h = absurd (omega (arith, h))
length-c_string_end (c ∷ cs) zero h = omega arith
length-c_string_end (c ∷ cs) (suc i) h = ground (arith, length-c_string_end cs i (omega (arith, h)))

length-pop_back :
    (x : List ℕ) (xs : List (List ℕ)) → suc (length (pop_back (x ∷ xs))) ≡ length (x ∷ xs)
length-pop_back x [] = refl
length-pop_back x (y ∷ ys) = ap suc (length-pop_back y ys)

short-pop_back :
    (xs : List (List ℕ)) (n i : ℕ)
    → ((j : ℕ) → length (c_string (get_or xs j [])) < n)
    → length (c_string (get_or (pop_back xs) i [])) < n
unfolding c_string
short-pop_back [] n i h = h i
short-pop_back (x ∷ []) n i h = h 1
short-pop_back (x ∷ y ∷ ys) n zero h = h 0
short-pop_back (x ∷ y ∷ ys) n (suc i) h = short-pop_back (y ∷ ys) n i (λ j. h (suc j))

length-str_copy : (dst src : List ℕ) → length (str_copy dst src) ≡ length dst
unfolding str_copy
length-str_copy [] src = refl
length-str_copy (d ∷ ds) [] = refl
length-str_copy (d ∷ ds) (c ∷ cs) = ap suc (length-str_copy ds cs)

plus-step_index : (n : ℕ) (d i : ℤ) → plus i < n → plus (step_index n d i) < n
unfolding step_index plus ◌+ℤ◌ ◌-ℤ◌ sub_nat le
plus-step_index n (pos zero) i h = h
plus-step_index n (pos (suc zero)) (pos i) h = ground (arith, h)
plus-step_index n (pos (suc zero)) (negsuc zero) h = ground (arith, h)
plus-step_index n (pos (suc zero)) (negsuc (suc i)) h = ground (arith, h)
plus-step_index n (pos (suc (suc d))) i h = h
plus-step_index n (negsuc zero) (pos zero) h = ground (arith, h)
plus-step_index n (negsuc zero) (pos (suc i)) h = ground (arith, h)
plus-step_index n (negsuc zero) (negsuc i) h = ground (arith, h)
plus-step_index n (negsuc (suc d)) i h = h

minus-step_index : (n : ℕ) (d i : ℤ) → minus i ≤ 1 → minus (step_index n d i) ≤ 1
unfolding step_index minus ◌+ℤ◌ ◌-ℤ◌ sub_nat le
minus-step_index n (pos zero) i h = h
minus-step_index n (pos (suc zero)) (pos i) h = ground (arith, h)
minus-step_index n (pos (suc zero)) (negsuc zero) h = ground (arith, h)
minus-step_index n (pos (suc zero)) (negsuc (suc i)) h = ground (arith, h)
minus-step_index n (pos (suc (suc d))) i h = h
minus-step_index n (negsuc zero) (pos zero) h = ground (arith, h)
minus-step_index n (negsuc zero) (pos (suc i)) h = ground (arith, h)
minus-step_index n (negsuc zero) (negsuc i) h = ground (arith, h)
minus-step_index n (negsuc (suc d)) i h = h

remember-entries : (t : Terminal) → IsValid t → length (remember t) ≡ 8
remember-entries t v = elim (Bool-cases (ltb 0 t.linebuf_index)) [
  | inl typed ↦ rw typed (longer t.cmd_history v.entries)
  | inr empty ↦ rw empty v.entries
]
  where
    longer : (h : List (List ℕ)) → length h ≡ 8 → suc (length (pop_back h)) ≡ 8
    longer [] e = absurd (omega (arith, e))
    longer (x ∷ xs) e = length-pop_back x xs ∙ e

remember-short :
    (t : Terminal) → IsValid t → (i : ℕ) → length (c_string (get_or (remember t) i [])) < columns
remember-short t v i = elim (Bool-cases (ltb 0 t.linebuf_index)) [
  | inr empty ↦ rw empty (v.short i)
  | inl typed ↦ rw typed (at i)
]
  where
    at : (i : ℕ) → length (c_string (get_or (end_line t ∷ pop_back t.cmd_history) i [])) < columns
    at zero = omega (
      arith,
      v.index,
      length-c_string_end t.linebuf t.linebuf_index (omega (arith, v.buffer, v.index)),
    )
    at (suc j) = short-pop_back t.cmd_history columns j v.short

history_text_short :
    (h : List (List ℕ)) (i : ℤ)
    → ((j : ℕ) → length (c_string (get_or h j [])) < columns)
    → length (history_text h i) < columns
unfolding history_text
history_text_short h (pos i) s = s i
history_text_short h (negsuc i) s = omega arith

history_up_down-IsValid : (d : ℤ) (t : Terminal) → IsValid t → IsValid (history_up_down d t)
unfolding history_up_down
history_up_down-IsValid d t v =
    let h =
      history_text_short t.cmd_history (step_index (length t.cmd_history) d t.cmd_history_index)
        v.short in
    record {
      row = v.row;
      column = omega (arith, h);
      index = h;
      behind = omega arith;
      buffer = length-str_copy t.linebuf _ ∙ v.buffer;
      entries = v.entries;
      short = v.short;
      latest = (
        subst (λ n. plus (step_index n d t.cmd_history_index) < 8) (sym v.entries)
            (plus-step_index 8 d t.cmd_history_index v.latest.0),
        minus-step_index (length t.cmd_history) d t.cmd_history_index v.latest.1,
      );
    }

-- The line that is entered and executed, and the prompt behind it.
enter-IsValid :
    (run : Run) (t : Terminal) → KeepsLength run → IsValid t → IsValid (input_key run 0 0x0a t)
unfolding input_key
enter-IsValid run t keeps v =
    let ended = record t { linebuf = end_line t; cmd_history = remember t; linebuf_index = 0 } in
    let n = newline-Printed ended v.row in
    let x = execute_line-Executed run keeps (newline ended) n.row n.column in
    let p = print_all-Printed (execute_line run (newline ended)) prompt x.row x.column in
    record {
      row = p.row;
      column = omega (arith, p.column);
      index = omega (arith, p.index, x.index, n.index);
      behind = omega (arith, p.index, x.index, n.index);
      buffer =
          ap length p.buffer
          ∙ x.buffer
          ∙ ap length n.buffer
          ∙ length-set t.linebuf t.linebuf_index 0
          ∙ v.buffer;
      entries = ap length (p.history ∙ x.history ∙ n.history) ∙ remember-entries t v;
      short = λ i.
          subst (λ h. length (c_string (get_or h i [])) < columns)
            (sym (p.history ∙ x.history ∙ n.history)) (remember-short t v i);
      latest =
          subst (λ i. (plus i < 8) × (minus i ≤ 1)) (sym (p.latest ∙ x.latest ∙ n.latest)) v.latest;
    }

back_space-IsValid :
    (t : Terminal)
    → IsValid t
    → IsValid (
        if ltb 0 t.cursor_x
        then record t {
          cursor_x = t.cursor_x - 1;
          linebuf_index = if ltb 0 t.linebuf_index then t.linebuf_index - 1 else t.linebuf_index;
        }
        else t)
back_space-IsValid t v = elim (Bool-cases (ltb 0 t.cursor_x)) [
  | inr first ↦ rw first v
  | inl more ↦ rw more (record {
    row = v.row;
    column = omega (arith, v.column);
    index = ground (arith, v.index);
    behind = ground (arith, v.behind);
    buffer = v.buffer;
    entries = v.entries;
    short = v.short;
    latest = v.latest;
  })
]

type-IsValid :
    (ascii : ℕ) (t : Terminal)
    → IsValid t
    → IsValid (
        if not (ascii == 0) && ltb t.cursor_x (columns - 1) && ltb t.linebuf_index (line_max - 1)
        then record t {
          linebuf = set t.linebuf t.linebuf_index ascii;
          linebuf_index = t.linebuf_index + 1;
          cursor_x = t.cursor_x + 1;
        }
        else t)
type-IsValid ascii t v =
    elim (Bool-cases
      (not (ascii == 0) && ltb t.cursor_x (columns - 1) && ltb t.linebuf_index (line_max - 1))) [
        | inr full ↦ rw full v
        | inl fits ↦
            let room : t.cursor_x < 59 = ground (arith, fits) in
            rw fits (record {
              row = v.row;
              column = omega (arith, room);
              index = omega (arith, room, v.behind);
              behind = omega (arith, v.behind);
              buffer = length-set t.linebuf t.linebuf_index ascii ∙ v.buffer;
              entries = v.entries;
              short = v.short;
              latest = v.latest;
            })
      ]

pub input_key-IsValid :
    (run : Run) (keycode ascii : ℕ) (t : Terminal)
    → KeepsLength run
    → IsValid t
    → IsValid (input_key run keycode ascii t)
unfolding input_key
input_key-IsValid run keycode ascii t keeps v = elim (Bool-cases (ascii == 0x0a)) [
  | inl enter ↦ rw enter (enter-IsValid run t keeps v)
  | inr not_enter ↦ rw not_enter (elim (Bool-cases (ascii == 0x08)) [
    | inl back ↦ rw back (back_space-IsValid t v)
    | inr not_back ↦ rw not_back (elim (Bool-cases (keycode == 0x51)) [
      | inl older ↦ rw older (history_up_down-IsValid (negsuc 0) t v)
      | inr not_older ↦ rw not_older (elim (Bool-cases (keycode == 0x52)) [
        | inl newer ↦ rw newer (history_up_down-IsValid (pos 1) t v)
        | inr not_newer ↦ rw not_newer (type-IsValid ascii t v)
      ])
    ])
  ])
]

short-replicate :
    (n i : ℕ) → length (c_string (get_or (replicate n (replicate line_max 0)) i [])) < columns
unfolding c_string
short-replicate zero i = omega arith
short-replicate (suc n) zero = omega arith
short-replicate (suc n) (suc i) = short-replicate n i

pub init-IsValid : IsValid init
unfolding init print_all print newline plus minus
init-IsValid = record {
  row = omega arith;
  column = omega arith;
  index = omega arith;
  behind = omega arith;
  buffer = refl;
  entries = refl;
  short = short-replicate 8;
  latest = (omega arith, omega arith);
}

-- Keys in order, each with its code and its character.
unfoldable pub input_keys : Run → List (ℕ × ℕ) → Terminal → Terminal
input_keys run [] t = t
input_keys run ((keycode, ascii) ∷ keys) t = input_keys run keys (input_key run keycode ascii t)

pub input_keys-IsValid :
    (run : Run) (keys : List (ℕ × ℕ)) (t : Terminal)
    → KeepsLength run
    → IsValid t
    → IsValid (input_keys run keys t)
unfolding input_keys
input_keys-IsValid run [] t keeps v = v
input_keys-IsValid run ((keycode, ascii) ∷ keys) t keeps v =
    input_keys-IsValid run keys (input_key run keycode ascii t) keeps
      (input_key-IsValid run keycode ascii t keeps v)

-- Whatever is typed, from the constructor on: what is typed and what comes back from the history fits
-- into the line buffer with its terminating 0, the history keeps its eight entries and the index
-- stays from -1 to 7, and the cursor stays in the window's rows and at most one column behind the last.
-- It is for commands that keep the length of the line buffer.
pub terminal-IsValid :
    (run : Run) (keys : List (ℕ × ℕ)) → KeepsLength run → IsValid (input_keys run keys init)
terminal-IsValid run keys keeps = input_keys-IsValid run keys init keeps init-IsValid

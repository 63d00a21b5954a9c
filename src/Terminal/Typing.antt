-- ===== src/Terminal/Typing.antt =====
-- What is typed at the prompt of a terminal (Kernel/terminal.cpp) is what is executed and recalled.
use mathlib.Core.List.{append-nil, append_assoc}
use mikanos_copy.Common.{
  ℕ, zero, suc, ◌+◌, ◌<◌, ◌≡◌, ◌≢◌, refl, sym, ap, ◌∙◌, subst, true, false, List, [], ◌∷◌, ◌++◌,
  length, set, take, get_or, ltb, ◌==◌, arith,
}
use mikanos_copy.Common.Int.{ℤ, pos, negsuc, ◌+ℤ◌, sub_nat, le}
use mikanos_copy.Fat.Directory.{c_string}
use mikanos_copy.Terminal.{
  Terminal, columns, newline, prompt, pop_back, Run, execute_line, str_copy, step_index,
  history_text, history_up_down, end_line, remember, input_key,
}
use mikanos_copy.Terminal.Output.{
  KeepsLength, newline-Printed, print_all-Printed, execute_line-Executed,
}
use mikanos_copy.Terminal.Inv.{IsValid, input_key-IsValid, input_keys, input_keys-IsValid}

-- Keys that are characters of a line: no end of the line, no step back, no arrow.
unfoldable pub AreCharacters : List (ℕ × ℕ) → Type 0
AreCharacters [] = Unit
AreCharacters ((keycode, ascii) ∷ keys) =
    ((ascii ≢ 0) × (ascii ≢ 0x08) × (ascii ≢ 0x0a) × (keycode ≢ 0x51) × (keycode ≢ 0x52))
    × AreCharacters keys

abbrev pub text : List (ℕ × ℕ) → List ℕ
text [] = []
text (key ∷ keys) = key.1 ∷ text keys

NoZero : List ℕ → Type 0
NoZero [] = Unit
NoZero (c ∷ cs) = (c ≢ 0) × NoZero cs

text-NoZero : (keys : List (ℕ × ℕ)) → AreCharacters keys → NoZero (text keys)
unfolding AreCharacters NoZero
text-NoZero [] a = tt
text-NoZero ((keycode, ascii) ∷ keys) (here, rest) = (here.0, text-NoZero keys rest)

take-set : (l : List ℕ) (n c : ℕ) → n < length l → take (suc n) (set l n c) ≡ take n l ++ (c ∷ [])
take-set [] n c h = absurd (omega (arith, h))
take-set (x ∷ xs) zero c h = refl
take-set (x ∷ xs) (suc n) c h = ap (λ r. x ∷ r) (take-set xs n c (omega (arith, h)))

-- A string that is ended behind its characters.
c_string-end :
    (l : List ℕ) (n : ℕ) → n < length l → NoZero (take n l) → c_string (set l n 0) ≡ take n l
unfolding c_string NoZero
c_string-end [] n h z = absurd (omega (arith, h))
c_string-end (x ∷ xs) zero h z = refl
c_string-end (x ∷ xs) (suc n) h z =
    let rest = c_string-end xs n (omega (arith, h)) z.1 in ground (arith, z.0, rest)

c_string-str_copy :
    (dst src : List ℕ) → NoZero src → length src < length dst → c_string (str_copy dst src) ≡ src
unfolding c_string str_copy NoZero
c_string-str_copy [] src z h = absurd (omega (arith, h))
c_string-str_copy (d ∷ ds) [] z h = refl
c_string-str_copy (d ∷ ds) (c ∷ cs) z h =
    let rest = c_string-str_copy ds cs z.1 (omega (arith, h)) in ground (arith, z.0, rest)

-- What typing adds to the line.
record Typed (t : Terminal) (keys : List (ℕ × ℕ)) (t' : Terminal) : Type 0 where
  index : t'.linebuf_index ≡ t.linebuf_index + length keys
  line : take t'.linebuf_index t'.linebuf ≡ take t.linebuf_index t.linebuf ++ text keys
  latest : t'.cmd_history_index ≡ t.cmd_history_index

typed_key :
    (run : Run) (keycode ascii : ℕ) (t : Terminal)
    → (ascii ≢ 0) × (ascii ≢ 0x08) × (ascii ≢ 0x0a) × (keycode ≢ 0x51) × (keycode ≢ 0x52)
    → t.cursor_x < 59
    → t.linebuf_index < 127
    → input_key run keycode ascii t ≡ record t {
      linebuf = set t.linebuf t.linebuf_index ascii;
      linebuf_index = t.linebuf_index + 1;
      cursor_x = t.cursor_x + 1;
    }
unfolding input_key
typed_key run keycode ascii t (zero_byte, back, enter, older, newer) h k =
    let e1 : (ascii == 0x0a) ≡ false = ground (arith, enter) in
    let e2 : (ascii == 0x08) ≡ false = ground (arith, back) in
    let e3 : (keycode == 0x51) ≡ false = ground (arith, older) in
    let e4 : (keycode == 0x52) ≡ false = ground (arith, newer) in
    let e5 : (ascii == 0) ≡ false = ground (arith, zero_byte) in
    let e6 : ltb t.cursor_x 59 ≡ true = ground (arith, h) in
    let e7 : ltb t.linebuf_index 127 ≡ true = ground (arith, k) in
    rw (e1, e2, e3, e4, e5, e6, e7) refl

input_keys-Typed :
    (run : Run) (keys : List (ℕ × ℕ)) (t : Terminal)
    → KeepsLength run
    → IsValid t
    → AreCharacters keys
    → t.cursor_x + length keys < columns
    → Typed t keys (input_keys run keys t)
unfolding input_keys AreCharacters
input_keys-Typed run [] t keeps v a h = record {
  index = omega arith;
  line = sym (append-nil _);
  latest = refl;
}
input_keys-Typed run ((keycode, ascii) ∷ keys) t keeps v a h =
    let e = typed_key run keycode ascii t a.0 (omega (arith, h)) (omega (arith, v.index)) in
    let valid = input_key-IsValid run keycode ascii t keeps v in
    let step : t.linebuf_index + 1 ≡ suc t.linebuf_index = omega arith in
    let x = ap (λ s. s.cursor_x) e in
    let r =
      input_keys-Typed run keys (input_key run keycode ascii t) keeps valid a.1
        (omega (arith, h, x)) in
    record {
      index = omega (arith, r.index, ap (λ s. s.linebuf_index) e);
      line =
          r.line
          ∙ ap (λ l. l ++ text keys)
              (ap (λ s. take s.linebuf_index s.linebuf) e
                ∙ ap (λ n. take n (set t.linebuf t.linebuf_index ascii)) step
                ∙ take-set t.linebuf t.linebuf_index ascii (omega (arith, v.index, v.buffer)))
          ∙ append_assoc _ (ascii ∷ []) (text keys);
      latest = r.latest ∙ ap (λ s. s.cmd_history_index) e;
    }

length-text : (keys : List (ℕ × ℕ)) → length (text keys) ≡ length keys
length-text [] = refl
length-text (key ∷ keys) = ap suc (length-text keys)

-- What Enter does to the history.
enter_history :
    (run : Run) (t : Terminal)
    → KeepsLength run
    → IsValid t
    → ((input_key run 0 0x0a t).cmd_history ≡ remember t)
      × ((input_key run 0 0x0a t).cmd_history_index ≡ t.cmd_history_index)
unfolding input_key
enter_history run t keeps v =
    let ended = record t { linebuf = end_line t; cmd_history = remember t; linebuf_index = 0 } in
    let n = newline-Printed ended v.row in
    let x = execute_line-Executed run keeps (newline ended) n.row n.column in
    let p = print_all-Printed (execute_line run (newline ended)) prompt x.row x.column in
    (p.history ∙ x.history ∙ n.history, p.latest ∙ x.latest ∙ n.latest)

remembered : (t : Terminal) → 0 < t.linebuf_index → remember t ≡ end_line t ∷ pop_back t.cmd_history
remembered t h = ground (arith, h)

step_first : (n : ℕ) (i : ℤ) → i ≡ negsuc 0 → 0 < n → step_index n (pos 1) i ≡ pos 0
unfolding step_index ◌+ℤ◌ sub_nat le
step_first n i e h = rw e (ground (arith, h))

-- The arrow up, when no command is recalled yet.
arrow_up :
    (run : Run) (t : Terminal)
    → t.cmd_history_index ≡ negsuc 0
    → 0 < length t.cmd_history
    → input_key run 0x52 0 t ≡ record t {
      cmd_history_index = pos 0;
      linebuf = str_copy t.linebuf (c_string (get_or t.cmd_history 0 []));
      linebuf_index = length (c_string (get_or t.cmd_history 0 []));
      cursor_x = length (c_string (get_or t.cmd_history 0 [])) + 1;
    }
unfolding input_key history_up_down history_text
arrow_up run t e h = let s = step_first (length t.cmd_history) t.cmd_history_index e h in rw s refl

-- A line of characters, at least one and as many as fit, that is typed behind the empty prompt of a
-- valid terminal, on which no command of the history is recalled (the index is -1), is what Enter ends
-- as the line to execute. The arrow up recalls it then, for commands that keep the length of the line
-- buffer.
pub recalled_line :
    (run : Run) (keys : List (ℕ × ℕ)) (t : Terminal)
    → KeepsLength run
    → IsValid t
    → t.linebuf_index ≡ 0
    → t.cmd_history_index ≡ negsuc 0
    → AreCharacters keys
    → 0 < length keys
    → t.cursor_x + length keys < columns
    → (c_string (end_line (input_keys run keys t)) ≡ text keys)
      × (c_string (input_key run 0x52 0 (input_key run 0 0x0a (input_keys run keys t))).linebuf
          ≡ text keys)
recalled_line run keys t keeps v empty latest a some_key fits =
    let typed = input_keys-Typed run keys t keeps v a fits in
    let valid = input_keys-IsValid run keys t keeps v in
    let t1 = input_keys run keys t in
    let line : take t1.linebuf_index t1.linebuf ≡ text keys =
      typed.line ∙ ap (λ n. take n t.linebuf ++ text keys) empty in
    let ended : c_string (end_line t1) ≡ text keys =
      c_string-end t1.linebuf t1.linebuf_index (omega (arith, valid.index, valid.buffer))
        (subst NoZero (sym line) (text-NoZero keys a))
      ∙ line in
    let (history, index) = enter_history run t1 keeps valid in
    let t2 = input_key run 0 0x0a t1 in
    let valid2 = input_key-IsValid run 0 0x0a t1 keeps valid in
    let first =
      ap (λ h. c_string (get_or h 0 []))
        (history ∙ remembered t1 (omega (arith, typed.index, some_key)))
      ∙ ended in
    let up = arrow_up run t2 (index ∙ typed.latest ∙ latest) (omega (arith, valid2.entries)) in
    (
      ended,
      ap (λ s. c_string s.linebuf) up
          ∙ ap (λ l. c_string (str_copy t2.linebuf l)) first
          ∙ c_string-str_copy t2.linebuf (text keys) (text-NoZero keys a)
              (omega (arith, length-text keys, fits, valid2.buffer)),
    )

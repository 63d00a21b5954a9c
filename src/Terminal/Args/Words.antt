-- ===== src/Terminal/Args/Words.antt =====
-- The arguments that `MakeArgVector` (Kernel/terminal.cpp) makes: each reaches to the end of the line.
use mathlib.Core.List.{append-nil, append_assoc}
use mikanos_copy.Common.{
  ℕ, zero, suc, ◌+◌, ◌≤◌, ◌<◌, ◌≡◌, refl, sym, ap, ◌∙◌, subst, Bool, true, false, List, [], ◌∷◌,
  ◌++◌, some, length, get_or, length-append, leb, ◌||◌, if◌then◌else◌, arith, Bool-cases, ◌⊎◌, inl,
  inr,
}
use mikanos_copy.Error.{Error}
use mikanos_copy.Terminal.Args.{
  ArgVector, isspace, push_to_argv, skip_spaces, skip_word, arg_loop, make_arg_vector,
}

-- The rests of a text from each of its words on; `after_space` says whether a word can start.
unfoldable pub word_starts : (after_space : Bool) → List ℕ → List (List ℕ)
word_starts after_space [] = []
word_starts after_space (c ∷ cs) =
    let after = word_starts true cs in
    let within = word_starts false cs in
    if isspace c then after else if after_space then (c ∷ cs) ∷ within else within

unfoldable pub joined : List (List ℕ) → List ℕ
joined [] = []
joined (s ∷ ss) = (s ++ (0 ∷ [])) ++ joined ss

unfoldable pub offsets : ℕ → List (List ℕ) → List ℕ
offsets n [] = []
offsets n (s ∷ ss) = n ∷ offsets (n + length s + 1) ss

-- The vector of the strings, one behind the other in the buffer.
abbrev pub filled : List (List ℕ) → ArgVector
filled strings = record {
  argc = length strings;
  argv = offsets 0 strings;
  argbuf_index = length (joined strings);
  argbuf = joined strings;
}

joined-append : (a b : List (List ℕ)) → joined (a ++ b) ≡ joined a ++ joined b
unfolding joined
joined-append [] b = refl
joined-append (s ∷ a) b =
    ap (λ r. (s ++ (0 ∷ [])) ++ r) (joined-append a b)
    ∙ sym (append_assoc (s ++ (0 ∷ [])) (joined a) (joined b))

offsets-append :
    (n : ℕ) (a : List (List ℕ)) (s : List ℕ)
    → offsets n (a ++ (s ∷ [])) ≡ offsets n a ++ ((n + length (joined a)) ∷ [])
unfolding offsets joined
offsets-append n [] s = ap (λ k. k ∷ []) (omega arith)
offsets-append n (x ∷ a) s =
    let e : n + length x + 1 + length (joined a) ≡ n + length ((x ++ (0 ∷ [])) ++ joined a) =
      omega (arith, length-append (x ++ (0 ∷ [])) (joined a), length-append x (0 ∷ [])) in
    ap (λ r. n ∷ r)
      (offsets-append (n + length x + 1) a s ∙ ap (λ k. offsets (n + length x + 1) a ++ (k ∷ [])) e)

offsets_last :
    (a : List (List ℕ)) (s : List ℕ)
    → offsets 0 (a ++ (s ∷ [])) ≡ offsets 0 a ++ (length (joined a) ∷ [])
offsets_last a s =
    offsets-append 0 a s ∙ ap (λ k. offsets 0 a ++ (k ∷ [])) (zero_add (length (joined a)))
  where
    zero_add : (n : ℕ) → 0 + n ≡ n
    zero_add n = omega arith

joined_one : (s : List ℕ) → joined (s ∷ []) ≡ s ++ (0 ∷ [])
unfolding joined
joined_one s = append-nil (s ++ (0 ∷ []))

argv_equal :
    {a b : ArgVector}
    → a.argc ≡ b.argc
    → a.argv ≡ b.argv
    → a.argbuf_index ≡ b.argbuf_index
    → a.argbuf ≡ b.argbuf
    → a ≡ b
argv_equal e f g h = λ i. record { argc = e i; argv = f i; argbuf_index = g i; argbuf = h i }

module _ (argv_len argbuf_len : ℕ) where
  push-filled :
      (strings : List (List ℕ)) (s : List ℕ)
      → length strings < argv_len
      → length (joined strings) < argbuf_len
      → push_to_argv argv_len argbuf_len s (filled strings)
        ≡ (Error.success, filled (strings ++ (s ∷ [])))
  unfolding push_to_argv
  push-filled strings s h k =
      let room : (leb argv_len (length strings) || leb argbuf_len (length (joined strings)))
          ≡ false =
        ground (arith, h, k) in
      rw room (
        ap (λ v. (Error.success, v))
          (argv_equal (omega (arith, length-append strings (s ∷ []))) (sym (offsets_last strings s))
            (omega (
              arith,
              length-append (joined strings) (s ++ (0 ∷ [])),
              length-append s (0 ∷ []),
              ap length (joined-append strings (s ∷ [])),
              ap (λ l. length (joined strings ++ l)) (joined_one s),
            ))
            (sym (joined-append strings (s ∷ []) ∙ ap (λ l. joined strings ++ l) (joined_one s)))))

skip_spaces_lem : (p : List ℕ) → word_starts true (skip_spaces p) ≡ word_starts true p
unfolding skip_spaces word_starts
skip_spaces_lem [] = refl
skip_spaces_lem (c ∷ cs) = elim (Bool-cases (isspace c)) [
  | inl space ↦ rw space (skip_spaces_lem cs)
  | inr letter ↦ rw letter (rw letter refl)
]

skip_word_lem :
    (p : List ℕ)
    → word_starts false p ≡ (elim (skip_word p) [ [] ↦ [] | d ∷ ds ↦ word_starts true ds ])
unfolding skip_word word_starts
skip_word_lem [] = refl
skip_word_lem (c ∷ cs) = elim (Bool-cases (isspace c)) [
  | inl space ↦ rw space refl
  | inr letter ↦ rw letter (skip_word_lem cs)
]

length-skip_spaces : (p : List ℕ) → length (skip_spaces p) ≤ length p
unfolding skip_spaces
length-skip_spaces [] = omega arith
length-skip_spaces (c ∷ cs) = ground (arith, length-skip_spaces cs)

length-skip_word : (p : List ℕ) → length (skip_word p) ≤ length p
unfolding skip_word
length-skip_word [] = omega arith
length-skip_word (c ∷ cs) = ground (arith, length-skip_word cs)

-- After the blanks comes a letter.
skip_spaces-letter : (p : List ℕ) (c : ℕ) (cs : List ℕ) → skip_spaces p ≡ c ∷ cs → isspace c ≡ false
unfolding skip_spaces
skip_spaces-letter [] c cs e = absurd (omega (arith, ap length e))
skip_spaces-letter (x ∷ xs) c cs e = elim (Bool-cases (isspace x)) [
  | inl space ↦
      let same : skip_spaces (x ∷ xs) ≡ skip_spaces xs = rw space refl in
      skip_spaces-letter xs c cs (sym same ∙ e)
  | inr letter ↦
      let same : skip_spaces (x ∷ xs) ≡ x ∷ xs = rw letter refl in
      subst (λ y. isspace y ≡ false) (ap (λ l. get_or l 0 0) (sym same ∙ e)) letter
]

List-cases : (l : List ℕ) → (l ≡ []) ⊎ ((c : ℕ) × (cs : List ℕ) × (l ≡ c ∷ cs))
List-cases [] = inl refl
List-cases (c ∷ cs) = inr (c, cs, refl)

-- The words of a text, one after the other.
word_starts_lem :
    (p : List ℕ) (c : ℕ) (cs : List ℕ)
    → skip_spaces p ≡ c ∷ cs
    → word_starts true p
      ≡ (c ∷ cs) ∷ (elim (skip_word (c ∷ cs)) [ [] ↦ [] | d ∷ ds ↦ word_starts true ds ])
unfolding skip_word word_starts
word_starts_lem p c cs e =
    let letter = skip_spaces-letter p c cs e in
    let first : word_starts true (c ∷ cs) ≡ (c ∷ cs) ∷ word_starts false cs = rw letter refl in
    let within : word_starts false (c ∷ cs) ≡ word_starts false cs = rw letter refl in
    sym (skip_spaces_lem p)
    ∙ ap (word_starts true) e
    ∙ first
    ∙ ap (λ l. (c ∷ cs) ∷ l) (sym within ∙ skip_word_lem (c ∷ cs))

no_words : (p : List ℕ) → skip_spaces p ≡ [] → word_starts true p ≡ []
unfolding word_starts
no_words p e = sym (skip_spaces_lem p) ∙ ap (word_starts true) e

module _ (argv_len argbuf_len : ℕ) where
  -- There is room for the strings.
  abbrev Fits : List (List ℕ) → Type 0
  Fits strings = (length strings ≤ argv_len) × (length (joined strings) ≤ argbuf_len)

  room_before : (a b : List (List ℕ)) → Fits (a ++ b) → Fits a
  room_before a b (h, k) = (
    omega (arith, h, length-append a b),
    omega (arith, k, ap length (joined-append a b), length-append (joined a) (joined b)),
  )

  push_Fits :
      (a : List (List ℕ)) (s : List ℕ)
      → Fits (a ++ (s ∷ []))
      → push_to_argv argv_len argbuf_len s (filled a) ≡ (Error.success, filled (a ++ (s ∷ [])))
  push_Fits a s (h, k) =
      push-filled argv_len argbuf_len a s (omega (arith, h, length-append a (s ∷ []))) (
        omega (
          arith,
          k,
          ap length (joined-append a (s ∷ []) ∙ ap (λ l. joined a ++ l) (joined_one s)),
          length-append (joined a) (s ++ (0 ∷ [])),
          length-append s (0 ∷ []),
        ))

  arg_loop_lem :
      (fuel : ℕ) (p : List ℕ) (a : List (List ℕ))
      → length p < fuel
      → Fits (a ++ word_starts true p)
      → arg_loop argv_len argbuf_len fuel p (filled a)
        ≡ some (Error.success, filled (a ++ word_starts true p))
  unfolding arg_loop
  arg_loop_lem zero p a h f = absurd (omega (arith, h))
  arg_loop_lem (suc fuel) p a h f = elim (List-cases (skip_spaces p)) [
    | inl e ↦
        rw (e, arg_loop)
          (ap (λ l. some (Error.success, filled l))
            (sym (append-nil a) ∙ ap (λ w. a ++ w) (sym (no_words p e))))
    | inr (c, cs, e) ↦ elim (List-cases (skip_word (c ∷ cs))) [
      | inl last ↦
          let words : a ++ word_starts true p ≡ a ++ ((c ∷ cs) ∷ []) =
            ap (λ w. a ++ w) (word_starts_lem p c cs e ∙ rw last refl) in
          let pushed = push_Fits a (c ∷ cs) (subst Fits words f) in
          rw (e, arg_loop, last, pushed) (ap (λ l. some (Error.success, filled l)) (sym words))
      | inr (d, ds, more) ↦
          let words : a ++ word_starts true p ≡ (a ++ ((c ∷ cs) ∷ [])) ++ word_starts true ds =
            ap (λ w. a ++ w) (word_starts_lem p c cs e ∙ rw more refl)
            ∙ sym (append_assoc a ((c ∷ cs) ∷ []) (word_starts true ds)) in
          let fits = subst Fits words f in
          let pushed =
            push_Fits a (c ∷ cs) (room_before (a ++ ((c ∷ cs) ∷ [])) (word_starts true ds) fits) in
          let shorter : length ds < fuel = omega (
            arith,
            h,
            length-skip_spaces p,
            ap length e,
            length-skip_word (c ∷ cs),
            ap length more,
          ) in
          rw (e, arg_loop, more, pushed)
            (arg_loop_lem fuel ds (a ++ ((c ∷ cs) ∷ [])) shorter fits
              ∙ ap (λ l. some (Error.success, filled l)) (sym words))
    ]
  ]

  -- When there is room, the arguments are the command and then, for each word behind it, not that word but the whole
  -- rest of the line from it on: a word is ended only after it was copied.
  pub make_arg_vector_rests :
      (at_null command rest : List ℕ)
      → Fits (command ∷ word_starts true rest)
      → make_arg_vector argv_len argbuf_len at_null command (some rest)
        ≡ some (Error.success, filled (command ∷ word_starts true rest))
  unfolding make_arg_vector joined offsets
  make_arg_vector_rests at_null command rest f =
      let pushed = push_Fits [] command (room_before (command ∷ []) (word_starts true rest) f) in
      rw pushed (arg_loop_lem (suc (length rest)) rest (command ∷ []) (omega arith) f)

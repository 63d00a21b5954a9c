-- ===== src/Fat/Find.antt =====
-- What `FindFile` and `NameIsEqual` (Kernel/fat.cpp) find.
use mikanos_copy.Common.{
  ℕ, zero, suc, ◌+◌, ◌*◌, ◌<◌, ◌≡◌, ◌≢◌, refl, sym, ap, ◌∙◌, Bool, true, false, Option, none, some,
  List, [], ◌∷◌, ◌++◌, take, drop, length, length-append, ◌==◌, if◌then◌else◌, arith, Bool-cases,
  Option-cases, inl, inr,
}
use mikanos_copy.Fat.{Volume, get_cluster_addr, next_cluster, end_of_cluster_chain}
use mikanos_copy.Fat.Directory.{
  DirectoryEntry, entry_size, entries_per_cluster, trim, c_string, read_name, same_string, filename,
  name_is_equal, find_entry, find_loop,
}

-- The clusters of a directory, up to the end mark.
pub data Directory (v : Volume) : ℕ → List ℕ → Type 0 where
  ends : {c : ℕ} → c == end_of_cluster_chain ≡ true → Directory v c []
  goes_on :
      {c : ℕ} {clusters : List ℕ}
      → c == end_of_cluster_chain ≡ false
      → Directory v (next_cluster v c) clusters
      → Directory v c (c ∷ clusters)

-- The addresses of the entries, in order.
unfoldable pub entries : ℕ → (rounds i : ℕ) → List ℕ
entries dir zero i = []
entries dir (suc rounds) i = (dir + entry_size * i) ∷ entries dir rounds (suc i)

unfoldable pub all_entries : Volume → List ℕ → List ℕ
all_entries v [] = []
all_entries v (c ∷ clusters) =
    entries (get_cluster_addr v c) (entries_per_cluster v) 0 ++ all_entries v clusters

-- The first that a test holds for.
unfoldable pub first : (ℕ → Bool) → List ℕ → Option ℕ
first p [] = none
first p (x ∷ xs) = if p x then some x else first p xs

abbrev or_else : Option ℕ → Option ℕ → Option ℕ
or_else none o = o
or_else (some x) o = some x

first-append :
    (p : ℕ → Bool) (xs ys : List ℕ) → first p (xs ++ ys) ≡ or_else (first p xs) (first p ys)
unfolding first
first-append p [] ys = refl
first-append p (x ∷ xs) ys = ground (arith, first-append p xs ys)

find_entry-first :
    (p : ℕ → Bool) (dir rounds i : ℕ) → find_entry p dir rounds i ≡ first p (entries dir rounds i)
unfolding find_entry first entries
find_entry-first p dir zero i = refl
find_entry-first p dir (suc rounds) i = ground (arith, find_entry-first p dir rounds (suc i))

loop_ends :
    (p : ℕ → Bool) (v : Volume) (fuel c : ℕ)
    → c == end_of_cluster_chain ≡ true
    → find_loop (suc fuel) v p c ≡ some none
unfolding find_loop
loop_ends p v fuel c e = rw (e, find_loop) refl

loop_goes_on :
    (p : ℕ → Bool) (v : Volume) (fuel c : ℕ) (rest : Option ℕ)
    → c == end_of_cluster_chain ≡ false
    → find_loop fuel v p (next_cluster v c) ≡ some rest
    → find_loop (suc fuel) v p c
      ≡ some (or_else (find_entry p (get_cluster_addr v c) (entries_per_cluster v) 0) rest)
unfolding find_loop
loop_goes_on p v fuel c rest e r =
    elim (Option-cases (find_entry p (get_cluster_addr v c) (entries_per_cluster v) 0)) [
      | inl missing ↦ rw (e, missing, r, find_loop) refl
      | inr (at, found) ↦ rw (e, found, find_loop) refl
    ]

pub find_loop-first :
    (p : ℕ → Bool) {v : Volume} {c : ℕ} {clusters : List ℕ}
    → Directory v c clusters
    → (fuel : ℕ) → length clusters < fuel
    → find_loop fuel v p c ≡ some (first p (all_entries v clusters))
unfolding all_entries first
find_loop-first p chain zero h = absurd (omega (arith, h))
find_loop-first p {v = v} (ends {c = c} e) (suc fuel) h = loop_ends p v fuel c e
find_loop-first p {v = v} (goes_on {c = c} {clusters = clusters} e rest) (suc fuel) h =
    loop_goes_on p v fuel c (first p (all_entries v clusters)) e (
      find_loop-first p {v = v} {c = next_cluster v c} {clusters = clusters} rest fuel
        (omega (arith, h)))
    ∙ ap some (
        ap (λ o. or_else o (first p (all_entries v clusters)))
          (find_entry-first p (get_cluster_addr v c) (entries_per_cluster v) 0)
        ∙ sym (
            first-append p (entries (get_cluster_addr v c) (entries_per_cluster v) 0)
              (all_entries v clusters)))

-- A 0 in an array ends the string, whatever stands behind.
pub c_string-append :
    (xs ys : List ℕ) → length (c_string xs) < length xs → c_string (xs ++ ys) ≡ c_string xs
unfolding c_string
c_string-append [] ys h = absurd (omega (arith, h))
c_string-append (x ∷ xs) ys h = ground (arith, h, c_string-append xs ys)

-- Without one the string runs on.
pub c_string-full :
    (xs ys : List ℕ)
    → length (c_string xs) ≡ length xs
    → c_string (xs ++ ys) ≡ c_string xs ++ c_string ys
unfolding c_string
c_string-full [] ys h = refl
c_string-full (x ∷ xs) ys h = ground (arith, h, c_string-full xs ys)

same_string-length : (a b : List ℕ) → same_string a b ≡ true → length a ≡ length b
unfolding same_string
same_string-length [] [] e = refl
same_string-length [] (d ∷ ds) e = ground (arith, e)
same_string-length (c ∷ cs) [] e = ground (arith, e)
same_string-length (c ∷ cs) (d ∷ ds) e = ground (arith, e, same_string-length cs ds)

-- The arrays of the two parts, after the spaces are taken off.
abbrev pub base : DirectoryEntry → List ℕ
base e = trim (take 8 e.name)

abbrev pub ext : DirectoryEntry → List ℕ
ext e = trim (drop 8 e.name)

-- A name whose parts do not fill their arrays is compared as `ReadName` reads it, whatever stands in
-- memory.
pub name_is_equal_lem :
    (after_base after_ext name : List ℕ) (e : DirectoryEntry)
    → length (c_string (base e)) < length (base e)
    → length (c_string (ext e)) < length (ext e)
    → name_is_equal after_base after_ext e name
      ≡ same_string (filename (read_name e).0 (read_name e).1) name
unfolding name_is_equal read_name
name_is_equal_lem after_base after_ext name e h k =
    rw (c_string-append (base e) after_base h) (rw (c_string-append (ext e) after_ext k) refl)

length-filename :
    (a b x : List ℕ) → length (filename a x) + length b ≡ length (filename b x) + length a
length-filename a b [] = omega arith
length-filename a b (c ∷ cs) =
    omega (arith, length-append a (0x2E ∷ c ∷ cs), length-append b (0x2E ∷ c ∷ cs))

c_string_pos : (c : ℕ) (cs : List ℕ) → c ≢ 0 → 0 < length (c_string (c ∷ cs))
unfolding c_string
c_string_pos c cs ne = ground (arith, ne)

-- A base of eight letters has no 0 behind it: when the byte that follows in memory is not 0, and the
-- extension does not fill its three bytes, the entry is not equal to its own name.
pub name_is_equal_unterminated :
    (c : ℕ) (after_base after_ext : List ℕ) (e : DirectoryEntry)
    → c ≢ 0
    → length (c_string (base e)) ≡ length (base e)
    → length (c_string (ext e)) < length (ext e)
    → name_is_equal (c ∷ after_base) after_ext e (filename (read_name e).0 (read_name e).1) ≡ false
unfolding name_is_equal read_name
name_is_equal_unterminated c after_base after_ext e ne h k =
    rw (c_string-full (base e) (c ∷ after_base) h) (
      rw (c_string-append (ext e) after_ext k)
        (elim (Bool-cases (same_string (filename longer (c_string (ext e))) printed)) [
          | inr different ↦ different
          | inl same ↦ absurd (
              ground (
                arith,
                same_string-length (filename longer (c_string (ext e))) printed same,
                length-filename longer (c_string (base e)) (c_string (ext e)),
                length-append (c_string (base e)) (c_string (c ∷ after_base)),
                more,
              ))
        ]))
  where
    longer : List ℕ
    longer = c_string (base e) ++ c_string (c ∷ after_base)

    printed : List ℕ
    printed = filename (c_string (base e)) (c_string (ext e))

    more : 0 < length (c_string (c ∷ after_base))
    more = c_string_pos c after_base ne

-- ===== src/Fat/Named.antt =====
-- The entry that `FindFile` (Kernel/fat.cpp) finds, told from the names in the directory.
use mikanos_copy.Common.{
  ℕ, ◌<◌, ◌≡◌, ◌≢◌, ◌⊎◌, refl, sym, ap, subst, ◌∙◌, Bool, true, false, Option, none, some, List, [],
  ◌∷◌, ◌++◌, take, drop, length, ◌==◌, ◌&&◌, if◌then◌else◌, arith, Bool-cases, inl, inr,
}
use mikanos_copy.Fat.{Volume}
use mikanos_copy.Fat.Directory.{
  DirectoryEntry, read_entry, all_spaces, trim, c_string, same_string, filename, name_is_equal,
  find_file,
}
use mikanos_copy.Fat.Find.{Directory, first, all_entries, find_loop-first, c_string-append}

-- A name of the directory without the spaces that fill it up.
unfoldable pub strip : List ℕ → List ℕ
strip [] = []
strip (c ∷ cs) = let rest = strip cs in if c == 0x20 && length rest == 0 then [] else c ∷ rest

-- The two parts of the name of an entry, as text.
abbrev pub base_of : DirectoryEntry → List ℕ
base_of e = c_string (strip (take 8 e.name))

abbrev pub extension_of : DirectoryEntry → List ℕ
extension_of e = c_string (strip (drop 8 e.name))

-- `BASE.EXT`, or `BASE` for an entry without an extension.
pub data IsNamed (e : DirectoryEntry) (name : List ℕ) : Type 0 where
  plain : extension_of e ≡ [] → name ≡ base_of e → IsNamed e name
  extended : extension_of e ≢ [] → name ≡ base_of e ++ 0x2E ∷ extension_of e → IsNamed e name

-- The address stands in the list.
unfoldable pub IsIn : ℕ → List ℕ → Type 0
IsIn at [] = ⊥
IsIn at (x ∷ xs) = (at ≡ x) ⊎ IsIn at xs

-- No entry of the list has the name.
abbrev pub NoneNamed : Volume → List ℕ → List ℕ → Type 0
NoneNamed v name ats = (at : ℕ) → IsIn at ats → ¬ IsNamed (read_entry v at) name

-- The first entry that has the name, or none.
pub data FirstNamed (v : Volume) (name ats : List ℕ) : Option ℕ → Type 0 where
  missing : NoneNamed v name ats → FirstNamed v name ats none
  found :
      (before : List ℕ) (at : ℕ) (after : List ℕ)
      → ats ≡ before ++ at ∷ after
      → NoneNamed v name before
      → IsNamed (read_entry v at) name
      → FirstNamed v name ats (some at)

-- The text of a part is shorter than its array, or a 0 stands behind the array.
abbrev pub IsEnded : List ℕ → List ℕ → Type 0
IsEnded part after = (length (c_string (strip part)) < length part) ⊎ (c_string after ≡ [])

abbrev pub AreEnded : (after_base after_ext : ℕ → List ℕ) → Volume → List ℕ → Type 0
AreEnded after_base after_ext v ats =
    (at : ℕ)
    → IsIn at ats
    → IsEnded (take 8 (read_entry v at).name) (after_base at)
      × IsEnded (drop 8 (read_entry v at).name) (after_ext at)

-- Only spaces are stripped to nothing.
strip_spaces : (xs : List ℕ) → (length (strip xs) == 0) ≡ all_spaces xs
unfolding strip all_spaces
strip_spaces [] = refl
strip_spaces (c ∷ cs) = ground (arith, strip_spaces cs)

c_string-trim : (xs : List ℕ) → c_string (trim xs) ≡ c_string (strip xs)
unfolding strip c_string trim all_spaces
c_string-trim [] = refl
c_string-trim (c ∷ cs) = ground (arith, strip_spaces cs, c_string-trim cs)

length-trim : (xs : List ℕ) → length (trim xs) ≡ length xs
unfolding trim
length-trim [] = refl
length-trim (c ∷ cs) = ground (arith, length-trim cs)

c_string-nothing : (xs ys : List ℕ) → c_string ys ≡ [] → c_string (xs ++ ys) ≡ c_string xs
unfolding c_string
c_string-nothing [] ys h = h
c_string-nothing (x ∷ xs) ys h = ground (arith, c_string-nothing xs ys h)

-- What stands behind an array is not read, or is no letter.
c_string-ended :
    (part after : List ℕ)
    → IsEnded part after
    → c_string (trim part ++ after) ≡ c_string (strip part)
c_string-ended part after (inl short) =
    c_string-append (trim part) after
      (omega (arith, short, length-trim part, ap length (c_string-trim part)))
    ∙ c_string-trim part
c_string-ended part after (inr zero_behind) =
    c_string-nothing (trim part) after zero_behind ∙ c_string-trim part

same_string_lem : (a b : List ℕ) → same_string a b ≡ true → a ≡ b
unfolding same_string
same_string_lem [] [] e = refl
same_string_lem [] (d ∷ ds) e = ground (arith, e)
same_string_lem (c ∷ cs) [] e = ground (arith, e)
same_string_lem (c ∷ cs) (d ∷ ds) e = ground (arith, e, same_string_lem cs ds)

same_string_refl : (a : List ℕ) → same_string a a ≡ true
unfolding same_string
same_string_refl [] = refl
same_string_refl (c ∷ cs) = ground (arith, same_string_refl cs)

filename-plain : (b x : List ℕ) → x ≡ [] → filename b x ≡ b
filename-plain b [] e = refl
filename-plain b (c ∷ cs) e = absurd (ground (arith, e))

filename-extended : (b x : List ℕ) → x ≢ [] → filename b x ≡ b ++ 0x2E ∷ x
filename-extended b [] some_there = absurd (some_there refl)
filename-extended b (c ∷ cs) some_there = refl

nil_or_not : (x : List ℕ) → (x ≡ []) ⊎ (x ≢ [])
nil_or_not [] = inl refl
nil_or_not (c ∷ cs) = inr (λ e. ground (arith, e))

-- The name that is compared is that of the entry.
filename-name :
    (e : DirectoryEntry) (name : List ℕ)
    → IsNamed e name
    → filename (base_of e) (extension_of e) ≡ name
filename-name e name (plain none_there h) =
    filename-plain (base_of e) (extension_of e) none_there ∙ sym h
filename-name e name (extended some_there h) =
    filename-extended (base_of e) (extension_of e) some_there ∙ sym h

filename-IsNamed : (e : DirectoryEntry) → IsNamed e (filename (base_of e) (extension_of e))
filename-IsNamed e = elim (nil_or_not (extension_of e)) [
  | inl none_there ↦ plain none_there (filename-plain (base_of e) (extension_of e) none_there)
  | inr some_there ↦ extended some_there (filename-extended (base_of e) (extension_of e) some_there)
]

name_is_equal-ended :
    (after_base after_ext : List ℕ) (e : DirectoryEntry) (name : List ℕ)
    → IsEnded (take 8 e.name) after_base × IsEnded (drop 8 e.name) after_ext
    → name_is_equal after_base after_ext e name
      ≡ same_string (filename (base_of e) (extension_of e)) name
unfolding name_is_equal
name_is_equal-ended after_base after_ext e name (b, x) =
    rw (c_string-ended (take 8 e.name) after_base b)
      (rw (c_string-ended (drop 8 e.name) after_ext x) refl)

-- A test that tells whether an entry has the name.
abbrev Tells : Volume → List ℕ → (ℕ → Bool) → ℕ → Type 0
Tells v name p at =
    (p at ≡ true → IsNamed (read_entry v at) name)
    × (p at ≡ false → ¬ IsNamed (read_entry v at) name)

name_is_equal-Tells :
    (v : Volume) (name : List ℕ) (after_base after_ext : ℕ → List ℕ) (at : ℕ)
    → IsEnded (take 8 (read_entry v at).name) (after_base at)
      × IsEnded (drop 8 (read_entry v at).name) (after_ext at)
    → Tells v name (λ a. name_is_equal (after_base a) (after_ext a) (read_entry v a) name) at
name_is_equal-Tells v name after_base after_ext at h =
    let e = read_entry v at in
    let same = name_is_equal-ended (after_base at) (after_ext at) e name h in
    (
      λ equal.
          subst (IsNamed e)
            (same_string_lem (filename (base_of e) (extension_of e)) name (sym same ∙ equal))
            (filename-IsNamed e),
      λ different named. ground (
        arith,
        sym same ∙ different,
        subst (λ n. same_string (filename (base_of e) (extension_of e)) n ≡ true)
            (filename-name e name named) (same_string_refl (filename (base_of e) (extension_of e))),
      ),
    )

none_before :
    (v : Volume) (name : List ℕ) (x : ℕ) (xs : List ℕ)
    → ¬ IsNamed (read_entry v x) name
    → NoneNamed v name xs
    → NoneNamed v name (x ∷ xs)
unfolding IsIn
none_before v name x xs h n at (inl here) named =
    h (subst (λ a. IsNamed (read_entry v a) name) here named)
none_before v name x xs h n at (inr there) named = n at there named

add_before :
    {v : Volume} {name : List ℕ} {o : Option ℕ} (x : ℕ) (xs : List ℕ)
    → ¬ IsNamed (read_entry v x) name
    → FirstNamed v name xs o
    → FirstNamed v name (x ∷ xs) o
add_before {v = v} {name = name} x xs h (missing n) = missing (none_before v name x xs h n)
add_before {v = v} {name = name} x xs h (found before at after e n named) =
    found (x ∷ before) at after (ap (λ l. x ∷ l) e) (none_before v name x before h n) named

first-FirstNamed :
    (v : Volume) (name : List ℕ) (p : ℕ → Bool) (ats : List ℕ)
    → ((at : ℕ) → IsIn at ats → Tells v name p at)
    → FirstNamed v name ats (first p ats)
unfolding first IsIn
first-FirstNamed v name p [] h = missing (λ at there named. there)
first-FirstNamed v name p (x ∷ xs) h = elim (Bool-cases (p x)) [
  | inl yes_here ↦
      rw yes_here (found [] x xs refl (λ at there named. there) ((h x (inl refl)).0 yes_here))
  | inr not_here ↦ rw not_here (
      add_before {v = v} {name = name} x xs ((h x (inl refl)).1 not_here)
        (first-FirstNamed v name p xs (λ at there. h at (inr there))))
]

-- The cluster that the search starts from.
abbrev pub start : Volume → ℕ → ℕ
start v directory_cluster = if directory_cluster == 0 then v.root_cluster else directory_cluster

-- On a directory whose chain of clusters ends, with more rounds than it has clusters, `FindFile` gives
-- the first of all its entries that has the name, `BASE.EXT` without the spaces that fill it up, and
-- `nullptr` when there is none. The cluster 0 stands for the root directory. It is for entries whose
-- base and extension are each shorter than their array, or have a 0 behind the array in memory.
pub find_file-FirstNamed :
    {v : Volume} {clusters : List ℕ} (after_base after_ext : ℕ → List ℕ) (name : List ℕ)
    (directory_cluster : ℕ)
    → Directory v (start v directory_cluster) clusters
    → AreEnded after_base after_ext v (all_entries v clusters)
    → (fuel : ℕ) → length clusters < fuel
    → (o : Option ℕ) × (find_file fuel v after_base after_ext name directory_cluster ≡ some o)
      × FirstNamed v name (all_entries v clusters) o
unfolding find_file
find_file-FirstNamed {v = v} {clusters = clusters} after_base after_ext name directory_cluster chain
      ended fuel h =
    let test : ℕ → Bool =
      λ at. name_is_equal (after_base at) (after_ext at) (read_entry v at) name in
    (
      first test (all_entries v clusters),
      find_loop-first test chain fuel h,
      first-FirstNamed v name test (all_entries v clusters)
          (λ at there. name_is_equal-Tells v name after_base after_ext at (ended at there)),
    )

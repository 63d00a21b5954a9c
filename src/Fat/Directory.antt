-- ===== src/Fat/Directory.antt =====
-- Directories of Kernel/fat.hpp and Kernel/fat.cpp: the entries of a cluster and their names. A C
-- string is the list of its bytes, without the 0 that ends it.
use mikanos_copy.Common.{
  ℕ, zero, suc, ◌+◌, ◌*◌, ◌/◌, ◌^◌, Bool, true, false, ◌&&◌, Option, none, some, List, [], ◌∷◌,
  ◌++◌, take, drop, ◌==◌, if◌then◌else◌,
}
use mikanos_copy.Fat.{
  Volume, bytes_per_cluster, get_cluster_addr, next_cluster, end_of_cluster_chain, read_bytes,
}

-- The fields of an entry that the code reads.
pub record DirectoryEntry : Type 0 where
  pub name : List ℕ
  pub attr : ℕ
  pub first_cluster_high : ℕ
  pub first_cluster_low : ℕ
  pub file_size : ℕ

abbrev pub entry_size : ℕ
entry_size = 32

-- A number of two bytes, and one of four, the lowest byte first.
abbrev pub read16 : Volume → ℕ → ℕ
read16 v at = v.byte at + v.byte (at + 1) * 2 ^ 8

abbrev pub read32 : Volume → ℕ → ℕ
read32 v at = read16 v at + read16 v (at + 2) * 2 ^ 16

unfoldable pub read_entry : Volume → ℕ → DirectoryEntry
read_entry v at = record {
  name = read_bytes v 11 at;
  attr = v.byte (at + 11);
  first_cluster_high = read16 v (at + 20);
  first_cluster_low = read16 v (at + 26);
  file_size = read32 v (at + 28);
}

pub first_cluster : DirectoryEntry → ℕ
first_cluster e = e.first_cluster_low + e.first_cluster_high * 2 ^ 16

-- `for(i = n - 1; i >= 0 && s[i] == 0x20; i--) s[i] = 0`: the spaces at the end become 0.
unfoldable pub all_spaces : List ℕ → Bool
all_spaces [] = true
all_spaces (c ∷ cs) = c == 0x20 && all_spaces cs

unfoldable pub trim : List ℕ → List ℕ
trim [] = []
trim (c ∷ cs) = (if all_spaces (c ∷ cs) then 0 else c) ∷ trim cs

-- What a `char*` into memory stands for: the bytes up to a 0.
unfoldable pub c_string : List ℕ → List ℕ
c_string [] = []
c_string (c ∷ cs) = let rest = c_string cs in if c == 0 then [] else c ∷ rest

-- `ReadName`, the two strings it fills in.
unfoldable pub read_name : DirectoryEntry → List ℕ × List ℕ
read_name e = (c_string (trim (take 8 e.name)), c_string (trim (drop 8 e.name)))

-- `strcmp(a, b) == 0`.
unfoldable pub same_string : List ℕ → List ℕ → Bool
same_string [] [] = true
same_string [] (c ∷ cs) = false
same_string (c ∷ cs) [] = false
same_string (c ∷ cs) (d ∷ ds) = c == d && same_string cs ds

-- `sprintf(filename, "%s.%s", base, ext)`, or `"%s"` when there is no extension.
abbrev pub filename : List ℕ → List ℕ → List ℕ
filename base [] = base
filename base (c ∷ cs) = base ++ (0x2E ∷ c ∷ cs)

-- `NameIsEqual`. The arrays have nine and four bytes, and the last is not set: `after_base` and
-- `after_ext` are what stands in memory from there on.
unfoldable pub name_is_equal : (after_base after_ext : List ℕ) → DirectoryEntry → List ℕ → Bool
name_is_equal after_base after_ext e name =
    same_string
      (filename (c_string (trim (take 8 e.name) ++ after_base))
        (c_string (trim (drop 8 e.name) ++ after_ext)))
      name

-- The loop over the entries of a cluster, from entry `i` on: the address of the first that the test
-- holds for.
unfoldable pub find_entry : (ℕ → Bool) → ℕ → (rounds i : ℕ) → Option ℕ
find_entry p dir zero i = none
find_entry p dir (suc rounds) i =
    let rest = find_entry p dir rounds (suc i) in
    if p (dir + entry_size * i) then some (dir + entry_size * i) else rest

abbrev pub entries_per_cluster : Volume → ℕ
entries_per_cluster v = bytes_per_cluster v / entry_size

-- The loop of `FindFile` on fuel: `none` is a loop out of fuel, `some none` is `nullptr`.
unfoldable pub find_loop : (fuel : ℕ) → Volume → (ℕ → Bool) → ℕ → Option (Option ℕ)
find_loop zero v p cluster = none
find_loop (suc fuel) v p cluster =
    let rest = find_loop fuel v p (next_cluster v cluster) in
    if cluster == end_of_cluster_chain
    then some none
    else elim (find_entry p (get_cluster_addr v cluster) (entries_per_cluster v) 0) [
      | some at ↦ some (some at)
      | none ↦ rest
    ]

-- What stands in memory behind the arrays may differ from entry to entry: it is given for the address
-- of each.
unfoldable pub find_file :
    (fuel : ℕ)
    → Volume
    → (after_base after_ext : ℕ → List ℕ) (name : List ℕ) (directory_cluster : ℕ)
    → Option (Option ℕ)
find_file fuel v after_base after_ext name directory_cluster =
    find_loop fuel v (λ at. name_is_equal (after_base at) (after_ext at) (read_entry v at) name)
      (if directory_cluster == 0 then v.root_cluster else directory_cluster)

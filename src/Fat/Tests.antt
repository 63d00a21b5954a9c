-- ===== src/Fat/Tests.antt =====
-- A file of two clusters (Kernel/fat.cpp), on a volume with sectors of two bytes.
use mikanos_copy.Common.{
  ℕ, ◌≡◌, refl, Option, some, inr, List, [], ◌++◌, false, ◌∷◌, take, get_or, replicate, ltb, ◌==◌,
  if◌then◌else◌, arith,
}
use mikanos_copy.Fat.{
  Volume, bytes_per_cluster, get_cluster_addr, fat_entry, next_cluster, read_bytes, load_loop,
  load_file,
}
use mikanos_copy.Fat.Directory.{
  DirectoryEntry, read_entry, read_name, filename, name_is_equal, find_file, find_loop, find_entry,
  trim, all_spaces, c_string, same_string,
}
use mikanos_copy.Fat.Find.{Directory, all_entries, name_is_equal_unterminated}
use mikanos_copy.Fat.Named.{AreEnded, FirstNamed, find_file-FirstNamed}
use mikanos_copy.Fat.Chain.{Chain, ends, goes_on, contents, load_file-contents}

-- The entry of cluster 2 names cluster 3, and that of cluster 3 ends the chain. A byte after the
-- table is its own offset.
byte : ℕ → ℕ
byte at =
    if at == 10
    then 3
    else if ltb at 14
    then 0
    else if ltb at 17
    then 255
    else if at == 17
    then 15
    else at

abbrev volume : Volume
volume = record {
  bytes_per_sector = 2;
  sectors_per_cluster = 1;
  reserved_sector_count = 1;
  num_fats = 1;
  fat_size_32 = 10;
  root_cluster = 2;
  byte = byte;
}

two : Chain volume 2 (2 ∷ 3 ∷ [])
unfolding next_cluster fat_entry byte
two = goes_on refl (goes_on refl (ends refl))

load_file-contents_example : load_file 3 volume 3 2 ≡ some (take 3 (contents volume (2 ∷ 3 ∷ [])))
load_file-contents_example = load_file-contents two 3 3 (omega arith)

loaded : load_file 3 volume 3 2 ≡ some (22 ∷ 23 ∷ 24 ∷ [])
unfolding load_file load_loop next_cluster fat_entry byte bytes_per_cluster get_cluster_addr
    read_bytes
loaded = refl

-- A directory of one cluster of 64 bytes, with two entries: FILE.TXT and WINHELLO.
file_name : List ℕ
file_name = 0x46 ∷ 0x49 ∷ 0x4C ∷ 0x45 ∷ 0x20 ∷ 0x20 ∷ 0x20 ∷ 0x20 ∷ 0x54 ∷ 0x58 ∷ 0x20 ∷ []

other_name : List ℕ
other_name = 0x57 ∷ 0x49 ∷ 0x4E ∷ 0x48 ∷ 0x45 ∷ 0x4C ∷ 0x4C ∷ 0x4F ∷ 0x20 ∷ 0x20 ∷ 0x20 ∷ []

image : List ℕ
image =
    replicate 72 0
    ++ (255
        ∷ 255
        ∷ 255
        ∷ 15
        ∷ (replicate 52 0 ++ (file_name ++ (replicate 21 0 ++ (other_name ++ replicate 21 0)))))

abbrev dir_volume : Volume
dir_volume = record {
  bytes_per_sector = 64;
  sectors_per_cluster = 1;
  reserved_sector_count = 1;
  num_fats = 1;
  fat_size_32 = 1;
  root_cluster = 2;
  byte = λ at. get_or image at 0;
}

root : Directory dir_volume 2 (2 ∷ [])
unfolding next_cluster fat_entry image file_name other_name
root = Directory.goes_on refl (Directory.ends refl)

-- FILE.TX, the first entry.
abbrev file_tx : List ℕ
file_tx = 0x46 ∷ 0x49 ∷ 0x4C ∷ 0x45 ∷ 0x2E ∷ 0x54 ∷ 0x58 ∷ []

-- WINHELLO
abbrev other_text : List ℕ
other_text = 0x57 ∷ 0x49 ∷ 0x4E ∷ 0x48 ∷ 0x45 ∷ 0x4C ∷ 0x4C ∷ 0x4F ∷ []

-- A 0 stands behind each array.
zeros : ℕ → List ℕ
zeros at = 0 ∷ []

zeros_end : AreEnded zeros zeros dir_volume (all_entries dir_volume (2 ∷ []))
unfolding zeros c_string
zeros_end at there = (inr refl, inr refl)

find_file-FirstNamed_example :
    (o : Option ℕ) × (find_file 2 dir_volume zeros zeros file_tx 0 ≡ some o)
    × FirstNamed dir_volume file_tx (all_entries dir_volume (2 ∷ [])) o
find_file-FirstNamed_example =
    find_file-FirstNamed zeros zeros file_tx 0 root zeros_end 2 (omega arith)

-- The second entry.
found : find_file 2 dir_volume zeros zeros other_text 0 ≡ some (some 160)
unfolding find_file name_is_equal find_loop find_entry next_cluster fat_entry image file_name
    other_name bytes_per_cluster get_cluster_addr read_bytes read_entry trim all_spaces c_string
    same_string zeros
found = refl

abbrev winhello : DirectoryEntry
winhello = read_entry dir_volume 160

name_is_equal_unterminated_example :
    name_is_equal (7 ∷ []) [] winhello (filename (read_name winhello).0 (read_name winhello).1)
    ≡ false
unfolding read_entry read_bytes image file_name other_name trim all_spaces c_string
name_is_equal_unterminated_example =
    name_is_equal_unterminated 7 [] [] winhello (omega arith) refl (omega arith)

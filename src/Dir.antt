-- ===== src/Dir.antt =====
-- fs.c: directories and paths.
pub mod Paths
use shared_memory.Prelude.{
  ℕ, zero, suc, ◌+◌, ◌-◌, ◌/◌, ◌%◌, Bool, true, false, not, ◌&&◌, ◌||◌, Option, none, some, List,
  [], ◌∷◌, length, ltb, leb, ◌==◌, if◌then◌else◌, ℤ, pos, minus_one, ◌==ℤ◌, Outcome, ok, panic,
  out_of_fuel, ◌>>=◌,
}
use shared_memory.Bits.{short_at, put_int}
use shared_memory.Strings.{strncmp, strncpy}
use shared_memory.Inode.{FileSystem, Inode, iget, idup, ilock, iunlock, iput, iunlockput}
use shared_memory.Content.{Io, Devices, t_dir, readi, writei}

abbrev pub dir_size : ℕ
dir_size = 14

abbrev pub dirent_size : ℕ
dirent_size = 16

abbrev pub root_dev : ℕ
root_dev = 1

abbrev pub root_ino : ℕ
root_ino = 1

-- A string, as its characters without the NUL: the character at an index.
abbrev pub Text : Type 0
Text = List ℕ

unfoldable pub char_at : Text → ℕ → ℕ
char_at [] i = 0
char_at (c ∷ cs) zero = c
char_at (c ∷ cs) (suc i) = char_at cs i

-- Two arrays in one memory, the second from the address 64 on
abbrev pub beside : (ℕ → ℕ) → (ℕ → ℕ) → ℕ → ℕ
beside s t a = if ltb a 64 then s a else t (a - 64)

-- namecmp(), of a name and the name in a directory entry
unfoldable pub namecmp : Text → (ℕ → ℕ) → ℤ
namecmp name entry = strncmp dir_size 0 66 (beside (char_at name) entry)

-- readi(dp, &de, off, sizeof(de)) != sizeof(de) is a panic; `de` from the address 0 on.
abbrev pub checked : ℤ × Io → Outcome ((ℕ → ℕ) × FileSystem)
checked r = if not (r.0 ==ℤ pos dirent_size) then panic else ok (r.1.mem, r.1.fs)

abbrev pub read_dirent : Devices → ℕ → ℕ → FileSystem → Outcome ((ℕ → ℕ) × FileSystem)
read_dirent dev d off f = do
  r ← readi dev d 0 off dirent_size (record { mem = λ a. 0; fs = f })
  checked r

-- de.inum
abbrev pub entry_inum : (ℕ → ℕ) → ℕ
entry_inum de = short_at de 0

-- The loop of dirlookup() from the offset `off` on: the inode of the entry with the name, and the offset
unfoldable pub lookup_loop :
    Devices → ℕ → ℕ → Text → ℕ → FileSystem → Outcome (Option (ℕ × ℕ) × FileSystem)
lookup_loop dev zero d name off f = if ltb off (f.inodes d).size then out_of_fuel else ok (none, f)
lookup_loop dev (suc fuel) d name off f =
    if ltb off (f.inodes d).size
    then (do
      (de, f) ← read_dirent dev d off f
      let rest = lookup_loop dev fuel d name (off + dirent_size) f
      if entry_inum de == 0
          then rest
          else if namecmp name de ==ℤ pos 0
          then (do (i, f) ← iget (f.inodes d).dev (entry_inum de) f; ok (some (i, off), f))
          else rest)
    else ok (none, f)

-- dirlookup()
unfoldable pub dirlookup : Devices → ℕ → Text → FileSystem → Outcome (Option (ℕ × ℕ) × FileSystem)
dirlookup dev d name f =
    if not ((f.inodes d).kind == t_dir) then panic else lookup_loop dev (f.inodes d).size d name 0 f

-- The loop of dirlink(): the offset of the first empty entry, or of the end
unfoldable pub empty_loop : Devices → ℕ → ℕ → ℕ → FileSystem → Outcome (ℕ × FileSystem)
empty_loop dev zero d off f = if ltb off (f.inodes d).size then out_of_fuel else ok (off, f)
empty_loop dev (suc fuel) d off f =
    if ltb off (f.inodes d).size
    then (do
      (de, f) ← read_dirent dev d off f
      let rest = empty_loop dev fuel d (off + dirent_size) f
      if entry_inum de == 0 then ok (off, f) else rest)
    else ok (off, f)

-- strncpy(de.name, name, DIRSIZ); de.inum = inum;
abbrev pub new_entry : Text → ℕ → ℕ → ℕ
new_entry name inum = put_int 2 0 inum (strncpy dir_size 2 64 (beside (λ a. 0) (char_at name)))

abbrev pub add_entry : Devices → ℕ → Text → ℕ → FileSystem → Outcome (ℤ × FileSystem)
add_entry dev d name inum f = do
  (off, f) ← empty_loop dev (f.inodes d).size d 0 f
  (n, s) ← writei dev d 0 off dirent_size (record { mem = new_entry name inum; fs = f })
  if not (n ==ℤ pos dirent_size) then panic else ok (pos 0, s.fs)

-- dirlink()
unfoldable pub dirlink : Devices → ℕ → Text → ℕ → FileSystem → Outcome (ℤ × FileSystem)
dirlink dev d name inum f = do
  (found, f) ← dirlookup dev d name f
  elim found [
    | some (i, off) ↦ (do f ← iput i f; ok (minus_one, f))
    | none ↦ add_entry dev d name inum f
  ]

abbrev pub slash : ℕ
slash = 47

-- while(*path == '/') path++;
unfoldable pub skip_slashes : Text → Text
skip_slashes [] = []
skip_slashes (c ∷ cs) = let rest = skip_slashes cs in if c == slash then rest else c ∷ cs

-- while(*path != '/' && *path != 0) path++; what was passed, and the rest
unfoldable pub take_elem : Text → Text × Text
take_elem [] = ([], [])
take_elem (c ∷ cs) =
    let (e, rest) = take_elem cs in if c == slash then ([], c ∷ cs) else (c ∷ e, rest)

-- The first `n` characters
unfoldable pub prefix : ℕ → Text → Text
prefix zero cs = []
prefix (suc n) [] = []
prefix (suc n) (c ∷ cs) = c ∷ prefix n cs

-- skipelem(): the name, of at most DIRSIZ characters, and the path behind it
unfoldable pub skipelem : Text → Option (Text × Text)
skipelem path = elim (skip_slashes path) [
  | [] ↦ none
  | c ∷ cs ↦ (let (e, rest) = take_elem (c ∷ cs) in some (prefix dir_size e, skip_slashes rest))
]

-- The inode of a path, and the name that namex() has left in its buffer
abbrev pub NameResult : Type 0
NameResult = Option (ℕ × Text)

abbrev pub put_back : ℕ → FileSystem → Outcome (NameResult × FileSystem)
put_back i f = do f ← iunlockput i f; ok (none, f)

-- The end of namex(), with no element left
abbrev pub end_path : Bool → ℕ → Text → FileSystem → Outcome (NameResult × FileSystem)
end_path parent i name f =
    if parent then (do f ← iput i f; ok (none, f)) else ok (some (i, name), f)

-- *path == '\0'
abbrev pub is_end : Text → Bool
is_end [] = true
is_end (c ∷ cs) = false

-- The loop of namex() at the inode `i`; `name` is the last name.
unfoldable pub namex_loop :
    Devices → ℕ → Bool → ℕ → Text → Text → FileSystem → Outcome (NameResult × FileSystem)
namex_loop dev zero parent i path name f = elim (skipelem path) [
  | none ↦ end_path parent i name f
  | some _ ↦ out_of_fuel
]
namex_loop dev (suc fuel) parent i path name f = elim (skipelem path) [
  | none ↦ end_path parent i name f
  | some (elem, rest) ↦ (do
    f ← ilock i f
    if not ((f.inodes i).kind == t_dir)
        then put_back i f
        else if parent && is_end rest
        then (do f ← iunlock i f; ok (some (i, elem), f))
        else do
          (found, f) ← dirlookup dev i elem f
          elim found [
            | none ↦ put_back i f
            | some (j, off) ↦ (do f ← iunlockput i f; namex_loop dev fuel parent j rest elem f)
          ])
]

-- The inode at which namex() starts; `cwd` is that of the process.
abbrev pub start_inode : ℕ → Text → FileSystem → Outcome (ℕ × FileSystem)
start_inode cwd path f =
    if char_at path 0 == slash then iget root_dev root_ino f else do f ← idup cwd f; ok (cwd, f)

-- namex(): each element makes the path shorter.
unfoldable pub namex : Devices → ℕ → Bool → Text → FileSystem → Outcome (NameResult × FileSystem)
namex dev cwd parent path f = do
  (i, f) ← start_inode cwd path f
  namex_loop dev (length path) parent i path [] f

unfoldable pub namei : Devices → ℕ → Text → FileSystem → Outcome (NameResult × FileSystem)
namei dev cwd path f = namex dev cwd false path f

unfoldable pub nameiparent : Devices → ℕ → Text → FileSystem → Outcome (NameResult × FileSystem)
nameiparent dev cwd path f = namex dev cwd true path f

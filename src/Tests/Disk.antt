-- ===== src/Tests/Disk.antt =====
-- A small backend in memory that meets the contract: a root directory, and files that can be made and
-- removed, all with the same content.
use unfs2go.Common.{
  ℕ, suc, zero, ◌+◌, ◌-◌, ◌%◌, ◌^◌, ◌<◌, ◌≤◌, ◌≡◌, refl, ap, List, [], ◌∷◌, ◌++◌, Bool, true, false,
  ◌&&◌, Option, none, some, ◌==◌, arith, if◌then◌else◌, length, drop, get_elem?, Bool-cases,
  Option-cases, inl, inr, length-drop, take, length-append, length-take, ◌∙◌, sym,
}
use Prim.Native.Nat.{min}
use unfs2go.Common.Int.{ℤ, pos, negsuc, pos_part}
use unfs2go.Xdr.Stream.{CharPtr}
use unfs2go.Types.Stat.{GoStatstruct}
use unfs2go.Types.Zero.{zero_nfs_fh3, zero_sattr3}
use unfs2go.Types.Constants.{bool_false}
use unfs2go.Backend.{Backend, Server}
use unfs2go.Backend.Contract.{IsInt, IsStat, IsBackend, IsServer}
use unfs2go.Nfs.Laws.Transfer.{KeepsFile, take-enough}

abbrev pub root : List ℕ
root = b'/' ∷ []

abbrev pub content : List ℕ
content = 10 ∷ 20 ∷ 30 ∷ 40 ∷ 50 ∷ []

abbrev same_path : List ℕ → List ℕ → Bool
same_path [] [] = true
same_path [] (y ∷ ys) = false
same_path (x ∷ xs) [] = false
same_path (x ∷ xs) (y ∷ ys) = x == y && same_path xs ys

-- The place of a path among those of the files.
abbrev place : List ℕ → List (List ℕ) → Option ℕ
place path [] = none
place path (p ∷ ps) =
    if same_path p path
    then some 0
    else elim (place path ps) [ none ↦ none | some i ↦ some (suc i) ]

abbrev without : List ℕ → List (List ℕ) → List (List ℕ)
without path [] = []
without path (p ∷ ps) = if same_path p path then ps else p ∷ without path ps

abbrev pub stat_of : ℕ → ℕ → GoStatstruct
stat_of ino mode = record {
  st_dev = 0;
  st_ino = ino % 2 ^ 31;
  st_mode = mode;
  st_nlink = 1;
  st_uid = 0;
  st_gid = 0;
  st_rdev = 0;
  st_size = 5;
  st_blksize = 0;
  st_blocks = 0;
  st_atime = 0;
  st_mtime = 0;
  st_ctime = 0;
}

abbrev path_of : ℤ → List (List ℕ) → CharPtr
path_of (pos zero) files = none
path_of (pos (suc zero)) files = some root
path_of (pos (suc (suc i))) files = get_elem? files i
path_of (negsuc k) files = none

abbrev look : CharPtr → GoStatstruct → List (List ℕ) → ℕ × GoStatstruct × List (List ℕ)
look none buf files = (2, buf, files)
look (some path) buf files =
    if same_path path root then (0, stat_of 1 0o040755, files) else elim (place path files) [
      | none ↦ (2, buf, files)
      | some i ↦ (0, stat_of (i + 2) 0o100644, files)
    ]

abbrev make : CharPtr → ℕ → List (List ℕ) → ℕ × List (List ℕ)
make none mode files = (2, files)
make (some path) mode files = (0, files ++ (path ∷ []))

abbrev delete : CharPtr → List (List ℕ) → ℕ × List (List ℕ)
delete none files = (2, files)
delete (some path) files = (0, without path files)

abbrev copy : CharPtr → List ℕ → ℕ → ℕ → List (List ℕ) → ℤ × List ℕ × List (List ℕ)
copy none buf n offset files = (negsuc 1, buf, files)
copy (some path) buf n offset files =
    let k = min n (length content - offset) in
    (pos k, take k (drop offset content) ++ drop k buf, files)

abbrev pub disk : Backend
disk = record {
  State = List (List ℕ);
  go_fgetpath = path_of;
  go_lstat = look;
  go_truncate = λ path size files. (30, files);
  go_chmod = λ path mode files. (0, files);
  go_modtime = λ path time files. (0, files);
  go_create = make;
  go_createover = make;
  go_mkdir = make;
  go_remove = delete;
  go_rmdir = delete;
  go_rename = λ from to files. (0, files);
  go_pread = copy;
  go_pwrite = λ path data_buf offset files. (negsuc 29, files);
  go_readdir_full = λ path cookie count files.
      (pos 0, record { fileid = 1; name = some (b'.' ∷ []); cookie = 1 } ∷ [], files);
  go_sync = look;
}

abbrev pub server : Server
server = record {
  backend = disk;
  stack = record {
    buf = stat_of 0 0;
    wcc = record {
      size = 0;
      mtime = record { seconds = 0; nseconds = 0 };
      ctime = record { seconds = 0; nseconds = 0 };
    };
    handle = zero_nfs_fh3;
    obj = [];
    read_buf = [];
    new_attr = zero_sattr3;
    eof = bool_false;
    beyond = 0;
  };
  opt_readable_executables = bool_false;
}

pub stat_of-IsStat : (ino : ℕ) (mode : ℕ) → mode < 2 ^ 16 → IsStat (stat_of ino mode)
stat_of-IsStat ino mode h = record {
  dev = omega arith;
  ino = omega arith;
  mode = h;
  nlink = omega arith;
  uid = omega arith;
  gid = omega arith;
  size = omega arith;
}

look-status :
    (path : CharPtr) (buf : GoStatstruct) (files : List (List ℕ)) → (look path buf files).0 < 2 ^ 32
look-status none buf files = omega arith
look-status (some path) buf files = elim (Bool-cases (same_path path root)) [
  | inl top ↦ rw top (omega arith)
  | inr other ↦ elim (Option-cases (place path files)) [
    | inl missing ↦ rw (other, missing) (omega arith)
    | inr (i, found) ↦ rw (other, found) (omega arith)
  ]
]

look-buf :
    (path : CharPtr) (buf : GoStatstruct) (files : List (List ℕ))
    → IsStat buf
    → IsStat (look path buf files).1
look-buf none buf files v = v
look-buf (some path) buf files v = elim (Bool-cases (same_path path root)) [
  | inl top ↦ rw top (stat_of-IsStat 1 0o040755 (omega arith))
  | inr other ↦ elim (Option-cases (place path files)) [
    | inl missing ↦ rw (other, missing) v
    | inr (i, found) ↦ rw (other, found) (stat_of-IsStat (i + 2) 0o100644 (omega arith))
  ]
]

make-status :
    (path : CharPtr) (mode : ℕ) (files : List (List ℕ)) → (make path mode files).0 < 2 ^ 32
make-status none mode files = omega arith
make-status (some path) mode files = omega arith

delete-status : (path : CharPtr) (files : List (List ℕ)) → (delete path files).0 < 2 ^ 32
delete-status none files = omega arith
delete-status (some path) files = omega arith

take-copied : (n : ℕ) (xs ys : List ℕ) → n ≤ length xs → take n (take n xs ++ ys) ≡ take n xs
take-copied zero xs ys h = refl
take-copied (suc n) [] ys h = absurd (omega (arith, h))
take-copied (suc n) (x ∷ xs) ys h = ap (λ t. x ∷ t) (take-copied n xs ys (omega (arith, h)))

copy-le :
    (path : CharPtr) (buf : List ℕ) (count offset n : ℕ) (files : List (List ℕ))
    → (copy path buf count offset files).0 ≡ pos n
    → (n ≤ count) × (n ≤ length (copy path buf count offset files).1)
copy-le none buf count offset n files h = absurd (ground (arith, h))
copy-le (some path) buf count offset n files h =
    let k = min count (length content - offset) in
    omega (
      arith,
      ap pos_part h,
      length-drop offset content,
      length-append (take k (drop offset content)) (drop k buf),
      length-take k (drop offset content),
    )

copy-fresh :
    (path : CharPtr) (buf stale : List ℕ) (count offset : ℕ) (files : List (List ℕ))
    → (let (res, read, s') = copy path buf count offset files in
        let (again, read_again, s'') = copy path stale count offset files in
        (again ≡ res) × (s'' ≡ s') × ((n : ℕ) → res ≡ pos n → take n read_again ≡ take n read))
copy-fresh none buf stale count offset files = (refl, refl, λ n h. absurd (ground (arith, h)))
copy-fresh (some path) buf stale count offset files = (
  refl,
  refl,
  λ n h.
      let xs = drop offset content in
      let k = min count (length content - offset) in
      let held : k ≤ length xs = omega (arith, length-drop offset content) in
      rw (← ap pos_part h)
        (take-copied k xs (drop k stale) held ∙ sym (take-copied k xs (drop k buf) held)),
)

copy-IsInt :
    (path : CharPtr) (buf : List ℕ) (count offset : ℕ) (files : List (List ℕ))
    → IsInt (copy path buf count offset files).0
copy-IsInt none buf count offset files = omega arith
copy-IsInt (some path) buf count offset files = omega arith

disk-IsBackend : IsBackend disk
disk-IsBackend = record {
  lstat_status = look-status;
  lstat_buf = look-buf;
  sync_status = look-status;
  sync_buf = look-buf;
  truncate = λ path n s. omega arith;
  chmod = λ path n s. omega arith;
  modtime = λ path n s. omega arith;
  create = make-status;
  createover = make-status;
  mkdir = make-status;
  remove = delete-status;
  rmdir = delete-status;
  rename = λ from to s. omega arith;
  pread_int = copy-IsInt;
  pread_le = λ path buf count offset n s h. copy-le path buf count offset n s h;
  pread_fresh = copy-fresh;
  pwrite_int = λ path data_buf offset s. omega arith;
  readdir_int = λ path cookie count s. omega arith;
  readdir_entries = λ path cookie count s. omega arith;
}

pub server-IsServer : IsServer server
server-IsServer = record { lawful = disk-IsBackend; stack_buf = stat_of-IsStat 0 0 (omega arith) }

pub root-KeepsFile :
    (path : List ℕ) (files : List (List ℕ)) → KeepsFile server (some path) content files
root-KeepsFile path files = record {
  counted = λ buf n offset room. refl;
  copied = λ buf n offset room.
      take-copied (min n (length content - offset)) (drop offset content) _
        (omega (arith, length-drop offset content))
      ∙ take-enough _ n (drop offset content) (omega (arith, length-drop offset content));
}

-- ===== src/Backend/Contract.antt =====
-- What the NFS procedures rely on in the Go side: results that fit their C types, a count of bytes read
-- that does not exceed the buffer, and a chain of entries that fits the arrays that it is written to.
use unfs2go.Common.{ℕ, ◌^◌, ◌≤◌, ◌<◌, ◌≡◌, List, length, take}
use unfs2go.Common.Int.{ℤ, pos, negsuc}
use unfs2go.Xdr.Stream.{CharPtr, Opaque}
use unfs2go.Types.Stat.{GoStatstruct}
use unfs2go.Types.Constants.{max_entries}
use unfs2go.Wire.Basic.{IsU32, IsU64}
use unfs2go.Wire.Chain.{All}
use unfs2go.Wire.Entries.{IsEntry3Item}
use unfs2go.Backend.{Backend, Server}

-- Each member of the struct fits its C type, where its value travels.
pub record IsStat (buf : GoStatstruct) : Type 0 where
  pub dev : IsU32 buf.st_dev
  pub ino : IsU64 buf.st_ino
  pub mode : buf.st_mode < 2 ^ 16
  pub nlink : buf.st_nlink < 2 ^ 16
  pub uid : IsU32 buf.st_uid
  pub gid : IsU32 buf.st_gid
  pub size : IsU64 buf.st_size

-- The result of a transfer is an `int`.
abbrev pub IsInt : ℤ → Type 0
IsInt (pos n) = n < 2 ^ 31
IsInt (negsuc n) = n < 2 ^ 31

pub record IsBackend (B : Backend) : Type 0 where
  pub lstat_status :
      (path : CharPtr) (buf : GoStatstruct) (s : B.State) → IsU32 (B.go_lstat path buf s).0
  pub lstat_buf :
      (path : CharPtr) (buf : GoStatstruct) (s : B.State)
      → IsStat buf
      → IsStat (B.go_lstat path buf s).1
  pub sync_status :
      (path : CharPtr) (buf : GoStatstruct) (s : B.State) → IsU32 (B.go_sync path buf s).0
  pub sync_buf :
      (path : CharPtr) (buf : GoStatstruct) (s : B.State)
      → IsStat buf
      → IsStat (B.go_sync path buf s).1
  pub truncate : (path : CharPtr) (n : ℕ) (s : B.State) → IsU32 (B.go_truncate path n s).0
  pub chmod : (path : CharPtr) (n : ℕ) (s : B.State) → IsU32 (B.go_chmod path n s).0
  pub modtime : (path : CharPtr) (n : ℕ) (s : B.State) → IsU32 (B.go_modtime path n s).0
  pub create : (path : CharPtr) (n : ℕ) (s : B.State) → IsU32 (B.go_create path n s).0
  pub createover : (path : CharPtr) (n : ℕ) (s : B.State) → IsU32 (B.go_createover path n s).0
  pub mkdir : (path : CharPtr) (n : ℕ) (s : B.State) → IsU32 (B.go_mkdir path n s).0
  pub remove : (path : CharPtr) (s : B.State) → IsU32 (B.go_remove path s).0
  pub rmdir : (path : CharPtr) (s : B.State) → IsU32 (B.go_rmdir path s).0
  pub rename : (from to : CharPtr) (s : B.State) → IsU32 (B.go_rename from to s).0
  pub pread_int :
      (path : CharPtr) (buf : List ℕ) (count offset : ℕ) (s : B.State)
      → IsInt (B.go_pread path buf count offset s).0
  pub pread_le :
      (path : CharPtr) (buf : List ℕ) (count offset n : ℕ) (s : B.State)
      → (B.go_pread path buf count offset s).0 ≡ pos n
      → (n ≤ count) × (n ≤ length (B.go_pread path buf count offset s).1)
  -- A transfer depends on the file, and not on what the buffer held.
  pub pread_fresh :
      (path : CharPtr) (buf stale : List ℕ) (count offset : ℕ) (s : B.State)
      → (let (res, read, s') = B.go_pread path buf count offset s in
          let (again, read_again, s'') = B.go_pread path stale count offset s in
          (again ≡ res) × (s'' ≡ s') × ((n : ℕ) → res ≡ pos n → take n read_again ≡ take n read))
  pub pwrite_int :
      (path : CharPtr) (data_buf : Opaque) (offset : ℕ) (s : B.State)
      → IsInt (B.go_pwrite path data_buf offset s).0
  pub readdir_int :
      (path : CharPtr) (cookie count : ℕ) (s : B.State)
      → IsInt (B.go_readdir_full path cookie count s).0
  pub readdir_entries :
      (path : CharPtr) (cookie count : ℕ) (s : B.State)
      → All IsEntry3Item (B.go_readdir_full path cookie count s).1
        × (length (B.go_readdir_full path cookie count s).1 ≤ max_entries)

-- The server's backend meets the contract, and its memory holds values of the C types.
pub record IsServer (srv : Server) : Type 0 where
  pub lawful : IsBackend srv.backend
  pub stack_buf : IsStat srv.stack.buf

-- ===== src/Backend.antt =====
-- The interface between the NFS procedures and the Go side (unfs2go_exports.go): the functions that it
-- exports, each from the state of the backend to a result and the state after it. A `char *` may be
-- NULL. A buffer that the callee fills is an argument and a result.
pub mod Contract
use unfs2go.Common.{ℕ, List}
use unfs2go.Common.Int.{ℤ}
use unfs2go.Xdr.Stream.{CharPtr, Opaque}
use unfs2go.Types.Stat.{GoStatstruct}
use unfs2go.Types.Entries.{Entry3Item}
use unfs2go.Types.Attr.{WccAttr, NfsFh3}
use unfs2go.Types.Sattr.{Sattr3}
use unfs2go.Types.Names.{BoolT}

pub record Backend : Type 1 where
  pub State : Type 0
  pub go_fgetpath : ℤ → State → CharPtr
  pub go_lstat : CharPtr → GoStatstruct → State → ℕ × GoStatstruct × State
  pub go_truncate : CharPtr → ℕ → State → ℕ × State
  pub go_chmod : CharPtr → ℕ → State → ℕ × State
  pub go_modtime : CharPtr → ℕ → State → ℕ × State
  pub go_create : CharPtr → ℕ → State → ℕ × State
  pub go_createover : CharPtr → ℕ → State → ℕ × State
  pub go_mkdir : CharPtr → ℕ → State → ℕ × State
  pub go_remove : CharPtr → State → ℕ × State
  pub go_rmdir : CharPtr → State → ℕ × State
  pub go_rename : CharPtr → CharPtr → State → ℕ × State
  -- Path, what the buffer holds, count and offset; the result, what the buffer then holds, the state.
  pub go_pread : CharPtr → List ℕ → ℕ → ℕ → State → ℤ × List ℕ × State
  -- Path, the buffer with its count, and the offset.
  pub go_pwrite : CharPtr → Opaque → ℕ → State → ℤ × State
  -- Path, cookie and count; the chain of entries that begins at `entries[0]`, empty if that has no name.
  pub go_readdir_full : CharPtr → ℕ → ℕ → State → ℤ × List Entry3Item × State
  pub go_sync : CharPtr → GoStatstruct → State → ℕ × GoStatstruct × State

-- What lies in memory that the C code reads or passes on without having written it: the local
-- variables of the procedures when they are entered, what earlier calls have left in the static buffer
-- of READ, and the byte behind the static handle of `fh_comp`.
pub record Stack : Type 0 where
  pub buf : GoStatstruct
  pub wcc : WccAttr
  pub handle : NfsFh3
  pub obj : List ℕ
  pub read_buf : List ℕ
  pub new_attr : Sattr3
  pub eof : BoolT
  pub beyond : ℕ

-- All that the procedures depend on besides their arguments.
pub record Server : Type 1 where
  pub backend : Backend
  pub stack : Stack
  pub opt_readable_executables : BoolT

-- ===== src/Types/Sattr.antt =====
-- unfs3/nfs.h: settable attributes and directory operations.
use unfs2go.Types.Names.{Filename3, Uid3, Gid3, Size3, Mode3, TimeHow, BoolT}
use unfs2go.Types.Attr.{NfsFh3, Nfstime3}

pub record SetMode3 : Type 0 where
  pub set_it : BoolT
  pub mode : Mode3

pub record SetUid3 : Type 0 where
  pub set_it : BoolT
  pub uid : Uid3

pub record SetGid3 : Type 0 where
  pub set_it : BoolT
  pub gid : Gid3

pub record SetSize3 : Type 0 where
  pub set_it : BoolT
  pub size : Size3

pub record SetAtime : Type 0 where
  pub set_it : TimeHow
  pub atime : Nfstime3

pub record SetMtime : Type 0 where
  pub set_it : TimeHow
  pub mtime : Nfstime3

pub record Sattr3 : Type 0 where
  pub mode : SetMode3
  pub uid : SetUid3
  pub gid : SetGid3
  pub size : SetSize3
  pub atime : SetAtime
  pub mtime : SetMtime

pub record Diropargs3 : Type 0 where
  pub dir : NfsFh3
  pub name : Filename3

pub record Sattrguard3 : Type 0 where
  pub check : BoolT
  pub obj_ctime : Nfstime3

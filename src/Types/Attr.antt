-- ===== src/Types/Attr.antt =====
-- unfs3/nfs.h: attributes and handles.
use unfs2go.Xdr.Stream.{Opaque}
use unfs2go.Types.Names.{Uint64, Uint32, Fileid3, Uid3, Gid3, Size3, Mode3}
use unfs2go.Types.Names.{Ftype3, BoolT}

pub record Specdata3 : Type 0 where
  pub specdata1 : Uint32
  pub specdata2 : Uint32

pub record NfsFh3 : Type 0 where
  pub data_buf : Opaque

pub record Nfstime3 : Type 0 where
  pub seconds : Uint32
  pub nseconds : Uint32

pub record Fattr3 : Type 0 where
  pub type : Ftype3
  pub mode : Mode3
  pub nlink : Uint32
  pub uid : Uid3
  pub gid : Gid3
  pub size : Size3
  pub used : Size3
  pub rdev : Specdata3
  pub fsid : Uint64
  pub fileid : Fileid3
  pub atime : Nfstime3
  pub mtime : Nfstime3
  pub ctime : Nfstime3

pub record PostOpAttr : Type 0 where
  pub attributes_follow : BoolT
  pub attributes : Fattr3

pub record WccAttr : Type 0 where
  pub size : Size3
  pub mtime : Nfstime3
  pub ctime : Nfstime3

pub record PreOpAttr : Type 0 where
  pub attributes_follow : BoolT
  pub attributes : WccAttr

pub record WccData : Type 0 where
  pub before : PreOpAttr
  pub after : PostOpAttr

pub record PostOpFh3 : Type 0 where
  pub handle_follows : BoolT
  pub handle : NfsFh3

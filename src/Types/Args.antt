-- ===== src/Types/Args.antt =====
-- unfs3/nfs.h: the arguments of the procedures, GETATTR to SYMLINK.
use unfs2go.Xdr.Stream.{Opaque}
use unfs2go.Types.Names.{Uint32, Nfspath3, Createverf3, Offset3, Count3, StableHow, Createmode3}
use unfs2go.Types.Attr.{NfsFh3}
use unfs2go.Types.Sattr.{Sattr3, Diropargs3, Sattrguard3}

pub record Getattr3Args : Type 0 where
  pub object : NfsFh3

pub record Setattr3Args : Type 0 where
  pub object : NfsFh3
  pub new_attributes : Sattr3
  pub guard : Sattrguard3

pub record Lookup3Args : Type 0 where
  pub what : Diropargs3

pub record Access3Args : Type 0 where
  pub object : NfsFh3
  pub access : Uint32

pub record Readlink3Args : Type 0 where
  pub symlink : NfsFh3

pub record Read3Args : Type 0 where
  pub file : NfsFh3
  pub offset : Offset3
  pub count : Count3

pub record Write3Args : Type 0 where
  pub file : NfsFh3
  pub offset : Offset3
  pub count : Count3
  pub stable : StableHow
  pub data_buf : Opaque

pub record Createhow3 : Type 0 where
  pub mode : Createmode3
  pub obj_attributes : Sattr3
  pub verf : Createverf3

pub record Create3Args : Type 0 where
  pub where_args : Diropargs3
  pub how : Createhow3

pub record Mkdir3Args : Type 0 where
  pub where_args : Diropargs3
  pub attributes : Sattr3

pub record Symlinkdata3 : Type 0 where
  pub symlink_attributes : Sattr3
  pub symlink_data : Nfspath3

pub record Symlink3Args : Type 0 where
  pub where_args : Diropargs3
  pub symlink : Symlinkdata3

-- ===== src/Mount/Types.antt =====
-- unfs3/mount.h: the types of the mount protocol. A struct that points to the next one is an item of a
-- list, without that pointer.
use unfs2go.Common.{ℕ, List}
use unfs2go.Xdr.Stream.{CharPtr, Opaque}

abbrev pub mntpathlen : ℕ
mntpathlen = 1024

abbrev pub mntnamlen : ℕ
mntnamlen = 255

abbrev pub fhsize3 : ℕ
fhsize3 = 64

abbrev pub mnt3_ok : ℕ
mnt3_ok = 0

abbrev pub mnt3err_noent : ℕ
mnt3err_noent = 2

abbrev pub mnt3err_acces : ℕ
mnt3err_acces = 13

abbrev pub mnt3err_notdir : ℕ
mnt3err_notdir = 20

abbrev pub mnt3err_inval : ℕ
mnt3err_inval = 22

abbrev pub mnt3err_nametoolong : ℕ
mnt3err_nametoolong = 63

abbrev pub Mountstat3 : Type 0
Mountstat3 = ℕ

abbrev pub Dirpath : Type 0
Dirpath = CharPtr

abbrev pub Name : Type 0
Name = CharPtr

abbrev pub Fhandle3 : Type 0
Fhandle3 = Opaque

pub record Mountres3Ok : Type 0 where
  pub fhandle : Fhandle3
  pub auth_flavors : List ℕ

pub record Mountres3 : Type 0 where
  pub fhs_status : Mountstat3
  pub mountinfo : Mountres3Ok

pub record Mountbody : Type 0 where
  pub ml_hostname : Name
  pub ml_directory : Dirpath

pub record Exportnode : Type 0 where
  pub ex_dir : Dirpath
  pub ex_groups : List Name

-- ===== src/Daemon/Format.antt =====
-- The wire formats of the arguments and the results of all procedures.
use unfs2go.Common.{ℕ, List, []}
use unfs2go.Xdr.Codes.{replaced}
use unfs2go.Wire.Args.{
  IsGetattr3Args, wire_getattr3args, IsSetattr3Args, wire_setattr3args, decoded_setattr3args,
  IsLookup3Args, wire_lookup3args,
}
use unfs2go.Wire.Args.{
  IsAccess3Args, wire_access3args, IsReadlink3Args, wire_readlink3args, IsRead3Args, wire_read3args,
  IsWrite3Args,
}
use unfs2go.Wire.Args.{
  wire_write3args, IsCreate3Args, wire_create3args, decoded_create3args, IsMkdir3Args,
  wire_mkdir3args, decoded_mkdir3args,
}
use unfs2go.Wire.Args.{IsSymlink3Args, wire_symlink3args, decoded_symlink3args}
use unfs2go.Wire.DirArgs.{
  IsMknod3Args, wire_mknod3args, decoded_mknod3args, IsRemove3Args, wire_remove3args, IsRmdir3Args,
  wire_rmdir3args,
}
use unfs2go.Wire.DirArgs.{
  IsRename3Args, wire_rename3args, IsLink3Args, wire_link3args, IsReaddir3Args, wire_readdir3args,
  IsReaddirplus3Args,
}
use unfs2go.Wire.DirArgs.{
  wire_readdirplus3args, IsFsstat3Args, wire_fsstat3args, IsFsinfo3Args, wire_fsinfo3args,
  IsPathconf3Args, wire_pathconf3args,
}
use unfs2go.Wire.DirArgs.{IsCommit3Args, wire_commit3args}
use unfs2go.Wire.Res.{
  IsGetattr3Res, wire_getattr3res, decoded_getattr3res, IsSetattr3Res, wire_setattr3res,
  decoded_setattr3res, IsLookup3Res,
}
use unfs2go.Wire.Res.{
  wire_lookup3res, decoded_lookup3res, IsAccess3Res, wire_access3res, decoded_access3res,
  IsReadlink3Res, wire_readlink3res,
}
use unfs2go.Wire.Res.{decoded_readlink3res}
use unfs2go.Wire.FileRes.{
  IsRead3Res, wire_read3res, decoded_read3res, IsWrite3Res, wire_write3res, decoded_write3res,
  IsCreate3Res,
}
use unfs2go.Wire.FileRes.{
  wire_create3res, decoded_create3res, IsMkdir3Res, wire_mkdir3res, decoded_mkdir3res,
}
use unfs2go.Wire.LinkRes.{
  IsSymlink3Res, wire_symlink3res, decoded_symlink3res, IsMknod3Res, wire_mknod3res,
  decoded_mknod3res, IsRemove3Res,
}
use unfs2go.Wire.LinkRes.{
  wire_remove3res, decoded_remove3res, IsRmdir3Res, wire_rmdir3res, decoded_rmdir3res, IsRename3Res,
  wire_rename3res,
}
use unfs2go.Wire.LinkRes.{decoded_rename3res, IsLink3Res, wire_link3res, decoded_link3res}
use unfs2go.Wire.FsRes.{
  IsFsstat3Res, wire_fsstat3res, decoded_fsstat3res, IsFsinfo3Res, wire_fsinfo3res,
  decoded_fsinfo3res, IsPathconf3Res,
}
use unfs2go.Wire.FsRes.{
  wire_pathconf3res, decoded_pathconf3res, IsCommit3Res, wire_commit3res, decoded_commit3res,
}
use unfs2go.Wire.DirRes.{
  IsReaddir3Res, wire_readdir3res, decoded_readdir3res, IsReaddirplus3Res, wire_readdirplus3res,
  decoded_readdirplus3res,
}
use unfs2go.Daemon.Proc.{NfsProc, Args, Res, proc_null, getattr, setattr, lookup}
use unfs2go.Daemon.Proc.{access, readlink, read, write, create, mkdir, symlink}
use unfs2go.Daemon.Proc.{mknod, remove, rmdir, rename, link, readdir, readdirplus}
use unfs2go.Daemon.Proc.{fsstat, fsinfo, pathconf, commit}

abbrev pub IsArgs : (p : NfsProc) → Args p → Type 0
IsArgs proc_null = λ o. Unit
IsArgs getattr = IsGetattr3Args
IsArgs setattr = IsSetattr3Args
IsArgs lookup = IsLookup3Args
IsArgs access = IsAccess3Args
IsArgs readlink = IsReadlink3Args
IsArgs read = IsRead3Args
IsArgs write = IsWrite3Args
IsArgs create = IsCreate3Args
IsArgs mkdir = IsMkdir3Args
IsArgs symlink = IsSymlink3Args
IsArgs mknod = IsMknod3Args
IsArgs remove = IsRemove3Args
IsArgs rmdir = IsRmdir3Args
IsArgs rename = IsRename3Args
IsArgs link = IsLink3Args
IsArgs readdir = IsReaddir3Args
IsArgs readdirplus = IsReaddirplus3Args
IsArgs fsstat = IsFsstat3Args
IsArgs fsinfo = IsFsinfo3Args
IsArgs pathconf = IsPathconf3Args
IsArgs commit = IsCommit3Args

abbrev pub wire_args : (p : NfsProc) → Args p → List ℕ
wire_args proc_null = λ o. []
wire_args getattr = wire_getattr3args
wire_args setattr = wire_setattr3args
wire_args lookup = wire_lookup3args
wire_args access = wire_access3args
wire_args readlink = wire_readlink3args
wire_args read = wire_read3args
wire_args write = wire_write3args
wire_args create = wire_create3args
wire_args mkdir = wire_mkdir3args
wire_args symlink = wire_symlink3args
wire_args mknod = wire_mknod3args
wire_args remove = wire_remove3args
wire_args rmdir = wire_rmdir3args
wire_args rename = wire_rename3args
wire_args link = wire_link3args
wire_args readdir = wire_readdir3args
wire_args readdirplus = wire_readdirplus3args
wire_args fsstat = wire_fsstat3args
wire_args fsinfo = wire_fsinfo3args
wire_args pathconf = wire_pathconf3args
wire_args commit = wire_commit3args

-- What decoding makes of an argument that was there before.
abbrev pub decoded_args : (p : NfsProc) → Args p → Args p → Args p
decoded_args proc_null = λ o old. old
decoded_args getattr = replaced
decoded_args setattr = decoded_setattr3args
decoded_args lookup = replaced
decoded_args access = replaced
decoded_args readlink = replaced
decoded_args read = replaced
decoded_args write = replaced
decoded_args create = decoded_create3args
decoded_args mkdir = decoded_mkdir3args
decoded_args symlink = decoded_symlink3args
decoded_args mknod = decoded_mknod3args
decoded_args remove = replaced
decoded_args rmdir = replaced
decoded_args rename = replaced
decoded_args link = replaced
decoded_args readdir = replaced
decoded_args readdirplus = replaced
decoded_args fsstat = replaced
decoded_args fsinfo = replaced
decoded_args pathconf = replaced
decoded_args commit = replaced

abbrev pub IsRes : ℕ → (p : NfsProc) → Res p → Type 0
IsRes depth proc_null = λ o. Unit
IsRes depth getattr = IsGetattr3Res
IsRes depth setattr = IsSetattr3Res
IsRes depth lookup = IsLookup3Res
IsRes depth access = IsAccess3Res
IsRes depth readlink = IsReadlink3Res
IsRes depth read = IsRead3Res
IsRes depth write = IsWrite3Res
IsRes depth create = IsCreate3Res
IsRes depth mkdir = IsMkdir3Res
IsRes depth symlink = IsSymlink3Res
IsRes depth mknod = IsMknod3Res
IsRes depth remove = IsRemove3Res
IsRes depth rmdir = IsRmdir3Res
IsRes depth rename = IsRename3Res
IsRes depth link = IsLink3Res
IsRes depth readdir = IsReaddir3Res depth
IsRes depth readdirplus = IsReaddirplus3Res depth
IsRes depth fsstat = IsFsstat3Res
IsRes depth fsinfo = IsFsinfo3Res
IsRes depth pathconf = IsPathconf3Res
IsRes depth commit = IsCommit3Res

abbrev pub wire_res : (p : NfsProc) → Res p → List ℕ
wire_res proc_null = λ o. []
wire_res getattr = wire_getattr3res
wire_res setattr = wire_setattr3res
wire_res lookup = wire_lookup3res
wire_res access = wire_access3res
wire_res readlink = wire_readlink3res
wire_res read = wire_read3res
wire_res write = wire_write3res
wire_res create = wire_create3res
wire_res mkdir = wire_mkdir3res
wire_res symlink = wire_symlink3res
wire_res mknod = wire_mknod3res
wire_res remove = wire_remove3res
wire_res rmdir = wire_rmdir3res
wire_res rename = wire_rename3res
wire_res link = wire_link3res
wire_res readdir = wire_readdir3res
wire_res readdirplus = wire_readdirplus3res
wire_res fsstat = wire_fsstat3res
wire_res fsinfo = wire_fsinfo3res
wire_res pathconf = wire_pathconf3res
wire_res commit = wire_commit3res

abbrev pub decoded_res : (p : NfsProc) → Res p → Res p → Res p
decoded_res proc_null = λ o old. old
decoded_res getattr = decoded_getattr3res
decoded_res setattr = decoded_setattr3res
decoded_res lookup = decoded_lookup3res
decoded_res access = decoded_access3res
decoded_res readlink = decoded_readlink3res
decoded_res read = decoded_read3res
decoded_res write = decoded_write3res
decoded_res create = decoded_create3res
decoded_res mkdir = decoded_mkdir3res
decoded_res symlink = decoded_symlink3res
decoded_res mknod = decoded_mknod3res
decoded_res remove = decoded_remove3res
decoded_res rmdir = decoded_rmdir3res
decoded_res rename = decoded_rename3res
decoded_res link = decoded_link3res
decoded_res readdir = decoded_readdir3res
decoded_res readdirplus = decoded_readdirplus3res
decoded_res fsstat = decoded_fsstat3res
decoded_res fsinfo = decoded_fsinfo3res
decoded_res pathconf = decoded_pathconf3res
decoded_res commit = decoded_commit3res

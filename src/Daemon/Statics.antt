-- ===== src/Daemon/Statics.antt =====
-- unfs3/nfs.c: the `static` results of the procedures, which last from call to call.
use unfs2go.Types.Res.{Getattr3Res, Setattr3Res, Lookup3Res, Access3Res, Readlink3Res}
use unfs2go.Types.FileRes.{Read3Res, Write3Res, Create3Res, Mkdir3Res}
use unfs2go.Types.LinkRes.{Symlink3Res, Mknod3Res, Remove3Res, Rmdir3Res, Rename3Res, Link3Res}
use unfs2go.Types.FsRes.{Fsstat3Res, Fsinfo3Res, Pathconf3Res, Commit3Res}
use unfs2go.Types.DirRes.{Readdir3Res, Readdirplus3Res}
use unfs2go.Daemon.Proc.{NfsProc, Res, proc_null, getattr, setattr, lookup, access}
use unfs2go.Daemon.Proc.{readlink, read, write, create, mkdir, symlink, mknod}
use unfs2go.Daemon.Proc.{remove, rmdir, rename, link, readdir, readdirplus, fsstat}
use unfs2go.Daemon.Proc.{fsinfo, pathconf, commit}
use unfs2go.Types.ZeroRes.{
  zero_getattr3res, zero_setattr3res, zero_lookup3res, zero_access3res, zero_readlink3res,
  zero_read3res, zero_write3res,
}
use unfs2go.Types.ZeroRes.{
  zero_create3res, zero_mkdir3res, zero_symlink3res, zero_mknod3res, zero_remove3res,
  zero_rmdir3res, zero_rename3res,
}
use unfs2go.Types.ZeroRes.{
  zero_link3res, zero_readdir3res, zero_readdirplus3res, zero_fsstat3res, zero_fsinfo3res,
  zero_pathconf3res, zero_commit3res,
}

pub record Statics : Type 0 where
  pub getattr_result : Getattr3Res
  pub setattr_result : Setattr3Res
  pub lookup_result : Lookup3Res
  pub access_result : Access3Res
  pub readlink_result : Readlink3Res
  pub read_result : Read3Res
  pub write_result : Write3Res
  pub create_result : Create3Res
  pub mkdir_result : Mkdir3Res
  pub symlink_result : Symlink3Res
  pub mknod_result : Mknod3Res
  pub remove_result : Remove3Res
  pub rmdir_result : Rmdir3Res
  pub rename_result : Rename3Res
  pub link_result : Link3Res
  pub readdir_result : Readdir3Res
  pub readdirplus_result : Readdirplus3Res
  pub fsstat_result : Fsstat3Res
  pub fsinfo_result : Fsinfo3Res
  pub pathconf_result : Pathconf3Res
  pub commit_result : Commit3Res

unfoldable pub get_static : (p : NfsProc) → Statics → Res p
get_static proc_null st = tt
get_static getattr st = st.getattr_result
get_static setattr st = st.setattr_result
get_static lookup st = st.lookup_result
get_static access st = st.access_result
get_static readlink st = st.readlink_result
get_static read st = st.read_result
get_static write st = st.write_result
get_static create st = st.create_result
get_static mkdir st = st.mkdir_result
get_static symlink st = st.symlink_result
get_static mknod st = st.mknod_result
get_static remove st = st.remove_result
get_static rmdir st = st.rmdir_result
get_static rename st = st.rename_result
get_static link st = st.link_result
get_static readdir st = st.readdir_result
get_static readdirplus st = st.readdirplus_result
get_static fsstat st = st.fsstat_result
get_static fsinfo st = st.fsinfo_result
get_static pathconf st = st.pathconf_result
get_static commit st = st.commit_result

unfoldable pub set_static : (p : NfsProc) → Res p → Statics → Statics
set_static proc_null r st = st
set_static getattr r st = record st { getattr_result = r }
set_static setattr r st = record st { setattr_result = r }
set_static lookup r st = record st { lookup_result = r }
set_static access r st = record st { access_result = r }
set_static readlink r st = record st { readlink_result = r }
set_static read r st = record st { read_result = r }
set_static write r st = record st { write_result = r }
set_static create r st = record st { create_result = r }
set_static mkdir r st = record st { mkdir_result = r }
set_static symlink r st = record st { symlink_result = r }
set_static mknod r st = record st { mknod_result = r }
set_static remove r st = record st { remove_result = r }
set_static rmdir r st = record st { rmdir_result = r }
set_static rename r st = record st { rename_result = r }
set_static link r st = record st { link_result = r }
set_static readdir r st = record st { readdir_result = r }
set_static readdirplus r st = record st { readdirplus_result = r }
set_static fsstat r st = record st { fsstat_result = r }
set_static fsinfo r st = record st { fsinfo_result = r }
set_static pathconf r st = record st { pathconf_result = r }
set_static commit r st = record st { commit_result = r }

-- Static storage before the first call.
abbrev pub zero_statics : Statics
zero_statics = record {
  getattr_result = zero_getattr3res;
  setattr_result = zero_setattr3res;
  lookup_result = zero_lookup3res;
  access_result = zero_access3res;
  readlink_result = zero_readlink3res;
  read_result = zero_read3res;
  write_result = zero_write3res;
  create_result = zero_create3res;
  mkdir_result = zero_mkdir3res;
  symlink_result = zero_symlink3res;
  mknod_result = zero_mknod3res;
  remove_result = zero_remove3res;
  rmdir_result = zero_rmdir3res;
  rename_result = zero_rename3res;
  link_result = zero_link3res;
  readdir_result = zero_readdir3res;
  readdirplus_result = zero_readdirplus3res;
  fsstat_result = zero_fsstat3res;
  fsinfo_result = zero_fsinfo3res;
  pathconf_result = zero_pathconf3res;
  commit_result = zero_commit3res;
}

-- ===== src/Daemon/Proc.antt =====
-- unfs3/daemon.c: the procedures of `nfs3_program_3`, with the types of their arguments and results.
use unfs2go.Common.{ℕ, ◌==◌, if◌then◌else◌, Option, none, some}
use unfs2go.Types.Args.{
  Getattr3Args, Setattr3Args, Lookup3Args, Access3Args, Readlink3Args, Read3Args, Write3Args,
}
use unfs2go.Types.Args.{Create3Args, Mkdir3Args, Symlink3Args}
use unfs2go.Types.DirArgs.{
  Mknod3Args, Remove3Args, Rmdir3Args, Rename3Args, Link3Args, Readdir3Args, Readdirplus3Args,
}
use unfs2go.Types.DirArgs.{Fsstat3Args, Fsinfo3Args, Pathconf3Args, Commit3Args}
use unfs2go.Types.Res.{Getattr3Res, Setattr3Res, Lookup3Res, Access3Res, Readlink3Res}
use unfs2go.Types.FileRes.{Read3Res, Write3Res, Create3Res, Mkdir3Res}
use unfs2go.Types.LinkRes.{Symlink3Res, Mknod3Res, Remove3Res, Rmdir3Res, Rename3Res, Link3Res}
use unfs2go.Types.FsRes.{Fsstat3Res, Fsinfo3Res, Pathconf3Res, Commit3Res}
use unfs2go.Types.DirRes.{Readdir3Res, Readdirplus3Res}
use unfs2go.Types.Zero.{
  zero_getattr3args, zero_setattr3args, zero_lookup3args, zero_access3args, zero_readlink3args,
  zero_read3args, zero_write3args,
}
use unfs2go.Types.Zero.{
  zero_create3args, zero_mkdir3args, zero_symlink3args, zero_mknod3args, zero_remove3args,
  zero_rmdir3args, zero_rename3args,
}
use unfs2go.Types.Zero.{
  zero_link3args, zero_readdir3args, zero_readdirplus3args, zero_fsstat3args, zero_fsinfo3args,
  zero_pathconf3args, zero_commit3args,
}

pub data NfsProc : Type 0 where
  proc_null getattr setattr lookup access readlink read write create mkdir symlink : NfsProc
  mknod remove rmdir rename link readdir readdirplus fsstat fsinfo pathconf commit : NfsProc

-- The labels of the `switch`; `none` is its default.
unfoldable pub nfs_proc : ℕ → Option NfsProc
nfs_proc rq_proc =
    if rq_proc == 0
    then some proc_null
    else if rq_proc == 1
    then some getattr
    else if rq_proc == 2
    then some setattr
    else if rq_proc == 3
    then some lookup
    else if rq_proc == 4
    then some access
    else if rq_proc == 5
    then some readlink
    else if rq_proc == 6
    then some read
    else if rq_proc == 7
    then some write
    else if rq_proc == 8
    then some create
    else if rq_proc == 9
    then some mkdir
    else if rq_proc == 10
    then some symlink
    else if rq_proc == 11
    then some mknod
    else if rq_proc == 12
    then some remove
    else if rq_proc == 13
    then some rmdir
    else if rq_proc == 14
    then some rename
    else if rq_proc == 15
    then some link
    else if rq_proc == 16
    then some readdir
    else if rq_proc == 17
    then some readdirplus
    else if rq_proc == 18
    then some fsstat
    else if rq_proc == 19
    then some fsinfo
    else if rq_proc == 20
    then some pathconf
    else if rq_proc == 21
    then some commit
    else none

abbrev pub Args : NfsProc → Type 0
Args proc_null = Unit
Args getattr = Getattr3Args
Args setattr = Setattr3Args
Args lookup = Lookup3Args
Args access = Access3Args
Args readlink = Readlink3Args
Args read = Read3Args
Args write = Write3Args
Args create = Create3Args
Args mkdir = Mkdir3Args
Args symlink = Symlink3Args
Args mknod = Mknod3Args
Args remove = Remove3Args
Args rmdir = Rmdir3Args
Args rename = Rename3Args
Args link = Link3Args
Args readdir = Readdir3Args
Args readdirplus = Readdirplus3Args
Args fsstat = Fsstat3Args
Args fsinfo = Fsinfo3Args
Args pathconf = Pathconf3Args
Args commit = Commit3Args

abbrev pub Res : NfsProc → Type 0
Res proc_null = Unit
Res getattr = Getattr3Res
Res setattr = Setattr3Res
Res lookup = Lookup3Res
Res access = Access3Res
Res readlink = Readlink3Res
Res read = Read3Res
Res write = Write3Res
Res create = Create3Res
Res mkdir = Mkdir3Res
Res symlink = Symlink3Res
Res mknod = Mknod3Res
Res remove = Remove3Res
Res rmdir = Rmdir3Res
Res rename = Rename3Res
Res link = Link3Res
Res readdir = Readdir3Res
Res readdirplus = Readdirplus3Res
Res fsstat = Fsstat3Res
Res fsinfo = Fsinfo3Res
Res pathconf = Pathconf3Res
Res commit = Commit3Res

-- `memset(&argument, 0, sizeof(argument))`
abbrev pub zero_args : (p : NfsProc) → Args p
zero_args proc_null = tt
zero_args getattr = zero_getattr3args
zero_args setattr = zero_setattr3args
zero_args lookup = zero_lookup3args
zero_args access = zero_access3args
zero_args readlink = zero_readlink3args
zero_args read = zero_read3args
zero_args write = zero_write3args
zero_args create = zero_create3args
zero_args mkdir = zero_mkdir3args
zero_args symlink = zero_symlink3args
zero_args mknod = zero_mknod3args
zero_args remove = zero_remove3args
zero_args rmdir = zero_rmdir3args
zero_args rename = zero_rename3args
zero_args link = zero_link3args
zero_args readdir = zero_readdir3args
zero_args readdirplus = zero_readdirplus3args
zero_args fsstat = zero_fsstat3args
zero_args fsinfo = zero_fsinfo3args
zero_args pathconf = zero_pathconf3args
zero_args commit = zero_commit3args

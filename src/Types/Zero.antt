-- ===== src/Types/Zero.antt =====
-- Zeroed objects: what `memset`, `calloc` and static storage give.
use unfs2go.Common.{ℕ, List, [], ◌∷◌, none}
use unfs2go.Types.Attr.{Specdata3, NfsFh3, Nfstime3, Fattr3, PostOpAttr, WccAttr, PreOpAttr}
use unfs2go.Types.Attr.{WccData, PostOpFh3}
use unfs2go.Types.Sattr.{SetMode3, SetUid3, SetGid3, SetSize3, SetAtime, SetMtime, Sattr3}
use unfs2go.Types.Sattr.{Diropargs3, Sattrguard3}
use unfs2go.Types.Args.{
  Getattr3Args, Setattr3Args, Lookup3Args, Access3Args, Readlink3Args, Read3Args, Write3Args,
}
use unfs2go.Types.Args.{Createhow3, Create3Args, Mkdir3Args, Symlinkdata3, Symlink3Args}
use unfs2go.Types.DirArgs.{
  Devicedata3, Mknoddata3, Mknod3Args, Remove3Args, Rmdir3Args, Rename3Args, Link3Args,
}
use unfs2go.Types.DirArgs.{
  Readdir3Args, Readdirplus3Args, Fsstat3Args, Fsinfo3Args, Pathconf3Args, Commit3Args,
}
use unfs2go.Types.Entries.{Entry3Item, Entryplus3Item}

abbrev pub zero_verf : List ℕ
zero_verf = 0 ∷ 0 ∷ 0 ∷ 0 ∷ 0 ∷ 0 ∷ 0 ∷ 0 ∷ []

abbrev pub zero_specdata3 : Specdata3
zero_specdata3 = record { specdata1 = 0; specdata2 = 0 }

abbrev pub zero_nfs_fh3 : NfsFh3
zero_nfs_fh3 = record { data_buf = record { data_len = 0; data_val = [] } }

abbrev pub zero_nfstime3 : Nfstime3
zero_nfstime3 = record { seconds = 0; nseconds = 0 }

abbrev pub zero_fattr3 : Fattr3
zero_fattr3 = record {
  type = 0;
  mode = 0;
  nlink = 0;
  uid = 0;
  gid = 0;
  size = 0;
  used = 0;
  rdev = zero_specdata3;
  fsid = 0;
  fileid = 0;
  atime = zero_nfstime3;
  mtime = zero_nfstime3;
  ctime = zero_nfstime3;
}

abbrev pub zero_post_op_attr : PostOpAttr
zero_post_op_attr = record { attributes_follow = 0; attributes = zero_fattr3 }

abbrev pub zero_wcc_attr : WccAttr
zero_wcc_attr = record { size = 0; mtime = zero_nfstime3; ctime = zero_nfstime3 }

abbrev pub zero_pre_op_attr : PreOpAttr
zero_pre_op_attr = record { attributes_follow = 0; attributes = zero_wcc_attr }

abbrev pub zero_wcc_data : WccData
zero_wcc_data = record { before = zero_pre_op_attr; after = zero_post_op_attr }

abbrev pub zero_post_op_fh3 : PostOpFh3
zero_post_op_fh3 = record { handle_follows = 0; handle = zero_nfs_fh3 }

abbrev pub zero_set_mode3 : SetMode3
zero_set_mode3 = record { set_it = 0; mode = 0 }

abbrev pub zero_set_uid3 : SetUid3
zero_set_uid3 = record { set_it = 0; uid = 0 }

abbrev pub zero_set_gid3 : SetGid3
zero_set_gid3 = record { set_it = 0; gid = 0 }

abbrev pub zero_set_size3 : SetSize3
zero_set_size3 = record { set_it = 0; size = 0 }

abbrev pub zero_set_atime : SetAtime
zero_set_atime = record { set_it = 0; atime = zero_nfstime3 }

abbrev pub zero_set_mtime : SetMtime
zero_set_mtime = record { set_it = 0; mtime = zero_nfstime3 }

abbrev pub zero_sattr3 : Sattr3
zero_sattr3 = record {
  mode = zero_set_mode3;
  uid = zero_set_uid3;
  gid = zero_set_gid3;
  size = zero_set_size3;
  atime = zero_set_atime;
  mtime = zero_set_mtime;
}

abbrev pub zero_diropargs3 : Diropargs3
zero_diropargs3 = record { dir = zero_nfs_fh3; name = none }

abbrev pub zero_sattrguard3 : Sattrguard3
zero_sattrguard3 = record { check = 0; obj_ctime = zero_nfstime3 }

abbrev pub zero_getattr3args : Getattr3Args
zero_getattr3args = record { object = zero_nfs_fh3 }

abbrev pub zero_setattr3args : Setattr3Args
zero_setattr3args = record {
  object = zero_nfs_fh3;
  new_attributes = zero_sattr3;
  guard = zero_sattrguard3;
}

abbrev pub zero_lookup3args : Lookup3Args
zero_lookup3args = record { what = zero_diropargs3 }

abbrev pub zero_access3args : Access3Args
zero_access3args = record { object = zero_nfs_fh3; access = 0 }

abbrev pub zero_readlink3args : Readlink3Args
zero_readlink3args = record { symlink = zero_nfs_fh3 }

abbrev pub zero_read3args : Read3Args
zero_read3args = record { file = zero_nfs_fh3; offset = 0; count = 0 }

abbrev pub zero_write3args : Write3Args
zero_write3args = record {
  file = zero_nfs_fh3;
  offset = 0;
  count = 0;
  stable = 0;
  data_buf = record { data_len = 0; data_val = [] };
}

abbrev pub zero_createhow3 : Createhow3
zero_createhow3 = record { mode = 0; obj_attributes = zero_sattr3; verf = zero_verf }

abbrev pub zero_create3args : Create3Args
zero_create3args = record { where_args = zero_diropargs3; how = zero_createhow3 }

abbrev pub zero_mkdir3args : Mkdir3Args
zero_mkdir3args = record { where_args = zero_diropargs3; attributes = zero_sattr3 }

abbrev pub zero_symlinkdata3 : Symlinkdata3
zero_symlinkdata3 = record { symlink_attributes = zero_sattr3; symlink_data = none }

abbrev pub zero_symlink3args : Symlink3Args
zero_symlink3args = record { where_args = zero_diropargs3; symlink = zero_symlinkdata3 }

abbrev pub zero_devicedata3 : Devicedata3
zero_devicedata3 = record { dev_attributes = zero_sattr3; spec = zero_specdata3 }

abbrev pub zero_mknoddata3 : Mknoddata3
zero_mknoddata3 = record { type = 0; device = zero_devicedata3 }

abbrev pub zero_mknod3args : Mknod3Args
zero_mknod3args = record { where_args = zero_diropargs3; what = zero_mknoddata3 }

abbrev pub zero_remove3args : Remove3Args
zero_remove3args = record { object = zero_diropargs3 }

abbrev pub zero_rmdir3args : Rmdir3Args
zero_rmdir3args = record { object = zero_diropargs3 }

abbrev pub zero_rename3args : Rename3Args
zero_rename3args = record { from = zero_diropargs3; to = zero_diropargs3 }

abbrev pub zero_link3args : Link3Args
zero_link3args = record { file = zero_nfs_fh3; link = zero_diropargs3 }

abbrev pub zero_readdir3args : Readdir3Args
zero_readdir3args = record { dir = zero_nfs_fh3; cookie = 0; cookieverf = zero_verf; count = 0 }

abbrev pub zero_readdirplus3args : Readdirplus3Args
zero_readdirplus3args = record {
  dir = zero_nfs_fh3;
  cookie = 0;
  cookieverf = zero_verf;
  dircount = 0;
  maxcount = 0;
}

abbrev pub zero_fsstat3args : Fsstat3Args
zero_fsstat3args = record { fsroot = zero_nfs_fh3 }

abbrev pub zero_fsinfo3args : Fsinfo3Args
zero_fsinfo3args = record { fsroot = zero_nfs_fh3 }

abbrev pub zero_pathconf3args : Pathconf3Args
zero_pathconf3args = record { object = zero_nfs_fh3 }

abbrev pub zero_commit3args : Commit3Args
zero_commit3args = record { file = zero_nfs_fh3; offset = 0; count = 0 }

abbrev pub zero_entry3_item : Entry3Item
zero_entry3_item = record { fileid = 0; name = none; cookie = 0 }

abbrev pub zero_entryplus3_item : Entryplus3Item
zero_entryplus3_item = record {
  fileid = 0;
  name = none;
  cookie = 0;
  name_attributes = zero_post_op_attr;
  name_handle = zero_post_op_fh3;
}

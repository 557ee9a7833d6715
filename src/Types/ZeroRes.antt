-- ===== src/Types/ZeroRes.antt =====
-- Zeroed results: what the static results of the procedures hold before the first call.
use unfs2go.Common.{[], none}
use unfs2go.Types.Res.{
  Getattr3ResOk, Getattr3Res, Setattr3ResOk, Setattr3Res, Lookup3ResOk, Lookup3Res, Access3ResOk,
}
use unfs2go.Types.Res.{Access3Res, Readlink3ResOk, Readlink3Res}
use unfs2go.Types.FileRes.{
  Read3ResOk, Read3Res, Write3ResOk, Write3Res, Create3ResOk, Create3Res, Mkdir3ResOk,
}
use unfs2go.Types.FileRes.{Mkdir3Res}
use unfs2go.Types.LinkRes.{
  Symlink3ResOk, Symlink3Res, Mknod3ResOk, Mknod3Res, Remove3ResOk, Remove3Res, Rmdir3ResOk,
}
use unfs2go.Types.LinkRes.{Rmdir3Res, Rename3ResOk, Rename3Res, Link3ResOk, Link3Res}
use unfs2go.Types.FsRes.{
  Fsstat3ResOk, Fsstat3Res, Fsinfo3ResOk, Fsinfo3Res, Pathconf3ResOk, Pathconf3Res, Commit3ResOk,
}
use unfs2go.Types.FsRes.{Commit3Res}
use unfs2go.Types.DirRes.{
  Dirlist3, Readdir3ResOk, Readdir3Res, Dirlistplus3, Readdirplus3ResOk, Readdirplus3Res,
}
use unfs2go.Types.Zero.{
  zero_verf, zero_nfs_fh3, zero_nfstime3, zero_fattr3, zero_post_op_attr, zero_wcc_data,
  zero_post_op_fh3,
}

abbrev pub zero_getattr3resok : Getattr3ResOk
zero_getattr3resok = record { obj_attributes = zero_fattr3 }

abbrev pub zero_getattr3res : Getattr3Res
zero_getattr3res = record { status = 0; resok = zero_getattr3resok }

abbrev pub zero_setattr3resok : Setattr3ResOk
zero_setattr3resok = record { obj_wcc = zero_wcc_data }

abbrev pub zero_setattr3res : Setattr3Res
zero_setattr3res = record { status = 0; resok = zero_setattr3resok }

abbrev pub zero_lookup3resok : Lookup3ResOk
zero_lookup3resok = record {
  dir_attributes = zero_post_op_attr;
  object = zero_nfs_fh3;
  obj_attributes = zero_post_op_attr;
}

abbrev pub zero_lookup3res : Lookup3Res
zero_lookup3res = record { status = 0; resok = zero_lookup3resok }

abbrev pub zero_access3resok : Access3ResOk
zero_access3resok = record { obj_attributes = zero_post_op_attr; access = 0 }

abbrev pub zero_access3res : Access3Res
zero_access3res = record { status = 0; resok = zero_access3resok }

abbrev pub zero_readlink3resok : Readlink3ResOk
zero_readlink3resok = record { symlink_attributes = zero_post_op_attr; data_path = none }

abbrev pub zero_readlink3res : Readlink3Res
zero_readlink3res = record { status = 0; resok = zero_readlink3resok }

abbrev pub zero_read3resok : Read3ResOk
zero_read3resok = record {
  file_attributes = zero_post_op_attr;
  count = 0;
  eof = 0;
  data_buf = record { data_len = 0; data_val = [] };
}

abbrev pub zero_read3res : Read3Res
zero_read3res = record { status = 0; resok = zero_read3resok }

abbrev pub zero_write3resok : Write3ResOk
zero_write3resok = record { file_wcc = zero_wcc_data; count = 0; committed = 0; verf = zero_verf }

abbrev pub zero_write3res : Write3Res
zero_write3res = record { status = 0; resok = zero_write3resok }

abbrev pub zero_create3resok : Create3ResOk
zero_create3resok = record {
  dir_wcc = zero_wcc_data;
  obj = zero_post_op_fh3;
  obj_attributes = zero_post_op_attr;
}

abbrev pub zero_create3res : Create3Res
zero_create3res = record { status = 0; resok = zero_create3resok }

abbrev pub zero_mkdir3resok : Mkdir3ResOk
zero_mkdir3resok = record {
  dir_wcc = zero_wcc_data;
  obj = zero_post_op_fh3;
  obj_attributes = zero_post_op_attr;
}

abbrev pub zero_mkdir3res : Mkdir3Res
zero_mkdir3res = record { status = 0; resok = zero_mkdir3resok }

abbrev pub zero_symlink3resok : Symlink3ResOk
zero_symlink3resok = record {
  dir_wcc = zero_wcc_data;
  obj = zero_post_op_fh3;
  obj_attributes = zero_post_op_attr;
}

abbrev pub zero_symlink3res : Symlink3Res
zero_symlink3res = record { status = 0; resok = zero_symlink3resok }

abbrev pub zero_mknod3resok : Mknod3ResOk
zero_mknod3resok = record {
  dir_wcc = zero_wcc_data;
  obj = zero_post_op_fh3;
  obj_attributes = zero_post_op_attr;
}

abbrev pub zero_mknod3res : Mknod3Res
zero_mknod3res = record { status = 0; resok = zero_mknod3resok }

abbrev pub zero_remove3resok : Remove3ResOk
zero_remove3resok = record { dir_wcc = zero_wcc_data }

abbrev pub zero_remove3res : Remove3Res
zero_remove3res = record { status = 0; resok = zero_remove3resok }

abbrev pub zero_rmdir3resok : Rmdir3ResOk
zero_rmdir3resok = record { dir_wcc = zero_wcc_data }

abbrev pub zero_rmdir3res : Rmdir3Res
zero_rmdir3res = record { status = 0; resok = zero_rmdir3resok }

abbrev pub zero_rename3resok : Rename3ResOk
zero_rename3resok = record { fromdir_wcc = zero_wcc_data; todir_wcc = zero_wcc_data }

abbrev pub zero_rename3res : Rename3Res
zero_rename3res = record { status = 0; resok = zero_rename3resok }

abbrev pub zero_link3resok : Link3ResOk
zero_link3resok = record { file_attributes = zero_post_op_attr; linkdir_wcc = zero_wcc_data }

abbrev pub zero_link3res : Link3Res
zero_link3res = record { status = 0; resok = zero_link3resok }

abbrev pub zero_fsstat3resok : Fsstat3ResOk
zero_fsstat3resok = record {
  obj_attributes = zero_post_op_attr;
  tbytes = 0;
  fbytes = 0;
  abytes = 0;
  tfiles = 0;
  ffiles = 0;
  afiles = 0;
  invarsec = 0;
}

abbrev pub zero_fsstat3res : Fsstat3Res
zero_fsstat3res = record { status = 0; resok = zero_fsstat3resok }

abbrev pub zero_fsinfo3resok : Fsinfo3ResOk
zero_fsinfo3resok = record {
  obj_attributes = zero_post_op_attr;
  rtmax = 0;
  rtpref = 0;
  rtmult = 0;
  wtmax = 0;
  wtpref = 0;
  wtmult = 0;
  dtpref = 0;
  maxfilesize = 0;
  time_delta = zero_nfstime3;
  properties = 0;
}

abbrev pub zero_fsinfo3res : Fsinfo3Res
zero_fsinfo3res = record { status = 0; resok = zero_fsinfo3resok }

abbrev pub zero_pathconf3resok : Pathconf3ResOk
zero_pathconf3resok = record {
  obj_attributes = zero_post_op_attr;
  linkmax = 0;
  name_max = 0;
  no_trunc = 0;
  chown_restricted = 0;
  case_insensitive = 0;
  case_preserving = 0;
}

abbrev pub zero_pathconf3res : Pathconf3Res
zero_pathconf3res = record { status = 0; resok = zero_pathconf3resok }

abbrev pub zero_commit3resok : Commit3ResOk
zero_commit3resok = record { file_wcc = zero_wcc_data; verf = zero_verf }

abbrev pub zero_commit3res : Commit3Res
zero_commit3res = record { status = 0; resok = zero_commit3resok }

abbrev pub zero_dirlist3 : Dirlist3
zero_dirlist3 = record { entries = []; eof = 0 }

abbrev pub zero_readdir3resok : Readdir3ResOk
zero_readdir3resok = record {
  dir_attributes = zero_post_op_attr;
  cookieverf = zero_verf;
  reply = zero_dirlist3;
}

abbrev pub zero_readdir3res : Readdir3Res
zero_readdir3res = record { status = 0; resok = zero_readdir3resok }

abbrev pub zero_dirlistplus3 : Dirlistplus3
zero_dirlistplus3 = record { entries = []; eof = 0 }

abbrev pub zero_readdirplus3resok : Readdirplus3ResOk
zero_readdirplus3resok = record {
  dir_attributes = zero_post_op_attr;
  cookieverf = zero_verf;
  reply = zero_dirlistplus3;
}

abbrev pub zero_readdirplus3res : Readdirplus3Res
zero_readdirplus3res = record { status = 0; resok = zero_readdirplus3resok }

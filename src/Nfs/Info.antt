-- ===== src/Nfs/Info.antt =====
-- unfs3/nfs.c: FSSTAT, FSINFO and PATHCONF, and the procedures that are not supported.
use unfs2go.Common.{bit_or}
use unfs2go.Types.Attr.{PostOpAttr, WccData}
use unfs2go.Types.Args.{Readlink3Args, Symlink3Args}
use unfs2go.Types.DirArgs.{Mknod3Args, Link3Args, Fsstat3Args, Fsinfo3Args, Pathconf3Args}
use unfs2go.Types.Res.{Readlink3Res}
use unfs2go.Types.LinkRes.{Symlink3Res, Mknod3Res, Link3Res}
use unfs2go.Types.FsRes.{Fsstat3Res, Fsinfo3Res, Pathconf3Res}
use unfs2go.Types.Constants.{
  bool_true, bool_false, nfs3_ok, nfs3err_notsupp, nfs_maxpathlen, fsf3_link, fsf3_symlink,
  fsf3_homogeneous, fsf3_cansettime,
}
use unfs2go.Backend.{Server}
use unfs2go.Request.{SvcReq, maxdata}
use unfs2go.Handle.{fh_decomp}
use unfs2go.Attributes.{get_post}

-- `attributes_follow = FALSE`; the attributes stay what they were.
abbrev no_post : PostOpAttr → PostOpAttr
no_post a = record a { attributes_follow = bool_false }

abbrev no_wcc : WccData → WccData
no_wcc w = record {
  before = record w.before { attributes_follow = bool_false };
  after = no_post w.after;
}

unfoldable pub nfsproc3_readlink_3_svc : Readlink3Args → SvcReq → Readlink3Res → Readlink3Res
nfsproc3_readlink_3_svc argp rqstp result = record {
  status = nfs3err_notsupp;
  resok = record result.resok { symlink_attributes = no_post result.resok.symlink_attributes };
}

unfoldable pub nfsproc3_symlink_3_svc : Symlink3Args → SvcReq → Symlink3Res → Symlink3Res
nfsproc3_symlink_3_svc argp rqstp result = record {
  status = nfs3err_notsupp;
  resok = record result.resok { dir_wcc = no_wcc result.resok.dir_wcc };
}

unfoldable pub nfsproc3_mknod_3_svc : Mknod3Args → SvcReq → Mknod3Res → Mknod3Res
nfsproc3_mknod_3_svc argp rqstp result = record {
  status = nfs3err_notsupp;
  resok = record result.resok { dir_wcc = no_wcc result.resok.dir_wcc };
}

unfoldable pub nfsproc3_link_3_svc : Link3Args → SvcReq → Link3Res → Link3Res
nfsproc3_link_3_svc argp rqstp result = record {
  status = nfs3err_notsupp;
  resok = record {
    file_attributes = no_post result.resok.file_attributes;
    linkdir_wcc = no_wcc result.resok.linkdir_wcc;
  };
}

module _ (srv : Server) where
  open srv use {backend.{State}}

  unfoldable pub nfsproc3_fsstat_3_svc :
      Fsstat3Args → SvcReq → Fsstat3Res → State → Fsstat3Res × State
  nfsproc3_fsstat_3_svc argp rqstp result s =
      let path = fh_decomp srv argp.fsroot s in
      let (post, s') = get_post srv path s in
      (
        record {
          status = nfs3_ok;
          resok = record {
            obj_attributes = post;
            tbytes = 2_000_000_000_000;
            fbytes = 1_000_000_000_000;
            abytes = 900_000_000_000;
            tfiles = 100;
            ffiles = 10_000;
            afiles = 10_000;
            invarsec = 0;
          };
        },
        s',
      )

  unfoldable pub nfsproc3_fsinfo_3_svc :
      Fsinfo3Args → SvcReq → Fsinfo3Res → State → Fsinfo3Res × State
  nfsproc3_fsinfo_3_svc argp rqstp result s =
      let path = fh_decomp srv argp.fsroot s in
      let (post, s') = get_post srv path s in
      (
        record {
          status = nfs3_ok;
          resok = record {
            obj_attributes = post;
            rtmax = maxdata rqstp;
            rtpref = maxdata rqstp;
            rtmult = 4096;
            wtmax = maxdata rqstp;
            wtpref = maxdata rqstp;
            wtmult = 4096;
            dtpref = 4096;
            maxfilesize = 0xffff_ffff_ffff_ffff;
            time_delta = record { seconds = 1; nseconds = 0 };
            properties =
                bit_or fsf3_link (bit_or fsf3_symlink (bit_or fsf3_homogeneous fsf3_cansettime));
          };
        },
        s',
      )

  unfoldable pub nfsproc3_pathconf_3_svc :
      Pathconf3Args → SvcReq → Pathconf3Res → State → Pathconf3Res × State
  nfsproc3_pathconf_3_svc argp rqstp result s =
      let path = fh_decomp srv argp.object s in
      let (post, s') = get_post srv path s in
      (
        record {
          status = nfs3_ok;
          resok = record {
            obj_attributes = post;
            linkmax = 0xffff_ffff;
            name_max = nfs_maxpathlen;
            no_trunc = bool_true;
            chown_restricted = bool_false;
            case_insensitive = bool_false;
            case_preserving = bool_true;
          };
        },
        s',
      )

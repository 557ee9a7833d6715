-- ===== src/Mount/Procs.antt =====
-- unfs3/mount.c: the procedures.
use unfs2go.Common.{ℕ, ◌+◌, List, [], ◌∷◌, not, ltb, ◌==◌, if◌then◌else◌, none, some, length}
use unfs2go.Xdr.Stream.{CharPtr}
use unfs2go.Types.Stat.{s_isdir}
use unfs2go.Types.Constants.{nfs3_ok, nfs_maxpathlen}
use unfs2go.Backend.{Server}
use unfs2go.Request.{SvcReq}
use unfs2go.Handle.{fh_comp, handle_of}
use unfs2go.Mount.Types.{
  Mountbody, Mountres3, Exportnode, mnt3_ok, mnt3err_noent, mnt3err_acces, mnt3err_notdir,
  mnt3err_inval, mnt3err_nametoolong,
}
use unfs2go.Mount.Mounts.{Malloc, Mounts, add_mount, remove_mount}

-- rpc/auth.h
abbrev pub auth_unix : ℕ
auth_unix = 1

module _ (inet_ntoa : ℕ → List ℕ) (srv : Server) where
  open srv use {backend.{State, go_lstat}, stack}

  -- `go_accept_mount` of unfs2go_exports.go
  module _ (go_accept_mount : ℕ → List ℕ → State → ℕ × State) where
    -- The directory is a string that the runtime has decoded.
    unfoldable pub mountproc_mnt_3_svc :
        List ℕ → SvcReq → Malloc → Mountres3 → Mounts → State → Mountres3 × Mounts × State
    mountproc_mnt_3_svc dpath rqstp malloc result ms s =
        if not (rqstp.rq_vers == 3)
        then (record result { fhs_status = mnt3err_inval }, ms, s)
        else (let (status, stbuf, s₁) = go_lstat (some dpath) stack.buf s in
            if not (status == nfs3_ok)
            then (record result { fhs_status = mnt3err_noent }, ms, s₁)
            else if ltb nfs_maxpathlen (length dpath + 1)
            then (record result { fhs_status = mnt3err_nametoolong }, ms, s₁)
            else (let (accepted, s₂) = go_accept_mount rqstp.sin_addr dpath s₁ in
                if not (accepted == nfs3_ok)
                then (record result { fhs_status = mnt3err_acces }, ms, s₂)
                else if not (s_isdir stbuf.st_mode)
                then (record result { fhs_status = mnt3err_notdir }, ms, s₂)
                else (
                  record {
                    fhs_status = mnt3_ok;
                    mountinfo = record {
                      fhandle = (handle_of srv (fh_comp stbuf.st_ino (some dpath))).data_buf;
                      auth_flavors = auth_unix ∷ [];
                    };
                  },
                  add_mount inet_ntoa dpath rqstp malloc ms,
                  s₂,
                )))

unfoldable pub mountproc_dump_3_svc : Mounts → List Mountbody
mountproc_dump_3_svc ms = ms.mount_list

module _ (inet_ntoa : ℕ → List ℕ) where
  unfoldable pub mountproc_umnt_3_svc : CharPtr → SvcReq → Mounts → Mounts
  mountproc_umnt_3_svc argp rqstp ms = remove_mount inet_ntoa argp rqstp ms

  unfoldable pub mountproc_umntall_3_svc : SvcReq → Mounts → Mounts
  mountproc_umntall_3_svc rqstp ms = remove_mount inet_ntoa none rqstp ms

-- The one export, whose groups are those of a static struct.
unfoldable pub mountproc_export_3_svc : List Exportnode
mountproc_export_3_svc = record { ex_dir = some (b'/' ∷ []); ex_groups = [] } ∷ []

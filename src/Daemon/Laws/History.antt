-- ===== src/Daemon/Laws/History.antt =====
-- What a procedure sends and the state that it leaves, for two values of its static result
-- before the call.
use unfs2go.Common.{ℕ, ◌+◌, ◌≡◌, refl, List, some, arith, inl, inr, Bool-cases, ◌==◌}
use unfs2go.Common.Int.{ℤ, pos, negsuc}
use unfs2go.Types.Attr.{PostOpAttr, WccData}
use unfs2go.Types.Args.{Mkdir3Args}
use unfs2go.Types.Names.{Nfsstat3}
use unfs2go.Types.DirArgs.{Commit3Args}
use unfs2go.Types.FsRes.{Commit3Res}
use unfs2go.Wire.FsRes.{wire_commit3res}
use unfs2go.Handle.{fh_decomp}
use unfs2go.Types.Constants.{nfs3_ok}
use unfs2go.Types.Res.{Lookup3Res}
use unfs2go.Types.FileRes.{Read3Res, Write3Res, Create3Res, Mkdir3Res}
use unfs2go.Wire.Res.{wire_lookup3res}
use unfs2go.Wire.FileRes.{wire_read3res, wire_write3res, wire_create3res, wire_mkdir3res}
use unfs2go.Request.{SvcReq}
use unfs2go.Backend.{Server}
use unfs2go.Attributes.{create_mode, get_pre}
use unfs2go.Nfs.Name.{cat_name}
use unfs2go.Nfs.Inode.{nfsproc3_getattr_3_svc, nfsproc3_setattr_3_svc, nfsproc3_access_3_svc}
use unfs2go.Nfs.Data.{
  clipped, read_reply, write_reply, nfsproc3_read_3_svc, nfsproc3_write_3_svc,
  nfsproc3_commit_3_svc,
}
use unfs2go.Nfs.Tree.{
  create_object, lookup_object, created_object, make_directory, nfsproc3_lookup_3_svc,
  nfsproc3_create_3_svc, nfsproc3_mkdir_3_svc, nfsproc3_remove_3_svc, nfsproc3_rmdir_3_svc,
  nfsproc3_rename_3_svc,
}
use unfs2go.Nfs.Info.{
  nfsproc3_readlink_3_svc, nfsproc3_symlink_3_svc, nfsproc3_mknod_3_svc, nfsproc3_link_3_svc,
  nfsproc3_fsstat_3_svc, nfsproc3_fsinfo_3_svc, nfsproc3_pathconf_3_svc,
}
use unfs2go.Nfs.Readdir.{nfsproc3_readdir_3_svc, nfsproc3_readdirplus_3_svc}
use unfs2go.Daemon.Proc.{
  NfsProc, Args, Res, proc_null, getattr, setattr, lookup, access, readlink, read, write, create,
  mkdir, symlink, mknod, remove, rmdir, rename, link, readdir, readdirplus, fsstat, fsinfo,
  pathconf, commit,
}
use unfs2go.Daemon.Local.{local}
use unfs2go.Daemon.Format.{wire_res}

read_reply-fresh :
    (count : ℕ) (res : ℤ) (buf : List ℕ) (result other : Read3Res) (post : PostOpAttr)
    → (let r = read_reply count res buf result in
        let q = read_reply count res buf other in
        wire_read3res (record r { resok = record r.resok { file_attributes = post } })
        ≡ wire_read3res (record q { resok = record q.resok { file_attributes = post } }))
unfolding read_reply
read_reply-fresh count (pos n) buf result other post = refl
read_reply-fresh count (negsuc k) buf result other post = ground arith

write_reply-fresh :
    (res : ℤ) (result other : Write3Res) (wcc : WccData)
    → (let r = write_reply res result in
        let q = write_reply res other in
        wire_write3res (record r { resok = record r.resok { file_wcc = wcc } })
        ≡ wire_write3res (record q { resok = record q.resok { file_wcc = wcc } }))
unfolding write_reply
write_reply-fresh (pos n) result other wcc = refl
write_reply-fresh (negsuc k) result other wcc = ground arith

module _ (srv : Server) where
  open srv use {backend.{State, go_lstat, go_mkdir, go_sync, go_pread}, stack}

  lookup_object-fresh :
      (status : Nfsstat3) (obj : List ℕ) (result other : Lookup3Res) (s : State)
      → (let r = lookup_object srv status obj result s in
          let q = lookup_object srv status obj other s in
          (r.1 ≡ q.1)
          × ((post : PostOpAttr)
              → wire_lookup3res (record r.0 { resok = record r.0.resok { dir_attributes = post } })
                ≡ wire_lookup3res
                    (record q.0 { resok = record q.0.resok { dir_attributes = post } })))
  unfolding lookup_object
  lookup_object-fresh status obj result other s = elim (Bool-cases (status == nfs3_ok)) [
    | inr bad ↦ rw bad (refl, λ post. rw bad)
    | inl good ↦ elim (Bool-cases ((go_lstat (some obj) stack.buf s).0 == nfs3_ok)) [
      | inl found ↦ rw good (rw found (refl, λ post. refl))
      | inr missing ↦ rw good (rw missing (refl, λ post. rw missing))
    ]
  ]

  created_object-fresh :
      (status : Nfsstat3) (obj : List ℕ) (result other : Create3Res) (s : State)
      → (let r = created_object srv status obj result s in
          let q = created_object srv status obj other s in
          (r.1 ≡ q.1)
          × ((wcc : WccData)
              → wire_create3res (record r.0 { resok = record r.0.resok { dir_wcc = wcc } })
                ≡ wire_create3res (record q.0 { resok = record q.0.resok { dir_wcc = wcc } })))
  unfolding created_object
  created_object-fresh status obj result other s = elim (Bool-cases (status == nfs3_ok)) [
    | inr bad ↦ rw bad (refl, λ wcc. rw bad)
    | inl good ↦ rw good (refl, λ wcc. refl)
  ]

  make_directory-fresh :
      (argp : Mkdir3Args) (status : Nfsstat3) (obj : List ℕ) (result other : Mkdir3Res) (s : State)
      → (let r = make_directory srv argp status obj result s in
          let q = make_directory srv argp status obj other s in
          (r.1 ≡ q.1)
          × ((wcc : WccData)
              → wire_mkdir3res (record r.0 { resok = record r.0.resok { dir_wcc = wcc } })
                ≡ wire_mkdir3res (record q.0 { resok = record q.0.resok { dir_wcc = wcc } })))
  unfolding make_directory
  make_directory-fresh argp status obj result other s = elim (Bool-cases (status == nfs3_ok)) [
    | inr bad ↦ rw bad (refl, λ wcc. rw bad)
    | inl good ↦
        elim (Bool-cases ((go_mkdir (some obj) (create_mode argp.attributes) s).0 == nfs3_ok)) [
          | inl made ↦ rw good (rw made (refl, λ wcc. refl))
          | inr failed ↦ rw good (rw failed (refl, λ wcc. rw failed))
        ]
  ]

  commit-fresh :
      (argp : Commit3Args) (rqstp : SvcReq) (result other : Commit3Res) (s : State)
      → (let r = nfsproc3_commit_3_svc srv argp rqstp result s in
          let q = nfsproc3_commit_3_svc srv argp rqstp other s in
          (wire_commit3res r.0 ≡ wire_commit3res q.0) × (r.1 ≡ q.1))
  unfolding nfsproc3_commit_3_svc
  commit-fresh argp rqstp result other s =
      elim (Bool-cases ((go_sync (fh_decomp srv argp.file s) stack.buf s).0 == nfs3_ok)) [
        | inl good ↦ rw good (refl, refl)
        | inr bad ↦ rw bad (rw bad refl, refl)
      ]

  -- Whatever the static result of a procedure held before a call, the procedure sends the same bytes
  -- and leaves the same state.
  pub local-static_irrelevant :
      (p : NfsProc) (argp : Args p) (rqstp : SvcReq) (result other : Res p) (s : State)
      → (wire_res p (local srv p argp rqstp result s).0
          ≡ wire_res p (local srv p argp rqstp other s).0)
        × ((local srv p argp rqstp result s).1 ≡ (local srv p argp rqstp other s).1)
  unfolding local nfsproc3_getattr_3_svc nfsproc3_setattr_3_svc nfsproc3_access_3_svc
      nfsproc3_readlink_3_svc nfsproc3_symlink_3_svc nfsproc3_mknod_3_svc nfsproc3_link_3_svc
      nfsproc3_fsstat_3_svc nfsproc3_fsinfo_3_svc nfsproc3_pathconf_3_svc nfsproc3_lookup_3_svc
      nfsproc3_create_3_svc nfsproc3_mkdir_3_svc nfsproc3_remove_3_svc nfsproc3_rmdir_3_svc
      nfsproc3_rename_3_svc nfsproc3_readdir_3_svc nfsproc3_readdirplus_3_svc nfsproc3_read_3_svc
      nfsproc3_write_3_svc
  local-static_irrelevant proc_null argp rqstp result other s = (refl, refl)
  local-static_irrelevant getattr argp rqstp result other s = (refl, refl)
  local-static_irrelevant setattr argp rqstp result other s = (refl, refl)
  local-static_irrelevant access argp rqstp result other s = (refl, refl)
  local-static_irrelevant readlink argp rqstp result other s = (refl, refl)
  local-static_irrelevant symlink argp rqstp result other s = (refl, refl)
  local-static_irrelevant mknod argp rqstp result other s = (refl, refl)
  local-static_irrelevant remove argp rqstp result other s = (refl, refl)
  local-static_irrelevant rmdir argp rqstp result other s = (refl, refl)
  local-static_irrelevant rename argp rqstp result other s = (refl, refl)
  local-static_irrelevant link argp rqstp result other s = (refl, refl)
  local-static_irrelevant readdir argp rqstp result other s = (refl, refl)
  local-static_irrelevant readdirplus argp rqstp result other s = (refl, refl)
  local-static_irrelevant fsstat argp rqstp result other s = (refl, refl)
  local-static_irrelevant fsinfo argp rqstp result other s = (refl, refl)
  local-static_irrelevant pathconf argp rqstp result other s = (refl, refl)
  local-static_irrelevant lookup argp rqstp result other s =
      let named = cat_name (fh_decomp srv argp.what.dir s) argp.what.name stack.obj in
      let (states, sent) = lookup_object-fresh named.0 named.1 result other s in
      rw states (sent _, refl)
  local-static_irrelevant read argp rqstp result other s =
      let count = clipped rqstp argp.count in
      let got = go_pread (fh_decomp srv argp.file s) stack.read_buf (count + 1) argp.offset s in
      (read_reply-fresh count got.0 got.1 result other _, refl)
  local-static_irrelevant write argp rqstp result other s =
      (write_reply-fresh _ result other _, refl)
  local-static_irrelevant create argp rqstp result other s =
      let path = fh_decomp srv argp.where_args.dir s in
      let s₁ = (get_pre srv path s).1 in
      let named = cat_name path argp.where_args.name stack.obj in
      let done = create_object srv argp named.1 s₁ in
      let (states, sent) = created_object-fresh done.0 named.1 result other done.1 in
      rw states (sent _, refl)
  local-static_irrelevant mkdir argp rqstp result other s =
      let path = fh_decomp srv argp.where_args.dir s in
      let s₁ = (get_pre srv path s).1 in
      let named = cat_name path argp.where_args.name stack.obj in
      let (states, sent) = make_directory-fresh argp named.0 named.1 result other s₁ in
      rw states (sent _, refl)
  local-static_irrelevant commit argp rqstp result other s = commit-fresh argp rqstp result other s

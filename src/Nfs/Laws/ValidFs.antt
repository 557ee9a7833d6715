-- ===== src/Nfs/Laws/ValidFs.antt =====
-- unfs3/nfs.c: replies against their wire format: READDIR, FSSTAT, FSINFO and PATHCONF.
use unfs2go.Common.{
  ℕ, ◌≤◌, ◌≡◌, refl, List, arith, inl, inr, Bool-cases, Option-cases, ◌==◌, length, [], ◌∷◌,
}
use unfs2go.Common.Int.{ℤ, pos, negsuc}
use unfs2go.Request.{SvcReq, maxdata}
use unfs2go.Types.Entries.{Entry3Item}
use unfs2go.Types.DirArgs.{Readdir3Args, Fsstat3Args, Fsinfo3Args, Pathconf3Args}
use unfs2go.Types.FsRes.{Fsstat3Res, Fsinfo3Res, Pathconf3Res}
use unfs2go.Types.DirRes.{Readdir3Res}
use unfs2go.Types.Constants.{nfs3_ok, max_entries, nfs_maxdata_tcp}
use unfs2go.Wire.Basic.{IsU32}
use unfs2go.Wire.Chain.{All}
use unfs2go.Wire.Entries.{IsEntry3Item}
use unfs2go.Wire.FsRes.{IsFsstat3Res, IsFsinfo3Res, IsPathconf3Res}
use unfs2go.Wire.DirRes.{IsReaddir3Res}
use unfs2go.Backend.{Server}
use unfs2go.Backend.Contract.{IsServer, IsInt}
use unfs2go.Handle.{fh_decomp}
use unfs2go.Attributes.Laws.{get_post-IsPostOpAttr}
use unfs2go.Nfs.Info.{nfsproc3_fsstat_3_svc, nfsproc3_fsinfo_3_svc, nfsproc3_pathconf_3_svc}
use unfs2go.Nfs.Readdir.{readdir_count, readdir_status, first_entry, nfsproc3_readdir_3_svc}

maxdata-le : (rqstp : SvcReq) → maxdata rqstp ≤ nfs_maxdata_tcp
unfolding maxdata
maxdata-le rqstp = ground arith

module _ (srv : Server) (lawful : IsServer srv) where
  open srv use {backend.{State, go_lstat, go_pread, go_pwrite, go_sync, go_readdir_full}, stack}

  first_entry-All :
      (es : List Entry3Item)
      → All IsEntry3Item es
      → length es ≤ max_entries
      → All IsEntry3Item (first_entry es) × (length (first_entry es) ≤ max_entries)
  unfolding first_entry
  first_entry-All [] v h = (tt, h)
  first_entry-All (e ∷ es) v h = elim (Option-cases e.name) [
    | inl nameless ↦ rw nameless (tt, omega arith)
    | inr (name, named) ↦ rw named (v, h)
  ]

  readdir_status-valid :
      (res : ℤ) (eof : ℕ)
      → IsInt res
      → IsU32 (readdir_status res eof).0
        × ((readdir_status res eof).0 ≡ nfs3_ok → (readdir_status res eof).1 ≤ 1)
  unfolding readdir_status
  readdir_status-valid (pos n) eof h = (omega arith, λ e. ground arith)
  readdir_status-valid (negsuc n) eof h = (omega arith, λ e. ground arith)

  pub readdir-IsRes :
      (depth : ℕ) (argp : Readdir3Args) (rqstp : SvcReq) (result : Readdir3Res) (s : State)
      → max_entries ≤ depth
      → IsReaddir3Res depth (nfsproc3_readdir_3_svc srv argp rqstp result s).0
  unfolding nfsproc3_readdir_3_svc
  readdir-IsRes depth argp rqstp result s enough =
      let path = fh_decomp srv argp.dir s in
      let count = readdir_count argp.count in
      let res = (go_readdir_full path argp.cookie count s).0 in
      let written = lawful.lawful.readdir_entries path argp.cookie count s in
      let entries = first_entry-All _ written.0 written.1 in
      let status =
        readdir_status-valid res stack.eof (lawful.lawful.readdir_int path argp.cookie count s) in
      let post = get_post-IsPostOpAttr srv lawful path _ in
      elim (Bool-cases ((readdir_status res stack.eof).0 == nfs3_ok)) [
        | inl good ↦
            (status.0, rw good (post, (refl, ((entries.0, omega arith), status.1 (ground arith)))))
        | inr bad ↦ (status.0, rw bad post)
      ]

  pub fsstat-IsRes :
      (argp : Fsstat3Args) (rqstp : SvcReq) (result : Fsstat3Res) (s : State)
      → IsFsstat3Res (nfsproc3_fsstat_3_svc srv argp rqstp result s).0
  unfolding nfsproc3_fsstat_3_svc
  fsstat-IsRes argp rqstp result s =
      (omega arith, (get_post-IsPostOpAttr srv lawful _ s, omega arith))

  pub fsinfo-IsRes :
      (argp : Fsinfo3Args) (rqstp : SvcReq) (result : Fsinfo3Res) (s : State)
      → IsFsinfo3Res (nfsproc3_fsinfo_3_svc srv argp rqstp result s).0
  unfolding nfsproc3_fsinfo_3_svc
  fsinfo-IsRes argp rqstp result s =
      (omega arith, (get_post-IsPostOpAttr srv lawful _ s, omega (arith, maxdata-le rqstp)))

  pub pathconf-IsRes :
      (argp : Pathconf3Args) (rqstp : SvcReq) (result : Pathconf3Res) (s : State)
      → IsPathconf3Res (nfsproc3_pathconf_3_svc srv argp rqstp result s).0
  unfolding nfsproc3_pathconf_3_svc
  pathconf-IsRes argp rqstp result s =
      (omega arith, (get_post-IsPostOpAttr srv lawful _ s, omega arith))

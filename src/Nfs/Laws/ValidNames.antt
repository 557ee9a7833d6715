-- ===== src/Nfs/Laws/ValidNames.antt =====
-- unfs3/nfs.c: replies against their wire format: REMOVE, RMDIR and RENAME.
use unfs2go.Common.{ℕ, List, inl, inr, Bool-cases, ◌==◌, if◌then◌else◌}
use unfs2go.Request.{SvcReq}
use unfs2go.Types.Names.{Nfsstat3}
use unfs2go.Types.DirArgs.{Remove3Args, Rmdir3Args, Rename3Args}
use unfs2go.Types.LinkRes.{Remove3Res, Rmdir3Res, Rename3Res}
use unfs2go.Types.Constants.{nfs3_ok}
use unfs2go.Wire.Basic.{IsU32}
use unfs2go.Wire.LinkRes.{IsRemove3Res, IsRmdir3Res, IsRename3Res}
use unfs2go.Backend.{Server}
use unfs2go.Backend.Contract.{IsServer}
use unfs2go.Handle.{fh_decomp}
use unfs2go.Attributes.{get_pre}
use unfs2go.Nfs.Name.{cat_name}
use unfs2go.Nfs.Tree.{
  nfsproc3_remove_3_svc, nfsproc3_rmdir_3_svc, rename_status, nfsproc3_rename_3_svc,
}
use unfs2go.Nfs.Laws.Valid.{by_status, wcc-IsWccData}
use unfs2go.Nfs.Laws.ValidTree.{cat_name-IsU32}

module _ (srv : Server) (lawful : IsServer srv) where
  open srv use {backend.{State, go_lstat, go_mkdir, go_remove, go_rmdir}, stack}

  -- The status of a procedure that makes its request only under a good name.
  guarded-IsU32 :
      (named : Nfsstat3) (request : ℕ × State) (s : State)
      → IsU32 named
      → IsU32 request.0
      → IsU32 (if named == nfs3_ok then request else (named, s)).0
  guarded-IsU32 named request s h k = elim (Bool-cases (named == nfs3_ok)) [
    | inl good ↦ rw good k
    | inr bad ↦ rw bad h
  ]

  pub remove-IsRes :
      (argp : Remove3Args) (rqstp : SvcReq) (result : Remove3Res) (s : State)
      → IsRemove3Res (nfsproc3_remove_3_svc srv argp rqstp result s).0
  unfolding nfsproc3_remove_3_svc
  remove-IsRes argp rqstp result s =
      let path = fh_decomp srv argp.object.dir s in
      let wcc = wcc-IsWccData srv lawful path path s _ in
      (
        guarded-IsU32 _ (go_remove _ _) _ (cat_name-IsU32 path argp.object.name stack.obj)
            (lawful.lawful.remove _ _),
        by_status _ (λ e. wcc) wcc,
      )

  pub rmdir-IsRes :
      (argp : Rmdir3Args) (rqstp : SvcReq) (result : Rmdir3Res) (s : State)
      → IsRmdir3Res (nfsproc3_rmdir_3_svc srv argp rqstp result s).0
  unfolding nfsproc3_rmdir_3_svc
  rmdir-IsRes argp rqstp result s =
      let path = fh_decomp srv argp.object.dir s in
      let wcc = wcc-IsWccData srv lawful path path s _ in
      (
        guarded-IsU32 _ (go_rmdir _ _) _ (cat_name-IsU32 path argp.object.name stack.obj)
            (lawful.lawful.rmdir _ _),
        by_status _ (λ e. wcc) wcc,
      )

  rename_status-IsU32 :
      (from to : Nfsstat3 × List ℕ) (s : State)
      → IsU32 from.0
      → IsU32 to.0
      → IsU32 (rename_status srv from to s).0
  unfolding rename_status
  rename_status-IsU32 (from_named, from_obj) (to_named, to_obj) s h k =
      guarded-IsU32 from_named _ s h (guarded-IsU32 to_named _ s k (lawful.lawful.rename _ _ s))

  pub rename-IsRes :
      (argp : Rename3Args) (rqstp : SvcReq) (result : Rename3Res) (s : State)
      → IsRename3Res (nfsproc3_rename_3_svc srv argp rqstp result s).0
  unfolding nfsproc3_rename_3_svc
  rename-IsRes argp rqstp result s =
      let from = fh_decomp srv argp.from.dir s in
      let s₁ = (get_pre srv from s).1 in
      let to = fh_decomp srv argp.to.dir s₁ in
      let status =
        rename_status-IsU32 (cat_name from argp.from.name stack.obj)
          (cat_name to argp.to.name stack.obj) _ (cat_name-IsU32 from argp.from.name stack.obj)
          (cat_name-IsU32 to argp.to.name stack.obj) in
      elim (Bool-cases ((nfsproc3_rename_3_svc srv argp rqstp result s).0.status == nfs3_ok)) [
        | inl good ↦ (
          status,
          rw good (wcc-IsWccData srv lawful from from s _, wcc-IsWccData srv lawful to to s₁ _),
        )
        | inr bad ↦ (
          status,
          rw bad (wcc-IsWccData srv lawful from from s _, wcc-IsWccData srv lawful to to s₁ _),
        )
      ]

-- ===== src/Nfs/Laws/Valid.antt =====
-- unfs3/nfs.c: replies against their wire format: GETATTR, SETATTR and ACCESS.
use unfs2go.Common.{ℕ, ◌^◌, ◌<◌, ◌≡◌, arith, inl, inr, Bool-cases, ◌==◌, if◌then◌else◌, ◌%◌}
use unfs2go.Request.{SvcReq}
use unfs2go.Types.Sattr.{Sattr3}
use unfs2go.Types.Args.{Getattr3Args, Setattr3Args, Access3Args}
use unfs2go.Types.Res.{Getattr3Res, Setattr3Res, Access3Res}
use unfs2go.Types.Constants.{nfs3_ok}
use unfs2go.Wire.Basic.{IsU32}
use unfs2go.Wire.Attr.{IsWccData, IsFattr3}
use unfs2go.Wire.Res.{IsGetattr3Res, IsSetattr3Res, IsAccess3Res}
use unfs2go.Xdr.Stream.{CharPtr}
use unfs2go.Backend.{Server}
use unfs2go.Backend.Contract.{IsServer}
use unfs2go.Handle.{fh_decomp}
use unfs2go.Attributes.{get_post, get_pre, get_post_buf}
use unfs2go.Attributes.Laws.{get_post-IsPostOpAttr, get_pre-IsPreOpAttr, get_post_buf-IsPostOpAttr}
use unfs2go.Nfs.Inode.{
  granted, nfsproc3_getattr_3_svc, set_size, set_mode, set_mtime, nfsproc3_setattr_3_svc,
  nfsproc3_access_3_svc,
}

-- A union chosen by the status.
pub by_status :
    {P Q : Type 0} (status : ℕ) → (status ≡ nfs3_ok → P) → Q → (if status == nfs3_ok then P else Q)
by_status status p q = elim (Bool-cases (status == nfs3_ok)) [
  | inl good ↦ rw good (p (ground arith))
  | inr bad ↦ rw bad q
]

granted-lt : (type : ℕ) → granted type < 64
unfolding granted
granted-lt type = ground arith

module _ (srv : Server) (lawful : IsServer srv) where
  open srv use {backend.{State, go_lstat, go_pread, go_pwrite, go_sync, go_readdir_full}, stack}

  getattr-attributes : (path : CharPtr) (s : State) → IsFattr3 (get_post srv path s).0.attributes
  unfolding get_post get_post_buf
  getattr-attributes path s = elim (Bool-cases ((go_lstat path stack.buf s).0 == nfs3_ok)) [
    | inl found ↦
        rw found
          (get_post_buf-IsPostOpAttr srv lawful _
            (lawful.lawful.lstat_buf path _ s lawful.stack_buf)).1
    | inr missing ↦ rw missing (omega arith)
  ]

  pub getattr-IsRes :
      (argp : Getattr3Args) (rqstp : SvcReq) (result : Getattr3Res) (s : State)
      → IsGetattr3Res (nfsproc3_getattr_3_svc srv argp rqstp result s).0
  unfolding nfsproc3_getattr_3_svc
  getattr-IsRes argp rqstp result s = (omega arith, getattr-attributes _ s)

  -- The attributes before and after an operation.
  pub wcc-IsWccData :
      (path path' : CharPtr) (s s' : State)
      → IsWccData (record { before = (get_pre srv path s).0; after = (get_post srv path' s').0 })
  wcc-IsWccData path path' s s' =
      (get_pre-IsPreOpAttr srv lawful path s, get_post-IsPostOpAttr srv lawful path' s')

  set_size-IsU32 : (path : CharPtr) (new : Sattr3) (s : State) → IsU32 (set_size srv path new s).0
  unfolding set_size
  set_size-IsU32 path new s = ground (arith, lawful.lawful.truncate path new.size.size s)

  set_mode-IsU32 : (path : CharPtr) (new : Sattr3) (s : State) → IsU32 (set_mode srv path new s).0
  unfolding set_mode
  set_mode-IsU32 path new s = ground (arith, lawful.lawful.chmod path new.mode.mode s)

  set_mtime-IsU32 :
      (path : CharPtr) (new : Sattr3) (rqstp : SvcReq) (s : State)
      → IsU32 (set_mtime srv path new rqstp s).0
  unfolding set_mtime
  set_mtime-IsU32 path new rqstp s = ground (
    arith,
    lawful.lawful.modtime path (rqstp.now % 2 ^ 32) s,
    lawful.lawful.modtime path new.mtime.mtime.seconds s,
  )

  pub setattr-IsRes :
      (argp : Setattr3Args) (rqstp : SvcReq) (result : Setattr3Res) (s : State)
      → IsSetattr3Res (nfsproc3_setattr_3_svc srv argp rqstp result s).0
  unfolding nfsproc3_setattr_3_svc
  setattr-IsRes argp rqstp result s =
      let path = fh_decomp srv argp.object s in
      let new = argp.new_attributes in
      let s₁ = (get_pre srv path s).1 in
      let s₂ = (set_size srv path new s₁).1 in
      let s₃ = (set_mode srv path new s₂).1 in
      let wcc = wcc-IsWccData path path s (set_mtime srv path new rqstp s₃).1 in
      (
        ground (
          arith,
          set_size-IsU32 path new s₁,
          set_mode-IsU32 path new s₂,
          set_mtime-IsU32 path new rqstp s₃,
        ),
        by_status _ (λ e. wcc) wcc,
      )

  pub access-IsRes :
      (argp : Access3Args) (rqstp : SvcReq) (result : Access3Res) (s : State)
      → IsAccess3Res (nfsproc3_access_3_svc srv argp rqstp result s).0
  unfolding nfsproc3_access_3_svc
  access-IsRes argp rqstp result s =
      let path = fh_decomp srv argp.object s in
      elim (Bool-cases ((go_lstat path stack.buf s).0 == nfs3_ok)) [
        | inl found ↦ rw found (
          lawful.lawful.lstat_status path _ s,
          (
            get_post_buf-IsPostOpAttr srv lawful _
                (lawful.lawful.lstat_buf path _ s lawful.stack_buf),
            omega (
              arith,
              granted-lt (get_post_buf srv (go_lstat path stack.buf s).1).attributes.type,
            ),
          ),
        )
        | inr missing ↦ rw missing (lawful.lawful.lstat_status path _ s, omega arith)
      ]

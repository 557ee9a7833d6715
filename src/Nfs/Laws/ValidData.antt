-- ===== src/Nfs/Laws/ValidData.antt =====
-- unfs3/nfs.c: replies against their wire format: READ, WRITE and COMMIT.
use unfs2go.Common.{
  ℕ, suc, ◌+◌, ◌≤◌, ◌≡◌, refl, List, arith, inl, inr, Bool-cases, ◌==◌, length, length-take, ◌-◌,
}
use unfs2go.Common.Int.{ℤ, pos, negsuc}
use unfs2go.Request.{SvcReq, maxdata}
use unfs2go.Types.Attr.{PostOpAttr, WccData}
use unfs2go.Types.Args.{Read3Args, Write3Args}
use unfs2go.Types.DirArgs.{Commit3Args}
use unfs2go.Types.FileRes.{Read3Res, Write3Res}
use unfs2go.Types.FsRes.{Commit3Res}
use unfs2go.Types.Constants.{nfs3_ok, nfs_maxdata_tcp}
use unfs2go.Wire.Attr.{IsWccData, IsPostOpAttr}
use unfs2go.Wire.FileRes.{IsRead3Res, IsWrite3Res}
use unfs2go.Wire.FsRes.{IsCommit3Res}
use unfs2go.Backend.{Server}
use unfs2go.Backend.Contract.{IsServer, IsInt}
use unfs2go.Handle.{fh_decomp}
use unfs2go.Attributes.{get_pre, get_post_err}
use unfs2go.Attributes.Laws.{
  get_post-IsPostOpAttr, get_post_buf-IsPostOpAttr, get_pre_buf-IsPreOpAttr,
}
use unfs2go.Nfs.Data.{
  clipped, read_reply, write_reply, nfsproc3_read_3_svc, nfsproc3_write_3_svc,
  nfsproc3_commit_3_svc,
}
use unfs2go.Nfs.Laws.Valid.{by_status, wcc-IsWccData}

maxdata-le : (rqstp : SvcReq) → maxdata rqstp ≤ nfs_maxdata_tcp
unfolding maxdata
maxdata-le rqstp = ground arith

clipped-le : (rqstp : SvcReq) (count : ℕ) → clipped rqstp count ≤ nfs_maxdata_tcp
unfolding clipped
clipped-le rqstp count = ground (arith, maxdata-le rqstp)

module _ (srv : Server) (lawful : IsServer srv) where
  open srv use {backend.{State, go_lstat, go_pread, go_pwrite, go_sync, go_readdir_full}, stack}

  -- What READ makes of a result has a wire format, if the buffer holds the bytes that are reported.
  read_reply-IsRes :
      (count : ℕ) (res : ℤ) (buf : List ℕ) (result : Read3Res) (post : PostOpAttr)
      → IsInt res
      → ((n : ℕ) → res ≡ pos n → n ≤ length buf)
      → IsPostOpAttr post
      → (let r = read_reply count res buf result in
          IsRead3Res (record r { resok = record r.resok { file_attributes = post } }))
  unfolding read_reply
  read_reply-IsRes count (pos n) buf result post fits held v = (
    omega arith,
    (
      v,
      (
        ground arith,
        (
          ground arith,
          (
            ground (arith, length-take n buf, length-take (n - 1) buf, held n),
            ground arith,
            ground arith,
          ),
        ),
      ),
    ),
  )
  read_reply-IsRes count (negsuc k) buf result post fits held v =
      (omega arith, by_status (suc k) (λ e. absurd (omega arith)) v)

  pub read-IsRes :
      (argp : Read3Args) (rqstp : SvcReq) (result : Read3Res) (s : State)
      → IsRead3Res (nfsproc3_read_3_svc srv argp rqstp result s).0
  unfolding nfsproc3_read_3_svc
  read-IsRes argp rqstp result s =
      let path = fh_decomp srv argp.file s in
      let count = clipped rqstp argp.count in
      read_reply-IsRes count _ _ result _
        (lawful.lawful.pread_int path stack.read_buf (count + 1) argp.offset s)
        (λ n e. (lawful.lawful.pread_le path stack.read_buf (count + 1) argp.offset n s e).1)
        (get_post-IsPostOpAttr srv lawful path _)

  write_reply-IsRes :
      (res : ℤ) (result : Write3Res) (wcc : WccData)
      → IsInt res
      → IsWccData wcc
      → (let r = write_reply res result in
          IsWrite3Res (record r { resok = record r.resok { file_wcc = wcc } }))
  unfolding write_reply
  write_reply-IsRes (pos n) result wcc fits v =
      (omega arith, (v, (omega arith, (omega arith, refl))))
  write_reply-IsRes (negsuc k) result wcc fits v =
      (omega arith, by_status (suc k) (λ e. absurd (omega arith)) v)

  pub write-IsRes :
      (argp : Write3Args) (rqstp : SvcReq) (result : Write3Res) (s : State)
      → IsWrite3Res (nfsproc3_write_3_svc srv argp rqstp result s).0
  unfolding nfsproc3_write_3_svc
  write-IsRes argp rqstp result s =
      let path = fh_decomp srv argp.file s in
      write_reply-IsRes _ result _
        (lawful.lawful.pwrite_int path argp.data_buf argp.offset (get_pre srv path s).1)
        (wcc-IsWccData srv lawful path path s _)

  pub commit-IsRes :
      (argp : Commit3Args) (rqstp : SvcReq) (result : Commit3Res) (s : State)
      → IsCommit3Res (nfsproc3_commit_3_svc srv argp rqstp result s).0
  unfolding nfsproc3_commit_3_svc get_post_err
  commit-IsRes argp rqstp result s =
      let path = fh_decomp srv argp.file s in
      let buf = lawful.lawful.sync_buf path stack.buf s lawful.stack_buf in
      let status = lawful.lawful.sync_status path stack.buf s in
      elim (Bool-cases ((go_sync path stack.buf s).0 == nfs3_ok)) [
        | inl good ↦ rw good (
          status,
          rw good (
            (get_pre_buf-IsPreOpAttr srv lawful _ buf, get_post_buf-IsPostOpAttr srv lawful _ buf),
            refl,
          ),
        )
        | inr bad ↦ rw bad (status, rw bad (omega arith))
      ]

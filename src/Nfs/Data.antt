-- ===== src/Nfs/Data.antt =====
-- unfs3/nfs.c: READ, WRITE and COMMIT.
use unfs2go.Common.{ℕ, ◌+◌, ◌-◌, List, ltb, leb, ◌==◌, if◌then◌else◌, take}
use unfs2go.Common.Int.{ℤ, pos, negsuc, neg_part}
use unfs2go.Types.Args.{Read3Args, Write3Args}
use unfs2go.Types.DirArgs.{Commit3Args}
use unfs2go.Types.FileRes.{Read3Res, Write3Res}
use unfs2go.Types.FsRes.{Commit3Res}
use unfs2go.Types.Constants.{bool_true, bool_false, nfs3_ok, file_sync}
use unfs2go.Types.Zero.{zero_verf}
use unfs2go.Backend.{Server}
use unfs2go.Request.{SvcReq, maxdata}
use unfs2go.Handle.{fh_decomp}
use unfs2go.Attributes.{get_pre, get_pre_buf, get_post, get_post_buf, get_post_err}

-- The count after `if (argp->count > maxdata) argp->count = maxdata;`
unfoldable pub clipped : SvcReq → ℕ → ℕ
clipped rqstp count = if ltb (maxdata rqstp) count then maxdata rqstp else count

-- What READ makes of the result of `go_pread`. `data_val` is the buffer, of which `data_len` bytes travel.
unfoldable pub read_reply : ℕ → ℤ → List ℕ → Read3Res → Read3Res
read_reply count (pos res) buf result =
    let eof = if leb res count then bool_true else bool_false in
    let n = if eof == bool_false then res - 1 else res in
    record {
      status = nfs3_ok;
      resok = record result.resok {
        count = n;
        eof = eof;
        data_buf = record { data_len = n; data_val = take n buf };
      };
    }
read_reply count (negsuc k) buf result = record result { status = neg_part (negsuc k) }

-- What WRITE makes of the result of `go_pwrite`.
unfoldable pub write_reply : ℤ → Write3Res → Write3Res
write_reply (pos res) result = record {
  status = nfs3_ok;
  resok = record result.resok { count = res; committed = file_sync; verf = zero_verf };
}
write_reply (negsuc k) result = record result { status = neg_part (negsuc k) }

module _ (srv : Server) where
  open srv use {backend.{State, go_pread, go_pwrite, go_sync}, stack}

  unfoldable pub nfsproc3_read_3_svc : Read3Args → SvcReq → Read3Res → State → Read3Res × State
  unfolding clipped read_reply
  nfsproc3_read_3_svc argp rqstp result s =
      let path = fh_decomp srv argp.file s in
      let count = clipped rqstp argp.count in
      let (res, buf, s₁) = go_pread path stack.read_buf (count + 1) argp.offset s in
      let result₁ = read_reply count res buf result in
      let (post, s₂) = get_post srv path s₁ in
      (record result₁ { resok = record result₁.resok { file_attributes = post } }, s₂)

  unfoldable pub nfsproc3_write_3_svc : Write3Args → SvcReq → Write3Res → State → Write3Res × State
  unfolding write_reply
  nfsproc3_write_3_svc argp rqstp result s =
      let path = fh_decomp srv argp.file s in
      let (pre, s₁) = get_pre srv path s in
      let (res, s₂) = go_pwrite path argp.data_buf argp.offset s₁ in
      let result₁ = write_reply res result in
      let (post, s₃) = get_post srv path s₂ in
      (
        record result₁ {
          resok = record result₁.resok { file_wcc = record { before = pre; after = post } };
        },
        s₃,
      )

  unfoldable pub nfsproc3_commit_3_svc :
      Commit3Args → SvcReq → Commit3Res → State → Commit3Res × State
  nfsproc3_commit_3_svc argp rqstp result s =
      let path = fh_decomp srv argp.file s in
      let (status, buf, s') = go_sync path stack.buf s in
      if status == nfs3_ok
      then (
        record {
          status = status;
          resok = record {
            file_wcc = record { before = get_pre_buf buf; after = get_post_buf srv buf };
            verf = zero_verf;
          };
        },
        s',
      )
      else (
        record {
          status = status;
          resok = record result.resok {
            file_wcc = record {
              before = record { attributes_follow = bool_false; attributes = stack.wcc };
              after = get_post_err;
            };
          };
        },
        s',
      )

-- ===== src/Nfs/Laws/Lookup.antt =====
-- What LOOKUP answers for a name that there is.
use unfs2go.Common.{ℕ, ◌^◌, ◌<◌, ◌≡◌, refl, some, true, ◌==◌, arith}
use unfs2go.Common.Int.{pos}
use unfs2go.Types.Sattr.{Diropargs3}
use unfs2go.Types.Res.{Lookup3Res}
use unfs2go.Types.Constants.{nfs3_ok}
use unfs2go.Backend.{Server}
use unfs2go.Request.{SvcReq}
use unfs2go.Handle.{fh_decomp}
use unfs2go.Handle.Laws.{fh_decomp-handle_of}
use unfs2go.Attributes.{get_post_buf}
use unfs2go.Nfs.Name.{cat_name}
use unfs2go.Nfs.Tree.{lookup_object, nfsproc3_lookup_3_svc}
use unfs2go.Nfs.Laws.Name.{IsAccepted, cat_name-ok_iff}

ok-test : (status : ℕ) → status ≡ nfs3_ok → (status == nfs3_ok) ≡ true
ok-test status good = ground (arith, good)

module _ (srv : Server) where
  open srv use {backend.{State, go_fgetpath, go_lstat}, stack}

  -- If the name is accepted and the file at the joined path can be looked at, with an inode number
  -- below 2 ^ 31, then LOOKUP succeeds, with the attributes of the file. The handle that it returns
  -- is resolved, in any later state, as the path that the Go side keeps for that inode number.
  pub lookup-handle_resolves :
      (d : Diropargs3) (rqstp : SvcReq) (result : Lookup3Res) (s later : State)
      → IsAccepted (fh_decomp srv d.dir s) d.name
      → (let obj = (cat_name (fh_decomp srv d.dir s) d.name stack.obj).1 in
          (go_lstat (some obj) stack.buf s).0 ≡ nfs3_ok)
      → (let obj = (cat_name (fh_decomp srv d.dir s) d.name stack.obj).1 in
          (go_lstat (some obj) stack.buf s).1.st_ino < 2 ^ 31)
      → (let obj = (cat_name (fh_decomp srv d.dir s) d.name stack.obj).1 in
          let buf = (go_lstat (some obj) stack.buf s).1 in
          let r = (nfsproc3_lookup_3_svc srv (record { what = d }) rqstp result s).0 in
          (r.status ≡ nfs3_ok)
          × (r.resok.obj_attributes ≡ get_post_buf srv buf)
          × (fh_decomp srv r.resok.object later ≡ go_fgetpath (pos buf.st_ino) later))
  unfolding nfsproc3_lookup_3_svc lookup_object
  lookup-handle_resolves d rqstp result s later accepted found small =
      rw (ok-test _ ((cat_name-ok_iff _ _ stack.obj).1 accepted), ok-test _ found)
        (found, refl, fh_decomp-handle_of srv _ _ later small)

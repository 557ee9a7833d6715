-- ===== src/Nfs/Inode.antt =====
-- unfs3/nfs.c: GETATTR, SETATTR and ACCESS. A procedure takes the value that its static `result` has
-- before the call, and returns the one that is encoded.
use unfs2go.Common.{ℕ, ◌-◌, ◌%◌, ◌^◌, not, bit_and, bit_or, ◌==◌, if◌then◌else◌}
use unfs2go.Xdr.Stream.{CharPtr}
use unfs2go.Types.Sattr.{Sattr3}
use unfs2go.Types.Args.{Getattr3Args, Setattr3Args, Access3Args}
use unfs2go.Types.Res.{Getattr3Res, Setattr3Res, Access3Res}
use unfs2go.Types.Constants.{
  bool_true, nfs3_ok, nf3dir, dont_change, set_to_server_time, access3_read, access3_lookup,
  access3_modify, access3_extend, access3_delete, access3_execute,
}
use unfs2go.Backend.{Server}
use unfs2go.Request.{SvcReq}
use unfs2go.Handle.{fh_decomp}
use unfs2go.Attributes.{error_attr, get_pre, get_post, get_post_buf}

-- The masks of ACCESS, in the order of the source: for every object, then the changes for a directory.
abbrev everything : ℕ
everything = bit_or access3_read (bit_or access3_modify (bit_or access3_extend access3_execute))

abbrev add_lookup : ℕ → ℕ
add_lookup mask =
    if not (bit_and mask (bit_or access3_read access3_execute) == 0)
    then bit_or mask access3_lookup
    else mask

abbrev add_delete : ℕ → ℕ
add_delete mask =
    if not (bit_and mask access3_modify == 0) then bit_or mask access3_delete else mask

unfoldable pub granted : ℕ → ℕ
granted type =
    if type == nf3dir
    then bit_and (add_delete (add_lookup everything)) (2 ^ 32 - 1 - access3_execute)
    else everything

module _ (srv : Server) where
  open srv use {backend.{State, go_lstat, go_truncate, go_chmod, go_modtime}, stack}

  unfoldable pub nfsproc3_getattr_3_svc :
      Getattr3Args → SvcReq → Getattr3Res → State → Getattr3Res × State
  nfsproc3_getattr_3_svc argp rqstp result s =
      let path = fh_decomp srv argp.object s in
      let (post, s') = get_post srv path s in
      (record { status = nfs3_ok; resok = record { obj_attributes = post.attributes } }, s')

  -- The three requests, each made if its attribute is to be set.
  unfoldable pub set_size : CharPtr → Sattr3 → State → ℕ × State
  set_size path new s =
      if new.size.set_it == bool_true then go_truncate path new.size.size s else (nfs3_ok, s)

  unfoldable pub set_mode : CharPtr → Sattr3 → State → ℕ × State
  set_mode path new s =
      if new.mode.set_it == bool_true then go_chmod path new.mode.mode s else (nfs3_ok, s)

  unfoldable pub set_mtime : CharPtr → Sattr3 → SvcReq → State → ℕ × State
  set_mtime path new rqstp s =
      if not (new.mtime.set_it == dont_change)
      then if new.mtime.set_it == set_to_server_time
        then go_modtime path (rqstp.now % 2 ^ 32) s
        else go_modtime path new.mtime.mtime.seconds s
      else (nfs3_ok, s)

  unfoldable pub nfsproc3_setattr_3_svc :
      Setattr3Args → SvcReq → Setattr3Res → State → Setattr3Res × State
  unfolding set_size set_mode set_mtime
  nfsproc3_setattr_3_svc argp rqstp result s =
      let new = argp.new_attributes in
      let path = fh_decomp srv argp.object s in
      let (pre, s₁) = get_pre srv path s in
      let (sres, s₂) = set_size path new s₁ in
      let (mres, s₃) = set_mode path new s₂ in
      let (mtres, s₄) = set_mtime path new rqstp s₃ in
      let status =
        if not (sres == nfs3_ok) then sres else if not (mres == nfs3_ok) then mres else mtres in
      let (post, s₅) = get_post srv path s₄ in
      (
        record {
          status = status;
          resok = record { obj_wcc = record { before = pre; after = post } };
        },
        s₅,
      )

  unfoldable pub nfsproc3_access_3_svc :
      Access3Args → SvcReq → Access3Res → State → Access3Res × State
  unfolding granted
  nfsproc3_access_3_svc argp rqstp result s =
      let path = fh_decomp srv argp.object s in
      let (status, buf, s') = go_lstat path stack.buf s in
      let post = if status == nfs3_ok then get_post_buf srv buf else error_attr in
      let newaccess = if status == nfs3_ok then granted post.attributes.type else 0 in
      (record { status = status; resok = record { obj_attributes = post; access = newaccess } }, s')

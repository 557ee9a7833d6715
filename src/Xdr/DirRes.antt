-- ===== src/Xdr/DirRes.antt =====
-- unfs3/xdr.c: the results of READDIR and READDIRPLUS.
use unfs2go.Common.{ℕ, ◌==◌, if◌then◌else◌}
use unfs2go.Xdr.Stream.{Filter, field, ◌>=>◌, switch}
use unfs2go.Types.Constants.{nfs3_ok}
use unfs2go.Types.Zero.{zero_entry3_item, zero_entryplus3_item}
use unfs2go.Xdr.Chain.{xdr_chain}
use unfs2go.Types.DirRes.{
  Dirlist3, Readdir3ResOk, Readdir3ResFail, Readdir3Res, Dirlistplus3, Readdirplus3ResOk,
  Readdirplus3ResFail,
}
use unfs2go.Types.DirRes.{Readdirplus3Res, readdir3resfail_lens, readdirplus3resfail_lens}
use unfs2go.Xdr.Rpc.{Rpc}
use unfs2go.Xdr.Basic.{xdr_nfsstat3, xdr_cookieverf3}
use unfs2go.Xdr.Attr.{xdr_post_op_attr}
use unfs2go.Xdr.Entries.{xdr_entry3_item, xdr_entryplus3_item}

module _ (rpc : Rpc) (depth : ℕ) where
  unfoldable pub xdr_dirlist3 : Filter Dirlist3
  xdr_dirlist3 =
      field (λ o. o.entries) (λ v o. record o { entries = v })
        (xdr_chain rpc zero_entry3_item (xdr_entry3_item rpc) depth)
      >=> field (λ o. o.eof) (λ v o. record o { eof = v }) (rpc.xdr_bool)

  unfoldable pub xdr_readdir3resok : Filter Readdir3ResOk
  xdr_readdir3resok =
      field (λ o. o.dir_attributes) (λ v o. record o { dir_attributes = v }) (xdr_post_op_attr rpc)
      >=> field (λ o. o.cookieverf) (λ v o. record o { cookieverf = v }) (xdr_cookieverf3 rpc)
      >=> field (λ o. o.reply) (λ v o. record o { reply = v }) xdr_dirlist3

  unfoldable pub xdr_readdir3resfail : Filter Readdir3ResFail
  xdr_readdir3resfail =
      field (λ o. o.dir_attributes) (λ v o. record o { dir_attributes = v }) (xdr_post_op_attr rpc)

  unfoldable pub xdr_readdir3res : Filter Readdir3Res
  xdr_readdir3res =
      field (λ o. o.status) (λ v o. record o { status = v }) (xdr_nfsstat3 rpc)
      >=> switch (λ o. o.status)
          λ d.
            if d == nfs3_ok
            then field (λ o. o.resok) (λ v o. record o { resok = v }) xdr_readdir3resok
            else field readdir3resfail_lens.0 readdir3resfail_lens.1 xdr_readdir3resfail

  unfoldable pub xdr_dirlistplus3 : Filter Dirlistplus3
  xdr_dirlistplus3 =
      field (λ o. o.entries) (λ v o. record o { entries = v })
        (xdr_chain rpc zero_entryplus3_item (xdr_entryplus3_item rpc) depth)
      >=> field (λ o. o.eof) (λ v o. record o { eof = v }) (rpc.xdr_bool)

  unfoldable pub xdr_readdirplus3resok : Filter Readdirplus3ResOk
  xdr_readdirplus3resok =
      field (λ o. o.dir_attributes) (λ v o. record o { dir_attributes = v }) (xdr_post_op_attr rpc)
      >=> field (λ o. o.cookieverf) (λ v o. record o { cookieverf = v }) (xdr_cookieverf3 rpc)
      >=> field (λ o. o.reply) (λ v o. record o { reply = v }) xdr_dirlistplus3

  unfoldable pub xdr_readdirplus3resfail : Filter Readdirplus3ResFail
  xdr_readdirplus3resfail =
      field (λ o. o.dir_attributes) (λ v o. record o { dir_attributes = v }) (xdr_post_op_attr rpc)

  unfoldable pub xdr_readdirplus3res : Filter Readdirplus3Res
  xdr_readdirplus3res =
      field (λ o. o.status) (λ v o. record o { status = v }) (xdr_nfsstat3 rpc)
      >=> switch (λ o. o.status)
          λ d.
            if d == nfs3_ok
            then field (λ o. o.resok) (λ v o. record o { resok = v }) xdr_readdirplus3resok
            else field readdirplus3resfail_lens.0 readdirplus3resfail_lens.1 xdr_readdirplus3resfail

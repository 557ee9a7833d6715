-- ===== src/Xdr/Entries.antt =====
-- unfs3/xdr.c: directory entries.
use unfs2go.Xdr.Stream.{Filter, field, ◌>=>◌}
use unfs2go.Types.Entries.{Entry3Item, Entryplus3Item}
use unfs2go.Xdr.Rpc.{Rpc}
use unfs2go.Xdr.Basic.{xdr_fileid3, xdr_cookie3, xdr_filename3}
use unfs2go.Xdr.Attr.{xdr_post_op_attr, xdr_post_op_fh3}

module _ (rpc : Rpc) where
  unfoldable pub xdr_entry3_item : Filter Entry3Item
  xdr_entry3_item =
      field (λ o. o.fileid) (λ v o. record o { fileid = v }) (xdr_fileid3 rpc)
      >=> field (λ o. o.name) (λ v o. record o { name = v }) (xdr_filename3 rpc)
      >=> field (λ o. o.cookie) (λ v o. record o { cookie = v }) (xdr_cookie3 rpc)

  unfoldable pub xdr_entryplus3_item : Filter Entryplus3Item
  xdr_entryplus3_item =
      field (λ o. o.fileid) (λ v o. record o { fileid = v }) (xdr_fileid3 rpc)
      >=> field (λ o. o.name) (λ v o. record o { name = v }) (xdr_filename3 rpc)
      >=> field (λ o. o.cookie) (λ v o. record o { cookie = v }) (xdr_cookie3 rpc)
      >=> field (λ o. o.name_attributes) (λ v o. record o { name_attributes = v })
          (xdr_post_op_attr rpc)
      >=> field (λ o. o.name_handle) (λ v o. record o { name_handle = v }) (xdr_post_op_fh3 rpc)

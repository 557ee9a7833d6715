-- ===== src/Xdr/Laws/Entries.antt =====
-- The routines of unfs3/xdr.c for directory entries.
use unfs2go.Common.{refl}
use unfs2go.Xdr.Rpc.{Rpc, IsRpc}
use unfs2go.Xdr.Codes.{Codes, replaced, >=>-Codes, field-Codes}
use unfs2go.Wire.Entries.{
  IsEntry3Item, wire_entry3_item, IsEntryplus3Item, wire_entryplus3_item, decoded_entryplus3_item,
}
use unfs2go.Xdr.Entries.{xdr_entry3_item, xdr_entryplus3_item}
use unfs2go.Xdr.Laws.Basic.{xdr_fileid3-Codes, xdr_cookie3-Codes, xdr_filename3-Codes}
use unfs2go.Xdr.Laws.Attr.{xdr_post_op_attr-Codes, xdr_post_op_fh3-Codes}

module _ (rpc : Rpc) (L : IsRpc rpc) where
  pub xdr_entry3_item-Codes : Codes (xdr_entry3_item rpc) IsEntry3Item wire_entry3_item replaced
  unfolding xdr_entry3_item
  xdr_entry3_item-Codes =
      >=>-Codes
        (field-Codes (λ o. o.fileid) (λ v o. record o { fileid = v }) (λ o. refl)
          (xdr_fileid3-Codes rpc L))
        (>=>-Codes
          (field-Codes (λ o. o.name) (λ v o. record o { name = v }) (λ o. refl)
            (xdr_filename3-Codes rpc L))
          (field-Codes (λ o. o.cookie) (λ v o. record o { cookie = v }) (λ o. refl)
            (xdr_cookie3-Codes rpc L)))

  pub xdr_entryplus3_item-Codes :
      Codes (xdr_entryplus3_item rpc) IsEntryplus3Item wire_entryplus3_item decoded_entryplus3_item
  unfolding xdr_entryplus3_item
  xdr_entryplus3_item-Codes =
      >=>-Codes
        (field-Codes (λ o. o.fileid) (λ v o. record o { fileid = v }) (λ o. refl)
          (xdr_fileid3-Codes rpc L))
        (>=>-Codes
          (field-Codes (λ o. o.name) (λ v o. record o { name = v }) (λ o. refl)
            (xdr_filename3-Codes rpc L))
          (>=>-Codes
            (field-Codes (λ o. o.cookie) (λ v o. record o { cookie = v }) (λ o. refl)
              (xdr_cookie3-Codes rpc L))
            (>=>-Codes
              (field-Codes (λ o. o.name_attributes) (λ v o. record o { name_attributes = v })
                (λ o. refl) (xdr_post_op_attr-Codes rpc L))
              (field-Codes (λ o. o.name_handle) (λ v o. record o { name_handle = v }) (λ o. refl)
                (xdr_post_op_fh3-Codes rpc L)))))

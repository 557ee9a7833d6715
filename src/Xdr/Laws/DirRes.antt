-- ===== src/Xdr/Laws/DirRes.antt =====
-- The routines of unfs3/xdr.c for the results of READDIR and READDIRPLUS.
use unfs2go.Types.Zero.{zero_entry3_item, zero_entryplus3_item}
use unfs2go.Xdr.Laws.Chain.{xdr_chain-Codes}
use unfs2go.Common.{ℕ, ◌==◌, refl}
use unfs2go.Types.Constants.{nfs3_ok}
use unfs2go.Types.DirRes.{readdir3resfail_lens, readdirplus3resfail_lens}
use unfs2go.Xdr.Rpc.{Rpc, IsRpc}
use unfs2go.Xdr.Codes.{Codes, replaced, >=>-Codes, if-Codes, field-Codes, switch-Codes}
use unfs2go.Wire.DirRes.{
  IsDirlist3, wire_dirlist3, decoded_dirlist3, IsReaddir3ResOk, wire_readdir3resok,
  decoded_readdir3resok, IsReaddir3ResFail,
}
use unfs2go.Wire.DirRes.{
  wire_readdir3resfail, decoded_readdir3resfail, IsReaddir3Res, wire_readdir3res,
  decoded_readdir3res, IsDirlistplus3, wire_dirlistplus3,
}
use unfs2go.Wire.DirRes.{
  decoded_dirlistplus3, IsReaddirplus3ResOk, wire_readdirplus3resok, decoded_readdirplus3resok,
  IsReaddirplus3ResFail, wire_readdirplus3resfail, decoded_readdirplus3resfail,
}
use unfs2go.Wire.DirRes.{IsReaddirplus3Res, wire_readdirplus3res, decoded_readdirplus3res}
use unfs2go.Xdr.DirRes.{
  xdr_dirlist3, xdr_readdir3resok, xdr_readdir3resfail, xdr_readdir3res, xdr_dirlistplus3,
  xdr_readdirplus3resok, xdr_readdirplus3resfail,
}
use unfs2go.Xdr.DirRes.{xdr_readdirplus3res}
use unfs2go.Xdr.Laws.Basic.{xdr_nfsstat3-Codes, xdr_cookieverf3-Codes}
use unfs2go.Wire.Entries.{
  IsEntry3Item, wire_entry3_item, IsEntryplus3Item, wire_entryplus3_item, decoded_entryplus3_item,
}
use unfs2go.Xdr.Entries.{xdr_entry3_item, xdr_entryplus3_item}
use unfs2go.Xdr.Laws.Attr.{xdr_post_op_attr-Codes}
use unfs2go.Xdr.Laws.Entries.{xdr_entry3_item-Codes, xdr_entryplus3_item-Codes}

module _ (rpc : Rpc) (L : IsRpc rpc) (depth : ℕ) where
  pub xdr_dirlist3-Codes :
      Codes (xdr_dirlist3 rpc depth) (IsDirlist3 depth) wire_dirlist3 decoded_dirlist3
  unfolding xdr_dirlist3
  xdr_dirlist3-Codes =
      >=>-Codes
        (field-Codes (λ o. o.entries) (λ v o. record o { entries = v }) (λ o. refl)
          (xdr_chain-Codes rpc L zero_entry3_item (xdr_entry3_item rpc) IsEntry3Item
            wire_entry3_item replaced (xdr_entry3_item-Codes rpc L) depth))
        (field-Codes (λ o. o.eof) (λ v o. record o { eof = v }) (λ o. refl) L.bool)

  pub xdr_readdir3resok-Codes :
      Codes
        (xdr_readdir3resok rpc depth)
        (IsReaddir3ResOk depth)
        wire_readdir3resok
        decoded_readdir3resok
  unfolding xdr_readdir3resok
  xdr_readdir3resok-Codes =
      >=>-Codes
        (field-Codes (λ o. o.dir_attributes) (λ v o. record o { dir_attributes = v }) (λ o. refl)
          (xdr_post_op_attr-Codes rpc L))
        (>=>-Codes
          (field-Codes (λ o. o.cookieverf) (λ v o. record o { cookieverf = v }) (λ o. refl)
            (xdr_cookieverf3-Codes rpc L))
          (field-Codes (λ o. o.reply) (λ v o. record o { reply = v }) (λ o. refl)
            xdr_dirlist3-Codes))

  pub xdr_readdir3resfail-Codes :
      Codes
        (xdr_readdir3resfail rpc depth)
        IsReaddir3ResFail
        wire_readdir3resfail
        decoded_readdir3resfail
  unfolding xdr_readdir3resfail
  xdr_readdir3resfail-Codes =
      field-Codes (λ o. o.dir_attributes) (λ v o. record o { dir_attributes = v }) (λ o. refl)
        (xdr_post_op_attr-Codes rpc L)

  pub xdr_readdir3res-Codes :
      Codes (xdr_readdir3res rpc depth) (IsReaddir3Res depth) wire_readdir3res decoded_readdir3res
  unfolding xdr_readdir3res
  xdr_readdir3res-Codes =
      switch-Codes (λ o. o.status) (λ x old. refl)
        (field-Codes (λ o. o.status) (λ v o. record o { status = v }) (λ o. refl)
          (xdr_nfsstat3-Codes rpc L))
        λ d.
          if-Codes
            (field-Codes (λ o. o.resok) (λ v o. record o { resok = v }) (λ o. refl)
              xdr_readdir3resok-Codes)
            (field-Codes readdir3resfail_lens.0 readdir3resfail_lens.1 (λ o. refl)
              xdr_readdir3resfail-Codes)
            (d == nfs3_ok)

  pub xdr_dirlistplus3-Codes :
      Codes
        (xdr_dirlistplus3 rpc depth)
        (IsDirlistplus3 depth)
        wire_dirlistplus3
        decoded_dirlistplus3
  unfolding xdr_dirlistplus3
  xdr_dirlistplus3-Codes =
      >=>-Codes
        (field-Codes (λ o. o.entries) (λ v o. record o { entries = v }) (λ o. refl)
          (xdr_chain-Codes rpc L zero_entryplus3_item (xdr_entryplus3_item rpc) IsEntryplus3Item
            wire_entryplus3_item decoded_entryplus3_item (xdr_entryplus3_item-Codes rpc L) depth))
        (field-Codes (λ o. o.eof) (λ v o. record o { eof = v }) (λ o. refl) L.bool)

  pub xdr_readdirplus3resok-Codes :
      Codes
        (xdr_readdirplus3resok rpc depth)
        (IsReaddirplus3ResOk depth)
        wire_readdirplus3resok
        decoded_readdirplus3resok
  unfolding xdr_readdirplus3resok
  xdr_readdirplus3resok-Codes =
      >=>-Codes
        (field-Codes (λ o. o.dir_attributes) (λ v o. record o { dir_attributes = v }) (λ o. refl)
          (xdr_post_op_attr-Codes rpc L))
        (>=>-Codes
          (field-Codes (λ o. o.cookieverf) (λ v o. record o { cookieverf = v }) (λ o. refl)
            (xdr_cookieverf3-Codes rpc L))
          (field-Codes (λ o. o.reply) (λ v o. record o { reply = v }) (λ o. refl)
            xdr_dirlistplus3-Codes))

  pub xdr_readdirplus3resfail-Codes :
      Codes
        (xdr_readdirplus3resfail rpc depth)
        IsReaddirplus3ResFail
        wire_readdirplus3resfail
        decoded_readdirplus3resfail
  unfolding xdr_readdirplus3resfail
  xdr_readdirplus3resfail-Codes =
      field-Codes (λ o. o.dir_attributes) (λ v o. record o { dir_attributes = v }) (λ o. refl)
        (xdr_post_op_attr-Codes rpc L)

  pub xdr_readdirplus3res-Codes :
      Codes
        (xdr_readdirplus3res rpc depth)
        (IsReaddirplus3Res depth)
        wire_readdirplus3res
        decoded_readdirplus3res
  unfolding xdr_readdirplus3res
  xdr_readdirplus3res-Codes =
      switch-Codes (λ o. o.status) (λ x old. refl)
        (field-Codes (λ o. o.status) (λ v o. record o { status = v }) (λ o. refl)
          (xdr_nfsstat3-Codes rpc L))
        λ d.
          if-Codes
            (field-Codes (λ o. o.resok) (λ v o. record o { resok = v }) (λ o. refl)
              xdr_readdirplus3resok-Codes)
            (field-Codes readdirplus3resfail_lens.0 readdirplus3resfail_lens.1 (λ o. refl)
              xdr_readdirplus3resfail-Codes)
            (d == nfs3_ok)

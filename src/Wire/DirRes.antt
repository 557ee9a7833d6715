-- ===== src/Wire/DirRes.antt =====
-- The wire format of the results of READDIR and READDIRPLUS (RFC 1813): the bytes of
-- a value, which values have a format, and what decoding makes of the object that was there before:
-- an arm of a union that did not travel is left as it was.
use unfs2go.Common.{ℕ, List, ◌++◌, ◌==◌, if◌then◌else◌}
use unfs2go.Types.Constants.{nfs3_ok}
use unfs2go.Wire.Chain.{IsChain, wire_chain, stored_chain}
use unfs2go.Types.Zero.{zero_entry3_item, zero_entryplus3_item}
use unfs2go.Xdr.Codes.{replaced}
use unfs2go.Types.DirRes.{
  Dirlist3, Readdir3ResOk, Readdir3ResFail, Readdir3Res, Dirlistplus3, Readdirplus3ResOk,
  Readdirplus3ResFail,
}
use unfs2go.Types.DirRes.{Readdirplus3Res, readdir3resfail_lens, readdirplus3resfail_lens}
use unfs2go.Wire.Basic.{IsU32, IsBool, IsVerf, wire_uint32, wire_opaque}
use unfs2go.Wire.Attr.{IsPostOpAttr, wire_post_op_attr, decoded_post_op_attr}
use unfs2go.Wire.Entries.{
  IsEntry3Item, wire_entry3_item, IsEntryplus3Item, wire_entryplus3_item, decoded_entryplus3_item,
}

abbrev pub IsDirlist3 : ℕ → Dirlist3 → Type 0
IsDirlist3 depth o = IsChain IsEntry3Item depth o.entries × (IsBool o.eof)

abbrev pub wire_dirlist3 : Dirlist3 → List ℕ
wire_dirlist3 o = wire_chain wire_entry3_item o.entries ++ (wire_uint32 o.eof)

abbrev pub decoded_dirlist3 : Dirlist3 → Dirlist3 → Dirlist3
decoded_dirlist3 o old = record {
  entries = (stored_chain zero_entry3_item replaced o.entries old.entries);
  eof = o.eof;
}

abbrev pub IsReaddir3ResOk : ℕ → Readdir3ResOk → Type 0
IsReaddir3ResOk depth o =
    IsPostOpAttr o.dir_attributes × (IsVerf o.cookieverf × (IsDirlist3 depth o.reply))

abbrev pub wire_readdir3resok : Readdir3ResOk → List ℕ
wire_readdir3resok o =
    wire_post_op_attr o.dir_attributes ++ (wire_opaque o.cookieverf ++ (wire_dirlist3 o.reply))

abbrev pub decoded_readdir3resok : Readdir3ResOk → Readdir3ResOk → Readdir3ResOk
decoded_readdir3resok o old = record {
  dir_attributes = (decoded_post_op_attr o.dir_attributes old.dir_attributes);
  cookieverf = o.cookieverf;
  reply = (decoded_dirlist3 o.reply old.reply);
}

abbrev pub IsReaddir3ResFail : Readdir3ResFail → Type 0
IsReaddir3ResFail o = IsPostOpAttr o.dir_attributes

abbrev pub wire_readdir3resfail : Readdir3ResFail → List ℕ
wire_readdir3resfail o = wire_post_op_attr o.dir_attributes

abbrev pub decoded_readdir3resfail : Readdir3ResFail → Readdir3ResFail → Readdir3ResFail
decoded_readdir3resfail o old = record {
  dir_attributes = (decoded_post_op_attr o.dir_attributes old.dir_attributes);
}

abbrev pub IsReaddir3Res : ℕ → Readdir3Res → Type 0
IsReaddir3Res depth o =
    IsU32 o.status
    × (if o.status == nfs3_ok
        then IsReaddir3ResOk depth o.resok
        else IsReaddir3ResFail (readdir3resfail_lens.0 o))

abbrev pub wire_readdir3res : Readdir3Res → List ℕ
wire_readdir3res o =
    wire_uint32 o.status
    ++ (if o.status == nfs3_ok
        then wire_readdir3resok o.resok
        else wire_readdir3resfail (readdir3resfail_lens.0 o))

abbrev pub decoded_readdir3res : Readdir3Res → Readdir3Res → Readdir3Res
decoded_readdir3res o old =
    if o.status == nfs3_ok
    then record { status = o.status; resok = (decoded_readdir3resok o.resok old.resok) }
    else readdir3resfail_lens.1
        (decoded_readdir3resfail (readdir3resfail_lens.0 o) (readdir3resfail_lens.0 old))
        (record old { status = o.status })

abbrev pub IsDirlistplus3 : ℕ → Dirlistplus3 → Type 0
IsDirlistplus3 depth o = IsChain IsEntryplus3Item depth o.entries × (IsBool o.eof)

abbrev pub wire_dirlistplus3 : Dirlistplus3 → List ℕ
wire_dirlistplus3 o = wire_chain wire_entryplus3_item o.entries ++ (wire_uint32 o.eof)

abbrev pub decoded_dirlistplus3 : Dirlistplus3 → Dirlistplus3 → Dirlistplus3
decoded_dirlistplus3 o old = record {
  entries = (stored_chain zero_entryplus3_item decoded_entryplus3_item o.entries old.entries);
  eof = o.eof;
}

abbrev pub IsReaddirplus3ResOk : ℕ → Readdirplus3ResOk → Type 0
IsReaddirplus3ResOk depth o =
    IsPostOpAttr o.dir_attributes × (IsVerf o.cookieverf × (IsDirlistplus3 depth o.reply))

abbrev pub wire_readdirplus3resok : Readdirplus3ResOk → List ℕ
wire_readdirplus3resok o =
    wire_post_op_attr o.dir_attributes ++ (wire_opaque o.cookieverf ++ (wire_dirlistplus3 o.reply))

abbrev pub decoded_readdirplus3resok : Readdirplus3ResOk → Readdirplus3ResOk → Readdirplus3ResOk
decoded_readdirplus3resok o old = record {
  dir_attributes = (decoded_post_op_attr o.dir_attributes old.dir_attributes);
  cookieverf = o.cookieverf;
  reply = (decoded_dirlistplus3 o.reply old.reply);
}

abbrev pub IsReaddirplus3ResFail : Readdirplus3ResFail → Type 0
IsReaddirplus3ResFail o = IsPostOpAttr o.dir_attributes

abbrev pub wire_readdirplus3resfail : Readdirplus3ResFail → List ℕ
wire_readdirplus3resfail o = wire_post_op_attr o.dir_attributes

abbrev pub decoded_readdirplus3resfail :
    Readdirplus3ResFail → Readdirplus3ResFail → Readdirplus3ResFail
decoded_readdirplus3resfail o old = record {
  dir_attributes = (decoded_post_op_attr o.dir_attributes old.dir_attributes);
}

abbrev pub IsReaddirplus3Res : ℕ → Readdirplus3Res → Type 0
IsReaddirplus3Res depth o =
    IsU32 o.status
    × (if o.status == nfs3_ok
        then IsReaddirplus3ResOk depth o.resok
        else IsReaddirplus3ResFail (readdirplus3resfail_lens.0 o))

abbrev pub wire_readdirplus3res : Readdirplus3Res → List ℕ
wire_readdirplus3res o =
    wire_uint32 o.status
    ++ (if o.status == nfs3_ok
        then wire_readdirplus3resok o.resok
        else wire_readdirplus3resfail (readdirplus3resfail_lens.0 o))

abbrev pub decoded_readdirplus3res : Readdirplus3Res → Readdirplus3Res → Readdirplus3Res
decoded_readdirplus3res o old =
    if o.status == nfs3_ok
    then record { status = o.status; resok = (decoded_readdirplus3resok o.resok old.resok) }
    else readdirplus3resfail_lens.1
        (decoded_readdirplus3resfail (readdirplus3resfail_lens.0 o)
          (readdirplus3resfail_lens.0 old))
        (record old { status = o.status })

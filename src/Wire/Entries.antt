-- ===== src/Wire/Entries.antt =====
-- The wire format of directory entries (RFC 1813): the bytes of
-- a value, which values have a format, and what decoding makes of the object that was there before:
-- an arm of a union that did not travel is left as it was.
use unfs2go.Common.{ℕ, List, ◌++◌}
use unfs2go.Types.Entries.{Entry3Item, Entryplus3Item}
use unfs2go.Wire.Basic.{IsU64, IsName, wire_uint64, wire_string}
use unfs2go.Wire.Attr.{
  IsPostOpAttr, wire_post_op_attr, decoded_post_op_attr, IsPostOpFh3, wire_post_op_fh3,
  decoded_post_op_fh3,
}

abbrev pub IsEntry3Item : Entry3Item → Type 0
IsEntry3Item o = IsU64 o.fileid × (IsName o.name × (IsU64 o.cookie))

abbrev pub wire_entry3_item : Entry3Item → List ℕ
wire_entry3_item o = wire_uint64 o.fileid ++ (wire_string o.name ++ (wire_uint64 o.cookie))

abbrev pub IsEntryplus3Item : Entryplus3Item → Type 0
IsEntryplus3Item o =
    IsU64 o.fileid
    × (IsName o.name
        × (IsU64 o.cookie × (IsPostOpAttr o.name_attributes × (IsPostOpFh3 o.name_handle))))

abbrev pub wire_entryplus3_item : Entryplus3Item → List ℕ
wire_entryplus3_item o =
    wire_uint64 o.fileid
    ++ (wire_string o.name
        ++ (wire_uint64 o.cookie
            ++ (wire_post_op_attr o.name_attributes ++ (wire_post_op_fh3 o.name_handle))))

abbrev pub decoded_entryplus3_item : Entryplus3Item → Entryplus3Item → Entryplus3Item
decoded_entryplus3_item o old = record {
  fileid = o.fileid;
  name = o.name;
  cookie = o.cookie;
  name_attributes = (decoded_post_op_attr o.name_attributes old.name_attributes);
  name_handle = (decoded_post_op_fh3 o.name_handle old.name_handle);
}

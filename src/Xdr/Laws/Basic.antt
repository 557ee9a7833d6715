-- ===== src/Xdr/Laws/Basic.antt =====
-- The routines of unfs3/xdr.c for integers, enums, strings and verifiers.
use unfs2go.Common.{ℕ, ◌%◌, ◌≡◌, refl, arith, bit_and}
use unfs2go.Common.Bits.{bit_or-shifted, bit_and-ones}
use unfs2go.Xdr.Rpc.{Rpc, IsRpc}
use unfs2go.Xdr.Codes.{Codes, replaced}
use unfs2go.Wire.Basic.{
  IsU32, IsU64, IsVerf, IsName, wire_uint32, wire_uint64, wire_opaque, wire_string,
}
use unfs2go.Xdr.Basic.{
  uint64_buf, ntohl_at, uint64_of_buf, xdr_uint64, xdr_uint32, xdr_filename3, xdr_nfspath3,
  xdr_fileid3, xdr_cookie3, xdr_cookieverf3, xdr_createverf3, xdr_writeverf3, xdr_uid3, xdr_gid3,
  xdr_size3, xdr_offset3, xdr_mode3, xdr_count3, xdr_nfsstat3, xdr_ftype3, xdr_time_how,
  xdr_stable_how, xdr_createmode3,
}

low_byte : (n : ℕ) → bit_and n 0xff ≡ n % 256
low_byte n = bit_and-ones 8 n

-- The buffer is the wire format, and needs no padding.
uint64_buf-wire : (n : ℕ) → uint64_buf n ≡ wire_uint64 n
unfolding uint64_buf
uint64_buf-wire n = simp low_byte (ground arith)

uint64_of_buf-wire : (n : ℕ) → IsU64 n → uint64_of_buf (wire_uint64 n) ≡ n
unfolding uint64_of_buf
uint64_of_buf-wire n h = omega (
  arith,
  bit_or-shifted 32 (ntohl_at 0 (wire_uint64 n)) (ntohl_at 4 (wire_uint64 n)) (omega arith),
)

module _ (rpc : Rpc) (L : IsRpc rpc) where
  pub xdr_uint64-Codes : Codes (xdr_uint64 rpc) IsU64 wire_uint64 replaced
  unfolding xdr_uint64
  xdr_uint64-Codes = record {
    encodes = λ out x v.
        rw (uint64_buf-wire x, (L.opaque 8).encodes out (wire_uint64 x) refl, xdr_uint64);
    decodes = λ rest x old v.
        rw ((L.opaque 8).decodes rest (wire_uint64 x) _ refl, xdr_uint64, uint64_of_buf-wire x v);
  }

  pub xdr_uint32-Codes : Codes (xdr_uint32 rpc) IsU32 wire_uint32 replaced
  unfolding xdr_uint32
  xdr_uint32-Codes = L.uint32

  pub xdr_filename3-Codes : Codes (xdr_filename3 rpc) IsName wire_string replaced
  unfolding xdr_filename3
  xdr_filename3-Codes = L.string _

  pub xdr_nfspath3-Codes : Codes (xdr_nfspath3 rpc) IsName wire_string replaced
  unfolding xdr_nfspath3
  xdr_nfspath3-Codes = L.string _

  pub xdr_fileid3-Codes : Codes (xdr_fileid3 rpc) IsU64 wire_uint64 replaced
  unfolding xdr_fileid3
  xdr_fileid3-Codes = xdr_uint64-Codes

  pub xdr_cookie3-Codes : Codes (xdr_cookie3 rpc) IsU64 wire_uint64 replaced
  unfolding xdr_cookie3
  xdr_cookie3-Codes = xdr_uint64-Codes

  pub xdr_size3-Codes : Codes (xdr_size3 rpc) IsU64 wire_uint64 replaced
  unfolding xdr_size3
  xdr_size3-Codes = xdr_uint64-Codes

  pub xdr_offset3-Codes : Codes (xdr_offset3 rpc) IsU64 wire_uint64 replaced
  unfolding xdr_offset3
  xdr_offset3-Codes = xdr_uint64-Codes

  pub xdr_cookieverf3-Codes : Codes (xdr_cookieverf3 rpc) IsVerf wire_opaque replaced
  unfolding xdr_cookieverf3
  xdr_cookieverf3-Codes = L.opaque 8

  pub xdr_createverf3-Codes : Codes (xdr_createverf3 rpc) IsVerf wire_opaque replaced
  unfolding xdr_createverf3
  xdr_createverf3-Codes = L.opaque 8

  pub xdr_writeverf3-Codes : Codes (xdr_writeverf3 rpc) IsVerf wire_opaque replaced
  unfolding xdr_writeverf3
  xdr_writeverf3-Codes = L.opaque 8

  pub xdr_uid3-Codes : Codes (xdr_uid3 rpc) IsU32 wire_uint32 replaced
  unfolding xdr_uid3
  xdr_uid3-Codes = xdr_uint32-Codes

  pub xdr_gid3-Codes : Codes (xdr_gid3 rpc) IsU32 wire_uint32 replaced
  unfolding xdr_gid3
  xdr_gid3-Codes = xdr_uint32-Codes

  pub xdr_mode3-Codes : Codes (xdr_mode3 rpc) IsU32 wire_uint32 replaced
  unfolding xdr_mode3
  xdr_mode3-Codes = xdr_uint32-Codes

  pub xdr_count3-Codes : Codes (xdr_count3 rpc) IsU32 wire_uint32 replaced
  unfolding xdr_count3
  xdr_count3-Codes = xdr_uint32-Codes

  pub xdr_nfsstat3-Codes : Codes (xdr_nfsstat3 rpc) IsU32 wire_uint32 replaced
  unfolding xdr_nfsstat3
  xdr_nfsstat3-Codes = L.enum

  pub xdr_ftype3-Codes : Codes (xdr_ftype3 rpc) IsU32 wire_uint32 replaced
  unfolding xdr_ftype3
  xdr_ftype3-Codes = L.enum

  pub xdr_time_how-Codes : Codes (xdr_time_how rpc) IsU32 wire_uint32 replaced
  unfolding xdr_time_how
  xdr_time_how-Codes = L.enum

  pub xdr_stable_how-Codes : Codes (xdr_stable_how rpc) IsU32 wire_uint32 replaced
  unfolding xdr_stable_how
  xdr_stable_how-Codes = L.enum

  pub xdr_createmode3-Codes : Codes (xdr_createmode3 rpc) IsU32 wire_uint32 replaced
  unfolding xdr_createmode3
  xdr_createmode3-Codes = L.enum

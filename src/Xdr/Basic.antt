-- ===== src/Xdr/Basic.antt =====
-- unfs3/xdr.c: integers, enums, strings and verifiers. `xdr_uint64` is the version that is compiled
-- where the RPC library has none of its own.
use unfs2go.Common.{ℕ, ◌+◌, ◌*◌, ◌/◌, ◌^◌, List, [], ◌∷◌, none, some, bit_and, bit_or, get_or}
use unfs2go.Xdr.Stream.{Filter, xdr_encode, xdr_decode, xdr_free}
use unfs2go.Types.Names.{
  Uint64, Uint32, Filename3, Nfspath3, Fileid3, Cookie3, Cookieverf3, Createverf3, Writeverf3, Uid3,
  Gid3, Size3, Offset3, Mode3, Count3, Nfsstat3, Ftype3, TimeHow, StableHow, Createmode3,
}
use unfs2go.Types.Constants.{u32_max, nfs3_cookieverfsize, nfs3_createverfsize, nfs3_writeverfsize}
use unfs2go.Xdr.Rpc.{Rpc}

-- `char buf[8]`, filled from the top byte down.
unfoldable pub uint64_buf : ℕ → List ℕ
uint64_buf n =
    bit_and (n / 2 ^ 56) 0xff
    ∷ bit_and (n / 2 ^ 48) 0xff
    ∷ bit_and (n / 2 ^ 40) 0xff
    ∷ bit_and (n / 2 ^ 32) 0xff
    ∷ bit_and (n / 2 ^ 24) 0xff
    ∷ bit_and (n / 2 ^ 16) 0xff
    ∷ bit_and (n / 2 ^ 8) 0xff
    ∷ bit_and n 0xff
    ∷ []

-- `ntohl` of the four bytes at `buf + i`.
unfoldable pub ntohl_at : ℕ → List ℕ → ℕ
ntohl_at i buf =
    get_or buf i 0 * 2 ^ 24
    + get_or buf (i + 1) 0 * 2 ^ 16
    + get_or buf (i + 2) 0 * 2 ^ 8
    + get_or buf (i + 3) 0

-- `(uint64) (ntohl(*top)) << 32 | ntohl(*bottom)`
unfoldable pub uint64_of_buf : List ℕ → ℕ
unfolding ntohl_at
uint64_of_buf buf = bit_or (ntohl_at 0 buf * 2 ^ 32) (ntohl_at 4 buf)

-- What `buf` holds before it is filled does not matter.
abbrev blank : List ℕ
blank = 0 ∷ 0 ∷ 0 ∷ 0 ∷ 0 ∷ 0 ∷ 0 ∷ 0 ∷ []

module _ (rpc : Rpc) where
  unfoldable pub xdr_uint64 : Filter Uint64
  xdr_uint64 xdrs objp = elim xdrs.x_op [
    | xdr_encode ↦ elim (rpc.xdr_opaque 8 xdrs (uint64_buf objp)) [
      | none ↦ none
      | some (xdrs', buf) ↦ some (xdrs', objp)
    ]
    | xdr_decode ↦ elim (rpc.xdr_opaque 8 xdrs blank) [
      | none ↦ none
      | some (xdrs', buf) ↦ some (xdrs', uint64_of_buf buf)
    ]
    | xdr_free ↦ elim (rpc.xdr_opaque 8 xdrs blank) [
      | none ↦ none
      | some (xdrs', buf) ↦ some (xdrs', objp)
    ]
  ]

  unfoldable pub xdr_uint32 : Filter Uint32
  xdr_uint32 = rpc.xdr_uint32_t

  unfoldable pub xdr_filename3 : Filter Filename3
  xdr_filename3 = rpc.xdr_string u32_max

  unfoldable pub xdr_nfspath3 : Filter Nfspath3
  xdr_nfspath3 = rpc.xdr_string u32_max

  unfoldable pub xdr_fileid3 : Filter Fileid3
  xdr_fileid3 = xdr_uint64

  unfoldable pub xdr_cookie3 : Filter Cookie3
  xdr_cookie3 = xdr_uint64

  unfoldable pub xdr_cookieverf3 : Filter Cookieverf3
  xdr_cookieverf3 = rpc.xdr_opaque nfs3_cookieverfsize

  unfoldable pub xdr_createverf3 : Filter Createverf3
  xdr_createverf3 = rpc.xdr_opaque nfs3_createverfsize

  unfoldable pub xdr_writeverf3 : Filter Writeverf3
  xdr_writeverf3 = rpc.xdr_opaque nfs3_writeverfsize

  unfoldable pub xdr_uid3 : Filter Uid3
  xdr_uid3 = xdr_uint32

  unfoldable pub xdr_gid3 : Filter Gid3
  xdr_gid3 = xdr_uint32

  unfoldable pub xdr_size3 : Filter Size3
  xdr_size3 = xdr_uint64

  unfoldable pub xdr_offset3 : Filter Offset3
  xdr_offset3 = xdr_uint64

  unfoldable pub xdr_mode3 : Filter Mode3
  xdr_mode3 = xdr_uint32

  unfoldable pub xdr_count3 : Filter Count3
  xdr_count3 = xdr_uint32

  unfoldable pub xdr_nfsstat3 : Filter Nfsstat3
  xdr_nfsstat3 = rpc.xdr_enum

  unfoldable pub xdr_ftype3 : Filter Ftype3
  xdr_ftype3 = rpc.xdr_enum

  unfoldable pub xdr_time_how : Filter TimeHow
  xdr_time_how = rpc.xdr_enum

  unfoldable pub xdr_stable_how : Filter StableHow
  xdr_stable_how = rpc.xdr_enum

  unfoldable pub xdr_createmode3 : Filter Createmode3
  xdr_createmode3 = rpc.xdr_enum

-- ===== src/Types/Names.antt =====
-- unfs3/nfs.h: the names for plain C types. An `enum` and an `int` that travels are numbers: the
-- 32-bit pattern.
use unfs2go.Common.{ℕ, List}
use unfs2go.Xdr.Stream.{CharPtr}

abbrev pub Uint64 : Type 0
Uint64 = ℕ

abbrev pub Uint32 : Type 0
Uint32 = ℕ

abbrev pub Filename3 : Type 0
Filename3 = CharPtr

abbrev pub Nfspath3 : Type 0
Nfspath3 = CharPtr

abbrev pub Fileid3 : Type 0
Fileid3 = ℕ

abbrev pub Cookie3 : Type 0
Cookie3 = ℕ

abbrev pub Cookieverf3 : Type 0
Cookieverf3 = List ℕ

abbrev pub Createverf3 : Type 0
Createverf3 = List ℕ

abbrev pub Writeverf3 : Type 0
Writeverf3 = List ℕ

abbrev pub Uid3 : Type 0
Uid3 = ℕ

abbrev pub Gid3 : Type 0
Gid3 = ℕ

abbrev pub Size3 : Type 0
Size3 = ℕ

abbrev pub Offset3 : Type 0
Offset3 = ℕ

abbrev pub Mode3 : Type 0
Mode3 = ℕ

abbrev pub Count3 : Type 0
Count3 = ℕ

abbrev pub Nfsstat3 : Type 0
Nfsstat3 = ℕ

abbrev pub Ftype3 : Type 0
Ftype3 = ℕ

abbrev pub TimeHow : Type 0
TimeHow = ℕ

abbrev pub StableHow : Type 0
StableHow = ℕ

abbrev pub Createmode3 : Type 0
Createmode3 = ℕ

-- `bool_t` of the RPC library, with TRUE and FALSE.
abbrev pub BoolT : Type 0
BoolT = ℕ

-- ===== src/Wire/Basic.antt =====
-- The wire format of the basic types (RFC 4506): big-endian words, and data padded to four bytes.
use unfs2go.Common.{ℕ, ◌-◌, ◌/◌, ◌%◌, ◌^◌, ◌≤◌, ◌<◌, ◌≡◌, List, [], ◌∷◌, ◌++◌, none, some}
use unfs2go.Common.{length, replicate}
use unfs2go.Xdr.Stream.{CharPtr, Opaque}
use unfs2go.Types.Names.{BoolT}
use unfs2go.Types.Constants.{u32_max}

abbrev pub IsU32 : ℕ → Type 0
IsU32 n = n < 2 ^ 32

abbrev pub IsU64 : ℕ → Type 0
IsU64 n = n < 2 ^ 64

abbrev pub IsBool : BoolT → Type 0
IsBool b = b ≤ 1

-- A `verf`: eight bytes.
abbrev pub IsVerf : List ℕ → Type 0
IsVerf bytes = length bytes ≡ 8

abbrev pub NoNul : List ℕ → Type 0
NoNul [] = Unit
NoNul (c ∷ s) = (0 < c) × NoNul s

abbrev pub IsString : ℕ → CharPtr → Type 0
IsString max none = ⊥
IsString max (some s) = NoNul s × (length s ≤ max) × (length s ≤ u32_max)

abbrev pub IsName : CharPtr → Type 0
IsName = IsString u32_max

abbrev pub IsOpaque : ℕ → Opaque → Type 0
IsOpaque max o = (length o.data_val ≡ o.data_len) × (o.data_len ≤ max) × (o.data_len ≤ u32_max)

abbrev pub wire_uint32 : ℕ → List ℕ
wire_uint32 n = n / 2 ^ 24 % 256 ∷ n / 2 ^ 16 % 256 ∷ n / 2 ^ 8 % 256 ∷ n % 256 ∷ []

abbrev pub wire_uint64 : ℕ → List ℕ
wire_uint64 n = wire_uint32 (n / 2 ^ 32) ++ wire_uint32 (n % 2 ^ 32)

abbrev pub pad : ℕ → ℕ
pad n = (4 - n % 4) % 4

abbrev pub wire_opaque : List ℕ → List ℕ
wire_opaque bytes = bytes ++ replicate (pad (length bytes)) 0

abbrev pub wire_bytes : Opaque → List ℕ
wire_bytes o = wire_uint32 o.data_len ++ wire_opaque o.data_val

abbrev pub wire_string : CharPtr → List ℕ
wire_string none = []
wire_string (some s) = wire_uint32 (length s) ++ wire_opaque s

-- ===== src/Xdr/Rpc.antt =====
-- What unfs3/xdr.c takes from the RPC library (rpc/xdr.h): the primitive routines, and what their
-- documentation says of the bytes that they write and read (RFC 4506).
use unfs2go.Common.{ℕ, ◌≡◌, ◌≤◌, List, ◌++◌, length, Option, none, some}
use unfs2go.Xdr.Stream.{Filter, CharPtr, Opaque}
use unfs2go.Xdr.Codes.{Codes, replaced}
use unfs2go.Types.Names.{BoolT}
use unfs2go.Types.Constants.{u32_max}
use unfs2go.Wire.Basic.{IsU32, IsBool, IsString, IsOpaque, wire_uint32, wire_opaque, wire_bytes}
use unfs2go.Wire.Basic.{wire_string}
use unfs2go.Wire.Chain.{All, wire_all}

-- What `xdr_pointer` does, on top of the routine for the object pointed to.
abbrev pub IsPointer : {A : Type 0} → (A → Type 0) → Option A → Type 0
IsPointer V none = Unit
IsPointer V (some x) = V x

abbrev pub wire_pointer : {A : Type 0} → (A → List ℕ) → Option A → List ℕ
wire_pointer w none = wire_uint32 0
wire_pointer w (some x) = wire_uint32 1 ++ w x

-- Decoding into a null pointer allocates a zeroed object.
abbrev pub stored_pointer : {A : Type 0} → A → (A → A → A) → Option A → Option A → Option A
stored_pointer zeroed s none old = none
stored_pointer zeroed s (some x) none = some (s x zeroed)
stored_pointer zeroed s (some x) (some old) = some (s x old)

pub record Rpc : Type 1 where
  pub xdr_uint32_t : Filter ℕ
  pub xdr_enum : Filter ℕ
  pub xdr_bool : Filter BoolT
  -- The second argument of the C routines is here the bound or the fixed count that follows it.
  pub xdr_opaque : ℕ → Filter (List ℕ)
  pub xdr_bytes : ℕ → Filter Opaque
  pub xdr_string : ℕ → Filter CharPtr
  -- The zeroed object stands for `sizeof`.
  pub xdr_pointer : (A : Type 0) → A → Filter A → Filter (Option A)
  -- `xdr_array` with `xdr_int` for the elements, its only use.
  pub xdr_array : ℕ → Filter (List ℕ)

pub record IsRpc (rpc : Rpc) : Type 1 where
  pub uint32 : Codes rpc.xdr_uint32_t IsU32 wire_uint32 replaced
  pub enum : Codes rpc.xdr_enum IsU32 wire_uint32 replaced
  pub bool : Codes rpc.xdr_bool IsBool wire_uint32 replaced
  pub opaque : (n : ℕ) → Codes (rpc.xdr_opaque n) (λ bytes. length bytes ≡ n) wire_opaque replaced
  pub bytes : (max : ℕ) → Codes (rpc.xdr_bytes max) (IsOpaque max) wire_bytes replaced
  pub string : (max : ℕ) → Codes (rpc.xdr_string max) (IsString max) wire_string replaced
  pub pointer :
      (A : Type 0) (zeroed : A) (f : Filter A) (V : A → Type 0) (w : A → List ℕ) (s : A → A → A)
      → Codes f V w s
      → Codes (rpc.xdr_pointer A zeroed f) (IsPointer V) (wire_pointer w) (stored_pointer zeroed s)
  pub array :
      (max : ℕ)
      → Codes
          (rpc.xdr_array max)
          (λ xs. All IsU32 xs × ((length xs ≤ max) × (length xs ≤ u32_max)))
          (λ xs. wire_uint32 (length xs) ++ wire_all wire_uint32 xs)
          replaced

-- ===== src/Xdr/Memory.antt =====
-- The primitive routines over a stream in memory: an instance of `Rpc` that meets what is assumed.
pub mod Laws
use unfs2go.Common.{
  ℕ, zero, suc, ◌+◌, ◌*◌, ◌^◌, ◌≤◌, ◌≡◌, refl, none, some, Option, List, [], ◌∷◌, ◌++◌, true,
  length, replicate, length-replicate, leb, ◌==◌, if◌then◌else◌, append_assoc, arith,
}
use unfs2go.Xdr.Stream.{
  Filter, Xdr, xdr_encode, xdr_decode, xdr_free, encoding, decoding, CharPtr, Opaque,
}
use unfs2go.Xdr.Codes.{Codes, replaced}
use unfs2go.Xdr.Rpc.{Rpc, IsRpc, IsPointer, wire_pointer, stored_pointer}
use unfs2go.Wire.Chain.{All, wire_all}
use unfs2go.Types.Names.{BoolT}
use unfs2go.Types.Constants.{u32_max}
use unfs2go.Wire.Basic.{
  IsU32, IsBool, IsString, IsOpaque, wire_uint32, wire_opaque, wire_bytes, wire_string, pad,
}

read_word : List ℕ → Option (ℕ × List ℕ)
read_word (a ∷ b ∷ c ∷ d ∷ rest) = some (a * 2 ^ 24 + b * 2 ^ 16 + c * 2 ^ 8 + d, rest)
read_word _ = none

read_exactly : ℕ → List ℕ → Option (List ℕ × List ℕ)
read_exactly zero input = some ([], input)
read_exactly (suc n) [] = none
read_exactly (suc n) (b ∷ input) = elim (read_exactly n input) [
  | none ↦ none
  | some (bytes, rest) ↦ some (b ∷ bytes, rest)
]

read_padded : ℕ → List ℕ → Option (List ℕ × List ℕ)
read_padded n input = elim (read_exactly n input) [
  | none ↦ none
  | some (bytes, rest) ↦ elim (read_exactly (pad n) rest) [
    | none ↦ none
    | some (zeros, rest') ↦ some (bytes, rest')
  ]
]

read_counted : ℕ → List ℕ → Option (ℕ × List ℕ × List ℕ)
read_counted max input = elim (read_word input) [
  | none ↦ none
  | some (n, rest) ↦
      if leb n max
      then elim (read_padded n rest) [ none ↦ none | some (bytes, rest') ↦ some (n, bytes, rest') ]
      else none
]

mem_word : Filter ℕ
mem_word xdrs n = elim xdrs.x_op [
  | xdr_encode ↦ some (encoding (xdrs.stream ++ wire_uint32 n), n)
  | xdr_decode ↦ elim (read_word xdrs.stream) [
    | none ↦ none
    | some (m, rest) ↦ some (decoding rest, m)
  ]
  | xdr_free ↦ some (xdrs, n)
]

mem_bool : Filter BoolT
mem_bool xdrs b = elim (mem_word xdrs (if b == 0 then 0 else 1)) [
  | none ↦ none
  | some (xdrs', m) ↦ some (xdrs', if m == 0 then 0 else 1)
]

mem_opaque : ℕ → Filter (List ℕ)
mem_opaque n xdrs bytes = elim xdrs.x_op [
  | xdr_encode ↦ some (encoding (xdrs.stream ++ wire_opaque bytes), bytes)
  | xdr_decode ↦ elim (read_padded n xdrs.stream) [
    | none ↦ none
    | some (bytes', rest) ↦ some (decoding rest, bytes')
  ]
  | xdr_free ↦ some (xdrs, bytes)
]

mem_bytes : ℕ → Filter Opaque
mem_bytes max xdrs o = elim xdrs.x_op [
  | xdr_encode ↦
      if leb o.data_len max then some (encoding (xdrs.stream ++ wire_bytes o), o) else none
  | xdr_decode ↦ elim (read_counted max xdrs.stream) [
    | none ↦ none
    | some (n, bytes, rest) ↦ some (decoding rest, record { data_len = n; data_val = bytes })
  ]
  | xdr_free ↦ some (xdrs, o)
]

mem_put_string : ℕ → List ℕ → CharPtr → Option (List ℕ)
mem_put_string max out none = none
mem_put_string max out (some s) =
    if leb (length s) max then some (out ++ wire_string (some s)) else none

mem_string : ℕ → Filter CharPtr
mem_string max xdrs s = elim xdrs.x_op [
  | xdr_encode ↦ elim (mem_put_string max xdrs.stream s) [
    | none ↦ none
    | some out ↦ some (encoding out, s)
  ]
  | xdr_decode ↦ elim (read_counted max xdrs.stream) [
    | none ↦ none
    | some (n, bytes, rest) ↦ some (decoding rest, some bytes)
  ]
  | xdr_free ↦ some (xdrs, s)
]

as_pointer : {A : Type 0} → Option (Xdr × A) → Option (Xdr × Option A)
as_pointer none = none
as_pointer (some (xdrs, x)) = some (xdrs, some x)

mem_pointer : (A : Type 0) → A → Filter A → Filter (Option A)
mem_pointer A zeroed f xdrs none = elim xdrs.x_op [
  | xdr_encode ↦ some (encoding (xdrs.stream ++ wire_uint32 0), none)
  | xdr_decode ↦ elim (read_word xdrs.stream) [
    | none ↦ none
    | some (more, rest) ↦
        if more == 0 then some (decoding rest, none) else as_pointer (f (decoding rest) zeroed)
  ]
  | xdr_free ↦ some (xdrs, none)
]
mem_pointer A zeroed f xdrs (some x) = elim xdrs.x_op [
  | xdr_encode ↦ as_pointer (f (encoding (xdrs.stream ++ wire_uint32 1)) x)
  | xdr_decode ↦ elim (read_word xdrs.stream) [
    | none ↦ none
    | some (more, rest) ↦
        if more == 0 then some (decoding rest, none) else as_pointer (f (decoding rest) x)
  ]
  | xdr_free ↦ elim (f xdrs x) [ none ↦ none | some (xdrs', y) ↦ some (xdrs', none) ]
]

read_words : ℕ → List ℕ → Option (List ℕ × List ℕ)
read_words zero input = some ([], input)
read_words (suc n) input = elim (read_word input) [
  | none ↦ none
  | some (w, rest) ↦ elim (read_words n rest) [
    | none ↦ none
    | some (ws, rest') ↦ some (w ∷ ws, rest')
  ]
]

mem_array : ℕ → Filter (List ℕ)
mem_array max xdrs ws = elim xdrs.x_op [
  | xdr_encode ↦
      if leb (length ws) max
      then some (encoding (xdrs.stream ++ (wire_uint32 (length ws) ++ wire_all wire_uint32 ws)), ws)
      else none
  | xdr_decode ↦ elim (read_word xdrs.stream) [
    | none ↦ none
    | some (n, rest) ↦
        if leb n max
        then elim (read_words n rest) [
          | none ↦ none
          | some (ws', rest') ↦ some (decoding rest', ws')
        ]
        else none
  ]
  | xdr_free ↦ some (xdrs, [])
]

unfoldable pub memory : Rpc
unfolding mem_pointer as_pointer mem_array read_words mem_word mem_bool mem_opaque mem_bytes
    mem_string mem_put_string read_counted read_padded read_exactly read_word
memory = record {
  xdr_uint32_t = mem_word;
  xdr_enum = mem_word;
  xdr_bool = mem_bool;
  xdr_opaque = mem_opaque;
  xdr_bytes = mem_bytes;
  xdr_string = mem_string;
  xdr_pointer = mem_pointer;
  xdr_array = mem_array;
}

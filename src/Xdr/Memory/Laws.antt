-- ===== src/Xdr/Memory/Laws.antt =====
-- The routines over a stream in memory against what is assumed of the RPC library.
use unfs2go.Common.{
  ℕ, zero, suc, ◌≤◌, ◌≡◌, refl, none, some, Option, List, [], ◌∷◌, ◌++◌, true, length, replicate,
  length-replicate, leb, append_assoc, arith,
}
use unfs2go.Xdr.Stream.{Filter, encoding, decoding, CharPtr}
use unfs2go.Xdr.Codes.{Codes, replaced}
use unfs2go.Xdr.Rpc.{IsRpc, IsPointer, wire_pointer, stored_pointer}
use unfs2go.Wire.Chain.{All, wire_all}
use unfs2go.Types.Constants.{u32_max}
use unfs2go.Wire.Basic.{
  IsU32, IsBool, IsString, IsOpaque, wire_uint32, wire_opaque, wire_bytes, wire_string, pad,
}
use unfs2go.Xdr.Memory.{
  read_word, read_exactly, read_padded, read_counted, mem_word, mem_bool, mem_opaque, mem_bytes,
  mem_put_string, mem_string, as_pointer, mem_pointer, read_words, mem_array, memory,
}

read_word-wire :
    (n : ℕ) (rest : List ℕ) → IsU32 n → read_word (wire_uint32 n ++ rest) ≡ some (n, rest)
unfolding read_word
read_word-wire n rest h = ground arith

read_exactly-append :
    (n : ℕ) (bytes rest : List ℕ)
    → length bytes ≡ n
    → read_exactly n (bytes ++ rest) ≡ some (bytes, rest)
unfolding read_exactly
read_exactly-append zero [] rest h = refl
read_exactly-append zero (b ∷ bytes) rest h = absurd (omega arith)
read_exactly-append (suc n) [] rest h = absurd (omega arith)
read_exactly-append (suc n) (b ∷ bytes) rest h = rw (read_exactly-append n bytes rest (omega arith))

read_padded-wire :
    (bytes rest : List ℕ)
    → read_padded (length bytes) (wire_opaque bytes ++ rest) ≡ some (bytes, rest)
unfolding read_padded
read_padded-wire bytes rest =
    rw
      (
        append_assoc,
        read_exactly-append (length bytes) bytes (replicate (pad (length bytes)) 0 ++ rest) refl,
        read_padded,
      )
      (rw (
        read_exactly-append (pad (length bytes)) (replicate (pad (length bytes)) 0) rest
          (length-replicate _ 0)))

read_counted-wire :
    (max : ℕ) (bytes rest : List ℕ)
    → length bytes ≤ max
    → length bytes ≤ u32_max
    → read_counted max (wire_uint32 (length bytes) ++ (wire_opaque bytes ++ rest))
      ≡ some (length bytes, bytes, rest)
unfolding read_counted
read_counted-wire max bytes rest h k =
    rw (read_word-wire (length bytes) (wire_opaque bytes ++ rest) (omega arith), read_counted)
      (ground (arith, read_padded-wire bytes rest))

mem_word-Codes : Codes mem_word IsU32 wire_uint32 replaced
unfolding mem_word
mem_word-Codes = record {
  encodes = λ out x v. refl;
  decodes = λ rest x old v. rw (read_word-wire x rest v, mem_word);
}

mem_bool-Codes : Codes mem_bool IsBool wire_uint32 replaced
unfolding mem_bool mem_word read_word
mem_bool-Codes = record {
  encodes = λ out x v. ground arith;
  decodes = λ rest x old v. ground (arith, read_word-wire x rest);
}

mem_opaque-Codes : (n : ℕ) → Codes (mem_opaque n) (λ bytes. length bytes ≡ n) wire_opaque replaced
unfolding mem_opaque
mem_opaque-Codes n = record {
  encodes = λ out x v. refl;
  decodes = λ rest x old v. rw (← v, mem_opaque) (rw (read_padded-wire x rest));
}

mem_bytes-Codes : (max : ℕ) → Codes (mem_bytes max) (IsOpaque max) wire_bytes replaced
unfolding mem_bytes
mem_bytes-Codes max = record {
  encodes = λ out x (v : IsOpaque max x). ground arith;
  decodes = λ rest x old (v : IsOpaque max x).
      rw (append_assoc)
        (ground (arith, read_counted-wire max x.data_val rest (omega arith) (omega arith)));
}

mem_string-Codes : (max : ℕ) → Codes (mem_string max) (IsString max) wire_string replaced
unfolding mem_string mem_put_string
mem_string-Codes max = record { encodes = elim_encodes; decodes = elim_decodes }
  where
    elim_encodes :
        (out : List ℕ) (x : CharPtr)
        → IsString max x
        → mem_string max (encoding out) x ≡ some (encoding (out ++ wire_string x), x)
    elim_encodes out none v = absurd v
    elim_encodes out (some s) v = ground arith

    elim_decodes :
        (rest : List ℕ) (x old : CharPtr)
        → IsString max x
        → mem_string max (decoding (wire_string x ++ rest)) old ≡ some (decoding rest, x)
    elim_decodes rest none old v = absurd v
    elim_decodes rest (some s) old v =
        rw append_assoc (ground (arith, read_counted-wire max s rest (omega arith) (omega arith)))

read_words-wire :
    (ws rest : List ℕ)
    → All IsU32 ws
    → read_words (length ws) (wire_all wire_uint32 ws ++ rest) ≡ some (ws, rest)
unfolding read_words
read_words-wire [] rest v = refl
read_words-wire (w ∷ ws) rest v =
    rw (read_word-wire w (wire_all wire_uint32 ws ++ rest) v.0, read_words)
      (rw (read_words-wire ws rest v.1))

mem_array-Codes :
    (max : ℕ)
    → Codes
        (mem_array max)
        (λ xs. All IsU32 xs × ((length xs ≤ max) × (length xs ≤ u32_max)))
        (λ xs. wire_uint32 (length xs) ++ wire_all wire_uint32 xs)
        replaced
unfolding mem_array
mem_array-Codes max = record {
  encodes = λ out x (v : All IsU32 x × ((length x ≤ max) × (length x ≤ u32_max))).
      rw (lt_leb (length x) max v.1.0);
  decodes = λ rest x old (v : All IsU32 x × ((length x ≤ max) × (length x ≤ u32_max))).
      rw (read_word-wire (length x) (wire_all wire_uint32 x ++ rest) (omega arith), mem_array)
        (rw (lt_leb (length x) max v.1.0, mem_array) (rw (read_words-wire x rest v.0)));
}
  where
    lt_leb : (a b : ℕ) → a ≤ b → leb a b ≡ true
    lt_leb a b h = ground arith

module _ (A : Type 0) (zeroed : A) (f : Filter A) (V : A → Type 0) (w : A → List ℕ) (s : A → A → A)
    (c : Codes f V w s) where
  pointer_encodes :
      (out : List ℕ) (p : Option A)
      → IsPointer V p
      → mem_pointer A zeroed f (encoding out) p ≡ some (encoding (out ++ wire_pointer w p), p)
  unfolding mem_pointer as_pointer
  pointer_encodes out none v = refl
  pointer_encodes out (some x) v =
      rw (c.encodes (out ++ wire_uint32 1) x v, as_pointer) (rw append_assoc)

  pointer_decodes :
      (rest : List ℕ) (p old : Option A)
      → IsPointer V p
      → mem_pointer A zeroed f (decoding (wire_pointer w p ++ rest)) old
        ≡ some (decoding rest, stored_pointer zeroed s p old)
  unfolding mem_pointer as_pointer read_word
  pointer_decodes rest none none v = refl
  pointer_decodes rest none (some old) v = refl
  pointer_decodes rest (some x) none v = rw (c.decodes rest x zeroed v)
  pointer_decodes rest (some x) (some old) v = rw (c.decodes rest x old v)

mem_pointer-Codes :
    (A : Type 0) (zeroed : A) (f : Filter A) (V : A → Type 0) (w : A → List ℕ) (s : A → A → A)
    → Codes f V w s
    → Codes (mem_pointer A zeroed f) (IsPointer V) (wire_pointer w) (stored_pointer zeroed s)
mem_pointer-Codes A zeroed f V w s c = record {
  encodes = pointer_encodes A zeroed f V w s c;
  decodes = pointer_decodes A zeroed f V w s c;
}

pub memory-IsRpc : IsRpc memory
unfolding memory
memory-IsRpc = record {
  uint32 = mem_word-Codes;
  enum = mem_word-Codes;
  bool = mem_bool-Codes;
  opaque = mem_opaque-Codes;
  bytes = mem_bytes-Codes;
  string = mem_string-Codes;
  pointer = mem_pointer-Codes;
  array = mem_array-Codes;
}

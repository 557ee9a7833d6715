-- ===== src/Handle.antt =====
-- unfs3/fh.c: file handles. `unfs3_fh_t` is packed: eight bytes of inode number in the byte order of the
-- host, which is little-endian here, and one byte of length.
pub mod Laws
use unfs2go.Common.{
  ℕ, ◌+◌, ◌-◌, ◌*◌, ◌/◌, ◌%◌, ◌^◌, List, [], ◌∷◌, ◌++◌, none, some, Bool, true, false, not, bit_and,
  ltb, ◌==◌, ◌||◌, if◌then◌else◌, get_or,
}
use unfs2go.Common.Int.{ℤ, pos, negsuc}
use unfs2go.Xdr.Stream.{CharPtr}
use unfs2go.Types.Stat.{GoStatstruct}
use unfs2go.Types.Attr.{NfsFh3, PostOpFh3}
use unfs2go.Types.Constants.{bool_true, bool_false, nfs3_ok}
use unfs2go.Backend.{Backend, Server}

abbrev pub fh_minlen : ℕ
fh_minlen = 9

pub record Unfs3FhT : Type 0 where
  pub ino : ℕ
  pub len : ℕ

abbrev pub sizeof_ino : ℕ
sizeof_ino = 8

abbrev pub sizeof_len : ℕ
sizeof_len = 1

-- The object at a pointer, and the bytes of an object.
unfoldable pub load : List ℕ → Unfs3FhT
load bytes = record {
  ino =
      get_or bytes 0 0
      + get_or bytes 1 0 * 2 ^ 8
      + get_or bytes 2 0 * 2 ^ 16
      + get_or bytes 3 0 * 2 ^ 24
      + get_or bytes 4 0 * 2 ^ 32
      + get_or bytes 5 0 * 2 ^ 40
      + get_or bytes 6 0 * 2 ^ 48
      + get_or bytes 7 0 * 2 ^ 56;
  len = get_or bytes 8 0;
}

unfoldable pub bytes_of : Unfs3FhT → List ℕ
bytes_of fh =
    fh.ino % 256
    ∷ fh.ino / 2 ^ 8 % 256
    ∷ fh.ino / 2 ^ 16 % 256
    ∷ fh.ino / 2 ^ 24 % 256
    ∷ fh.ino / 2 ^ 32 % 256
    ∷ fh.ino / 2 ^ 40 % 256
    ∷ fh.ino / 2 ^ 48 % 256
    ∷ fh.ino / 2 ^ 56 % 256
    ∷ fh.len
    ∷ []

-- The result is a `u_int`.
unfoldable pub fh_length : Unfs3FhT → ℕ
fh_length fh = (fh.len + sizeof_len + sizeof_ino) % 2 ^ 32

unfoldable pub nfh_valid : NfsFh3 → Bool
unfolding load fh_length
nfh_valid fh =
    if ltb fh.data_buf.data_len fh_minlen
    then false
    else if not (fh.data_buf.data_len == fh_length (load fh.data_buf.data_val))
    then false
    else true

-- A `uint64` as the `int` parameter of `go_fgetpath`.
unfoldable pub to_int : ℕ → ℤ
to_int n = if ltb (n % 2 ^ 32) (2 ^ 31) then pos (n % 2 ^ 32) else negsuc (2 ^ 32 - n % 2 ^ 32 - 1)

unfoldable pub fh_comp : ℕ → CharPtr → Unfs3FhT
fh_comp ino path = record { ino = ino; len = 1 }

module _ (srv : Server) where
  open srv use {backend.{State, go_fgetpath, go_lstat}, stack}

  unfoldable pub fh_decomp : NfsFh3 → State → CharPtr
  unfolding nfh_valid to_int
  fh_decomp fh s =
      if not (nfh_valid fh)
      then none
      else if (load fh.data_buf.data_val).len == 0
      then some (b'/' ∷ [])
      else go_fgetpath (to_int (load fh.data_buf.data_val).ino) s

  -- `data_len = fh_length(fh); data_val = (char *) fh;` for a handle `fh` of `fh_comp`: the bytes that
  -- `data_val` points to are those of the static object, and what lies behind it.
  unfoldable pub handle_of : Unfs3FhT → NfsFh3
  unfolding bytes_of fh_length
  handle_of fh = record {
    data_buf = record { data_len = fh_length fh; data_val = bytes_of fh ++ (stack.beyond ∷ []) };
  }

  -- `fh_comp` returns the address of a static object, so the test for NULL succeeds.
  unfoldable pub fh_comp_post : ℕ → CharPtr → PostOpFh3
  unfolding handle_of fh_comp
  fh_comp_post ino path = record {
    handle_follows = bool_true;
    handle = handle_of (fh_comp ino path);
  }

  unfoldable pub fh_comp_type : CharPtr → ℕ → State → PostOpFh3 × State
  unfolding fh_comp_post
  fh_comp_type path type s =
      let (status, buf, s') = go_lstat path stack.buf s in
      if not (status == nfs3_ok) || not (bit_and buf.st_mode type == type)
      then (record { handle_follows = bool_false; handle = stack.handle }, s')
      else (fh_comp_post buf.st_ino path, s')

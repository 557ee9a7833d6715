-- ===== src/Xdr/Stream.antt =====
-- The XDR stream, and how the C routines of unfs3/xdr.c are put together: `field` runs a routine on
-- `&objp->member`, `>=>` is `if (!f) return FALSE; if (!g) return FALSE; return TRUE;`, and
-- `switch` reads a discriminant of the object as it stands after the routines before it.
use unfs2go.Common.{ℕ, List, Option, none, some}

-- `enum xdr_op` of the RPC library.
pub data XdrOp : Type 0 where
  xdr_encode xdr_decode xdr_free : XdrOp

-- The bytes written so far while encoding, and the bytes still to be read while decoding.
pub record Xdr : Type 0 where
  pub x_op : XdrOp
  pub stream : List ℕ

abbrev pub encoding : List ℕ → Xdr
encoding out = record { x_op = xdr_encode; stream = out }

abbrev pub decoding : List ℕ → Xdr
decoding input = record { x_op = xdr_decode; stream = input }

-- `bool_t xdr_T(XDR *, T *)`
abbrev pub Filter : Type 0 → Type 0
Filter A = Xdr → A → Option (Xdr × A)

unfoldable pub field : {A B : Type 0} → (A → B) → (B → A → A) → Filter B → Filter A
field get put f xdrs objp = elim (f xdrs (get objp)) [
  | none ↦ none
  | some (xdrs', b) ↦ some (xdrs', put b objp)
]

infixr 5 ◌>=>◌
unfoldable pub ◌>=>◌ : {A : Type 0} → Filter A → Filter A → Filter A
◌>=>◌ f g xdrs objp = elim (f xdrs objp) [ none ↦ none | some (xdrs', objp') ↦ g xdrs' objp' ]

unfoldable pub switch : {A : Type 0} → (A → ℕ) → (ℕ → Filter A) → Filter A
switch tag arms xdrs objp = arms (tag objp) xdrs objp

-- `break;`
unfoldable pub done : {A : Type 0} → Filter A
done xdrs objp = some (xdrs, objp)

-- `return FALSE;`
unfoldable pub fail : {A : Type 0} → Filter A
fail xdrs objp = none

-- `char *`: a string without its terminator, or NULL.
abbrev pub CharPtr : Type 0
CharPtr = Option (List ℕ)

-- A counted buffer: `u_int data_len; char *data_val`.
pub record Opaque : Type 0 where
  pub data_len : ℕ
  pub data_val : List ℕ

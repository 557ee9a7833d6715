-- ===== src/Xdr/Chain.antt =====
-- Structs of unfs3/xdr.c that are linked by a pointer to the next one (`entry3`, `mountbody` and the
-- like): their own members travel first, and then the pointer, through `xdr_pointer`, which calls the
-- routine for the struct again. That recursion ends when the chain does. Here `depth` bounds it.
use unfs2go.Common.{ℕ, zero, suc, ◌≡◌, refl, List, [], ◌∷◌, Option, none, some}
use unfs2go.Xdr.Stream.{Filter, field, ◌>=>◌, fail}
use unfs2go.Xdr.Rpc.{Rpc}

-- The members of a struct, and the chain that its last member points to.
pub record Node (I : Type 0) : Type 0 where
  pub item : I
  pub next : List I

-- A chain as a pointer to its first struct.
abbrev pub pointee : {I : Type 0} → List I → Option (Node I)
pointee [] = none
pointee (i ∷ is) = some (record { item = i; next = is })

abbrev pub chain_of : {I : Type 0} → Option (Node I) → List I
chain_of none = []
chain_of (some n) = n.item ∷ n.next

pub chain_of-pointee : {I : Type 0} (is : List I) → chain_of (pointee is) ≡ is
chain_of-pointee [] = refl
chain_of-pointee (i ∷ is) = refl

module _ (rpc : Rpc) {I : Type 0} (zeroed : I) (xdr_item : Filter I) where
  abbrev pub zeroed_node : Node I
  zeroed_node = record { item = zeroed; next = [] }

  unfoldable pub xdr_node : ℕ → Filter (Node I)
  xdr_node zero = fail
  xdr_node (suc depth) =
      field (λ n. n.item) (λ v n. record n { item = v }) xdr_item
      >=> field (λ n. pointee n.next) (λ v n. record n { next = chain_of v })
          (rpc.xdr_pointer (Node I) zeroed_node (xdr_node depth))

  unfoldable pub xdr_chain : ℕ → Filter (List I)
  xdr_chain depth =
      field pointee (λ v is. chain_of v) (rpc.xdr_pointer (Node I) zeroed_node (xdr_node depth))

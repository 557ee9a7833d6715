-- ===== src/Xdr/Laws/Chain.antt =====
-- Chains of structs against their wire format, up to a depth.
use unfs2go.Common.{ℕ, zero, suc, ◌<◌, ◌≡◌, refl, List, [], ◌∷◌, ◌++◌, length, arith}
use unfs2go.Xdr.Stream.{Filter}
use unfs2go.Xdr.Codes.{Codes, fail-Codes, >=>-Codes, field-Codes, convert-Codes}
use unfs2go.Xdr.Rpc.{Rpc, IsRpc, IsPointer, wire_pointer, stored_pointer}
use unfs2go.Xdr.Chain.{Node, pointee, chain_of, chain_of-pointee, zeroed_node, xdr_node, xdr_chain}
use unfs2go.Wire.Chain.{All, wire_chain, stored_chain, IsChain}

module _ (rpc : Rpc) (L : IsRpc rpc) {I : Type 0} (zeroed : I) (f : Filter I) (V : I → Type 0)
    (w : I → List ℕ) (s : I → I → I) (c : Codes f V w s) where
  abbrev IsNode : ℕ → Node I → Type 0
  IsNode depth n = V n.item × (All V n.next × (length n.next < depth))

  abbrev wire_node : Node I → List ℕ
  wire_node n = w n.item ++ wire_chain w n.next

  abbrev stored_node : Node I → Node I → Node I
  stored_node n old = record {
    item = s n.item old.item;
    next = stored_chain zeroed s n.next old.next;
  }

  wire_pointee : (is : List I) → wire_pointer wire_node (pointee is) ≡ wire_chain w is
  wire_pointee [] = refl
  wire_pointee (i ∷ is) = refl

  IsChain-IsPointer :
      (depth : ℕ) (is : List I) → IsChain V depth is → IsPointer (IsNode depth) (pointee is)
  IsChain-IsPointer depth [] v = tt
  IsChain-IsPointer depth (i ∷ is) v = (v.0.0, (v.0.1, v.1))

  stored_pointee :
      (is old : List I)
      → chain_of (stored_pointer (zeroed_node rpc zeroed f) stored_node (pointee is) (pointee old))
        ≡ stored_chain zeroed s is old
  stored_pointee [] old = refl
  stored_pointee (i ∷ is) [] = refl
  stored_pointee (i ∷ is) (j ∷ js) = refl

  no_room : (n : Node I) → IsNode zero n → ⊥
  no_room n v = omega arith

  xdr_node-Codes :
      (depth : ℕ) → Codes (xdr_node rpc zeroed f depth) (IsNode depth) wire_node stored_node
  unfolding xdr_node
  xdr_node-Codes zero =
      convert-Codes fail-Codes no_room (λ n v. absurd (no_room n v))
        (λ n old v. absurd (no_room n v))
  xdr_node-Codes (suc depth) =
      convert-Codes
        (>=>-Codes (field-Codes (λ n. n.item) (λ v n. record n { item = v }) (λ n. refl) c) (
          field-Codes (λ n. pointee n.next) (λ v n. record n { next = chain_of v }) same
            (L.pointer (Node I) (zeroed_node rpc zeroed f) _ _ _ _ (xdr_node-Codes depth))))
        (λ n v. (v.0, IsChain-IsPointer depth n.next (v.1.0, omega arith))) (λ n v. rw wire_pointee)
        (λ n old v. rw (stored_pointee n.next old.next))
    where
      same : (n : Node I) → record n { next = chain_of (pointee n.next) } ≡ n
      same n = rw (chain_of-pointee n.next)

  pub xdr_chain-Codes :
      (depth : ℕ)
      → Codes
          (xdr_chain rpc zeroed f depth)
          (IsChain V depth)
          (wire_chain w)
          (stored_chain zeroed s)
  unfolding xdr_chain
  xdr_chain-Codes depth =
      convert-Codes
        (field-Codes pointee (λ v is. chain_of v) chain_of-pointee
          (L.pointer (Node I) (zeroed_node rpc zeroed f) _ _ _ _ (xdr_node-Codes depth)))
        (λ is v. IsChain-IsPointer depth is v) (λ is v. wire_pointee is)
        (λ is old v. stored_pointee is old)

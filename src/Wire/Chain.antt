-- ===== src/Wire/Chain.antt =====
-- The wire format of arrays and of chains of structs (RFC 4506, optional data).
use unfs2go.Common.{ℕ, ◌≤◌, List, [], ◌∷◌, ◌++◌, length}
use unfs2go.Wire.Basic.{wire_uint32}

abbrev pub All : {A : Type 0} → (A → Type 0) → List A → Type 0
All V [] = Unit
All V (x ∷ xs) = V x × All V xs

abbrev pub wire_all : {A : Type 0} → (A → List ℕ) → List A → List ℕ
wire_all w [] = []
wire_all w (x ∷ xs) = w x ++ wire_all w xs

-- Each struct stands behind a word that says that it follows, and a last word 0.
abbrev pub wire_chain : {I : Type 0} → (I → List ℕ) → List I → List ℕ
wire_chain w [] = wire_uint32 0
wire_chain w (i ∷ is) = wire_uint32 1 ++ (w i ++ wire_chain w is)

abbrev pub IsChain : {I : Type 0} → (I → Type 0) → ℕ → List I → Type 0
IsChain V depth is = All V is × (length is ≤ depth)

-- Decoding reuses the structs of the old chain and allocates zeroed ones behind it.
abbrev pub stored_chain : {I : Type 0} → I → (I → I → I) → List I → List I → List I
stored_chain zeroed s [] old = []
stored_chain zeroed s (i ∷ is) [] = s i zeroed ∷ stored_chain zeroed s is []
stored_chain zeroed s (i ∷ is) (j ∷ js) = s i j ∷ stored_chain zeroed s is js

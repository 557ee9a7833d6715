-- ===== src/Xdr/Codes.antt =====
-- What it means that a routine of unfs3/xdr.c writes and reads a wire format, and the rules by which
-- the ways of putting routines together keep it.
use unfs2go.Common.{ℕ, ◌≡◌, refl, Bool, true, false, some, List, [], ◌++◌}
use unfs2go.Common.{append-nil, append_assoc, if◌then◌else◌}
use unfs2go.Xdr.Stream.{Filter, encoding, decoding, field, ◌>=>◌, switch, done, fail}

-- Encoding appends `wire x` and keeps the object. Decoding takes `wire x` off the front, and makes
-- `stored x old` of the old object.
pub record Codes {A : Type 0} (f : Filter A) (Valid : A → Type 0) (wire : A → List ℕ)
    (stored : A → A → A) : Type 0 where
  pub encodes :
      (out : List ℕ) (x : A) → Valid x → f (encoding out) x ≡ some (encoding (out ++ wire x), x)
  pub decodes :
      (rest : List ℕ) (x old : A)
      → Valid x
      → f (decoding (wire x ++ rest)) old ≡ some (decoding rest, stored x old)

abbrev pub replaced : {A : Type 0} → A → A → A
replaced x old = x

module _ {A : Type 0} where
  pub done-Codes : Codes {A = A} done (λ x. Unit) (λ x. []) (λ x old. old)
  unfolding done
  done-Codes = record { encodes = λ out x v. rw append-nil; decodes = λ rest x old v. refl }

  pub fail-Codes : Codes {A = A} fail (λ x. ⊥) (λ x. []) (λ x old. old)
  fail-Codes = record { encodes = λ out x v. absurd v; decodes = λ rest x old v. absurd v }

module _ {A : Type 0} {f g : Filter A} {V W : A → Type 0} {w u : A → List ℕ} {s t : A → A → A} where
  pub >=>-Codes :
      Codes f V w s
      → Codes g W u t
      → Codes (f >=> g) (λ x. V x × W x) (λ x. w x ++ u x) (λ x old. t x (s x old))
  unfolding ◌>=>◌
  >=>-Codes c d = record {
    encodes = λ out x (v : V x × W x).
        rw (c.encodes out x v.0, ◌>=>◌, d.encodes (out ++ w x) x v.1, append_assoc);
    decodes = λ rest x old (v : V x × W x).
        rw (append_assoc, c.decodes (u x ++ rest) x old v.0, ◌>=>◌, d.decodes rest x (s x old) v.1);
  }

  pub if-Codes :
      Codes f V w s
      → Codes g W u t
      → (b : Bool)
      → Codes
          (if b then f else g)
          (λ x. if b then V x else W x)
          (λ x. if b then w x else u x)
          (λ x old. if b then s x old else t x old)
  if-Codes c d true = c
  if-Codes c d false = d

module _ {A B : Type 0} {f : Filter B} {V : B → Type 0} {w : B → List ℕ} {s : B → B → B} where
  pub field-Codes :
      (get : A → B) (put : B → A → A)
      → ((x : A) → put (get x) x ≡ x)
      → Codes f V w s
      → Codes
          (field get put f)
          (λ x. V (get x))
          (λ x. w (get x))
          (λ x old. put (s (get x) (get old)) old)
  unfolding field
  field-Codes get put same c = record {
    encodes = λ out x v. rw (c.encodes out (get x) v, field, same x);
    decodes = λ rest x old v. rw (c.decodes rest (get x) (get old) v, field);
  }

-- A union: the discriminant travels first, and the arm is chosen by it.
module _ {A : Type 0} {f : Filter A} {V : A → Type 0} {w : A → List ℕ} {s : A → A → A} where
  pub switch-Codes :
      {arms : ℕ → Filter A} {W : ℕ → A → Type 0} {u : ℕ → A → List ℕ} {t : ℕ → A → A → A}
      (tag : A → ℕ)
      → ((x old : A) → tag (s x old) ≡ tag x)
      → Codes f V w s
      → ((d : ℕ) → Codes (arms d) (W d) (u d) (t d))
      → Codes
          (f >=> switch tag arms)
          (λ x. V x × W (tag x) x)
          (λ x. w x ++ u (tag x) x)
          (λ x old. t (tag x) x (s x old))
  unfolding ◌>=>◌ switch
  switch-Codes {W} {u} tag kept c d = record {
    encodes = λ out x (v : V x × W (tag x) x).
        rw (c.encodes out x v.0, ◌>=>◌, (d (tag x)).encodes (out ++ w x) x v.1, append_assoc);
    decodes = λ rest x old (v : V x × W (tag x) x). rw (
      append_assoc,
      c.decodes (u (tag x) x ++ rest) x old v.0,
      ◌>=>◌,
      kept x old,
      (d (tag x)).decodes rest x (s x old) v.1,
    );
  }

-- The same routine, with its format said in another way.
module _ {A : Type 0} {f : Filter A} {V : A → Type 0} {w : A → List ℕ} {s : A → A → A} where
  pub convert-Codes :
      {W : A → Type 0} {u : A → List ℕ} {t : A → A → A}
      → Codes f V w s
      → ((x : A) → W x → V x)
      → ((x : A) → W x → w x ≡ u x)
      → ((x old : A) → W x → s x old ≡ t x old)
      → Codes f W u t
  convert-Codes c valid wires stores = record {
    encodes = λ out x v. rw (← wires x v) (c.encodes out x (valid x v));
    decodes = λ rest x old v. rw (← wires x v, ← stores x old v) (c.decodes rest x old (valid x v));
  }

-- ===== src/CJson/Trees/Printed.antt =====
-- Nodes printed as lists of numbers, none of which is a NUL outside the texts, and read again.
use shelter_server_hpc.Prelude.{
  ℕ, zero, suc, ◌+◌, ◌≤◌, ◌≡◌, refl, subst, arith, ℤ, pos, negsuc, Option, none, some, [], ◌∷◌,
  ◌++◌, Bytes, length, length-append, append_assoc, append-nil,
}
use shelter_server_hpc.CJson.Trees.Node.{
  Kind, number, text, array, object, Tree, node, Fields, no_fields, field,
}

unfoldable pub kind_code : Kind → ℕ
kind_code number = 0
kind_code text = 1
kind_code array = 2
kind_code object = 3

unfoldable kind_of : ℕ → Kind
kind_of zero = number
kind_of (suc zero) = text
kind_of (suc (suc zero)) = array
kind_of (suc (suc (suc n))) = object

kind_of-kind_code : (k : Kind) → kind_of (kind_code k) ≡ k
unfolding kind_of kind_code
kind_of-kind_code number = refl
kind_of-kind_code text = refl
kind_of-kind_code array = refl
kind_of-kind_code object = refl

unfoldable sign_code : ℤ → ℕ
sign_code (pos n) = 0
sign_code (negsuc n) = 1

unfoldable size : ℤ → ℕ
size (pos n) = n
size (negsuc n) = n

unfoldable integer : ℕ → ℕ → ℤ
integer zero n = pos n
integer (suc s) n = negsuc n

integer-codes : (z : ℤ) → integer (sign_code z) (size z) ≡ z
unfolding integer sign_code size
integer-codes (pos n) = refl
integer-codes (negsuc n) = refl

unfoldable mutual
  unfolding kind_code sign_code size

  pub serialize : Tree → Bytes
  serialize (node k z s fs) =
      suc (kind_code k) ∷ suc (sign_code z) ∷ suc (size z) ∷ suc (length s) ∷ s
      ++ serialize_fields fs

  pub serialize_fields : Fields → Bytes
  serialize_fields no_fields = 1 ∷ []
  serialize_fields (field k t fs) = 2 ∷ suc (length k) ∷ k ++ (serialize t ++ serialize_fields fs)

infixl 5 ◌>>=◌
abbrev ◌>>=◌ : {A B : Type 0} → Option A → (A → Option B) → Option B
none >>= f = none
some a >>= f = f a

-- The first `n` numbers, and the rest.
split : ℕ → Bytes → Option (Bytes × Bytes)
split zero bs = some ([], bs)
split (suc n) [] = none
split (suc n) (b ∷ bs) = do (s, rest) ← split n bs; some (b ∷ s, rest)

split-append : (s rest : Bytes) → split (length s) (s ++ rest) ≡ some (s, rest)
unfolding split
split-append [] rest = refl
split-append (b ∷ s) rest = rw (split-append s rest)

unfoldable mutual
  unfolding split

  read_tree : ℕ → Bytes → Option (Tree × Bytes)
  read_tree zero bs = none
  read_tree (suc f) (suc k ∷ suc g ∷ suc n ∷ suc l ∷ bs) = do
    (s, r) ← split l bs
    (fs, rest) ← read_fields f r
    some (node (kind_of k) (integer g n) s fs, rest)
  read_tree (suc f) bs = none

  read_fields : ℕ → Bytes → Option (Fields × Bytes)
  read_fields zero bs = none
  read_fields (suc f) (suc zero ∷ bs) = some (no_fields, bs)
  read_fields (suc f) (suc (suc n) ∷ suc l ∷ bs) = do
    (k, q) ← split l bs
    (t, r) ← read_tree f q
    (fs, rest) ← read_fields f r
    some (field k t fs, rest)
  read_fields (suc f) bs = none

-- The length of what is printed, in the form that the bounds below use.
length-append_bytes : (a b : Bytes) → length (a ++ b) ≡ length a + length b
length-append_bytes = length-append

-- Splits a bound on two parts between them.
part_bounds : (a b : Bytes) (f : ℕ) → length (a ++ b) ≤ f → (length a ≤ f) × (length b ≤ f)
part_bounds a b f h =
    (omega (arith, length-append_bytes a b), omega (arith, length-append_bytes a b))

mutual
  unfolding read_tree serialize

  read-serialize :
      (t : Tree) (f : ℕ) (rest : Bytes)
      → length (serialize t) ≤ f
      → read_tree f (serialize t ++ rest) ≡ some (t, rest)
  read-serialize (node k z s fs) zero rest h = ground arith
  read-serialize (node k z s fs) (suc f) rest h = rw (
    append_assoc s (serialize_fields fs) rest,
    split-append s (serialize_fields fs ++ rest),
    read-serialize_fields fs f rest (part_bounds s (serialize_fields fs) f (omega arith)).1,
    kind_of-kind_code k,
    integer-codes z,
  )

  read-serialize_fields :
      (fs : Fields) (f : ℕ) (rest : Bytes)
      → length (serialize_fields fs) ≤ f
      → read_fields f (serialize_fields fs ++ rest) ≡ some (fs, rest)
  read-serialize_fields no_fields zero rest h = ground arith
  read-serialize_fields (field k t fs) zero rest h = ground arith
  read-serialize_fields no_fields (suc f) rest h = refl
  read-serialize_fields (field k t fs) (suc f) rest h =
      let outer : (length k ≤ f) × (length (serialize t ++ serialize_fields fs) ≤ f) =
        part_bounds k (serialize t ++ serialize_fields fs) f (omega arith) in
      let inner : (length (serialize t) ≤ f) × (length (serialize_fields fs) ≤ f) =
        part_bounds (serialize t) (serialize_fields fs) f outer.1 in
      rw (
        append_assoc k (serialize t ++ serialize_fields fs) rest,
        split-append k ((serialize t ++ serialize_fields fs) ++ rest),
        append_assoc (serialize t) (serialize_fields fs) rest,
        read-serialize t f (serialize_fields fs ++ rest) inner.0,
        read-serialize_fields fs f rest inner.1,
      )

-- The whole text is one tree.
unfoldable whole : Option (Tree × Bytes) → Option Tree
whole (some (t, [])) = some t
whole _ = none

unfoldable pub read_text : Bytes → Option Tree
unfolding read_tree whole kind_of integer
read_text t = whole (read_tree (length t) t)

pub read_text-serialize : (t : Tree) → read_text (serialize t) ≡ some t
unfolding read_text whole
read_text-serialize t =
    subst (λ b. whole (read_tree (length (serialize t)) b) ≡ some t) (append-nil (serialize t))
      (rw (read-serialize t (length (serialize t)) [] (omega arith)))

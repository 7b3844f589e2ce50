-- ===== src/CJson/Trees/Node.antt =====
-- Nodes as in the struct of the JSON library: a kind, a number, a text and a list of named children,
-- which are found by name, without regard to case, and added at the end.
use shelter_server_hpc.Prelude.{
  ℕ, zero, suc, ◌≡◌, arith, ℤ, false, Option, none, some, Bytes, equal, equal_refl, map,
  if◌then◌else◌,
}
use shelter_server_hpc.CJson.{lower}

pub data Kind : Type 0 where
  number : Kind
  text : Kind
  array : Kind
  object : Kind

mutual
  pub data Tree : Type 0 where
    node : Kind → ℤ → Bytes → Fields → Tree

  pub data Fields : Type 0 where
    no_fields : Fields
    field : Bytes → Tree → Fields → Fields

unfoldable pub find : Fields → Bytes → Option Tree
find no_fields j = none
find (field k t fs) j = if equal (map lower k) (map lower j) then some t else find fs j

unfoldable pub add : Fields → Bytes → Tree → Fields
add no_fields k x = field k x no_fields
add (field j t fs) k x = field j t (add fs k x)

unfoldable pub remove : Fields → Bytes → Fields
remove no_fields j = no_fields
remove (field k t fs) j = if equal (map lower k) (map lower j) then fs else field k t (remove fs j)

pub find-add_self :
    (fs : Fields) (k : Bytes) (x : Tree) → find fs k ≡ none → find (add fs k x) k ≡ some x
unfolding find add
find-add_self no_fields k x h = rw (equal_refl (map lower k))
find-add_self (field j t fs) k x h = ground (arith, find-add_self fs k x)

pub find-add_ne :
    (fs : Fields) (k j : Bytes) (x : Tree)
    → equal (map lower k) (map lower j) ≡ false
    → find (add fs k x) j ≡ find fs j
unfolding find add
find-add_ne no_fields k j x h = rw h
find-add_ne (field i t fs) k j x h = rw (find-add_ne fs k j x h)

-- The number of children, and one of them.
unfoldable pub count : Fields → ℕ
count no_fields = 0
count (field k t fs) = suc (count fs)

unfoldable pub child : Fields → ℕ → Option Tree
child no_fields n = none
child (field k t fs) zero = some t
child (field k t fs) (suc n) = child fs n

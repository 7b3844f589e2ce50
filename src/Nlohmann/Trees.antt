-- ===== src/Nlohmann/Trees.antt =====
-- A concrete JSON library of the server, which meets the assumptions of the interface: the trees of the
-- other JSON library, with null as the object without members.
use mathlib.Core.Option.{some-injective}
use shelter_server_hpc.Prelude.{
  ◌≡◌, refl, subst, pos, Bool, true, false, Option, none, some, List, [], ◌∷◌, Bytes, equal,
  equal_iff, equal_refl, if◌then◌else◌, Bool-cases, inl, inr,
}
use shelter_server_hpc.CJson.Trees.Node.{number, text, array, Tree, node, Fields, no_fields, field}
use shelter_server_hpc.CJson.Trees.Printed.{serialize}
use shelter_server_hpc.CJson.Trees.{parse_tree, parse_tree-serialize, empty_object}
use shelter_server_hpc.Nlohmann.{Nlohmann, IsLawful}

unfoldable pub find_exact : Fields → Bytes → Option Tree
find_exact no_fields j = none
find_exact (field k t fs) j = if equal k j then some t else find_exact fs j

unfoldable pub put_exact : Fields → Bytes → Tree → Fields
put_exact no_fields k x = field k x no_fields
put_exact (field j t fs) k x = if equal j k then field j x fs else field j t (put_exact fs k x)

find-put_self : (fs : Fields) (k : Bytes) (x : Tree) → find_exact (put_exact fs k x) k ≡ some x
unfolding find_exact put_exact
find-put_self no_fields k x = rw (equal_refl k)
find-put_self (field j t fs) k x = elim (Bool-cases (equal j k)) [
  | inl e ↦ rw (e, e) refl
  | inr n ↦ rw (n, n) (find-put_self fs k x)
]

find-put_ne :
    (fs : Fields) (k l : Bytes) (x : Tree)
    → equal k l ≡ false
    → find_exact (put_exact fs k x) l ≡ find_exact fs l
unfolding find_exact put_exact
find-put_ne no_fields k l x h = rw h
find-put_ne (field j t fs) k l x h = elim (Bool-cases (equal j k)) [
  | inl e ↦ let same : equal j l ≡ false = rw ((equal_iff j k).0 e) h in rw (e, same) refl
  | inr n ↦ rw (n, find-put_ne fs k l x h)
]

unfoldable pub members_of : Fields → List Tree
members_of no_fields = []
members_of (field k t fs) = t ∷ members_of fs

abbrev pub fields_of : Tree → Fields
fields_of (node t z s fs) = fs

abbrev pub set_member : Tree → Bytes → Tree → Tree
set_member (node t z s fs) k x = node t z s (put_exact fs k x)

abbrev pub listed : List Tree → Fields
listed [] = no_fields
listed (t ∷ ts) = field [] t (listed ts)

abbrev pub no_members : Fields → Bool
no_members no_fields = true
no_members (field k t fs) = false

abbrev pub get_text_of : Tree → Option Bytes
get_text_of (node text z s fs) = some s
get_text_of t = none

abbrev pub json_trees : Nlohmann
json_trees = record {
  Json = Tree;
  null = empty_object;
  text = λ s. node text (pos 0) s no_fields;
  number = λ z. node number z [] no_fields;
  array = λ ts. node array (pos 0) [] (listed ts);
  set = set_member;
  find = λ t k. find_exact (fields_of t) k;
  get_text = get_text_of;
  members = λ t. members_of (fields_of t);
  is_empty = λ t. no_members (fields_of t);
  parse = parse_tree;
  dump = λ t. some (serialize t);
}

pub json_trees-IsLawful : IsLawful json_trees
unfolding find_exact put_exact members_of
json_trees-IsLawful = record {
  find-null = λ k. refl;
  find-set_self = find_set_self;
  find-set_ne = find_set_ne;
  is_empty-null = refl;
  is_empty-find = empty_find;
  get_text-text = λ t. refl;
  members-single = λ k x. refl;
  parse-dump = λ j t h.
      subst (λ b. parse_tree b ≡ some j) (some-injective (serialize j) t h)
        (parse_tree-serialize j);
}
  where
    find_set_self : (j x : Tree) (k : Bytes) → find_exact (fields_of (set_member j k x)) k ≡ some x
    find_set_self (node t z s fs) x k = find-put_self fs k x

    find_set_ne :
        (j x : Tree) (k l : Bytes)
        → equal k l ≡ false
        → find_exact (fields_of (set_member j k x)) l ≡ find_exact (fields_of j) l
    find_set_ne (node t z s fs) x k l h = find-put_ne fs k l x h

    empty_find :
        (j x : Tree) (k : Bytes)
        → find_exact (fields_of j) k ≡ some x
        → no_members (fields_of j) ≡ false
    empty_find (node t z s no_fields) x k h = cc
    empty_find (node t z s (field l y fs)) x k h = refl

-- ===== src/CJson/Trees.antt =====
-- A concrete JSON library, which meets the assumptions of the interface: trees, printed as lists of
-- numbers, but for the texts of two literals that the program parses.
pub mod Node
pub mod Printed
use mathlib.Core.Option.{some-injective}
use shelter_server_hpc.Prelude.{
  ℕ, zero, suc, ◌+◌, ◌≤◌, ◌≡◌, refl, sym, subst, ap, ◌∙◌, arith, ℤ, pos, negsuc, Bool, true, false,
  String, Option, none, some, List, [], ◌∷◌, ◌++◌, Bytes, codes, equal, equal_iff, equal_refl, map,
  if◌then◌else◌, length, length-append, append_assoc, append-nil, Bool-cases, inl, inr, IsInt, ◌==◌,
  ==_iff,
}
use shelter_server_hpc.CJson.{CJson, IsLawful, lower, same_key}
use shelter_server_hpc.Supplies.Init.{default_food, default_medicine}
use shelter_server_hpc.CJson.Trees.Node.{
  Kind, number, text, array, object, Tree, node, Fields, no_fields, field, find, add, remove, count,
  child, find-add_self, find-add_ne,
}
use shelter_server_hpc.CJson.Trees.Printed.{kind_code, serialize, read_text, read_text-serialize}

abbrev pub empty_object : Tree
empty_object = node object (pos 0) [] no_fields

abbrev amount : ℕ → Tree
amount n = node number (pos n) [] no_fields

abbrev zeros : List String → Fields
zeros [] = no_fields
zeros (k ∷ ks) = field (codes k) (amount 0) (zeros ks)

abbrev food_object : Tree
food_object = node object (pos 0) [] (zeros ("meat" ∷ "vegetables" ∷ "fruits" ∷ "water" ∷ []))

abbrev medicine_object : Tree
medicine_object = node object (pos 0) [] (zeros ("antibiotics" ∷ "analgesics" ∷ "bandages" ∷ []))

unfoldable pub parse_tree : Bytes → Option Tree
unfolding read_text equal
parse_tree t =
    if equal default_food t
    then some food_object
    else (if equal default_medicine t then some medicine_object else read_text t)

not_literal :
    (t : Tree)
    → (equal default_food (serialize t) ≡ false) × (equal default_medicine (serialize t) ≡ false)
unfolding serialize kind_code equal
not_literal (node number z s fs) = (refl, refl)
not_literal (node text z s fs) = (refl, refl)
not_literal (node array z s fs) = (refl, refl)
not_literal (node object z s fs) = (refl, refl)

pub parse_tree-serialize : (t : Tree) → parse_tree (serialize t) ≡ some t
unfolding parse_tree
parse_tree-serialize t = rw ((not_literal t).0, (not_literal t).1) (read_text-serialize t)

unfoldable pub find_child : Option Tree → String → Option Tree
unfolding find
find_child none k = none
find_child (some (node t z s fs)) k = find fs (codes k)

unfoldable pub add_child : Tree → String → Tree → Tree
unfolding add
add_child (node t z s fs) k x = node t z s (add fs (codes k) x)

pub remove_child : Tree → String → Tree
unfolding remove
remove_child (node t z s fs) k = node t z s (remove fs (codes k))

unfoldable pub parse_text : Option Bytes → Option Tree
unfolding parse_tree
parse_text none = none
parse_text (some t) = parse_tree t

unfoldable pub is_kind : Kind → Tree → Bool
unfolding kind_code
is_kind k (node t z s fs) = kind_code k == kind_code t

unfoldable pub number_of : Tree → ℤ
number_of (node t z s fs) = z

pub text_of : Tree → Option Bytes
text_of (node text z s fs) = some s
text_of t = none

pub count_of : Tree → ℕ
unfolding count
count_of (node t z s fs) = count fs

pub child_of : Tree → ℕ → Option Tree
unfolding child
child_of (node t z s fs) n = child fs n

abbrev pub trees : CJson
trees = record {
  Json = Tree;
  parse = parse_text;
  print = λ t. some (serialize t);
  print_unformatted = λ t. some (serialize t);
  create_object = empty_object;
  create_number = λ z. node number z [] no_fields;
  create_string = λ s. node text (pos 0) s no_fields;
  add_item_to_object = add_child;
  get_object_item = find_child;
  delete_item_from_object = remove_child;
  is_object = is_kind object;
  is_number = is_kind number;
  is_string = is_kind text;
  is_array = is_kind array;
  is_null = λ t. false;
  valueint = number_of;
  valuestring = text_of;
  get_array_size = count_of;
  get_array_item = child_of;
}

some-serialize : (j : Tree) (t : Bytes) → some (serialize j) ≡ some t → parse_text (some t) ≡ some j
unfolding parse_text
some-serialize j t h =
    subst (λ b. parse_tree b ≡ some j) (some-injective (serialize j) t h) (parse_tree-serialize j)

get-add_self :
    (o x : Tree) (k : String)
    → find_child (some o) k ≡ none
    → find_child (some (add_child o k x)) k ≡ some x
unfolding find_child add_child
get-add_self (node t z s fs) x k h = find-add_self fs (codes k) x h

get-add_ne :
    (o x : Tree) (k j : String)
    → same_key k j ≡ false
    → find_child (some (add_child o k x)) j ≡ find_child (some o) j
unfolding find_child add_child same_key
get-add_ne (node t z s fs) x k j h = find-add_ne fs (codes k) (codes j) x h

is_object-add : (o x : Tree) (k : String) → is_kind object (add_child o k x) ≡ is_kind object o
unfolding is_kind add_child
is_object-add (node t z s fs) x k = refl

pub trees-IsLawful : IsLawful trees
unfolding same_key find_child add_child is_kind number_of text_of parse_text
trees-IsLawful = record {
  get_null = λ k. refl;
  get-create_object = λ k. refl;
  get-add_self = get-add_self;
  get-add_ne = get-add_ne;
  is_object-add = is_object-add;
  is_number-create_number = λ n. refl;
  valueint-create_number = λ n h. refl;
  is_string-create_string = λ s. refl;
  valuestring-create_string = λ s. refl;
  is_object-create_object = refl;
  parse_null = refl;
  parse-print = some-serialize;
  parse-print_unformatted = some-serialize;
}

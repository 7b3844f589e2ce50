-- ===== src/Tests/Data.antt =====
-- Data that the tests share: a stock, a request, and a process of a client.
use shelter_server_hpc.Prelude.{
  zero, refl, codes, starts_with, ◌+ℤ◌, pos, negsuc, true, List, [], Bytes, arith,
}
use shelter_server_hpc.Clients.Hostname.{IsValue, IsOther}
use shelter_server_hpc.CJson.{add_number_to_object}
use shelter_server_hpc.CJson.Trees.{trees}
use shelter_server_hpc.Supplies.Stock.{FoodSupply, MedicineSupply, IsFood, IsMedicine}
use shelter_server_hpc.Supplies.Arithmetic.{Fits}
use shelter_server_hpc.Posix.{socket, connect, resolved, Kernel}
use shelter_server_hpc.TcpClient.Session.{Client, Recv}

abbrev pub some_food : FoodSupply
some_food = record { meat = pos 10; vegetables = pos 0; fruits = pos 3; water = pos 7 }

abbrev pub some_medicine : MedicineSupply
some_medicine = record { antibiotics = pos 4; analgesics = pos 0; bandages = pos 9 }

pub some_food-IsFood : IsFood some_food
some_food-IsFood = record {
  meat = omega arith;
  vegetables = omega arith;
  fruits = omega arith;
  water = omega arith;
}

pub some_medicine-IsMedicine : IsMedicine some_medicine
some_medicine-IsMedicine = record {
  antibiotics = omega arith;
  analgesics = omega arith;
  bandages = omega arith;
}

-- {"food": {"meat": -4}}
abbrev pub request : trees.Json
request =
    trees.add_item_to_object trees.create_object "food"
      (add_number_to_object trees trees.create_object "meat" (negsuc 3))

-- A process with that input and those results of `recv`.
abbrev pub process : Bytes → List Recv → Client
process stdin incoming = record {
  connected = true;
  authenticated = true;
  zip_size_bytes = pos 5;
  is_parent = true;
  has_child = true;
  stdin = stdin;
  incoming = incoming;
  zip_opens = true;
  events = [];
}

-- A system at which every call succeeds.
abbrev pub kernel : Kernel
kernel h (socket d t p) = pos 3
kernel h c = pos 0

-- A system that refuses the first connection.
abbrev pub refusing_kernel : Kernel
refusing_kernel h (socket d t p) = pos 3
refusing_kernel h (connect fd (resolved zero)) = negsuc 0
refusing_kernel h c = pos 0

pub meat-Fits : Fits some_food.meat (negsuc 3)
unfolding ◌+ℤ◌
meat-Fits = omega arith

pub name_line-IsOther : IsOther (codes "NAME=\"Ubuntu\"")
unfolding starts_with
name_line-IsOther = (
  record {
    no_newline = (
      refl,
      (
        refl,
        (refl, (refl, (refl, (refl, (refl, (refl, (refl, (refl, (refl, (refl, (refl, tt))))))))))),
      ),
    );
    short = omega arith;
  },
  refl,
)

pub ubuntu-IsValue : IsValue (codes "ubuntu")
ubuntu-IsValue = record {
  nonempty = λ e. cc;
  no_equals = (refl, (refl, (refl, (refl, (refl, (refl, tt))))));
  no_newline = (refl, (refl, (refl, (refl, (refl, (refl, tt))))));
  short = omega arith;
}

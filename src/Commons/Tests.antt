-- ===== src/Commons/Tests.antt =====
-- Concrete lists and queues of numbers.
use grage.Prelude.{ℕ, some, List, [], ◌∷◌, ◌≡◌, refl, ◌==◌, leb, arith}
use grage.Commons.Strings.{tokenize, path_of, tokenize-path_of}
use grage.Commons.LinkedList.{LinkedList, IsSized, remove_node}
use grage.Commons.LinkedList.Order.{IsTotal, IsTransitive}
use grage.Commons.LinkedList.Remove.{Unlinks, remove_node_lem}
use grage.Commons.Queue.Fifo.{Call, puts, gets, asks_empty, run, spec_run, run_refines}

abbrev three : LinkedList ℕ
three = record { elements = 1 ∷ 3 ∷ 5 ∷ []; size = 3 }

leb-IsTotal : IsTotal leb
leb-IsTotal a b h = ground arith

leb-IsTransitive : IsTransitive leb
leb-IsTransitive a b c h k = ground arith

remove_node_lem_example :
    Unlinks ◌==◌ 3 three.elements
      ((remove_node ◌==◌ three 3).0, (remove_node ◌==◌ three 3).1.elements)
    × IsSized (remove_node ◌==◌ three 3).1
remove_node_lem_example = remove_node_lem ◌==◌ three 3 refl

abbrev calls : List (Call ℕ)
calls = gets ∷ puts 7 ∷ asks_empty ∷ gets ∷ gets ∷ gets ∷ gets ∷ []

run_refines_example : run three calls ≡ spec_run three.elements calls
run_refines_example = run_refines three calls refl (omega arith)

abbrev names : List (List ℕ)
names = (104 ∷ 111 ∷ []) ∷ (97 ∷ 98 ∷ 99 ∷ []) ∷ []

tokenize-path_of_example : tokenize (path_of 47 names) 47 ≡ some names
tokenize-path_of_example = tokenize-path_of 47 (104 ∷ 111 ∷ []) ((97 ∷ 98 ∷ 99 ∷ []) ∷ []) (
  λ e. cc e,
  (omega arith, omega arith, omega arith, (omega arith, omega arith, omega arith, tt)),
  (
    λ e. cc e,
    (
      omega arith,
      omega arith,
      omega arith,
      (omega arith, omega arith, omega arith, (omega arith, omega arith, omega arith, tt)),
    ),
    tt,
  ),
)

-- ===== src/Util/Lists/Tests.antt =====
-- Three cells at 40, 30 and 20, put into an empty list in the order 20, 30, 40.
use so2c2011tp.Prelude.{◌≡◌, refl, [], ◌∷◌, arith, some, false}
use so2c2011tp.Util.Lists.{ListState, list_init, list_add, list_remove}
use so2c2011tp.Util.Lists.Chains.{Chain, Holds, list_add_lem, list_remove_dangles}

abbrev heap : ListState
heap = record {
  first = 7;
  size = 9;
  cells = λ _. record { element = 0; next = 0 };
  is_allocated = λ _. false;
}

abbrev empty : ListState
empty = list_init heap

empty-Holds : Holds empty [] []
unfolding list_init
empty-Holds = record { chain = refl; count = refl }

abbrev three : ListState
three = list_add 40 3 (list_add 30 2 (list_add 20 1 empty))

three-Holds : Holds three (40 ∷ 30 ∷ 20 ∷ []) (3 ∷ 2 ∷ 1 ∷ [])
three-Holds =
    list_add_lem 40 3 (list_add 30 2 (list_add 20 1 empty)) (30 ∷ 20 ∷ []) (2 ∷ 1 ∷ [])
      (omega arith) (omega arith)
      (list_add_lem 30 2 (list_add 20 1 empty) (20 ∷ []) (1 ∷ []) (omega arith) (omega arith)
        (list_add_lem 20 1 empty [] [] (omega arith) tt empty-Holds))

list_remove_dangles_example :
    let (got, l') = list_remove 1 three in
    (got ≡ some 2)
    × (l'.size ≡ 2)
    × (l'.is_allocated 30 ≡ false)
    × Chain l'.cells l'.first (40 ∷ 30 ∷ 20 ∷ []) (3 ∷ 2 ∷ 1 ∷ [])
list_remove_dangles_example =
    list_remove_dangles 0 three (40 ∷ 30 ∷ 20 ∷ []) (3 ∷ 2 ∷ 1 ∷ []) three-Holds (omega arith)

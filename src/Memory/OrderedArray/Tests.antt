-- ===== src/Memory/OrderedArray/Tests.antt =====
-- An array of five cells, three of them in use.
use so2c2011tp.Prelude.{◌≡◌, [], ◌∷◌, arith}
use so2c2011tp.Memory.OrderedArray.{OrderedArray, insert_ordered_array, standard_lessthan_predicate}
use so2c2011tp.Memory.OrderedArray.Laws.{items, insert_before, insert_ordered_array_lem}

abbrev three : OrderedArray
three = record { array = 2 ∷ 5 ∷ 9 ∷ 0 ∷ 0 ∷ []; size = 3; max_size = 5 }

insert_ordered_array_lem_example :
    items (insert_ordered_array standard_lessthan_predicate 7 three)
    ≡ insert_before standard_lessthan_predicate 7 (items three)
insert_ordered_array_lem_example =
    insert_ordered_array_lem standard_lessthan_predicate 7 three (omega arith)

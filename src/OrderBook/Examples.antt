-- ===== src/OrderBook/Examples.antt =====
-- Tests, and the theorems at concrete books.
use quant_finance_pipeline.Prelude.{
  ◌⊎◌, ◌<◌, ℕ, ◌*◌, List, [], ◌∷◌, some, ◌≡◌, refl, true, get_or, take, arith, ◌==◌, String, map,
  none,
}
use quant_finance_pipeline.OrderBook.Settlement.{
  settle_market, keep_remaining, limit_status, settled_status,
}
use quant_finance_pipeline.OrderBook.Entries.{lookup, put, remove}
use quant_finance_pipeline.OrderBook.RbTree.{
  Tree, leaf, node, red, black, insert, search_node, insert_fixup, insert_path,
}
use quant_finance_pipeline.OrderBook.RbTree.Removal.{
  delete, delete_node, delete_fixup, unlink, minimum, fix_round,
}
use quant_finance_pipeline.OrderBook.RbTree.Walk.{get_levels}
use quant_finance_pipeline.OrderBook.RbTree.Inorder.{inorder}
use quant_finance_pipeline.OrderBook.RbTree.Insertion.{IsSearchTree, insert-refines}
use quant_finance_pipeline.OrderBook.RbTree.Deletion.{delete-refines}
use quant_finance_pipeline.OrderBook.RbTree.Walking.{live, book_order, get_levels-eq-take}
use quant_finance_pipeline.Prelude.Int.{pos, ◌+ℤ◌, ◌-ℤ◌}
use quant_finance_pipeline.Models.Order.{
  partially_filled, buy, limit, gtc, new, filled, OrderExecution,
}
use quant_finance_pipeline.OrderBook.Level.{
  Orders, Element, PriceLevel, remove_order, match_quantity,
}
use quant_finance_pipeline.OrderBook.Level.Matching.{IsExact, total}
use quant_finance_pipeline.OrderBook.Level.Fifo.{Matches, match_quantity-Matches}
use quant_finance_pipeline.OrderBook.Level.Cancel.{remove_order_stale}
use quant_finance_pipeline.OrderBook.RbTree.History.{
  Call, inserts, deletes, run, replay, run-new_refines,
}

-- Three prices, with the number of orders as the level.
abbrev three : Tree ℕ
three = node black (node red leaf 5 1 leaf) 7 0 (node red leaf 9 2 leaf)

three-IsSearchTree : IsSearchTree three
three-IsSearchTree = record { sorted = omega arith; balanced = ground arith }

abbrev calls : List (Call ℕ)
calls =
    inserts 5 1 ∷ inserts 9 2 ∷ inserts 7 3 ∷ inserts 2 4 ∷ deletes 9 ∷ deletes 5 ∷ inserts 6 5 ∷ []

run_test : run calls leaf ≡ some (node black (node red leaf 2 4 leaf) 6 5 (node red leaf 7 3 leaf))
unfolding run insert delete search_node insert_fixup insert_path delete_node unlink delete_fixup
    minimum fix_round
run_test = refl

insert-refines_example :
    (t : Tree ℕ) × (insert 8 3 three ≡ some (t, get_or (lookup 8 (inorder three)) 3))
    × IsSearchTree t
    × (inorder t ≡ put 8 3 (inorder three))
insert-refines_example = insert-refines 8 3 three three-IsSearchTree

delete-refines_example :
    (t : Tree ℕ) × (delete 7 three ≡ some t)
    × IsSearchTree t
    × (inorder t ≡ remove 7 (inorder three))
delete-refines_example = delete-refines 7 three three-IsSearchTree

get_levels-eq-take_example :
    get_levels (λ n. n == 0) true 5 three ≡ take 5 (live (λ n. n == 0) (book_order true three))
get_levels-eq-take_example = get_levels-eq-take (λ n. n == 0) true 5 three

run-new_refines_example :
    (t : Tree ℕ) × (run calls leaf ≡ some t) × IsSearchTree t × (inorder t ≡ replay calls [])
run-new_refines_example = run-new_refines calls

-- Order `n` has `10 * n` lots at a price of 7.
abbrev orders : Orders
orders n = record {
  order_id = "";
  symbol = "AAPL";
  side = buy;
  order_type = limit;
  quantity = 10 * n;
  price = 7;
  time_in_force = gtc;
  status = new;
  client_id = "";
  creation_time = 0;
  update_time = 0;
  parent_order_id = "";
  limits = none;
  executions = [];
}

abbrev element : ℕ → Element
element n = record { id = n; order = n }

-- A level of ten, twenty and thirty lots, in this order.
abbrev level : PriceLevel
level = record { price = 7; orders = element 1 ∷ element 2 ∷ element 3 ∷ []; volume = pos 60 }

level-IsExact : IsExact orders level
level-IsExact = record { volume_total = refl; distinct = ground arith }

abbrev id_of : ℕ → String
id_of n = "exec"

match_test :
    let (m, pl) = match_quantity id_of 5 level 25 orders 0 in
    (map (λ (x : OrderExecution). x.quantity) m.executions ≡ 10 ∷ 15 ∷ [])
    × (pl ≡ record { price = 7; orders = element 2 ∷ element 3 ∷ []; volume = pos 35 })
    × ((m.orders 1).status ≡ filled)
    × ((m.orders 2).quantity ≡ 5)
unfolding match_quantity ◌-ℤ◌
match_test = (refl, refl, refl, refl)

match_quantity-Matches_example :
    let (m, pl') = match_quantity id_of 5 level 25 orders 0 in Matches id_of 5 level 25 orders m pl'
match_quantity-Matches_example = match_quantity-Matches id_of 5 level 25 orders 0 level-IsExact

remove_order_stale_example :
    let pl' = remove_order orders level (element 4) in
    (pl'.orders ≡ level.orders)
    × (pl'.volume +ℤ pos 40 ≡ pos (total orders pl'.orders))
    × ¬ IsExact orders pl'
remove_order_stale_example =
    remove_order_stale orders level (element 4) level-IsExact (ground arith) (omega arith)

-- Four of the ten lots are not matched.
abbrev rest : ℕ
rest = 4

settled_status_example :
    let m = settle_market rest (orders 1) in
    let l = limit_status rest (keep_remaining rest (orders 1)) in
    ((rest ≡ 0) × (m.status ≡ filled) × (l.status ≡ filled) × (m.quantity ≡ 0) × (l.quantity ≡ 10))
    ⊎ ((0 < rest)
        × (m.status ≡ partially_filled)
        × (l.status ≡ new)
        × (m.quantity ≡ rest)
        × (l.quantity ≡ rest))
settled_status_example = settled_status rest (orders 1) (omega arith)

-- ===== src/Network/Engine/Tests.antt =====
-- An engine with one connection, and the theorems at it.
use libcppx.Base.{ℕ, List, false, none, some, true, [], ◌∷◌, ◌≡◌, refl, arith}
use libcppx.ErrorCode.{ErrorCode}
use libcppx.Network.Engine.{Objects, find, Created, create_connection, destroy_connection}
use libcppx.Network.Engine.Maps.{
  Change, IsGiven, Increasing, ids_given, spares, run_changes, run_changes-keeps,
}

abbrev one_connection : Objects
one_connection = record {
  next_acceptor_id = 1;
  acceptors = [];
  next_connection_id = 2;
  connections = (1, 4096) ∷ [];
}

one_connection-IsGiven : IsGiven 2 one_connection.connections
one_connection-IsGiven i there = ground arith

-- With a logger the creation does not return.
not_returned :
    create_connection true true true false (some (8192, ErrorCode.success)) one_connection
    ≡ Created.reads_null (record one_connection { connections = (2, 8192) ∷ (1, 4096) ∷ [] })
unfolding create_connection libcppx.ErrorCode.value
not_returned = refl

abbrev four_calls : List Change
four_calls =
    Change.creates_connection false (some (8192, ErrorCode.success))
    ∷ Change.destroys_connection (some 2)
    ∷ Change.creates_connection true none
    ∷ Change.creates_connection false (some (8192, ErrorCode.success))
    ∷ []

-- The second connection has another id than the destroyed one.
ids_of_calls : ids_given four_calls one_connection ≡ 2 ∷ 3 ∷ []
unfolding create_connection destroy_connection libcppx.ErrorCode.value
ids_of_calls = refl

run_changes-keeps_example :
    Increasing 2 (ids_given four_calls one_connection)
    × ((i p : ℕ)
        → find i one_connection.connections ≡ some p
        → spares i four_calls ≡ true
        → find i (run_changes four_calls one_connection).connections ≡ some p)
run_changes-keeps_example =
    run_changes-keeps four_calls one_connection one_connection-IsGiven (omega arith)

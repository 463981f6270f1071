-- ===== src/Network/Engine/Maps.antt =====
-- The ids of the engine's objects, and the turns of its dispatchers.
use libcppx.Base.{
  ℕ, ◌+◌, ◌^◌, ◌%◌, ◌≤◌, ◌<◌, Option, none, some, Bool, Bool-cases, true, false, ◌==◌,
  if◌then◌else◌, List, [], ◌∷◌, length, ◌≡◌, ◌≢◌, inl, inr, refl, ◌∙◌, arith, sym, ap, subst,
}
use native.Mathlib.Nat.{mod-eq_of_lt}
use libcppx.ErrorCode.{value}
use libcppx.Network.Engine.{
  Ids, find, erase, assign, Objects, Created, NewObject, create_acceptor, create_connection,
  destroy_acceptor, destroy_connection, without_acceptor, without_connection,
}

pub find-erase : (i j : ℕ) (m : Ids) → find j (erase i m) ≡ (if j == i then none else find j m)
find-erase i j [] = ground arith
find-erase i j ((k, p) ∷ m) = ground (arith, find-erase i j m)

-- Every id in use was given out before.
abbrev pub IsGiven : ℕ → Ids → Type 0
IsGiven next m = (i : ℕ) → find i m ≢ none → i < next

-- A call of the engine that changes the maps, of an engine without a logger: whether the call throws,
-- the objects that New and Init make, and the ids to destroy.
pub data Change : Type 0 where
  creates_acceptor : Bool → NewObject → Change
  creates_connection : Bool → NewObject → Change
  destroys_acceptor : Option ℕ → Change
  destroys_connection : Option ℕ → Change

abbrev kept : Objects → Created → Objects
kept o (Created.returns code o') = o'
kept o (Created.reads_null o') = o'

abbrev pub change : Change → Objects → Objects
change (Change.creates_acceptor throws made) o =
    kept o (create_acceptor false true true throws made o)
change (Change.creates_connection throws made) o =
    kept o (create_connection false true true throws made o)
change (Change.destroys_acceptor id) o = (destroy_acceptor id o).1
change (Change.destroys_connection id) o = (destroy_connection id o).1

abbrev pub run_changes : List Change → Objects → Objects
run_changes [] o = o
run_changes (c ∷ cs) o = run_changes cs (change c o)

-- Whether a call destroys the connection of an id.
abbrev pub destroys : ℕ → Change → Bool
destroys i (Change.destroys_connection (some j)) = j == i
destroys i (Change.destroys_connection none) = false
destroys i (Change.creates_acceptor throws made) = false
destroys i (Change.creates_connection throws made) = false
destroys i (Change.destroys_acceptor id) = false

abbrev pub spares : ℕ → List Change → Bool
spares i [] = true
spares i (c ∷ cs) = if destroys i c then false else spares i cs

erase-IsGiven : (next j : ℕ) (m : Ids) → IsGiven next m → IsGiven next (erase j m)
erase-IsGiven next j m h i there = h i (λ absent. there (ground (arith, find-erase j i m)))

assign-IsGiven : (next p : ℕ) (m : Ids) → IsGiven next m → IsGiven (next + 1) (assign next p m)
assign-IsGiven next p m h i there = elim (Bool-cases (next == i)) [
  | inl same ↦ ground arith
  | inr other ↦
      let before = erase-IsGiven next next m h i in
      let found : find i (assign next p m) ≡ find i (erase next m) = rw other refl in
      ground (arith, before (λ absent. there (found ∙ absent)))
]

destroy_connection-kept :
    (id : Option ℕ) (o : Objects)
    → IsGiven o.next_connection_id o.connections
    → let t = (destroy_connection id o).1 in
      (t.next_connection_id ≡ o.next_connection_id)
      × IsGiven o.next_connection_id t.connections
      × ((i p : ℕ)
          → find i o.connections ≡ some p
          → destroys i (Change.destroys_connection id) ≡ false
          → find i t.connections ≡ some p)
unfolding destroy_connection
destroy_connection-kept none o h = (refl, h, λ i p f d. f)
destroy_connection-kept (some j) o h = go (find j o.connections)
  where
    go :
        (r : Option ℕ)
        → let t = (without_connection j o r).1 in
          (t.next_connection_id ≡ o.next_connection_id)
          × IsGiven o.next_connection_id t.connections
          × ((i p : ℕ)
              → find i o.connections ≡ some p
              → destroys i (Change.destroys_connection (some j)) ≡ false
              → find i t.connections ≡ some p)
    go none = (refl, h, λ i p f d. f)
    go (some q) = (
      refl,
      erase-IsGiven o.next_connection_id j o.connections h,
      λ i p f d. ground (arith, find-erase j i o.connections),
    )

-- The id that a call gives to a new connection.
abbrev given_by : ℕ → Created → Option ℕ
given_by next (Created.returns code o) = if value code == 0 then some next else none
given_by next (Created.reads_null o) = none

abbrev pub gives : Change → Objects → Option ℕ
gives (Change.creates_connection throws made) o =
    given_by o.next_connection_id (create_connection false true true throws made o)
gives (Change.creates_acceptor throws made) o = none
gives (Change.destroys_acceptor id) o = none
gives (Change.destroys_connection id) o = none

-- The counter after a call that gave an id, or none.
abbrev Counted : ℕ → Option ℕ → ℕ → Type 0
Counted next none next' = next' ≡ next
Counted next (some i) next' = (i ≡ next) × (next' ≡ next + 1)

create_connection-kept :
    (throws : Bool) (made : NewObject) (o : Objects)
    → IsGiven o.next_connection_id o.connections
    → o.next_connection_id + 1 < 2 ^ 64
    → let t = kept o (create_connection false true true throws made o) in
      Counted o.next_connection_id
        (gives (Change.creates_connection throws made) o)
        t.next_connection_id
      × IsGiven t.next_connection_id t.connections
      × ((i p : ℕ) → find i o.connections ≡ some p → find i t.connections ≡ some p)
unfolding create_connection value
create_connection-kept true made o h room = (refl, h, λ i p f. f)
create_connection-kept false none o h room = (refl, h, λ i p f. f)
create_connection-kept false (some (q, code)) o h room = elim (Bool-cases (value code == 0)) [
  | inr failed ↦ rw failed (refl, h, λ i p f. f)
  | inl made ↦
      let next : (o.next_connection_id + 1) % 2 ^ 64 ≡ o.next_connection_id + 1 =
        mod-eq_of_lt room in
      rw (made, next)
        (
          (refl, refl),
          assign-IsGiven o.next_connection_id q o.connections h,
          λ i p f. ground (
            arith,
            h i (λ absent. ground arith),
            find-erase o.next_connection_id i o.connections,
          ),
        )
]

-- What a call leaves of the connections' map.
record Keeps (c : Change) (o t : Objects) : Type 0 where
  next : Counted o.next_connection_id (gives c o) t.next_connection_id
  given : IsGiven t.next_connection_id t.connections
  found :
      (i p : ℕ)
      → find i o.connections ≡ some p
      → destroys i c ≡ false
      → find i t.connections ≡ some p

acceptor-connections :
    (throws : Bool) (made : NewObject) (id : Option ℕ) (o : Objects)
    → ((change (Change.creates_acceptor throws made) o).next_connection_id ≡ o.next_connection_id)
      × ((change (Change.creates_acceptor throws made) o).connections ≡ o.connections)
      × ((change (Change.destroys_acceptor id) o).next_connection_id ≡ o.next_connection_id)
      × ((change (Change.destroys_acceptor id) o).connections ≡ o.connections)
unfolding create_acceptor destroy_acceptor
acceptor-connections throws made id o =
    let (n, c) = created throws made in let (n', c') = destroyed id in (n, c, n', c')
  where
    created :
        (throws : Bool) (made : NewObject)
        → let t = kept o (create_acceptor false true true throws made o) in
          (t.next_connection_id ≡ o.next_connection_id) × (t.connections ≡ o.connections)
    created true made = (refl, refl)
    created false none = (refl, refl)
    created false (some (q, code)) = elim (Bool-cases (value code == 0)) [
      | inl made ↦ rw made (refl, refl)
      | inr failed ↦ rw failed (refl, refl)
    ]

    destroyed :
        (id : Option ℕ)
        → let t = (destroy_acceptor id o).1 in
          (t.next_connection_id ≡ o.next_connection_id) × (t.connections ≡ o.connections)
    destroyed none = (refl, refl)
    destroyed (some j) = without (find j o.acceptors)
      where
        without :
            (r : Option ℕ)
            → let t = (without_acceptor j o r).1 in
              (t.next_connection_id ≡ o.next_connection_id) × (t.connections ≡ o.connections)
        without none = (refl, refl)
        without (some q) = (refl, refl)

change-Keeps :
    (c : Change) (o : Objects)
    → IsGiven o.next_connection_id o.connections
    → o.next_connection_id + 1 < 2 ^ 64
    → Keeps c o (change c o)
change-Keeps (Change.creates_acceptor throws made) o h room =
    let (n, c, n', c') = acceptor-connections throws made none o in
    record { next = n; given = rw (n, c) h; found = λ i p f d. rw c f }
change-Keeps (Change.destroys_acceptor id) o h room =
    let (n, c, n', c') = acceptor-connections false none id o in
    record { next = n'; given = rw (n', c') h; found = λ i p f d. rw c' f }
change-Keeps (Change.creates_connection throws made) o h room =
    let (n, g, k) = create_connection-kept throws made o h room in
    record { next = n; given = g; found = λ i p f d. k i p f }
change-Keeps (Change.destroys_connection id) o h room =
    let (n, g, k) = destroy_connection-kept id o h in record { next = n; given = rw n g; found = k }

-- The ids that a sequence of calls gives to new connections, in their order.
abbrev pub with_id : Option ℕ → List ℕ → List ℕ
with_id none is = is
with_id (some i) is = i ∷ is

abbrev pub ids_given : List Change → Objects → List ℕ
ids_given [] o = []
ids_given (c ∷ cs) o = with_id (gives c o) (ids_given cs (change c o))

-- Each is greater than the ones before it, and the first is at least a bound.
abbrev pub Increasing : ℕ → List ℕ → Type 0
Increasing low [] = Unit
Increasing low (i ∷ is) = (low ≤ i) × Increasing (i + 1) is

with_id-Increasing :
    (next next' : ℕ) (r : Option ℕ) (is : List ℕ)
    → Counted next r next'
    → Increasing next' is
    → Increasing next (with_id r is)
with_id-Increasing next next' none is h up = subst (λ n. Increasing n is) h up
with_id-Increasing next next' (some i) is (same, h) up =
    (omega arith, subst (λ n. Increasing n is) (h ∙ ap (λ n. n + 1) (sym same)) up)

Counted_le : (next next' : ℕ) (r : Option ℕ) → Counted next r next' → next' ≤ next + 1
Counted_le next next' none h = omega arith
Counted_le next next' (some i) h = omega arith

-- For any sequence of creations and destructions, by an engine without a logger, which returns from
-- the creation, and with too few calls for the ids to wrap: every id that is given to a new
-- connection is greater than all that were given before, so that none is given out twice; and a
-- connection stays under its id until that id is destroyed.
pub run_changes-keeps :
    (cs : List Change) (o : Objects)
    → IsGiven o.next_connection_id o.connections
    → o.next_connection_id + length cs < 2 ^ 64
    → Increasing o.next_connection_id (ids_given cs o)
      × ((i p : ℕ)
          → find i o.connections ≡ some p
          → spares i cs ≡ true
          → find i (run_changes cs o).connections ≡ some p)
run_changes-keeps [] o h room = (tt, λ i p f d. f)
run_changes-keeps (c ∷ cs) o h room =
    let k = change-Keeps c o h (omega arith) in
    let t = change c o in
    let less = Counted_le o.next_connection_id t.next_connection_id (gives c o) k.next in
    let (up, keeps) = run_changes-keeps cs t k.given (omega (arith, less)) in
    (
      with_id-Increasing o.next_connection_id t.next_connection_id (gives c o) (ids_given cs t)
          k.next up,
      λ i p f d. keeps i p (k.found i p f (ground arith)) (ground arith),
    )

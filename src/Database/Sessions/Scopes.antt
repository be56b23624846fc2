-- ===== src/Database/Sessions/Scopes.antt =====
-- Lemmas on transactions and disposals.
use ai_voice_agent.Database.Causes.{causes_lem}
use ai_voice_agent.Database.Failures.{
  Heap, scan, is_database_unavailable, is_connection_acquisition_unavailable,
}
use ai_voice_agent.Database.Sessions.{
  is_success, transaction, dispose, Await, Exits, Left, Scope, Database, Inside, succeeds, raises,
  connection_acquisition, transaction_phase, left_normally, left_with, left_unreachable,
  left_disposed, exception,
}
use ai_voice_agent.Prelude.{
  ℕ, ◌≡◌, ◌⊎◌, Bool, true, false, not, ◌&&◌, ◌||◌, Option, none, some, List, [], ◌∷◌, ◌++◌, arith,
  if◌then◌else◌, all, any,
}

pub not_exception_lem :
    (heap : Heap) (e : ℕ)
    → (heap e).is_exception ≡ false
    → (is_database_unavailable heap e ≡ false)
      × (is_connection_acquisition_unavailable heap e ≡ false)
unfolding is_database_unavailable is_connection_acquisition_unavailable scan
not_exception_lem heap e h =
    let (rest, same, _, _, _) = causes_lem heap e in
    (rw same (ground arith), rw same (ground arith))

-- The exception of an awaited call, or else the one from before it.
abbrev pub later : Await → Option ℕ → Option ℕ
later succeeds before = before
later (raises e) before = some e

-- The first exception of a sequence of awaited calls.
pub first_raised : List Await → Option ℕ
first_raised [] = none
first_raised (call ∷ calls) = later call (first_raised calls)

-- The exception that leaves both context managers: the closing's, else that of the rollback if one
-- of the calls in the block raised, else the first of the block, and after a block that ended
-- normally the commit's.
pub escaping : List Await → Exits → Option ℕ
unfolding first_raised
escaping calls exits = later exits.close (
    if all is_success calls
    then later exits.commit none
    else later exits.rollback (first_raised calls))

-- The connection was not acquired, by an Exception that is an outage or a refusal.
abbrev pub not_acquired : Heap → Await → Bool
not_acquired heap succeeds = false
not_acquired heap (raises e) = (heap e).is_exception && is_connection_acquisition_unavailable heap e

-- It left the block as the DatabaseError of that phase, which neither exit replaced.
abbrev pub refused_connection : Heap → Await → Exits → Bool
refused_connection heap acquire exits =
    not_acquired heap acquire && (is_success exits.rollback && is_success exits.close)

-- Why a block is left the way it is, by the exception that leaves it and whether the connection was
-- refused.
pub Justified : Heap → Database → Option ℕ → Bool → Left → Type 0
Justified heap database escaped declined left_normally =
    (database.disposing ≡ false) × (escaped ≡ none)
Justified heap database escaped declined (left_with e) =
    (database.disposing ≡ false)
    × (escaped ≡ some e)
    × (declined ≡ false)
    × (((heap e).is_database_error ≡ true) ⊎ (is_database_unavailable heap e ≡ false))
Justified heap database escaped declined (left_unreachable connection_acquisition e) =
    (database.disposing ≡ false) × (escaped ≡ some e) × (declined ≡ true)
Justified heap database escaped declined (left_unreachable transaction_phase e) =
    (database.disposing ≡ false)
    × (escaped ≡ some e)
    × (declined ≡ false)
    × ((heap e).is_exception ≡ true)
    × ((heap e).is_database_error ≡ false)
    × (is_database_unavailable heap e ≡ true)
Justified heap database escaped declined left_disposed = database.disposing ≡ true

-- The body runs exactly if the calls before it succeed; an open block is committed exactly if its
-- body and the commit succeed too, and rolled back exactly if a call in it raised.
pub Closed : Database → List Await → Await → Exits → Scope → Type 0
Closed database before body exits scope =
    (scope.body_ran ≡ not database.disposing && all is_success before)
    × (scope.committed
        ≡ not database.disposing
          && (all is_success before && (is_success body && is_success exits.commit)))
    × (scope.rolled_back ≡ not database.disposing && not (all is_success before && is_success body))

module _ (heap : Heap) (database : Database) (exits : Exits)
    (opened : database.disposing ≡ false) where
  Good : List Await → Await → Bool → Scope → Type 0
  unfolding Closed Justified escaping
  Good before body declined scope =
      Justified heap database (escaping (before ++ body ∷ []) exits) declined scope.left
      × Closed database before body exits scope

  raised_inside : Option ℕ → Option Inside
  raised_inside none = none
  raised_inside (some e) = some (exception e)

-- The disposals of one database, by how each of them ends.
pub disposals : List Await → Database → Database
unfolding dispose
disposals [] database = database
disposals (how ∷ hows) database = disposals hows (dispose how database)

disposals_lem :
    (hows : List Await) (database : Database)
    → database.disposing ≡ true
    → ((disposals hows database).disposing ≡ true)
      × ((disposals hows database).disposed ≡ (database.disposed || any is_success hows))
unfolding disposals dispose
disposals_lem [] database h = (h, ground arith)
disposals_lem (succeeds ∷ hows) database h =
    ground (arith, disposals_lem hows (dispose succeeds database))
disposals_lem (raises e ∷ hows) database h =
    ground (arith, disposals_lem hows (dispose (raises e) database))

-- From the first call of dispose on an open database, however it and every later one end, each
-- transaction is refused, and the database counts as disposed exactly if one of the calls ended
-- well: a dispose that failed can be made again, and one after success changes nothing.
pub disposals_refuse :
    (how : Await) (hows : List Await) (heap : Heap) (acquire : Await) (initializers : List Await)
    (body : Await) (exits : Exits)
    → ((transaction heap
          (disposals (how ∷ hows) (record { disposing = false; disposed = false }))
          acquire
          initializers
          body
          exits).left
        ≡ left_disposed)
      × ((disposals (how ∷ hows) (record { disposing = false; disposed = false })).disposed
          ≡ any is_success (how ∷ hows))
unfolding disposals dispose transaction
disposals_refuse how hows heap acquire initializers body exits =
    ground
      (arith, disposals_lem hows (dispose how (record { disposing = false; disposed = false })))

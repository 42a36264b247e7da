-- ===== src/Transactions/Journal.antt =====
-- src/app/services/restamps.ts: the rows that one database transaction rewrites, each with the stamp
-- it had before. The `Map` is the list of its values in the order they were first set.
use lag_money_manager.Prelude.{
  ℕ, Bool, true, false, ◌&&◌, Option, none, some, List, [], ◌∷◌, ◌++◌, any, ◌==◌, if◌then◌else◌,
}
use lag_money_manager.Errors.{Result, ok, err, api, internal_server_error, no_code}

-- `RestampedEntity`
pub data Entity : Type 0 where
  account shared_expense transaction : Entity

-- `a === b` on two kinds.
abbrev pub same_entity : Entity → Entity → Bool
same_entity account account = true
same_entity shared_expense shared_expense = true
same_entity transaction transaction = true
same_entity _ _ = false

-- `Before`
pub record Before : Type 0 where
  pub entity : Entity
  pub id : ℕ
  pub updated_at : ℕ

abbrev pub Journal : Type 0
Journal = List Before

-- `this.before.has(key)`
abbrev pub has : Entity → ℕ → Journal → Bool
has entity id = any (λ (row : Before). same_entity row.entity entity && row.id == id)

-- A row is refused when it was read without its stamp.
abbrev pub add_stamp : Entity → ℕ → Option ℕ → Journal → Result Journal
add_stamp entity id none journal = err (api internal_server_error no_code)
add_stamp entity id (some stamp) journal =
    ok (journal ++ (record { entity = entity; id = id; updated_at = stamp } ∷ []))

-- `note`: the first stamp of a row stays.
unfoldable pub note : Entity → ℕ → Option ℕ → Journal → Result Journal
note entity id updated_at journal =
    if has entity id journal then ok journal else add_stamp entity id updated_at journal

-- `idsOf`
unfoldable pub ids_of : Entity → Journal → List ℕ
ids_of entity [] = []
ids_of entity (row ∷ journal) =
    let rest = ids_of entity journal in
    if same_entity row.entity entity then row.id ∷ rest else rest

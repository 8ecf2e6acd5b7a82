-- ===== src/Stores.antt =====
-- The databases of database.py: in memory, read-only, multiplexed, and with writes in the background.
-- A key or a value is of a type of bytes with a test of equality; a set is a list with no order of note.
-- Beside the new database, a write returns the events that `_broadcast_change` is called with.
pub mod Contents
pub mod Merged
pub mod Background
pub mod Listening
pub mod Examples
use hypothesis.Common.{
  Bool, true, false, ◌&&◌, ◌||◌, not, Option, none, some, List, [], ◌∷◌, ◌++◌, if◌then◌else◌,
}
use hypothesis.Common.Keys.{KeyEquality, mem}

pub data Event {ℓ} (B : Type ℓ) : Type ℓ where
  saved deleted : B → B → Event B

-- A call of a method that writes, as `BackgroundWriteDatabase` queues it
pub data Write {ℓ} (B : Type ℓ) : Type ℓ where
  save delete : B → B → Write B
  move : B → B → B → Write B

-- `InMemoryExampleDatabase.data`: dict[bytes, set[bytes]]
abbrev pub Store {ℓ} : Type ℓ → Type ℓ
Store B = List (B × List B)

mutual
  pub data Db {ℓ} (B : Type ℓ) : Type ℓ where
    in_memory : Store B → Db B
    read_only : Db B → Db B
    multiplexed : Dbs B → Db B

  pub data Dbs {ℓ} (B : Type ℓ) : Type ℓ where
    nil : Dbs B
    cons : Db B → Dbs B → Dbs B

module _ {ℓ} {B : Type ℓ} (bytes : KeyEquality B) where
  -- self.data.get(key, ())
  unfoldable pub get_values : B → Store B → List B
  get_values k [] = []
  get_values k ((j, vs) ∷ s) = if bytes.eq k j then vs else get_values k s

  -- self.data.setdefault(key, set()).add(value), for a value that is not there
  unfoldable pub add_value : B → B → Store B → Store B
  add_value k v [] = (k, v ∷ []) ∷ []
  add_value k v ((j, vs) ∷ s) =
      let rest = add_value k v s in if bytes.eq k j then (j, v ∷ vs) ∷ s else (j, vs) ∷ rest

  -- values.discard(value)
  unfoldable pub discard : B → List B → List B
  discard v [] = []
  discard v (w ∷ vs) = let rest = discard v vs in if bytes.eq v w then rest else w ∷ rest

  unfoldable pub discard_value : B → B → Store B → Store B
  unfolding discard
  discard_value k v [] = []
  discard_value k v ((j, vs) ∷ s) =
      let rest = discard_value k v s in
      if bytes.eq k j then (j, discard v vs) ∷ s else (j, vs) ∷ rest

  -- `InMemoryExampleDatabase.save`
  unfoldable pub save_in_memory : B → B → Store B → Store B × List (Event B)
  save_in_memory k v s =
      if mem bytes v (get_values k s) then (s, []) else (add_value k v s, saved k v ∷ [])

  -- `InMemoryExampleDatabase.delete`
  unfoldable pub delete_in_memory : B → B → Store B → Store B × List (Event B)
  delete_in_memory k v s =
      if mem bytes v (get_values k s) then (discard_value k v s, deleted k v ∷ []) else (s, [])

  -- `ExampleDatabase.move`
  unfoldable pub move_in_memory : B → B → B → Store B → Store B × List (Event B)
  move_in_memory src dest v s =
      if bytes.eq src dest
      then save_in_memory src v s
      else (let (s', es) = delete_in_memory src v s in
          let (s'', es') = save_in_memory dest v s' in (s'', es ++ es'))

  unfoldable pub write_in_memory : Write B → Store B → Store B × List (Event B)
  unfolding save_in_memory delete_in_memory move_in_memory
  write_in_memory (save k v) s = save_in_memory k v s
  write_in_memory (delete k v) s = delete_in_memory k v s
  write_in_memory (move src dest v) s = move_in_memory src dest v s

  -- What is not in `seen`, each once: the loop of `MultiplexedDatabase.fetch` over one database, and
  -- what it has seen after that
  unfoldable pub yield_new : List B → List B → List B × List B
  yield_new seen [] = ([], seen)
  yield_new seen (v ∷ vs) =
      let rest = yield_new seen vs in
      let (ys, seen') = yield_new (v ∷ seen) vs in
      if mem bytes v seen then rest else (v ∷ ys, seen')

  unfoldable mutual
    -- `save`, `delete` and `move`; a read-only database does nothing, also in the `move` of its base.
    pub write : Write B → Db B → Db B × List (Event B)
    write w (in_memory s) = let (s', es) = write_in_memory w s in (in_memory s', es)
    write w (read_only db) = (read_only db, [])
    write w (multiplexed dbs) = let (dbs', es) = write_all w dbs in (multiplexed dbs', es)

    pub write_all : Write B → Dbs B → Dbs B × List (Event B)
    write_all w nil = (nil, [])
    write_all w (cons db dbs) =
        let (db', es) = write w db in
        let (dbs', es') = write_all w dbs in (cons db' dbs', es ++ es')

  unfoldable mutual
    -- `fetch`
    pub fetch : Db B → B → List B
    fetch (in_memory s) k = get_values k s
    fetch (read_only db) k = fetch db k
    fetch (multiplexed dbs) k = fetch_all [] dbs k

    pub fetch_all : List B → Dbs B → B → List B
    fetch_all seen nil k = []
    fetch_all seen (cons db dbs) k =
        let (ys, seen') = yield_new seen (fetch db k) in ys ++ fetch_all seen' dbs k

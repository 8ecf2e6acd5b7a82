-- ===== src/Stores/Examples.antt =====
-- Instances of the theorems on databases, where keys and values are numbers.
use hypothesis.Common.{ℕ, ◌≡◌, refl, true, false, ◌&&◌, ◌||◌, not, some, [], ◌∷◌}
use hypothesis.Common.Keys.{number_keys, mem, distinct}
use hypothesis.Stores.{
  save, delete, move, Db, in_memory, read_only, multiplexed, Dbs, nil, cons, fetch, write,
}
use hypothesis.Stores.Contents.{takes, adds}
use hypothesis.Stores.Merged.{
  contains, contains_any, locked, writable, fetch-multiplexed, contains-write,
}
use hypothesis.Stores.Background.{
  wrap, put, work, fetch_joined, write_each, Run, begun, wrote, worked, Run-fetch,
}
use hypothesis.Stores.Listening.{
  Listeners, add, remove, change_each, is_some, listening, change_each-IsAnnounced,
}

abbrev local_db : Db ℕ
local_db = in_memory ((1, 10 ∷ 11 ∷ []) ∷ [])

abbrev shared : Dbs ℕ
shared = cons local_db (cons (read_only (in_memory ((1, 11 ∷ 12 ∷ []) ∷ []))) nil)

fetch-multiplexed_example :
    (distinct number_keys (fetch number_keys (multiplexed shared) 1) ≡ true)
    × ((v : ℕ)
        → mem number_keys v (fetch number_keys (multiplexed shared) 1)
          ≡ contains_any number_keys shared 1 v)
fetch-multiplexed_example = fetch-multiplexed number_keys shared 1

contains-write_example :
    contains number_keys (write number_keys (move 1 2 11) (multiplexed shared)).0 1 11 ≡ (
      (contains number_keys (multiplexed shared) 1 11 && not (takes number_keys (move 1 2 11) 1 11))
      || locked number_keys (multiplexed shared) 1 11
      || (writable number_keys (multiplexed shared) && adds number_keys (move 1 2 11) 1 11))
contains-write_example = contains-write number_keys (move 1 2 11) (multiplexed shared) 1 11

two_writes : Run number_keys (wrap number_keys local_db) (save 1 12 ∷ delete 1 10 ∷ []) (
    put number_keys
      (delete 1 10)
      (work number_keys (put number_keys (save 1 12) (wrap number_keys local_db))))
two_writes = wrote (delete 1 10) (worked (wrote (save 1 12) begun))

Run-fetch_example :
    ((fetch_joined number_keys
        (put number_keys
          (delete 1 10)
          (work number_keys (put number_keys (save 1 12) (wrap number_keys local_db))))
        1).0
      ≡ fetch number_keys
          (write_each number_keys (save 1 12 ∷ delete 1 10 ∷ []) (local_db, [])).0
          1)
    × ((fetch_joined number_keys
          (put number_keys
            (delete 1 10)
            (work number_keys (put number_keys (save 1 12) (wrap number_keys local_db))))
          1).1.broadcast
        ≡ (write_each number_keys (save 1 12 ∷ delete 1 10 ∷ []) (local_db, [])).1)
    × ((fetch_joined number_keys
          (put number_keys
            (delete 1 10)
            (work number_keys (put number_keys (save 1 12) (wrap number_keys local_db))))
          1).1.queue
        ≡ [])
Run-fetch_example = Run-fetch number_keys local_db 1 two_writes

abbrev silent : Listeners ℕ
silent = record { listeners = []; signals = [] }

change_each-IsAnnounced_example :
    listening false (change_each number_keys (add 1 ∷ remove 1 ∷ add 2 ∷ []) silent).signals
    ≡ some (is_some (change_each number_keys (add 1 ∷ remove 1 ∷ add 2 ∷ []) silent).listeners)
unfolding listening is_some
change_each-IsAnnounced_example =
    change_each-IsAnnounced number_keys (add 1 ∷ remove 1 ∷ add 2 ∷ []) silent refl

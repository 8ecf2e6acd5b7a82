-- ===== src/Stores/Merged.antt =====
-- What a tree of databases contains: `fetch` gives no value twice, and a write changes what it should.
use hypothesis.Common.{
  ◌≡◌, refl, ◌∙◌, Bool, true, false, ◌&&◌, ◌||◌, not, List, [], ◌∷◌, ◌++◌, arith,
}
use hypothesis.Common.Keys.{KeyEquality, eq_refl, mem, mem-append, distinct}
use hypothesis.Stores.{
  Write, Db, in_memory, read_only, multiplexed, Dbs, nil, cons, yield_new, write, write_all, fetch,
  fetch_all,
}
use hypothesis.Stores.Contents.{adds, takes, holds-write}

module _ {ℓ} {B : Type ℓ} (bytes : KeyEquality B) where
  mem-yield_new :
      (v : B) (seen vs : List B)
      → mem bytes v (yield_new bytes seen vs).0 ≡ (mem bytes v vs && not (mem bytes v seen))
  unfolding mem yield_new
  mem-yield_new v seen [] = refl
  mem-yield_new v seen (x ∷ vs) =
      ground (arith, bytes.eq_iff v x, mem-yield_new v seen vs, mem-yield_new v (x ∷ seen) vs)

  mem-yield_new_seen :
      (v : B) (seen vs : List B)
      → mem bytes v (yield_new bytes seen vs).1 ≡ (mem bytes v seen || mem bytes v vs)
  unfolding mem yield_new
  mem-yield_new_seen v seen [] = ground arith
  mem-yield_new_seen v seen (x ∷ vs) =
      ground
        (arith, bytes.eq_iff v x, mem-yield_new_seen v seen vs, mem-yield_new_seen v (x ∷ seen) vs)

  distinct-yield_new : (seen vs : List B) → distinct bytes (yield_new bytes seen vs).0 ≡ true
  unfolding distinct yield_new mem
  distinct-yield_new seen [] = refl
  distinct-yield_new seen (x ∷ vs) = ground (
    arith,
    distinct-yield_new seen vs,
    distinct-yield_new (x ∷ seen) vs,
    mem-yield_new x (x ∷ seen) vs,
    eq_refl bytes x,
  )

  -- The database has the value under the key.
  pub contains : Db B → B → B → Bool
  contains db k v = mem bytes v (fetch bytes db k)

  pub contains_any : Dbs B → B → B → Bool
  unfolding contains
  contains_any nil k v = false
  contains_any (cons db dbs) k v = contains db k v || contains_any dbs k v

  -- What a read-only part of the database has, and whether there is a part that is not read-only
  mutual
    unfolding contains

    pub locked : Db B → B → B → Bool
    locked (in_memory s) k v = false
    locked (read_only db) k v = contains db k v
    locked (multiplexed dbs) k v = locked_any dbs k v

    pub locked_any : Dbs B → B → B → Bool
    locked_any nil k v = false
    locked_any (cons db dbs) k v = locked db k v || locked_any dbs k v

  mutual
    pub writable : Db B → Bool
    writable (in_memory s) = true
    writable (read_only db) = false
    writable (multiplexed dbs) = writable_any dbs

    pub writable_any : Dbs B → Bool
    writable_any nil = false
    writable_any (cons db dbs) = writable db || writable_any dbs

  fetch_all_lem :
      (seen : List B) (dbs : Dbs B) (k v : B)
      → mem bytes v (fetch_all bytes seen dbs k) ≡ (contains_any dbs k v && not (mem bytes v seen))
  unfolding fetch_all contains_any mem
  fetch_all_lem seen nil k v = refl
  fetch_all_lem seen (cons db dbs) k v =
      let (ys, seen') = yield_new bytes seen (fetch bytes db k) in
      ground (
        arith,
        mem-append bytes v ys (fetch_all bytes seen' dbs k),
        mem-yield_new v seen (fetch bytes db k),
        mem-yield_new_seen v seen (fetch bytes db k),
        fetch_all_lem seen' dbs k v,
      )

  distinct-append :
      (xs ys : List B)
      → distinct bytes xs ≡ true
      → distinct bytes ys ≡ true
      → ((v : B) → mem bytes v xs ≡ true → mem bytes v ys ≡ false)
      → distinct bytes (xs ++ ys) ≡ true
  unfolding distinct mem
  distinct-append [] ys d e f = e
  distinct-append (x ∷ xs) ys d e f = ground (
    arith,
    mem-append bytes x xs ys,
    f x,
    eq_refl bytes x,
    distinct-append xs ys (ground arith) e (λ v h. f v (ground arith)),
  )

  distinct-fetch_all :
      (seen : List B) (dbs : Dbs B) (k : B) → distinct bytes (fetch_all bytes seen dbs k) ≡ true
  unfolding fetch_all distinct
  distinct-fetch_all seen nil k = refl
  distinct-fetch_all seen (cons db dbs) k =
      let vs = fetch bytes db k in
      distinct-append (yield_new bytes seen vs).0
        (fetch_all bytes (yield_new bytes seen vs).1 dbs k) (distinct-yield_new seen vs)
        (distinct-fetch_all (yield_new bytes seen vs).1 dbs k)
        (λ v h. ground (
          arith,
          fetch_all_lem (yield_new bytes seen vs).1 dbs k v,
          mem-yield_new v seen vs,
          mem-yield_new_seen v seen vs,
        ))

  -- `fetch` of a multiplexed database gives the values that any of its databases has under the key, and
  -- gives none of them twice.
  pub fetch-multiplexed :
      (dbs : Dbs B) (k : B)
      → (distinct bytes (fetch bytes (multiplexed dbs) k) ≡ true)
        × ((v : B) → mem bytes v (fetch bytes (multiplexed dbs) k) ≡ contains_any dbs k v)
  unfolding fetch mem
  fetch-multiplexed dbs k =
      (distinct-fetch_all [] dbs k, λ v. fetch_all_lem [] dbs k v ∙ ground arith)

  contains-multiplexed :
      (dbs : Dbs B) (k v : B) → contains (multiplexed dbs) k v ≡ contains_any dbs k v
  unfolding contains
  contains-multiplexed dbs k v = (fetch-multiplexed dbs k).1 v

  mutual
    unfolding write locked writable contains fetch contains_any mem

    contains-write_any :
        (c : Write B) (db : Db B) (k v : B)
        → contains (write bytes c db).0 k v ≡ (
            (contains db k v && not (takes bytes c k v))
            || locked db k v
            || (writable db && adds bytes c k v))
    contains-write_any c (in_memory s) k v = holds-write bytes c k v s ∙ ground arith
    contains-write_any c (read_only db) k v = ground arith
    contains-write_any c (multiplexed dbs) k v =
        fetch_all_lem [] (write_all bytes c dbs).0 k v
        ∙ ground (arith, fetch_all_lem [] dbs k v, contains-write_all c dbs k v)

    contains-write_all :
        (c : Write B) (dbs : Dbs B) (k v : B)
        → contains_any (write_all bytes c dbs).0 k v ≡ (
            (contains_any dbs k v && not (takes bytes c k v))
            || locked_any dbs k v
            || (writable_any dbs && adds bytes c k v))
    contains-write_all c nil k v = refl
    contains-write_all c (cons db dbs) k v =
        ground (arith, contains-write_any c db k v, contains-write_all c dbs k v)

  -- After `save`, `delete` or `move`, a database has what it had, less the value that the call takes from
  -- its key, save for what its read-only parts have; and the value that the call puts under its key, if
  -- any part is not read-only.
  pub contains-write :
      (c : Write B) (db : Db B) (k v : B)
      → contains (write bytes c db).0 k v ≡ (
          (contains db k v && not (takes bytes c k v))
          || locked db k v
          || (writable db && adds bytes c k v))
  contains-write c db k v = contains-write_any c db k v

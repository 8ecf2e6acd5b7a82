-- ===== src/Stores/Background.antt =====
-- `BackgroundWriteDatabase` of database.py: writes are queued, a thread performs them one by one, and a
-- fetch waits until the queue is empty. What the threads do is a sequence of steps.
use hypothesis.Common.{◌≡◌, refl, ap, sym, ◌∙◌, List, [], ◌∷◌, ◌++◌}
use hypothesis.Common.Keys.{KeyEquality}
use hypothesis.Stores.{Event, Write, Db, write, fetch}

pub record Background {ℓ} (B : Type ℓ) : Type ℓ where
  pub db : Db B
  pub queue : List (Write B)
  -- what `_broadcast_change` was called with
  pub broadcast : List (Event B)

module _ {ℓ} {B : Type ℓ} (bytes : KeyEquality B) where
  -- `__init__`
  unfoldable pub wrap : Db B → Background B
  wrap db = record { db = db; queue = []; broadcast = [] }

  -- `save`, `delete` and `move`
  unfoldable pub put : Write B → Background B → Background B
  put w b = record b { queue = b.queue ++ w ∷ [] }

  unfoldable pub perform : Write B → List (Write B) → Background B → Background B
  perform w queue b =
      let (db, es) = write bytes w b.db in
      record { db = db; queue = queue; broadcast = b.broadcast ++ es }

  -- A round of `_worker`; it waits on an empty queue.
  unfoldable pub work_on : List (Write B) → Background B → Background B
  unfolding perform
  work_on [] b = b
  work_on (w ∷ ws) b = perform w ws b

  unfoldable pub work : Background B → Background B
  unfolding work_on
  work b = work_on b.queue b

  -- `_join`: the worker has performed all of the queue.
  unfoldable pub drain : List (Write B) → Background B → Background B
  unfolding perform
  drain [] b = b
  drain (w ∷ ws) b = drain ws (perform w ws b)

  unfoldable pub join : Background B → Background B
  unfolding drain
  join b = drain b.queue b

  -- `fetch`: the values, and the state that it leaves
  unfoldable pub fetch_joined : Background B → B → List B × Background B
  unfolding join
  fetch_joined b k = (fetch bytes (join b).db k, join b)

  -- The same writes on the database itself, and the events of all of them
  unfoldable pub write_each : List (Write B) → Db B × List (Event B) → Db B × List (Event B)
  write_each [] (db, es) = (db, es)
  write_each (w ∷ ws) (db, es) = let (db', es') = write bytes w db in write_each ws (db', es ++ es')

  -- What the caller and the worker may do, with the writes of the caller in order
  pub data Run (b : Background B) : List (Write B) → Background B → Type ℓ where
    begun : Run b [] b
    wrote :
        {ws : List (Write B)} {c : Background B} (w : Write B)
        → Run b ws c
        → Run b (ws ++ w ∷ []) (put w c)
    worked : {ws : List (Write B)} {c : Background B} → Run b ws c → Run b ws (work c)
    fetched :
        {ws : List (Write B)} {c : Background B} (k : B)
        → Run b ws c
        → Run b ws (fetch_joined c k).1

  -- What will have been written when the queue is empty
  settled : Background B → Db B × List (Event B)
  settled b = write_each b.queue (b.db, b.broadcast)

  write_each-append :
      (vs ws : List (Write B)) (s : Db B × List (Event B))
      → write_each (vs ++ ws) s ≡ write_each ws (write_each vs s)
  unfolding write_each
  write_each-append [] ws (db, es) = refl
  write_each-append (v ∷ vs) ws (db, es) = write_each-append vs ws _

  settled-work_on :
      (q : List (Write B)) (b : Background B)
      → b.queue ≡ q
      → settled (work_on q b) ≡ write_each q (b.db, b.broadcast)
  unfolding settled work_on write_each
  settled-work_on [] b e = rw (e, write_each)
  settled-work_on (w ∷ ws) b e = refl

  settled-work : (b : Background B) → settled (work b) ≡ settled b
  unfolding work settled
  settled-work b = settled-work_on b.queue b refl

  drain_settled :
      (q : List (Write B)) (b : Background B)
      → ((drain q b).db, (drain q b).broadcast) ≡ write_each q (b.db, b.broadcast)
  unfolding drain write_each
  drain_settled [] b = refl
  drain_settled (w ∷ ws) b = drain_settled ws (perform w ws b)

  drain-queue : (q : List (Write B)) (b : Background B) → b.queue ≡ q → (drain q b).queue ≡ []
  unfolding drain
  drain-queue [] b e = e
  drain-queue (w ∷ ws) b e = drain-queue ws (perform w ws b) refl

  settled-join : (b : Background B) → settled (join b) ≡ settled b
  unfolding settled join write_each
  settled-join b =
      ap (λ q. write_each q ((join b).db, (join b).broadcast)) (drain-queue b.queue b refl)
      ∙ drain_settled b.queue b

  settled-put :
      (w : Write B) (b : Background B) → settled (put w b) ≡ write_each (w ∷ []) (settled b)
  unfolding settled put
  settled-put w b = write_each-append b.queue (w ∷ []) (b.db, b.broadcast)

  Run-settled :
      {b c : Background B} {ws : List (Write B)}
      → Run b ws c
      → settled c ≡ write_each ws (settled b)
  unfolding write_each fetch_joined join
  Run-settled begun = refl
  Run-settled {b} (wrote {ws} {c} w r) =
      settled-put w c
      ∙ ap (write_each (w ∷ [])) (Run-settled r)
      ∙ sym (write_each-append ws (w ∷ []) (settled b))
  Run-settled (worked {c = c} r) = settled-work c ∙ Run-settled r
  Run-settled (fetched {c = c} k r) = settled-join c ∙ Run-settled r

  -- However the calls of the user and the rounds of the worker are interleaved, a fetch sees the
  -- database as if every write had been made at once and in order, and by then the events that were
  -- broadcast are those of these writes, in order.
  pub Run-fetch :
      (db : Db B) {ws : List (Write B)} {c : Background B} (k : B)
      → Run (wrap db) ws c
      → ((fetch_joined c k).0 ≡ fetch bytes (write_each ws (db, [])).0 k)
        × ((fetch_joined c k).1.broadcast ≡ (write_each ws (db, [])).1)
        × ((fetch_joined c k).1.queue ≡ [])
  unfolding fetch_joined wrap write_each settled
  Run-fetch db {ws} {c} k r =
      let e : ((join c).db, (join c).broadcast) ≡ write_each ws (db, []) =
        drain_settled c.queue c ∙ Run-settled r in
      (ap (λ s. fetch bytes s.0 k) e, ap (λ s. s.1) e, drain-queue c.queue c refl)

-- ===== src/Stores/Listening.antt =====
-- Change listeners of `ExampleDatabase` in database.py. The calls of `_start_listening` and
-- `_stop_listening` are recorded in order.
use hypothesis.Common.{
  ◌≡◌, refl, Bool, true, false, not, Option, none, some, List, [], ◌∷◌, ◌++◌, arith, if◌then◌else◌,
}
use hypothesis.Common.Keys.{KeyEquality, mem}

pub data Signal : Type 0 where
  start_listening stop_listening : Signal

pub record Listeners {ℓ} (L : Type ℓ) : Type ℓ where
  pub listeners : List L
  pub signals : List Signal

-- bool(self._listeners)
unfoldable pub is_some {ℓ} : {L : Type ℓ} → List L → Bool
is_some [] = false
is_some (x ∷ xs) = true

pub data Change {ℓ} (L : Type ℓ) : Type ℓ where
  add remove : L → Change L
  clear : Change L

-- Whether the database listens after these signals, or none if two of one kind followed one another.
unfoldable pub listening : Bool → List Signal → Option Bool
listening b [] = some b
listening false (start_listening ∷ ss) = listening true ss
listening true (stop_listening ∷ ss) = listening false ss
listening _ (s ∷ ss) = none

module _ {ℓ} {L : Type ℓ} (equality : KeyEquality L) where
  -- self._listeners.remove(f): the first one
  unfoldable pub remove_first : L → List L → List L
  remove_first f [] = []
  remove_first f (g ∷ gs) = let rest = remove_first f gs in if equality.eq f g then gs else g ∷ rest

  -- `add_listener`
  unfoldable pub add_listener : L → Listeners L → Listeners L
  unfolding is_some
  add_listener f s =
      let s' = record s { listeners = s.listeners ++ f ∷ [] } in
      if is_some s.listeners then s' else record s' { signals = s.signals ++ start_listening ∷ [] }

  -- `remove_listener`
  unfoldable pub remove_listener : L → Listeners L → Listeners L
  unfolding is_some remove_first
  remove_listener f s =
      let fs = remove_first f s.listeners in
      if not (mem equality f s.listeners)
      then s
      else if is_some fs
      then record s { listeners = fs }
      else record { listeners = fs; signals = s.signals ++ stop_listening ∷ [] }

  -- `clear_listeners`
  unfoldable pub clear_listeners : Listeners L → Listeners L
  unfolding is_some
  clear_listeners s =
      if is_some s.listeners
      then record { listeners = []; signals = s.signals ++ stop_listening ∷ [] }
      else record s { listeners = [] }

  unfoldable pub change : Change L → Listeners L → Listeners L
  unfolding add_listener remove_listener clear_listeners
  change (add f) s = add_listener f s
  change (remove f) s = remove_listener f s
  change clear s = clear_listeners s

  unfoldable pub change_each : List (Change L) → Listeners L → Listeners L
  unfolding change
  change_each [] s = s
  change_each (c ∷ cs) s = change_each cs (change c s)

  listening-append :
      (b c : Bool) (ss : List Signal) (s : Signal)
      → listening b ss ≡ some c
      → listening b (ss ++ s ∷ []) ≡ listening c (s ∷ [])
  unfolding listening
  listening-append false false [] s e = refl
  listening-append true true [] s e = refl
  listening-append false true [] s e = cc
  listening-append true false [] s e = cc
  listening-append false c (start_listening ∷ ss) s e = listening-append true c ss s e
  listening-append true c (stop_listening ∷ ss) s e = listening-append false c ss s e
  listening-append true c (start_listening ∷ ss) s e = cc
  listening-append false c (stop_listening ∷ ss) s e = cc

  -- The database has announced that it listens exactly if it has listeners.
  abbrev pub IsAnnounced : Listeners L → Type 0
  IsAnnounced s = listening false s.signals ≡ some (is_some s.listeners)

  is_some-append : (fs : List L) (f : L) → is_some (fs ++ f ∷ []) ≡ true
  unfolding is_some
  is_some-append [] f = refl
  is_some-append (g ∷ gs) f = refl

  is_some-mem : (f : L) (fs : List L) → mem equality f fs ≡ true → is_some fs ≡ true
  unfolding mem is_some
  is_some-mem f [] h = cc
  is_some-mem f (g ∷ gs) h = refl

  add_listener-IsAnnounced :
      (f : L) (s : Listeners L) → IsAnnounced s → IsAnnounced (add_listener f s)
  unfolding add_listener listening
  add_listener-IsAnnounced f s h = ground (
    arith,
    is_some-append s.listeners f,
    listening-append false (is_some s.listeners) s.signals start_listening h,
  )

  remove_listener-IsAnnounced :
      (f : L) (s : Listeners L) → IsAnnounced s → IsAnnounced (remove_listener f s)
  unfolding remove_listener listening
  remove_listener-IsAnnounced f s h = ground (
    arith,
    is_some-mem f s.listeners,
    listening-append false (is_some s.listeners) s.signals stop_listening h,
  )

  clear_listeners-IsAnnounced : (s : Listeners L) → IsAnnounced s → IsAnnounced (clear_listeners s)
  unfolding clear_listeners listening
  clear_listeners-IsAnnounced s h =
      ground (arith, listening-append false (is_some s.listeners) s.signals stop_listening h)

  change-IsAnnounced : (c : Change L) (s : Listeners L) → IsAnnounced s → IsAnnounced (change c s)
  unfolding change
  change-IsAnnounced (add f) s h = add_listener-IsAnnounced f s h
  change-IsAnnounced (remove f) s h = remove_listener-IsAnnounced f s h
  change-IsAnnounced clear s h = clear_listeners-IsAnnounced s h

  -- Whatever listeners are added and removed, `_start_listening` and `_stop_listening` are called in
  -- turn, the first one first, and the last call was a start exactly if there are listeners.
  pub change_each-IsAnnounced :
      (cs : List (Change L)) (s : Listeners L) → IsAnnounced s → IsAnnounced (change_each cs s)
  unfolding change_each
  change_each-IsAnnounced [] s h = h
  change_each-IsAnnounced (c ∷ cs) s h =
      change_each-IsAnnounced cs (change c s) (change-IsAnnounced c s h)

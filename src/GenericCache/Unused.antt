-- ===== src/GenericCache/Unused.antt =====
-- The scores of `LRUReusedCache` keep in step with the uses of the keys, and so which entry it removes: one that was not used again, or was used least recently.
use hypothesis.Common.{
  ℕ, ◌+◌, ◌-◌, ◌≤◌, ◌<◌, ◌≡◌, ◌⊎◌, refl, sym, ap, ◌∙◌, inl, inr, Bool, true, false, none, some,
  arith, ◌==◌, Bool-cases, Option-cases,
}
use hypothesis.Common.Keys.{KeyEquality}
use hypothesis.Common.Dict.{get}
use hypothesis.Common.Result.{ok, result_parts}
use hypothesis.GenericCache.{Entry, make, clear}
use hypothesis.GenericCache.Index.{contents}
use hypothesis.GenericCache.Operations.{set_item, get_item, unpin}
use hypothesis.GenericCache.Replace.{IsValid, IsChanged}
use hypothesis.GenericCache.Methods.{unpin_there, unpin_missing}
use hypothesis.GenericCache.Runs.{
  Call, store, pinning, read, unpinning, clearing, perform, Run-IsValid, ok_eq,
}
use hypothesis.GenericCache.Extra.{unpin-extra}
use hypothesis.GenericCache.Reused.{lru_reused, pair_less-IsWeakOrder, evicts-least}
use hypothesis.GenericCache.Usage.{
  Lru, Usage, class_of, usage_after, History, begun, called, raised, History-Run, IsRecorded,
  kept-IsRecorded, use-IsRecorded,
}
use hypothesis.GenericCache.Uses.{
  changed_there, changed_rest, set_item-IsUse, get_item-IsUse, pin-IsUse,
}

apart : (a b : Bool) (m n : ℕ) → m ≡ class_of a → n ≡ class_of b → m < n → (a ≡ false) × (b ≡ true)
apart a b m n p q h = ground arith

alike : (a b : Bool) (m n : ℕ) → m ≡ class_of a → n ≡ class_of b → m ≡ n → a ≡ b
alike a b m n p q h = ground arith

module _ {K V : Type 0} (keys : KeyEquality K) where
  -- What `unpin` leaves of an entry: its score.
  unpin_scores :
      (k i : K) (c c' : Lru K V) (g : Entry K V (ℕ × ℕ))
      → IsValid keys lru_reused pair_less-IsWeakOrder c
      → unpin keys lru_reused k c ≡ ok c'
      → contents keys lru_reused c' i ≡ some g
      → (f : Entry K V (ℕ × ℕ)) × (contents keys lru_reused c i ≡ some f) × (f.score ≡ g.score)
  unpin_scores k i c c' g v h at = elim (Option-cases (contents keys lru_reused c k)) [
    | inl new ↦
        let a = unpin_missing keys lru_reused pair_less-IsWeakOrder k c v.synced new in absurd cc
    | inr (e, there) ↦ elim (unpin_there keys lru_reused pair_less-IsWeakOrder k e c v there) [
      | inl (z, a) ↦ absurd cc
      | inr (p, (d, a, u, ch)) ↦
          let e' : Entry K V (ℕ × ℕ) = record e { pins = e.pins - 1 } in
          let ch' : IsChanged keys lru_reused pair_less-IsWeakOrder c c' k (some e') =
            rw (← ok_eq d c' (sym a ∙ h)) ch in
          elim (Bool-cases (keys.eq i k)) [
            | inl b ↦
                let same = (keys.eq_iff i k).0 b in
                let q : e' ≡ g = changed_there keys k e' g c c' ch' (rw (← same) at) in
                (e, rw same there, ap (λ f. f.score) q)
            | inr b ↦ (g, changed_rest keys k i (some e') g c c' ch' b at, refl)
          ]
    ]
  ]

  empty_contents : (c : Lru K V) (k : K) → contents keys lru_reused (clear c) k ≡ none
  unfolding contents clear get
  empty_contents c k = refl

  clear_extra : (c : Lru K V) → c.extra ≤ (clear c).extra
  unfolding clear
  clear_extra c = omega arith

  perform-IsRecorded :
      (call : Call K V) (t : ℕ) (u : Usage K) (c c' : Lru K V)
      → IsValid keys lru_reused pair_less-IsWeakOrder c
      → perform keys lru_reused call c ≡ ok c'
      → IsRecorded keys t u c
      → IsRecorded keys (t + 1) (usage_after keys call c (t + 1) u) c'
  unfolding perform usage_after
  perform-IsRecorded (store k w) t u c c' v h r =
      use-IsRecorded keys k t u c c' (set_item-IsUse keys k w c c' v h) r
  perform-IsRecorded (pinning k w) t u c c' v h r =
      use-IsRecorded keys k t u c c' (pin-IsUse keys k w c c' v h) r
  perform-IsRecorded (read k) t u c c' v h r =
      let (p, a, b) = result_parts (get_item keys lru_reused k c) _ h in
      let same = ok_eq p.1 c' b in
      rw (← same) (use-IsRecorded keys k t u c p.1 (get_item-IsUse keys k c p v a) r)
  perform-IsRecorded (unpinning k) t u c c' v h r =
      let x = unpin-extra keys lru_reused k c c' h in
      kept-IsRecorded keys t (t + 1) u c c' (omega arith) (omega arith)
        (λ i g at. unpin_scores k i c c' g v h at) r
  perform-IsRecorded clearing t u c c' v h r = rw (← ok_eq (clear c) c' h) (
      kept-IsRecorded keys t (t + 1) u c (clear c) (omega arith) (clear_extra c)
        (λ i g at. let z = empty_contents c i in absurd cc) r)

  new_contents :
      (n : ℕ) (c : Lru K V) (k : K) → make n 0 ≡ ok c → contents keys lru_reused c k ≡ none
  unfolding make contents get
  new_contents n c k h = elim (Bool-cases (n == 0)) [
    | inl z ↦ let q = rw z at h in absurd cc
    | inr z ↦ let q = rw z at h in cc
  ]

  new-IsRecorded : (n : ℕ) (c : Lru K V) → make n 0 ≡ ok c → IsRecorded keys 0 (λ _. (false, 0)) c
  new-IsRecorded n c h = record {
    class = λ i g at. let z = new_contents n c i h in absurd cc;
    ticked = λ i g at. let z = new_contents n c i h in absurd cc;
    counted = λ i. omega arith;
    in_order = λ i j f g at there l. omega arith;
  }

  same_entries :
      (c : Lru K V) (y : ℕ) (i : K) (g : Entry K V (ℕ × ℕ))
      → contents keys lru_reused (record c { extra = y }) i ≡ some g
      → contents keys lru_reused c i ≡ some g
  unfolding contents
  same_entries c y i g h = h

  History-IsRecorded :
      (n t : ℕ) (u : Usage K) (c : Lru K V) → History keys n t u c → IsRecorded keys t u c
  History-IsRecorded n t u c (begun d h) = new-IsRecorded n c h
  History-IsRecorded n t u c (called call d e s v r h) =
      perform-IsRecorded call s v d c
        (Run-IsValid keys lru_reused pair_less-IsWeakOrder n 0 d (History-Run keys n s v d r)).0 h
        (History-IsRecorded n s v d r)
  History-IsRecorded n t u c (raised call error d y s v r h l) =
      kept-IsRecorded keys s s v d (record d { extra = y }) (omega arith) l
        (λ i g at. (g, same_entries d y i g at, refl)) (History-IsRecorded n s v d r)

  -- After any calls of a new cache, take the entry of a key that a store removes, and any entry that was
  -- there. The removed one is not pinned; and the other one is pinned, or it alone was in the cache
  -- already when it was last used, or neither or both were, and the other one was not used before it.
  pub evicts_unused :
      (n t : ℕ) (u : Usage K) (k : K) (w : V) (c c' : Lru K V) (j i : K) (f g : Entry K V (ℕ × ℕ))
      → History keys n t u c
      → set_item keys lru_reused k w c ≡ ok c'
      → contents keys lru_reused c j ≡ some f
      → contents keys lru_reused c' j ≡ none
      → contents keys lru_reused c i ≡ some g
      → (f.pins ≡ 0)
        × ((0 < g.pins)
            ⊎ (((u j).0 ≡ false) × ((u i).0 ≡ true))
            ⊎ (((u j).0 ≡ (u i).0) × ((u j).1 ≤ (u i).1)))
  evicts_unused n t u k w c c' j i f g r h at gone there =
      let s = History-IsRecorded n t u c r in
      let (p, q) =
        evicts-least keys n k w c c' j i f g (History-Run keys n t u c r) h at gone there in
      (
        p,
        elim q [
          | inl a ↦ inl a
          | inr (inl a) ↦ inr (
              inl
                (apart (u j).0 (u i).0 f.score.0 g.score.0 (s.class j f at) (s.class i g there) a))
          | inr (inr (a, b)) ↦ inr (
              inr (
                alike (u j).0 (u i).0 f.score.0 g.score.0 (s.class j f at) (s.class i g there) a,
                s.in_order j i f g at there b,
              ))
        ],
      )

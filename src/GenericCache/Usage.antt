-- ===== src/GenericCache/Usage.antt =====
-- The policy of `LRUReusedCache`, in terms of the calls: which keys were used again, and when.
use hypothesis.Common.{
  ℕ, ◌+◌, ◌≤◌, ◌≡◌, inl, inr, Bool, true, false, some, arith, Bool-cases, if◌then◌else◌,
}
use hypothesis.Common.Keys.{KeyEquality}
use hypothesis.Common.Result.{Error, ok, raise}
use hypothesis.GenericCache.{Entry, Cache, make}
use hypothesis.GenericCache.Index.{contents}
use hypothesis.GenericCache.Operations.{contains}
use hypothesis.GenericCache.Runs.{
  Call, store, pinning, read, unpinning, clearing, perform, Run, ok_eq,
}
use hypothesis.GenericCache.Runs
use hypothesis.GenericCache.Reused.{lru_reused}

abbrev pub Lru : Type 0 → Type 0 → Type 0
Lru K V = Cache K V (ℕ × ℕ) ℕ

-- The last call that used a key, by its number, and whether the key was in the cache before it.
abbrev pub Usage : Type 0 → Type 0
Usage K = K → Bool × ℕ

-- The first component of a score.
abbrev pub class_of : Bool → ℕ
class_of reused = if reused then 2 else 1

module _ {K V : Type 0} (keys : KeyEquality K) where
  -- Call number `t` uses the key `k`.
  unfoldable pub used : K → Lru K V → ℕ → Usage K → Usage K
  used k c t u j = if keys.eq j k then (contains keys lru_reused k c, t) else u j

  unfoldable pub usage_after : Call K V → Lru K V → ℕ → Usage K → Usage K
  unfolding used
  usage_after (store k w) c t u = used k c t u
  usage_after (pinning k w) c t u = used k c t u
  usage_after (read k) c t u = used k c t u
  usage_after (unpinning k) c t u = u
  usage_after clearing c t u = u

  -- A new cache after some calls, with how many returned and the last uses of the keys. A call that
  -- raises advances the tick at most.
  pub data History (max_size : ℕ) : ℕ → Usage K → Lru K V → Type 0 where
    begun : (c : Lru K V) → make max_size 0 ≡ ok c → History max_size 0 (λ _. (false, 0)) c
    called :
        (call : Call K V) (c c' : Lru K V) (t : ℕ) (u : Usage K)
        → History max_size t u c
        → perform keys lru_reused call c ≡ ok c'
        → History max_size (t + 1) (usage_after call c (t + 1) u) c'
    raised :
        (call : Call K V) (error : Error) (c : Lru K V) (y t : ℕ) (u : Usage K)
        → History max_size t u c
        → perform keys lru_reused call c ≡ raise error
        → c.extra ≤ y
        → History max_size t u (record c { extra = y })

  pub History-Run :
      (n t : ℕ) (u : Usage K) (c : Lru K V) → History n t u c → Run keys lru_reused n 0 c
  History-Run n t u c (begun d h) = Runs.start d h
  History-Run n t u c (called call d e s v r h) = Runs.next call d e (History-Run n s v d r) h
  History-Run n t u c (raised call error d y s v r h l) =
      Runs.failed call error d y (History-Run n s v d r) h

  -- The scores say which keys were used again, and order the keys as their last uses do.
  pub record IsRecorded (t : ℕ) (u : Usage K) (c : Lru K V) : Type 0 where
    pub class :
        (i : K) (g : Entry K V (ℕ × ℕ))
        → contents keys lru_reused c i ≡ some g
        → g.score.0 ≡ class_of (u i).0
    pub ticked :
        (i : K) (g : Entry K V (ℕ × ℕ))
        → contents keys lru_reused c i ≡ some g
        → g.score.1 ≤ c.extra
    pub counted : (i : K) → (u i).1 ≤ t
    pub in_order :
        (i j : K) (f g : Entry K V (ℕ × ℕ))
        → contents keys lru_reused c i ≡ some f
        → contents keys lru_reused c j ≡ some g
        → f.score.1 ≤ g.score.1
        → (u i).1 ≤ (u j).1

  -- Entries go or keep their scores.
  pub kept-IsRecorded :
      (t t' : ℕ) (u : Usage K) (c c' : Lru K V)
      → t ≤ t'
      → c.extra ≤ c'.extra
      → ((i : K) (g : Entry K V (ℕ × ℕ))
          → contents keys lru_reused c' i ≡ some g
          → (f : Entry K V (ℕ × ℕ)) × (contents keys lru_reused c i ≡ some f) × (f.score ≡ g.score))
      → IsRecorded t u c
      → IsRecorded t' u c'
  kept-IsRecorded t t' u c c' l x k r = record {
    class = λ i g h. let (f, e, s) = k i g h in let a = r.class i f e in cc;
    ticked = λ i g h.
        let (f, e, s) = k i g h in
        let a = r.ticked i f e in let s1 : f.score.1 ≡ g.score.1 = cc in omega arith;
    counted = λ i. let a = r.counted i in omega arith;
    in_order = λ i j f g h m b.
        let (f', e, s) = k i f h in
        let (g', d, q) = k j g m in
        let s1 : f'.score.1 ≡ f.score.1 = cc in
        let q1 : g'.score.1 ≡ g.score.1 = cc in r.in_order i j f' g' e d (omega arith);
  }

  -- The key was used: its entry has the next tick, and the others stay as they are or go.
  pub record IsUse (k : K) (c c' : Lru K V) : Type 0 where
    pub extra : c'.extra ≡ c.extra + 1
    pub score :
        (g : Entry K V (ℕ × ℕ))
        → contents keys lru_reused c' k ≡ some g
        → (g.score.0 ≡ class_of (contains keys lru_reused k c)) × (g.score.1 ≡ c.extra + 1)
    pub rest :
        (j : K) (g : Entry K V (ℕ × ℕ))
        → keys.eq j k ≡ false
        → contents keys lru_reused c' j ≡ some g
        → contents keys lru_reused c j ≡ some g

  same_key :
      (j k : K) (g : Entry K V (ℕ × ℕ)) (c : Lru K V)
      → keys.eq j k ≡ true
      → contents keys lru_reused c j ≡ some g
      → contents keys lru_reused c k ≡ some g
  same_key j k g c e h = let q = (keys.eq_iff j k).0 e in rw (← q) h

  pub use-IsRecorded :
      (k : K) (t : ℕ) (u : Usage K) (c c' : Lru K V)
      → IsUse k c c'
      → IsRecorded t u c
      → IsRecorded (t + 1) (used k c (t + 1) u) c'
  unfolding used
  use-IsRecorded k t u c c' s r =
      let x = s.extra in
      record {
        class = λ i g h. elim (Bool-cases (keys.eq i k)) [
          | inl e ↦ rw e (s.score g (same_key i k g c' e h)).0
          | inr e ↦ rw e (r.class i g (s.rest i g e h))
        ];
        ticked = λ i g h. elim (Bool-cases (keys.eq i k)) [
          | inl e ↦ let a = (s.score g (same_key i k g c' e h)).1 in omega arith
          | inr e ↦ let a = r.ticked i g (s.rest i g e h) in omega arith
        ];
        counted = λ i.
            let a = r.counted i in
            elim (Bool-cases (keys.eq i k)) [
              | inl e ↦ rw e (omega arith)
              | inr e ↦ rw e (omega arith)
            ];
        in_order = λ i j f g h m b. elim (Bool-cases (keys.eq j k)) [
          | inl d ↦ rw d (elim (Bool-cases (keys.eq i k)) [
            | inl e ↦ rw e (omega arith)
            | inr e ↦ let a = r.counted i in rw e (omega arith)
          ])
          | inr d ↦ elim (Bool-cases (keys.eq i k)) [
            | inl e ↦
                let a = (s.score f (same_key i k f c' e h)).1 in
                let z = r.ticked j g (s.rest j g d m) in absurd (omega arith)
            | inr e ↦ rw (d, e) (r.in_order i j f g (s.rest i f e h) (s.rest j g d m) b)
          ]
        ];
      }

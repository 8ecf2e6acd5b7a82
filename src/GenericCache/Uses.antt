-- ===== src/GenericCache/Uses.antt =====
-- What the methods of `LRUReusedCache` that use a key do to its entry and to the others.
use hypothesis.Common.{
  ℕ, ◌+◌, ◌≡◌, refl, sym, ◌∙◌, inl, inr, Bool, true, false, Option, none, some, arith, Bool-cases,
  Option-cases,
}
use hypothesis.Common.Keys.{KeyEquality, eq_refl}
use hypothesis.Common.Result.{Result, ok}
use hypothesis.GenericCache.{Entry}
use hypothesis.GenericCache.Index.{contents}
use hypothesis.GenericCache.Operations.{contains, set_item, get_item, pin}
use hypothesis.GenericCache.Replace.{IsValid, IsChanged}
use hypothesis.GenericCache.Access.{locate}
use hypothesis.GenericCache.Methods.{
  index_missing, accessed, get_item_there, get_item_missing, set_item_there,
}
use hypothesis.GenericCache.Insert.{Outcome, stored, evicted, refused}
use hypothesis.GenericCache.Store.{
  fresh, set_item_new, IsStored, held, no_room, set_item-IsStored, pin_counts,
}
use hypothesis.GenericCache.Runs.{ok_eq}
use hypothesis.GenericCache.Extra.{get_item-extra, set_item-extra, pin-extra}
use hypothesis.GenericCache.Reused.{lru_reused, pair_same, pair_less-IsWeakOrder}
use hypothesis.GenericCache.Usage.{Lru, class_of, IsUse}

module _ {K V : Type 0} (keys : KeyEquality K) where
  held_contains :
      (k : K) (e : Entry K V (ℕ × ℕ)) (c : Lru K V)
      → IsValid keys lru_reused pair_less-IsWeakOrder c
      → contents keys lru_reused c k ≡ some e
      → contains keys lru_reused k c ≡ true
  unfolding contains
  held_contains k e c v h =
      let (i, g, at_i, q) = locate keys lru_reused pair_less-IsWeakOrder c k e v.synced h in
      rw (g, contains) refl

  missing_contains :
      (k : K) (c : Lru K V)
      → IsValid keys lru_reused pair_less-IsWeakOrder c
      → contents keys lru_reused c k ≡ none
      → contains keys lru_reused k c ≡ false
  unfolding contains
  missing_contains k c v h =
      rw (index_missing keys lru_reused pair_less-IsWeakOrder k c v.synced h, contains) refl

  accessed_score :
      (e : Entry K V (ℕ × ℕ)) (t : ℕ)
      → ((accessed keys lru_reused pair_less-IsWeakOrder e t).score.0 ≡ 2)
        × ((accessed keys lru_reused pair_less-IsWeakOrder e t).score.1 ≡ t + 1)
  unfolding accessed pair_same
  accessed_score e t = ground arith

  -- What a changed entry has to do with the others.
  pub changed_rest :
      (k j : K) (o : Option (Entry K V (ℕ × ℕ))) (g : Entry K V (ℕ × ℕ)) (c c' : Lru K V)
      → IsChanged keys lru_reused pair_less-IsWeakOrder c c' k o
      → keys.eq j k ≡ false
      → contents keys lru_reused c' j ≡ some g
      → contents keys lru_reused c j ≡ some g
  changed_rest k j o g c c' ch e h = let z = ch.changed j in let y = rw e at z in sym y ∙ h

  pub changed_there :
      (k : K) (e g : Entry K V (ℕ × ℕ)) (c c' : Lru K V)
      → IsChanged keys lru_reused pair_less-IsWeakOrder c c' k (some e)
      → contents keys lru_reused c' k ≡ some g
      → e ≡ g
  changed_there k e g c c' ch h = let z = ch.changed k in let y = rw (eq_refl keys k) at z in cc

  changed-IsUse :
      (k : K) (e : Entry K V (ℕ × ℕ)) (b : Bool) (c c' : Lru K V)
      → IsChanged keys lru_reused pair_less-IsWeakOrder c c' k (some e)
      → contains keys lru_reused k c ≡ b
      → (e.score.0 ≡ class_of b) × (e.score.1 ≡ c.extra + 1)
      → c'.extra ≡ c.extra + 1
      → IsUse keys k c c'
  changed-IsUse k e b c c' ch there s x = record {
    extra = x;
    score = λ g h. let q = changed_there k e g c c' ch h in rw (← q, there) s;
    rest = λ j g d h. changed_rest k j (some e) g c c' ch d h;
  }

  replaced-IsUse :
      (k : K) (w : V) (c c' : Lru K V) (r : Result (Lru K V))
      → contains keys lru_reused k c ≡ false
      → Outcome keys lru_reused pair_less-IsWeakOrder c
          (fresh keys lru_reused pair_less-IsWeakOrder k w c.extra)
          r
      → r ≡ ok c'
      → c'.extra ≡ c.extra + 1
      → IsUse keys k c c'
  replaced-IsUse k w c c' r new (stored d room v ch) h x =
      changed-IsUse k (fresh keys lru_reused pair_less-IsWeakOrder k w c.extra) false c c'
        (rw (← ok_eq d c' h) ch) new (refl, refl) x
  replaced-IsUse k w c c' r new (evicted f d full p l v ch) h x =
      let same = ok_eq d c' h in
      record {
        extra = x;
        score = λ g at.
            let z = ch.exchanged k in
            let y = rw (eq_refl keys k) at z in
            let q : fresh keys lru_reused pair_less-IsWeakOrder k w c.extra ≡ g = cc in
            rw (← q, new) (refl, refl);
        rest = λ j g e at.
            let z = ch.exchanged j in
            let y = rw e at z in
            elim (Bool-cases (keys.eq j f.key)) [
              | inl a ↦ let u = rw a at y in absurd cc
              | inr a ↦ let u = rw a at y in cc
            ];
      }
  replaced-IsUse k w c c' r new (refused full p) h x = absurd cc

  pub set_item-IsUse :
      (k : K) (w : V) (c c' : Lru K V)
      → IsValid keys lru_reused pair_less-IsWeakOrder c
      → set_item keys lru_reused k w c ≡ ok c'
      → IsUse keys k c c'
  set_item-IsUse k w c c' v h =
      let x : c'.extra ≡ c.extra + 1 =
        elim (set_item-extra keys lru_reused (λ a b s t. refl) k w c c' h) [
          | inl a ↦ a
          | inr (e, a) ↦ a
        ] in
      elim (Option-cases (contents keys lru_reused c k)) [
        | inl new ↦
            replaced-IsUse k w c c' (set_item keys lru_reused k w c) (missing_contains k c v new)
              (set_item_new keys lru_reused pair_less-IsWeakOrder k w c v new) h x
        | inr (e, there) ↦
            let (d, g, u, ch) =
              set_item_there keys lru_reused pair_less-IsWeakOrder k w e c v there in
            changed-IsUse k
              (accessed keys lru_reused pair_less-IsWeakOrder (record e { value = w }) c.extra) true
              c c' (rw (← ok_eq d c' (sym g ∙ h)) ch) (held_contains k e c v there)
              (accessed_score (record e { value = w }) c.extra) x
      ]

  pub get_item-IsUse :
      (k : K) (c : Lru K V) (r : V × Lru K V)
      → IsValid keys lru_reused pair_less-IsWeakOrder c
      → get_item keys lru_reused k c ≡ ok r
      → IsUse keys k c r.1
  get_item-IsUse k c r v h = elim (Option-cases (contents keys lru_reused c k)) [
    | inl new ↦
        let a = get_item_missing keys lru_reused pair_less-IsWeakOrder k c v.synced new in absurd cc
    | inr (e, there) ↦
        let (d, g, u, ch) = get_item_there keys lru_reused pair_less-IsWeakOrder k e c v there in
        let (f, x) = get_item-extra keys lru_reused k c r h in
        let same : d ≡ r.1 = cc in
        changed-IsUse k (accessed keys lru_reused pair_less-IsWeakOrder e c.extra) true c r.1
          (rw (← same) ch) (held_contains k e c v there) (accessed_score e c.extra) x
  ]

  -- The pins of an entry do not matter to its score.
  pinned-IsUse :
      (k : K) (e : Entry K V (ℕ × ℕ)) (c d c' : Lru K V)
      → IsUse keys k c d
      → contents keys lru_reused d k ≡ some e
      → IsChanged keys lru_reused pair_less-IsWeakOrder d c' k
          (some (record e { pins = e.pins + 1 }))
      → c'.extra ≡ d.extra
      → IsUse keys k c c'
  pinned-IsUse k e c d c' s at ch x = record {
    extra = x ∙ s.extra;
    score = λ g h.
        let q = changed_there k (record e { pins = e.pins + 1 }) g d c' ch h in
        rw (← q) (s.score e at);
    rest = λ j g n h. s.rest j g n (changed_rest k j _ g d c' ch n h);
  }

  pin_rest-IsUse :
      (k : K) (w : V) (c d c' : Lru K V) (r : Result (Lru K V))
      → IsStored keys lru_reused pair_less-IsWeakOrder c k w r
      → r ≡ ok d
      → set_item keys lru_reused k w c ≡ ok d
      → IsUse keys k c d
      → pin keys lru_reused k w c ≡ ok c'
      → c'.extra ≡ d.extra
      → IsUse keys k c c'
  pin_rest-IsUse k w c d c' r (held e d' v at q m) h a s p x =
      let same = ok_eq d' d h in
      let (c1, g, u, ch) =
        pin_counts keys lru_reused pair_less-IsWeakOrder c d k w e a (rw (← same) v)
          (rw (← same) at) in
      pinned-IsUse k e c d c' s (rw (← same) at) (rw (← ok_eq c1 c' (sym g ∙ p)) ch) x
  pin_rest-IsUse k w c d c' r (no_room f n l) h a s p x = absurd cc

  pub pin-IsUse :
      (k : K) (w : V) (c c' : Lru K V)
      → IsValid keys lru_reused pair_less-IsWeakOrder c
      → pin keys lru_reused k w c ≡ ok c'
      → IsUse keys k c c'
  pin-IsUse k w c c' v h =
      let (d, a, x) = pin-extra keys lru_reused (λ a b s t. refl) k w c c' h in
      pin_rest-IsUse k w c d c' (set_item keys lru_reused k w c)
        (set_item-IsStored keys lru_reused pair_less-IsWeakOrder k w c v) a a
        (set_item-IsUse k w c d v a) h x

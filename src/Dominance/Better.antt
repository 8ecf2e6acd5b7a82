-- ===== src/Dominance/Better.antt =====
-- That `dominance` is being better in every way, and transitive.
use hypothesis.Common.{
  ◌≤◌, ◌≡◌, ◌↔◌, refl, ap, ◌∙◌, inl, inr, true, false, Option, none, some, List, [], ◌∷◌, ◌++◌,
  arith, Bool-cases,
}
use hypothesis.Common.Keys.{KeyEquality, eq_refl, mem, mem-append}
use hypothesis.Common.Result.{ok}
use hypothesis.Dominance.{
  DominanceRelation, Status, rank, Scores, ConjectureResult, key_less, is_subset, differs,
  is_interesting, score, targets, exceeded, against_larger, dominance,
}
use hypothesis.Dominance.Order.{key_less_trans, key_cases}
use hypothesis.Dominance.Laws.{
  against_cases, dominance_smaller, dominance_larger, dominance-equal, flip,
}

rank_top : (s t : Status) → s ≡ Status.interesting → rank s ≤ rank t → t ≡ Status.interesting
unfolding rank
rank_top s t e h = ground arith

module _ {ℓ} {T O K S : Type ℓ} (tag : KeyEquality T) (origin : KeyEquality O)
    (target : KeyEquality K) (scores : Scores S) where
  -- Better in every way: a smaller key, no lower status, all tags, no other origin, no lower score.
  pub record IsBetter (l r : ConjectureResult T O K S) : Type ℓ where
    pub smaller : key_less l.indices r.indices ≡ true
    pub status : rank r.status ≤ rank l.status
    pub tags : (x : T) → mem tag x r.tags ≡ true → mem tag x l.tags ≡ true
    pub same_origin :
        (o : O)
        → l.status ≡ Status.interesting
        → r.interesting_origin ≡ some o
        → l.interesting_origin ≡ some o
    pub no_lower :
        (k : K)
        → scores.above
            (score tag origin target scores k r.target_observations)
            (score tag origin target scores k l.target_observations)
          ≡ false

  subset_iff :
      (l r : List T)
      → (is_subset tag origin target scores l r ≡ true)
        ↔ ((x : T) → mem tag x l ≡ true → mem tag x r ≡ true)
  unfolding is_subset mem
  subset_iff [] r = (λ _ x e. cc, λ _. refl)
  subset_iff (y ∷ l) r =
      let i = subset_iff l r in
      (
        λ h x e. elim (Bool-cases (tag.eq x y)) [
          | inl q ↦ let q' = (tag.eq_iff x y).0 q in rw q' (ground arith)
          | inr q ↦ i.0 (ground arith) x (ground arith)
        ],
        λ h.
            let a = h y (let q = eq_refl tag y in ground arith) in
            let b = i.1 (λ x e. h x (ground arith)) in ground arith,
      )

  exceeded_none :
      (ks : List K) (l r : List (K × S))
      → exceeded tag origin target scores ks l r ≡ false
      → (k : K) → mem target k ks ≡ true
      → scores.above (score tag origin target scores k r) (score tag origin target scores k l)
        ≡ false
  unfolding exceeded mem
  exceeded_none [] l r h k e = cc
  exceeded_none (j ∷ ks) l r h k e = elim (Bool-cases (target.eq k j)) [
    | inl q ↦ let q' = (target.eq_iff k j).0 q in rw q' (ground arith)
    | inr q ↦ exceeded_none ks l r (ground arith) k (ground arith)
  ]

  none_exceeded :
      (ks : List K) (l r : List (K × S))
      → ((k : K)
          → scores.above (score tag origin target scores k r) (score tag origin target scores k l)
            ≡ false)
      → exceeded tag origin target scores ks l r ≡ false
  unfolding exceeded
  none_exceeded [] l r h = refl
  none_exceeded (j ∷ ks) l r h = let a = h j in let b = none_exceeded ks l r h in ground arith

  score_missing :
      (k : K) (l : List (K × S))
      → mem target k (targets tag origin target scores l) ≡ false
      → score tag origin target scores k l ≡ scores.no_score
  unfolding score targets mem
  score_missing k [] h = refl
  score_missing k ((j, s) ∷ l) h = let i = score_missing k l in ground arith

  differs_iff :
      (p q : Option O)
      → (differs tag origin target scores p q ≡ false) ↔ ((o : O) → q ≡ some o → p ≡ some o)
  unfolding differs
  differs_iff p none = (λ _ o e. cc, λ _. refl)
  differs_iff none (some o) = (λ e. cc, λ h. let a = h o refl in cc)
  differs_iff (some p) (some o) =
      let i = origin.eq_iff p o in
      (
        λ e o' q. let same = i.0 (ground arith) in cc,
        λ h. let a = h o refl in let same : p ≡ o = cc in let t = i.1 same in ground arith,
      )

  interesting_iff :
      (s : Status) → (is_interesting tag origin target scores s ≡ true) ↔ (s ≡ Status.interesting)
  unfolding is_interesting
  interesting_iff s = ground arith

  module _ (none_above : scores.above scores.no_score scores.no_score ≡ false) where
    against-IsBetter :
        (l r : ConjectureResult T O K S)
        → key_less l.indices r.indices ≡ true
        → against_larger tag origin target scores l r ≡ DominanceRelation.left_dominates
        → IsBetter l r
    unfolding against_larger
    against-IsBetter l r h e =
        let ls = l.target_observations in
        let rs = r.target_observations in
        let ks = targets tag origin target scores ls ++ targets tag origin target scores rs in
        let d : exceeded tag origin target scores ks ls rs ≡ false = ground arith in
        record {
          smaller = h;
          status = ground arith;
          tags = (subset_iff r.tags l.tags).0 (ground arith);
          same_origin = λ o i q.
              let t = (interesting_iff l.status).1 i in
              (differs_iff l.interesting_origin r.interesting_origin).0 (ground arith) o q;
          no_lower = λ k. elim (Bool-cases (mem target k ks)) [
            | inl m ↦ exceeded_none ks ls rs d k m
            | inr m ↦
                let split =
                  mem-append target k (targets tag origin target scores ls)
                    (targets tag origin target scores rs) in
                let a = score_missing k ls (ground arith) in
                let b = score_missing k rs (ground arith) in rw (a, b) none_above
          ];
        }

    IsBetter-against :
        (l r : ConjectureResult T O K S)
        → IsBetter l r
        → against_larger tag origin target scores l r ≡ DominanceRelation.left_dominates
    unfolding against_larger
    IsBetter-against l r h =
        let s = h.status in
        let t = (subset_iff r.tags l.tags).1 h.tags in
        let e =
          none_exceeded
            (targets tag origin target scores l.target_observations
              ++ targets tag origin target scores r.target_observations)
            l.target_observations r.target_observations h.no_lower in
        elim (Bool-cases (is_interesting tag origin target scores l.status)) [
          | inl i ↦
              let d =
                (differs_iff l.interesting_origin r.interesting_origin).1
                  (λ o q. h.same_origin o ((interesting_iff l.status).0 i) q) in
              ground arith
          | inr i ↦ ground arith
        ]

    -- Where no score is above the score of what was not observed by itself: the left result dominates
    -- exactly if it is smaller, of no lower status, has all tags of the right one, has no other origin
    -- where the right one is interesting, and has no lower score for any target.
    pub dominance-IsBetter :
        (l r : ConjectureResult T O K S)
        → (dominance tag origin target scores l r ≡ ok DominanceRelation.left_dominates)
          ↔ IsBetter l r
    unfolding flip
    dominance-IsBetter l r = (
      λ e. elim (key_cases l.indices r.indices) [
        | inl (q, _, _) ↦ let d = dominance-equal tag origin target scores l r q in cc
        | inr (inl (_, q, _)) ↦
            let d = dominance_smaller tag origin target scores l r q in
            against-IsBetter l r q (ground arith)
        | inr (inr (_, _, q)) ↦
            let d = dominance_larger tag origin target scores l r q in
            elim (against_cases tag origin target scores r l) [
              | inl a ↦ let d' = rw a at d in cc
              | inr a ↦ let d' = rw a at d in cc
            ]
      ],
      λ h.
          dominance_smaller tag origin target scores l r h.smaller ∙ ap ok (IsBetter-against l r h),
    )

    -- Where comparisons of scores are negatively transitive, and only interesting results have an
    -- origin: dominance is transitive.
    pub dominance_trans :
        (negative : (a b c : S)
          → scores.above b a ≡ false
          → scores.above c b ≡ false
          → scores.above c a ≡ false)
        (a b c : ConjectureResult T O K S)
        (origins : (o : O) → c.interesting_origin ≡ some o → c.status ≡ Status.interesting)
        → dominance tag origin target scores a b ≡ ok DominanceRelation.left_dominates
        → dominance tag origin target scores b c ≡ ok DominanceRelation.left_dominates
        → dominance tag origin target scores a c ≡ ok DominanceRelation.left_dominates
    unfolding rank
    dominance_trans negative a b c origins h k =
        let i = (dominance-IsBetter a b).0 h in
        let j = (dominance-IsBetter b c).0 k in
        let s = i.status in
        let t = j.status in
        (dominance-IsBetter a c).1 (record {
          smaller = key_less_trans a.indices b.indices c.indices i.smaller j.smaller;
          status = omega arith;
          tags = λ x m. i.tags x (j.tags x m);
          same_origin = λ o e q.
              let e' = origins o q in
              let e'' : b.status ≡ Status.interesting = rank_top c.status b.status e' t in
              i.same_origin o e (j.same_origin o e'' q);
          no_lower = λ x.
              negative (score tag origin target scores x a.target_observations)
                (score tag origin target scores x b.target_observations)
                (score tag origin target scores x c.target_observations) (i.no_lower x)
                (j.no_lower x);
        })

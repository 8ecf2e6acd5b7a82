-- ===== src/Replacing/Backwards.antt =====
-- `replace_all` makes the replacements one by one, from the last to the first.
use hypothesis.Common.{
  ℕ, zero, suc, ◌+◌, ◌-◌, ◌≤◌, ◌≡◌, refl, sym, ap, ◌∙◌, true, List, [], ◌∷◌, ◌++◌, append_assoc,
  arith, length, take, drop, length-append, length-take, length-drop,
}
use hypothesis.Common.Int.{ℤ, pos, negsuc, ◌+ℤ◌, ◌-ℤ◌, eq_ℤ}
use hypothesis.Common.Result.{ok}
use hypothesis.Replacing.{slice, replace_loop, replace_all}

module _ {ℓ} {A : Type ℓ} where
  take-append_short : (n : ℕ) (xs ys : List A) → n ≤ length xs → take n (xs ++ ys) ≡ take n xs
  take-append_short zero xs ys h = refl
  take-append_short (suc n) [] ys h = absurd (omega arith)
  take-append_short (suc n) (x ∷ xs) ys h = ap (◌∷◌ x) (take-append_short n xs ys (omega arith))

  drop-append_short : (n : ℕ) (xs ys : List A) → n ≤ length xs → drop n (xs ++ ys) ≡ drop n xs ++ ys
  drop-append_short zero xs ys h = refl
  drop-append_short (suc n) [] ys h = absurd (omega arith)
  drop-append_short (suc n) (x ∷ xs) ys h = drop-append_short n xs ys (omega arith)

  take_nil : (n : ℕ) → take {A = A} n [] ≡ []
  take_nil zero = refl
  take_nil (suc n) = refl

  drop-take : (n k : ℕ) (xs : List A) → drop n (take (n + k) xs) ≡ take k (drop n xs)
  drop-take zero k xs = ap (λ m. take m xs) (omega arith)
  drop-take (suc n) k [] = ap (drop (suc n)) (take_nil (suc n + k)) ∙ sym (take_nil k)
  drop-take (suc n) k (x ∷ xs) =
      let e : suc n + k ≡ suc (n + k) = omega arith in
      ap (λ m. drop (suc n) (take m (x ∷ xs))) e ∙ drop-take n k xs

  take-take : (n m : ℕ) (xs : List A) → n ≤ m → take n (take m xs) ≡ take n xs
  take-take zero m xs h = refl
  take-take (suc n) zero xs h = absurd (omega arith)
  take-take (suc n) (suc m) [] h = refl
  take-take (suc n) (suc m) (x ∷ xs) h = ap (◌∷◌ x) (take-take n m xs (omega arith))

  module _ (ls : List A) where
    -- The replacements are in order, from `prev` on, and within the list.
    abbrev pub AreInOrder : ℕ → List (ℕ × ℕ × List A) → Type 0
    AreInOrder prev [] = prev ≤ length ls
    AreInOrder prev ((u, v, r) ∷ replacements) = (prev ≤ u) × (u ≤ v) × AreInOrder v replacements

    -- ls[u:v] = r for each of the replacements, the last one first
    pub substituted : List (ℕ × ℕ × List A) → List A
    substituted [] = ls
    substituted ((u, v, r) ∷ replacements) =
        let rest = substituted replacements in take u rest ++ (r ++ drop v rest)

    pieces : ℕ → List (ℕ × ℕ × List A) → List A
    pieces prev [] = drop prev ls
    pieces prev ((u, v, r) ∷ replacements) = slice prev u ls ++ (r ++ pieces v replacements)

    in_order_bound : (p : ℕ) (rs : List (ℕ × ℕ × List A)) → AreInOrder p rs → p ≤ length ls
    in_order_bound p [] h = h
    in_order_bound p ((u, v, r) ∷ rs) (a, b, h) = let l = in_order_bound v rs h in omega arith

    offset_step :
        (size prev u v l : ℕ) (offset : ℤ)
        → prev ≤ u
        → u ≤ v
        → pos size ≡ pos prev +ℤ offset
        → pos (size + (u - prev) + l) ≡ pos v +ℤ (offset +ℤ (pos l -ℤ (pos v -ℤ pos u)))
    unfolding ◌+ℤ◌ ◌-ℤ◌
    offset_step size prev u v l (pos o) a b h = ground arith
    offset_step size prev u v l (negsuc o) a b h = ground arith

    final_length :
        (size prev n : ℕ) (offset : ℤ)
        → prev ≤ n
        → pos size ≡ pos prev +ℤ offset
        → eq_ℤ (pos (size + (n - prev))) (pos n +ℤ offset) ≡ true
    unfolding ◌+ℤ◌
    final_length size prev n (pos o) a h = ground arith
    final_length size prev n (negsuc o) a h = ground arith

    replace_loop-pieces :
        (result : List A) (prev : ℕ) (offset : ℤ) (rs : List (ℕ × ℕ × List A))
        → AreInOrder prev rs
        → pos (length result) ≡ pos prev +ℤ offset
        → replace_loop ls result prev offset rs ≡ ok (result ++ pieces prev rs)
    unfolding replace_loop pieces slice
    replace_loop-pieces result prev offset [] h e =
        let whole =
          length-append result (drop prev ls) ∙ ap (λ n. length result + n) (length-drop prev ls) in
        let t = final_length (length result) prev (length ls) offset h e in
        let same : eq_ℤ (pos (length (result ++ drop prev ls))) (pos (length ls) +ℤ offset) ≡ true =
          rw whole t in
        rw same refl
    replace_loop-pieces result prev offset ((u, v, r) ∷ rs) (a, b, h) e =
        let l = in_order_bound v rs h in
        let piece = take (u - prev) (drop prev ls) in
        let size : length piece ≡ u - prev =
          omega (arith, length-take (u - prev) (drop prev ls), length-drop prev ls) in
        let longer : length ((result ++ piece) ++ r) ≡ length result + (u - prev) + length r =
          omega (arith, length-append (result ++ piece) r, length-append result piece) in
        let e' = ap pos longer ∙ offset_step (length result) prev u v (length r) offset a b e in
        replace_loop-pieces ((result ++ piece) ++ r) v
          (offset +ℤ (pos (length r) -ℤ (pos v -ℤ pos u))) rs h e'
        ∙ ap ok (
            append_assoc (result ++ piece) r (pieces v rs)
            ∙ append_assoc result piece (r ++ pieces v rs))

    take-substituted :
        (p : ℕ) (rs : List (ℕ × ℕ × List A)) → AreInOrder p rs → take p (substituted rs) ≡ take p ls
    unfolding substituted
    take-substituted p [] h = refl
    take-substituted p ((u, v, r) ∷ rs) (a, b, h) =
        let l = in_order_bound v rs h in
        let start = take-take u v ls b in
        let kept : take u (substituted rs) ≡ take u ls =
          sym (take-take u v (substituted rs) b) ∙ ap (take u) (take-substituted v rs h) ∙ start in
        take-append_short p (take u (substituted rs)) (r ++ drop v (substituted rs))
          (rw kept (omega (arith, length-take u ls)))
        ∙ ap (take p) kept
        ∙ take-take p u ls a

    drop-substituted :
        (p : ℕ) (rs : List (ℕ × ℕ × List A))
        → AreInOrder p rs
        → drop p (substituted rs) ≡ pieces p rs
    unfolding substituted pieces slice
    drop-substituted p [] h = refl
    drop-substituted p ((u, v, r) ∷ rs) (a, b, h) =
        let l = in_order_bound v rs h in
        let kept : take u (substituted rs) ≡ take u ls =
          sym (take-take u v (substituted rs) b)
          ∙ ap (take u) (take-substituted v rs h)
          ∙ take-take u v ls b in
        let parts : p + (u - p) ≡ u = omega arith in
        drop-append_short p (take u (substituted rs)) (r ++ drop v (substituted rs))
          (rw kept (omega (arith, length-take u ls)))
        ∙ rw (kept, drop-substituted v rs h)
            (ap (λ n. drop p (take n ls) ++ (r ++ pieces v rs)) (sym parts)
              ∙ ap (λ t. t ++ (r ++ pieces v rs)) (drop-take p (u - p) ls))

    -- For replacements in order and within the list, `replace_all` returns, its assertion holds, and the
    -- result is that of the slice assignments ls[u:v] = r made one by one, from the last to the first.
    pub replace_all-substituted :
        (rs : List (ℕ × ℕ × List A)) → AreInOrder 0 rs → replace_all ls rs ≡ ok (substituted rs)
    unfolding replace_all ◌+ℤ◌
    replace_all-substituted rs h =
        replace_loop-pieces [] 0 (pos 0) rs h refl ∙ ap ok (sym (drop-substituted 0 rs h))

-- ===== src/Replacing.antt =====
-- `replace_all` of internal/conjecture/junkdrawer.py.
pub mod Backwards
pub mod Examples
use hypothesis.Common.{ℕ, ◌-◌, List, [], ◌∷◌, ◌++◌, length, take, drop}
use hypothesis.Common.Int.{ℤ, pos, ◌+ℤ◌, ◌-ℤ◌, eq_ℤ}
use hypothesis.Common.Result.{Result, ok, ◌>>=◌, ◌>>◌, check}

-- ls[start:end], for indices that are not negative
unfoldable pub slice {ℓ} : {A : Type ℓ} → ℕ → ℕ → List A → List A
slice start end ls = take (end - start) (drop start ls)

module _ {ℓ} {A : Type ℓ} (ls : List A) where
  -- The loop, from its state on
  pub replace_loop : List A → ℕ → ℤ → List (ℕ × ℕ × List A) → Result (List A)
  replace_loop result prev offset [] = do
    let result' = result ++ drop prev ls
    check (eq_ℤ (pos (length result')) (pos (length ls) +ℤ offset))
    ok result'
  replace_loop result prev offset ((u, v, r) ∷ replacements) =
      replace_loop ((result ++ slice prev u ls) ++ r) v
        (offset +ℤ (pos (length r) -ℤ (pos v -ℤ pos u))) replacements

  unfoldable pub replace_all : List (ℕ × ℕ × List A) → Result (List A)
  unfolding replace_loop
  replace_all replacements = replace_loop [] 0 (pos 0) replacements

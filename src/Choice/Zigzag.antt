-- ===== src/Choice/Zigzag.antt =====
-- `zigzag_index` and `zigzag_value` of internal/conjecture/choice.py.
use hypothesis.Common.{ℕ, ◌+◌, ◌-◌, ◌*◌, ◌/◌, ◌%◌, ◌≡◌, arith, ◌==◌, if◌then◌else◌}
use hypothesis.Common.Int.{ℤ, pos, pos_part, neg_part, ◌+ℤ◌, ◌-ℤ◌, ◌≤ℤ◌, ltb_ℤ, abs}

unfoldable pub zigzag_index : ℤ → ℤ → ℕ
zigzag_index value shrink_towards =
    let index = 2 * abs (shrink_towards -ℤ value) in
    if ltb_ℤ shrink_towards value then index - 1 else index

unfoldable pub zigzag_value : ℕ → ℤ → ℤ
zigzag_value index shrink_towards =
    let n = (index + 1) / 2 in
    shrink_towards +ℤ (if (index % 2) == 0 then pos 0 -ℤ pos n else pos n)

-- The value with the index of `v` is `v`.
pub zigzag_value-index : (v s : ℤ) → zigzag_value (zigzag_index v s) s ≡ v
unfolding zigzag_index zigzag_value ◌+ℤ◌ ◌-ℤ◌
zigzag_value-index v s = ground arith

pub zigzag_index-value : (i : ℕ) (s : ℤ) → zigzag_index (zigzag_value i s) s ≡ i
unfolding zigzag_index zigzag_value ◌+ℤ◌ ◌-ℤ◌
zigzag_index-value i s = ground arith

-- The index is twice the distance, or one less for a value above `shrink_towards`.
pub zigzag_index_le :
    (v s : ℤ)
    → v ≤ℤ s
    → zigzag_index v s + 2 * (pos_part v + neg_part s) ≡ 2 * (pos_part s + neg_part v)
unfolding zigzag_index ◌-ℤ◌
zigzag_index_le v s h = ground arith

pub zigzag_index_gt :
    (v s : ℤ)
    → ¬ (v ≤ℤ s)
    → zigzag_index v s + 1 + 2 * (pos_part s + neg_part v) ≡ 2 * (pos_part v + neg_part s)
unfolding zigzag_index ◌-ℤ◌
zigzag_index_gt v s h = ground arith

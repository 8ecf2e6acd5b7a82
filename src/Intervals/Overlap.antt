-- ===== src/Intervals/Overlap.antt =====
-- How two intervals can overlap, with `cx` and `cy` for membership in the intervals that follow each.
use hypothesis.Common.{
  ℕ, ◌+◌, ◌-◌, ◌≤◌, ◌<◌, ◌≡◌, Bool, false, not, ◌&&◌, ◌||◌, arith, max, min, dec_lt,
}
use hypothesis.Intervals.{within}

module _ (xl xr yl yr n : ℕ) (cx cy : Bool) (after_x : n ≤ xr → cx ≡ false)
    (after_y : n ≤ yr → cy ≡ false) where
  pub meet_y_left :
      yr < xl
      → xl ≤ xr
      → (within xl xr n || cx) && cy ≡ (within xl xr n || cx) && (within yl yr n || cy)
  unfolding within
  meet_y_left h k = elim (dec_lt yr n) [
    | yes d ↦ ground arith
    | no d ↦ ground (arith, after_x (omega arith))
  ]

  pub meet_x_left :
      xr < yl
      → yl ≤ yr
      → cx && (within yl yr n || cy) ≡ (within xl xr n || cx) && (within yl yr n || cy)
  unfolding within
  meet_x_left h k = elim (dec_lt xr n) [
    | yes d ↦ ground arith
    | no d ↦ ground (arith, after_y (omega arith))
  ]

  pub meet_x_first :
      xr < yr
      → (within (max xl yl) (min xr yr) n || (cx && (within yl yr n || cy)))
        ≡ (within xl xr n || cx) && (within yl yr n || cy)
  unfolding within
  meet_x_first k = elim (dec_lt xr n) [
    | yes d ↦ ground arith
    | no d ↦ ground (arith, after_x (omega arith), after_y (omega arith))
  ]

  pub meet_y_first :
      yr ≤ xr
      → (within (max xl yl) (min xr yr) n || ((within xl xr n || cx) && cy))
        ≡ (within xl xr n || cx) && (within yl yr n || cy)
  unfolding within
  meet_y_first k = elim (dec_lt yr n) [
    | yes d ↦ ground arith
    | no d ↦ ground (arith, after_x (omega arith), after_y (omega arith))
  ]

  pub minus_y_left :
      yr < xl
      → xl ≤ xr
      → (within xl xr n || cx) && not cy ≡ (within xl xr n || cx) && not (within yl yr n || cy)
  unfolding within
  minus_y_left h k = elim (dec_lt yr n) [
    | yes d ↦ ground arith
    | no d ↦ ground (arith, after_x (omega arith))
  ]

  pub minus_x_left :
      xr < yl
      → yl ≤ yr
      → (within xl xr n || (cx && not (within yl yr n || cy)))
        ≡ (within xl xr n || cx) && not (within yl yr n || cy)
  unfolding within
  minus_x_left h k = elim (dec_lt xr n) [
    | yes d ↦ ground arith
    | no d ↦ ground (arith, after_x (omega arith), after_y (omega arith))
  ]

  pub minus_covered :
      yl ≤ xl
      → xr ≤ yr
      → cx && not (within yl yr n || cy) ≡ (within xl xr n || cx) && not (within yl yr n || cy)
  unfolding within
  minus_covered h k = elim (dec_lt xr n) [
    | yes d ↦ ground arith
    | no d ↦ ground (arith, after_x (omega arith), after_y (omega arith))
  ]

  pub minus_front :
      yl ≤ xl
      → xl ≤ yr
      → yr < xr
      → (within (yr + 1) xr n || cx) && not cy
        ≡ (within xl xr n || cx) && not (within yl yr n || cy)
  unfolding within
  minus_front h k m = elim (dec_lt yr n) [
    | yes d ↦ ground arith
    | no d ↦ ground (arith, after_x (omega arith), after_y (omega arith))
  ]

  pub minus_middle :
      xl < yl
      → yl ≤ yr
      → yr < xr
      → (within xl (yl - 1) n || ((within (yr + 1) xr n || cx) && not cy))
        ≡ (within xl xr n || cx) && not (within yl yr n || cy)
  unfolding within
  minus_middle h k m = elim (dec_lt yr n) [
    | yes d ↦ ground arith
    | no d ↦ ground (arith, after_x (omega arith), after_y (omega arith))
  ]

  pub minus_back :
      xl < yl
      → yl ≤ xr
      → xr ≤ yr
      → (within xl (yl - 1) n || (cx && not (within yl yr n || cy)))
        ≡ (within xl xr n || cx) && not (within yl yr n || cy)
  unfolding within
  minus_back h k m = elim (dec_lt xr n) [
    | yes d ↦ ground arith
    | no d ↦ ground (arith, after_x (omega arith), after_y (omega arith))
  ]

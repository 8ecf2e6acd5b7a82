-- ===== src/GenericCache/Examples.antt =====
-- Instances of the theorems on `GenericCache`, at an `LRUReusedCache` of two entries, one of them pinned.
use hypothesis.Common.{
  ℕ, ◌≤◌, ◌<◌, ◌≡◌, ◌⊎◌, refl, Bool, true, false, none, some, [], ◌∷◌, arith, ◌==◌, length,
}
use hypothesis.Common.Keys.{KeyEquality}
use hypothesis.Common.Dict.{get, put, del}
use hypothesis.Common.Result.{ok, raise, value_error}
use hypothesis.GenericCache.{
  Entry, Cache, make, size, entry_at, entry_less, out_of_order, swap, children, smallest, balance,
}
use hypothesis.GenericCache.Index.{contents}
use hypothesis.GenericCache.Operations.{
  contains, index_of, after_eviction, replace_first, insert, insert_new, set_item, set_pins, pin,
  unpin, check_valid,
}
use hypothesis.GenericCache.Insert.{Outcome}
use hypothesis.GenericCache.Replace.{IsValid}
use hypothesis.GenericCache.Store.{fresh, set_item_new}
use hypothesis.GenericCache.Runs.{
  Call, store, pinning, clearing, perform, Run, start, next, Run-IsValid, Run-check_valid,
}
use hypothesis.GenericCache.Pins.{HasPins, perform_pins}
use hypothesis.GenericCache.Policy.{unpin_times, unpin_all}
use hypothesis.GenericCache.Reused.{pair_less, lru_reused, pair_less-IsWeakOrder}
use hypothesis.GenericCache.Usage.{History, begun, called, usage_after, used}
use hypothesis.GenericCache.Unused.{evicts_unused}

abbrev numbers : KeyEquality ℕ
numbers = record { eq = λ a b. a == b; eq_iff = λ a b. (λ e. ground arith, λ e. ground arith) }

abbrev NumberCache : Type 0
NumberCache = Cache ℕ ℕ (ℕ × ℕ) ℕ

abbrev new : NumberCache
new = record { max_size = 2; entries = []; keys_to_indices = []; extra = 0 }

abbrev first_entry : Entry ℕ ℕ (ℕ × ℕ)
first_entry = record { key = 1; value = 10; score = (1, 1); pins = 1 }

abbrev second_entry : Entry ℕ ℕ (ℕ × ℕ)
second_entry = record { key = 2; value = 20; score = (1, 2); pins = 0 }

abbrev third_entry : Entry ℕ ℕ (ℕ × ℕ)
third_entry = record { key = 3; value = 30; score = (1, 3); pins = 0 }

abbrev one : NumberCache
one = record { max_size = 2; entries = first_entry ∷ []; keys_to_indices = (1, 0) ∷ []; extra = 1 }

abbrev two : NumberCache
two = record {
  max_size = 2;
  entries = second_entry ∷ first_entry ∷ [];
  keys_to_indices = (1, 1) ∷ (2, 0) ∷ [];
  extra = 2;
}

abbrev other : NumberCache
other = record {
  max_size = 2;
  entries = third_entry ∷ first_entry ∷ [];
  keys_to_indices = (1, 1) ∷ (3, 0) ∷ [];
  extra = 3;
}

after_new : make 2 0 ≡ ok new
unfolding make
after_new = refl

after_pin : perform numbers lru_reused (pinning 1 10) new ≡ ok one
unfolding perform pin set_item insert_new insert balance get put index_of entry_at set_pins children
after_pin = refl

after_store : perform numbers lru_reused (store 2 20) one ≡ ok two
unfolding perform set_item insert_new insert balance get put out_of_order swap entry_at entry_less
    children smallest
after_store = refl

after_third : set_item numbers lru_reused 3 30 two ≡ ok other
unfolding set_item insert_new insert replace_first after_eviction balance get put del out_of_order
    entry_at entry_less pair_less children smallest
after_third = refl

two-Run : Run numbers lru_reused 2 0 two
two-Run =
    next (store 2 20) one two (next (pinning 1 10) new one (start new after_new) after_pin)
      after_store

two-IsValid : IsValid numbers lru_reused pair_less-IsWeakOrder two
two-IsValid = (Run-IsValid numbers lru_reused pair_less-IsWeakOrder 2 0 two two-Run).0

Run-check_valid_example :
    (check_valid numbers lru_reused two ≡ ok tt)
    × (size two ≡ ok (length two.entries))
    × (length two.entries ≤ 2)
Run-check_valid_example = Run-check_valid numbers lru_reused pair_less-IsWeakOrder 2 0 two two-Run

set_item_new_example :
    Outcome numbers lru_reused pair_less-IsWeakOrder two
      (fresh numbers lru_reused pair_less-IsWeakOrder 3 30 2)
      (set_item numbers lru_reused 3 30 two)
unfolding contents get
set_item_new_example =
    set_item_new numbers lru_reused pair_less-IsWeakOrder 3 30 two two-IsValid refl

perform_pins_example :
    HasPins numbers lru_reused pair_less-IsWeakOrder other 1 1
    ⊎ (◌≡◌ {A = Call ℕ ℕ} (store 3 30) clearing × (contents numbers lru_reused other 1 ≡ none))
unfolding contents get perform
perform_pins_example =
    perform_pins numbers lru_reused pair_less-IsWeakOrder (store 3 30) two other 1 first_entry
      two-IsValid refl (omega arith) after_third

unpin_all_example :
    (c' : NumberCache) × (unpin_times numbers lru_reused pair_less-IsWeakOrder 1 1 two ≡ ok c')
    × IsValid numbers lru_reused pair_less-IsWeakOrder c'
    × (contents numbers lru_reused c' 1 ≡ some (record first_entry { pins = 0 }))
    × (unpin numbers lru_reused 1 c' ≡ raise value_error)
unfolding contents get
unpin_all_example =
    unpin_all numbers lru_reused pair_less-IsWeakOrder 1 1 first_entry two two-IsValid refl refl

two-History :
    History numbers 2 2
      (usage_after numbers
        (store 2 20)
        one
        2
        (usage_after numbers (pinning 1 10) new 1 (λ _. (false, 0))))
      two
two-History =
    called (store 2 20) one two 1 _
      (called (pinning 1 10) new one 0 _ (begun new after_new) after_pin) after_store

evicts_unused_example :
    (second_entry.pins ≡ 0)
    × ((0 < first_entry.pins)
        ⊎ ((false ≡ false) × (false ≡ true))
        ⊎ ((◌≡◌ {A = Bool} false false) × (2 ≤ 1)))
unfolding contents get usage_after used contains
evicts_unused_example =
    evicts_unused numbers 2 2 _ 3 30 two other 2 1 second_entry first_entry two-History after_third
      refl refl refl

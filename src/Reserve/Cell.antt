-- ===== src/Reserve/Cell.antt =====
-- The reservation loop of mock_reserve_table.cpp on one cell, when no other thread touches it.
use myblockchain.Prelude.{
  ℕ, zero, suc, ◌≡◌, refl, ◌≢◌, Bool, true, Option, some, arith, ◌==◌, ltb, if◌then◌else◌, not,
  ◌&&◌, ◌||◌,
}
use myblockchain.Reserve.{reserve_loop}

-- What a reservation leaves in a cell: the smaller of the two ids, where 0 stands for nobody.
abbrev pub claim : ℕ → ℕ → ℕ
claim tid old = if old == 0 then tid else (if ltb tid old then tid else old)

-- Whether the holder of a cell goes before the transaction `m`.
abbrev pub held : ℕ → ℕ → Bool
held old m = not (old == 0) && ltb old m

pub held-claim : (tid old m : ℕ) → tid ≢ 0 → held (claim tid old) m ≡ (ltb tid m || held old m)
held-claim tid old m h = ground arith

-- Two rounds are enough for an id that is not 0, whatever the weak compare-exchange does: the loop
-- ends, and the cell holds the smaller of the two ids.
pub reserve_loop-claim :
    (rounds : ℕ) (weak : ℕ → Bool) (tid cell : ℕ)
    → tid ≢ 0
    → reserve_loop (suc (suc rounds)) weak tid cell ≡ some (claim tid cell)
unfolding reserve_loop
reserve_loop-claim rounds weak tid cell h = ground arith

-- Two rounds of a transaction with id 0 are not enough while the exchange fails.
pub reserve_loop-zero : (rounds : ℕ) → reserve_loop rounds (λ i. true) 0 0 ≡ Option.none
unfolding reserve_loop
reserve_loop-zero zero = refl
reserve_loop-zero (suc rounds) = reserve_loop-zero rounds

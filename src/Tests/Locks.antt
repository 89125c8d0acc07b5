-- ===== src/Tests/Locks.antt =====
-- Two calls on a locked bucket that take turns: the bucket is a number, and a call adds its own to it.
use myblockchain.Prelude.{ℕ, ◌+◌, ◌≡◌, refl, List, true}
use myblockchain.HashMap.Lock.{
  Guarded, Reach, begin, next, pick, enter, spin, read, write, leave, is_inside, IsOrdered,
  calls_one_by_one,
}

abbrev add_own : ℕ → ℕ → ℕ × ℕ
add_own c m = (m, m + c)

-- The call 4 waits while the call 3 is inside.
abbrev turns : (s : Guarded ℕ ℕ) × Reach add_own 10 s
turns =
    let first_in = next begin (pick 3 (enter refl)) in
    let first_read = next first_in (pick 3 read) in
    let second_waits = next first_read (pick 4 (spin refl)) in
    let first_written = next second_waits (pick 3 write) in
    let first_out = next first_written (pick 3 leave) in
    let second_in = next first_out (pick 4 (enter refl)) in
    let second_read = next second_in (pick 4 read) in (_, next second_read (pick 4 write))

calls_one_by_one_example :
    ((c d : ℕ) → is_inside (turns.0.place c) ≡ true → is_inside (turns.0.place d) ≡ true → c ≡ d)
    × ((order : List ℕ) × IsOrdered add_own 10 turns.0 order)
calls_one_by_one_example = calls_one_by_one add_own 10 turns.0 turns.1

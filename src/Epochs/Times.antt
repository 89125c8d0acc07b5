-- ===== src/Epochs/Times.antt =====
-- When the epoch server (epoch_server.cpp) goes on to the next epoch.
use myblockchain.Prelude.{
  ℕ, ◌+◌, ◌≤◌, ◌<◌, ◌≡◌, refl, ap, ◌∙◌, inl, inr, List, [], ◌∷◌, map, true, false, Option, none,
  some, arith, leb, ◌==◌, if◌then◌else◌, length, All, Bool-cases, Bool,
}
use myblockchain.HashMap.{update}
use myblockchain.Transaction.Wire.{to_uint32}
use myblockchain.Epochs.{
  EpochHelper, EpochRequest, EpochResponse, EpochServer, to_uint64, time_gap, serve, serve_all,
}

-- The requests, each with the clock at its two readings.
abbrev pub Requests : Type 0
Requests = List (ℕ × ℕ × EpochRequest)

abbrev pub total_of : Requests → ℕ
total_of [] = 0
total_of ((now, later, q) ∷ qs) = q.request_batch_size + total_of qs

-- An epoch begins at the first request that is answered in it.
abbrev pub begin_of : Option ℕ → ℕ → ℕ
begin_of none now = now
begin_of (some start) now = start

-- The epochs and the nonces that are expected, from an epoch, a number of transactions and the time at which
-- the epoch began, if it did: the epoch ends with the first answer that is late by the gap.
abbrev pub expected : ℕ → ℕ → Option ℕ → Requests → List (ℕ × ℕ)
expected epoch total begun [] = []
expected epoch total begun ((now, later, q) ∷ qs) =
    let start = begin_of begun now in
    let sum = total + q.request_batch_size in
    let next = expected (epoch + 1) sum none qs in
    let same = expected epoch sum (some start) qs in
    (epoch, to_uint32 sum) ∷ (if leb (start + time_gap) later then next else same)

abbrev pub answer : EpochResponse → ℕ × ℕ
answer p = (p.epoch, p.nonce)

abbrev IsBegun : Option ℕ → EpochServer → Type 0
IsBegun none s = s.epoch_size_map s.epoch_num ≡ 0
IsBegun (some start) s = (0 < s.epoch_size_map s.epoch_num) × (s.epoch_start_time ≡ start)

-- What holds between two requests.
record IsOpen (begun : Option ℕ) (s : EpochServer) : Type 0 where
  is_begun : IsBegun begun s
  later_new : (e : ℕ) → s.epoch_num < e → s.epoch_size_map e ≡ 0
  counted : s.epoch_size_map s.epoch_num ≤ s.total_size

start_lem :
    (begun : Option ℕ) (now : ℕ) (s : EpochServer)
    → IsBegun begun s
    → (if s.epoch_size_map s.epoch_num == 0 then now else s.epoch_start_time) ≡ begin_of begun now
start_lem none now s h = ground (arith, h)
start_lem (some start) now s h = ground (arith, h.0, h.1)

-- The server after an answer, by the time at which the epoch began and by whether the epoch ends.
abbrev served : ℕ → Bool → EpochRequest → EpochServer → EpochServer
served start ends q s = record {
  epoch_size_map =
      update s.epoch_size_map s.epoch_num (s.epoch_size_map s.epoch_num + q.request_batch_size);
  epoch_num = if ends then s.epoch_num + 1 else s.epoch_num;
  epoch_start_time = start;
  total_size = s.total_size + q.request_batch_size;
}

ended_lem :
    (start : ℕ) (begun : Option ℕ) (q : EpochRequest) (s : EpochServer)
    → IsOpen begun s
    → IsOpen none (served start true q s)
ended_lem start begun q s o = record {
  is_begun = ground (arith, o.later_new (s.epoch_num + 1) (omega arith));
  later_new = λ e h. ground (arith, h, o.later_new e (omega (arith, h)));
  counted = ground (arith, o.later_new (s.epoch_num + 1) (omega arith));
}

same_lem :
    (start : ℕ) (begun : Option ℕ) (q : EpochRequest) (s : EpochServer)
    → IsOpen begun s
    → 0 < q.request_batch_size
    → IsOpen (some start) (served start false q s)
same_lem start begun q s o full = record {
  is_begun = (ground (arith, full), refl);
  later_new = λ e h. ground (arith, h, o.later_new e h);
  counted = ground (arith, o.counted);
}

module _ (helper : EpochHelper) where
  serve_lem :
      (begun : Option ℕ) (now later : ℕ) (q : EpochRequest) (s : EpochServer)
      → IsOpen begun s
      → s.epoch_num + 1 < 4294967296
      → s.total_size + q.request_batch_size < 18446744073709551616
      → (serve helper now later q s).1
        ≡ served (begin_of begun now) (leb (begin_of begun now + time_gap) later) q s
  unfolding serve
  serve_lem begun now later q s o short small =
      let sum : to_uint64 (s.total_size + q.request_batch_size)
          ≡ s.total_size + q.request_batch_size =
        omega arith in
      let num : to_uint32 (s.epoch_num + 1) ≡ s.epoch_num + 1 = omega arith in
      let size : to_uint64 (s.epoch_size_map s.epoch_num + q.request_batch_size)
          ≡ s.epoch_size_map s.epoch_num + q.request_batch_size =
        omega (arith, o.counted) in
      rw (serve, start_lem begun now s o.is_begun, sum, num, size) refl

  expected_lem :
      (qs : Requests) (begun : Option ℕ) (s : EpochServer)
      → IsOpen begun s
      → All (λ (r : ℕ × ℕ × EpochRequest). 0 < r.2.request_batch_size) qs
      → s.epoch_num + length qs < 4294967296
      → s.total_size + total_of qs < 18446744073709551616
      → map answer (serve_all helper qs s).0 ≡ expected s.epoch_num s.total_size begun qs
  unfolding serve_all serve
  expected_lem [] begun s o full short small = refl
  expected_lem ((now, later, q) ∷ qs) begun s o full short small =
      let start = begin_of begun now in
      let sum : to_uint64 (s.total_size + q.request_batch_size)
          ≡ s.total_size + q.request_batch_size =
        omega arith in
      let state = serve_lem begun now later q s o (omega arith) (omega arith) in
      let rest : map answer (serve_all helper qs (serve helper now later q s).1).0 ≡ (
          if leb (start + time_gap) later
          then expected (s.epoch_num + 1) (s.total_size + q.request_batch_size) none qs
          else expected s.epoch_num (s.total_size + q.request_batch_size) (some start) qs) =
        ap (λ t. map answer (serve_all helper qs t).0) state
        ∙ elim (Bool-cases (leb (start + time_gap) later)) [
          | inl late ↦ rw late (
              expected_lem qs none (served start true q s) (ended_lem start begun q s o) full.1
                (omega arith) (omega arith))
          | inr early ↦ rw early (
              expected_lem qs (some start) (served start false q s)
                (same_lem start begun q s o full.0) full.1 (omega arith) (omega arith))
        ] in
      ap
        (λ n.
          (s.epoch_num, to_uint32 n)
          ∷ map answer (serve_all helper qs (serve helper now later q s).1).0)
        sum
      ∙ ap (◌∷◌ (s.epoch_num, to_uint32 (s.total_size + q.request_batch_size))) rest

  -- For a server whose next epochs have no transactions yet, requests for one transaction or more, and
  -- numbers of epochs and of transactions that fit their 32 and 64 bits: an epoch begins with the first
  -- request that is answered in it, and all its requests are answered with its number, up to the first
  -- whose answer is ready a gap or more after the beginning; the one after that begins the next epoch. Each
  -- nonce is the number of transactions so far, in 32 bits.
  pub serve_all_lem :
      (qs : Requests) (s : EpochServer)
      → ((e : ℕ) → s.epoch_num ≤ e → s.epoch_size_map e ≡ 0)
      → All (λ (r : ℕ × ℕ × EpochRequest). 0 < r.2.request_batch_size) qs
      → s.epoch_num + length qs < 4294967296
      → s.total_size + total_of qs < 18446744073709551616
      → map answer (serve_all helper qs s).0 ≡ expected s.epoch_num s.total_size none qs
  serve_all_lem qs s new full short small =
      expected_lem qs none s
        (record {
          is_begun = new s.epoch_num (omega arith);
          later_new = λ e h. new e (omega arith);
          counted = omega (arith, new s.epoch_num (omega arith));
        })
        full short small

-- ===== src/Comm/Stub.antt =====
-- src/block_server/comm/stub/comm_stub.cpp: the stand-in for the communication module, which makes the
-- transactions of each epoch itself, in a fixed number.
use mathlib.Core.List.{append_assoc, append-nil}
use myblockchain.Prelude.{
  range, ℕ, zero, suc, ◌+◌, ◌-◌, ◌*◌, ◌≤◌, ◌<◌, ◌≡◌, inl, inr, refl, sym, ap, subst, ◌∙◌, List, [],
  ◌∷◌, ◌++◌, false, Option, none, some, arith, ltb, leb, ◌==◌, ◌!=◌, ==_iff, if◌then◌else◌,
  length-append, String, Bool-cases, min,
}
use myblockchain.HashMap.{update}
use myblockchain.Transaction.{MockTransaction, mock_transaction}
use myblockchain.Transaction.Wire.{to_uint32}
use myblockchain.Transaction.Wrapper.{
  Heap, TransactionWrapper, transaction_wrapper, size, push_transaction,
}
use myblockchain.Epochs.{to_uint64}
use myblockchain.Comm.{clear_loop}

abbrev pub epoch_max_tr_num : ℕ
epoch_max_tr_num = 110

-- With the heap of transactions and its first free address.
pub record CommStub : Type 0 where
  pub epoch : ℕ
  pub tid_nonce : ℕ
  pub epoch_tr_sent_num : ℕ
  pub transaction_map : ℕ → List ℕ
  pub heap : Heap
  pub next_address : ℕ

-- `latest` is the block storage's latest saved epoch.
abbrev pub comm_stub : ℕ → CommStub
comm_stub latest = record {
  epoch = to_uint32 (latest + 1);
  tid_nonce = 1;
  epoch_tr_sent_num = 0;
  transaction_map = λ e. [];
  heap = λ t. mock_transaction;
  next_address = 0;
}

-- What is called: the serialized payload that adds 1 to the key "lhx", and the clock at the time when
-- the transaction at an address is made.
pub record StubLibrary : Type 0 where
  pub gcounter_payload : String
  pub time : ℕ → ℕ

module _ (library : StubLibrary) where
  -- The new transaction of a round.
  abbrev pub new_transaction : CommStub → MockTransaction
  new_transaction s = record mock_transaction {
    epoch = s.epoch;
    tid = s.tid_nonce;
    payload = record {
      header = "crdt_gcounter";
      payload = library.gcounter_payload;
      nonce = to_uint64 (library.time s.next_address + to_uint32 (s.tid_nonce + 1) * 4294967296);
      digest = "";
    };
  }

  -- The state after a round.
  abbrev pub make_one : CommStub → CommStub
  make_one s = record s {
    tid_nonce = to_uint32 (s.tid_nonce + 1);
    epoch_tr_sent_num = s.epoch_tr_sent_num + 1;
    transaction_map =
        update s.transaction_map s.epoch (s.transaction_map s.epoch ++ (s.next_address ∷ []));
    heap = update s.heap s.next_address (new_transaction s);
    next_address = s.next_address + 1;
  }

  -- The loop of `getTransaction`; `none` when the rounds are used up.
  unfoldable pub make_loop :
      ℕ → ℕ → TransactionWrapper → CommStub → Option (TransactionWrapper × CommStub)
  make_loop zero min_size w s = none
  make_loop (suc rounds) min_size w s =
      if s.epoch_tr_sent_num != epoch_max_tr_num
      then (if ltb (size w) min_size
          then (let s1 = make_one s in
              make_loop rounds min_size (push_transaction s1.heap (some s.next_address) w).1 s1)
          else some (w, s))
      else some (w, s)

  unfoldable pub end_batch : CommStub → CommStub
  end_batch s =
      if s.epoch_tr_sent_num == epoch_max_tr_num
      then record s { epoch_tr_sent_num = 0; epoch = to_uint32 (s.epoch + 1) }
      else s

  -- The outer `none` is used up rounds, the inner one the null pointer; the largest size is not used.
  unfoldable pub get_transaction :
      ℕ → ℕ → ℕ → CommStub → Option (Option TransactionWrapper × CommStub)
  get_transaction epoch max_size min_size s =
      if ltb epoch s.epoch
      then some (none, s)
      else (elim (make_loop (suc min_size) min_size (transaction_wrapper s.epoch) s) [
        | none ↦ none
        | some (w, s1) ↦ some (some w, end_batch s1)
      ])

-- The transactions that are deleted, and the state.
unfoldable pub clear_transaction_for_epoch : ℕ → CommStub → List ℕ × CommStub
clear_transaction_for_epoch epoch s =
    if leb s.epoch epoch
    then ([], s)
    else (let (deleted, map) =
          clear_loop s.heap epoch (s.transaction_map epoch) s.transaction_map in
        (deleted, record s { transaction_map = update map epoch [] }))

module _ (library : StubLibrary) where
  -- From one state to another in the loop, with `k` transactions made.
  pub record Made (k : ℕ) (w : TransactionWrapper) (s : CommStub) (w1 : TransactionWrapper)
      (s1 : CommStub) : Type 0 where
    pub same_epoch : s1.epoch ≡ s.epoch
    pub wrapper_epoch : w1.epoch ≡ w.epoch
    pub grown : size w1 ≡ size w + k
    pub batch : w1.transaction_list ≡ w.transaction_list ++ range s.next_address k
    pub sent : s1.epoch_tr_sent_num ≡ s.epoch_tr_sent_num + k
    pub addresses : s1.next_address ≡ s.next_address + k
    pub old : (a : ℕ) → a < s.next_address → s1.heap a ≡ s.heap a
    pub new :
        (a : ℕ)
        → s.next_address ≤ a
        → a < s1.next_address
        → ((s1.heap a).epoch ≡ s.epoch)
          × ((s1.heap a).tid ≡ to_uint32 (s.tid_nonce + (a - s.next_address)))

  none-Made : (k : ℕ) (w : TransactionWrapper) (s : CommStub) → k ≡ 0 → Made k w s w s
  unfolding range
  none-Made k w s e = record {
    batch =
        sym (append-nil w.transaction_list)
        ∙ ap (λ n. w.transaction_list ++ range s.next_address n) (sym e);
    same_epoch = refl;
    wrapper_epoch = refl;
    grown = omega (arith, e);
    sent = omega (arith, e);
    addresses = omega (arith, e);
    old = λ a h. refl;
    new = λ a h below. absurd (omega arith);
  }

  here : (s : CommStub) → (make_one library s).heap s.next_address ≡ new_transaction library s
  here s = rw ((==_iff s.next_address s.next_address).1 refl) refl

  there : (s : CommStub) (a : ℕ) → a < s.next_address → (make_one library s).heap a ≡ s.heap a
  there s a h = let apart : (s.next_address == a) ≡ false = ground arith in rw apart refl

  push_lem :
      (w : TransactionWrapper) (s : CommStub)
      → w.epoch ≡ s.epoch
      → (push_transaction (make_one library s).heap (some s.next_address) w).1
        ≡ record w { transaction_list = w.transaction_list ++ (s.next_address ∷ []) }
  unfolding push_transaction
  push_lem w s e =
      let same : ((make_one library s).heap s.next_address).epoch ≡ w.epoch =
        ap (λ t. t.epoch) (here s) ∙ sym e in
      rw
        (push_transaction, (==_iff ((make_one library s).heap s.next_address).epoch w.epoch).1 same)
        refl

  one_more :
      (k j : ℕ) (w w1 : TransactionWrapper) (s s1 : CommStub)
      → s.tid_nonce < 4294967296
      → k ≡ j + 1
      → Made j
          (record w { transaction_list = w.transaction_list ++ (s.next_address ∷ []) })
          (make_one library s)
          w1
          s1
      → Made k w s w1 s1
  unfolding range
  one_more k j w w1 s s1 fits e m =
      let more : suc j ≡ k = omega (arith, e) in
      record {
        same_epoch = m.same_epoch;
        wrapper_epoch = m.wrapper_epoch;
        grown = omega (arith, e, m.grown, length-append w.transaction_list (s.next_address ∷ []));
        batch =
            m.batch
            ∙ append_assoc w.transaction_list (s.next_address ∷ []) (range (s.next_address + 1) j)
            ∙ ap (λ n. w.transaction_list ++ range s.next_address n) more;
        sent = omega (arith, e, m.sent);
        addresses = omega (arith, e, m.addresses);
        old = λ a h. m.old a (omega arith) ∙ there s a h;
        new = λ a h below. elim (Bool-cases (s.next_address == a)) [
          | inl same ↦
              let is = (==_iff s.next_address a).0 same in
              let made =
                m.old a (omega (arith, is)) ∙ ap (make_one library s).heap (sym is) ∙ here s in
              (ap (λ t. t.epoch) made, ap (λ t. t.tid) made ∙ omega (arith, is, fits))
          | inr apart ↦
              let later = m.new a (ground (arith, apart, h)) below in
              (later.0, later.1 ∙ ground (arith, apart, h))
        ];
      }

  make_loop_lem :
      (rounds min_size : ℕ) (w : TransactionWrapper) (s : CommStub)
      → w.epoch ≡ s.epoch
      → size w ≤ min_size
      → s.epoch_tr_sent_num ≤ epoch_max_tr_num
      → s.tid_nonce < 4294967296
      → min_size < rounds + size w
      → (w1 : TransactionWrapper) × (s1 : CommStub) × (make_loop library rounds min_size w s
          ≡ some (w1, s1))
        × Made (min (min_size - size w) (epoch_max_tr_num - s.epoch_tr_sent_num)) w s w1 s1
  unfolding make_loop
  make_loop_lem zero min_size w s e small room fits enough = absurd (omega arith)
  make_loop_lem (suc rounds) min_size w s e small room fits enough =
      elim (Bool-cases (s.epoch_tr_sent_num != epoch_max_tr_num)) [
        | inr full ↦ (w, s, rw (make_loop, full) refl, none-Made _ w s (ground (arith, full, room)))
        | inl more ↦ elim (Bool-cases (ltb (size w) min_size)) [
          | inr large ↦
              (w, s, rw (make_loop, more, large) refl, none-Made _ w s (ground (arith, large)))
          | inl below ↦
              let n = min (min_size - size w) (epoch_max_tr_num - s.epoch_tr_sent_num) in
              let w2 = record w {
                transaction_list = w.transaction_list ++ (s.next_address ∷ []);
              } in
              let grown = length-append w.transaction_list (s.next_address ∷ []) in
              let (w1, s1, rest, m) =
                make_loop_lem rounds min_size w2 (make_one library s) e
                  (ground (arith, below, grown)) (ground (arith, more, room)) (omega arith)
                  (omega (arith, enough, grown)) in
              (
                w1,
                s1,
                rw (make_loop, more, below, push_lem w s e) rest,
                one_more n _ w w1 s s1 fits (ground (arith, below, more, room, grown)) m,
              )
        ]
      ]

  -- For an epoch that is not over, with less than the fixed number of transactions made in it and an id
  -- that fits its 32 bits: a batch has the smallest size asked for or, if that is less, the number that
  -- the epoch lacks; its transactions are the new ones, in the order in which they are made, of the
  -- stub's epoch and with consecutive ids (in 32 bits), and the
  -- older ones stay; the batch that fills the epoch starts the next one, any other only counts.
  pub get_transaction-Made :
      (epoch max_size min_size : ℕ) (s : CommStub)
      → s.epoch ≤ epoch
      → s.epoch_tr_sent_num < epoch_max_tr_num
      → s.tid_nonce < 4294967296
      → let k = min min_size (epoch_max_tr_num - s.epoch_tr_sent_num) in
        (w : TransactionWrapper) × (s1 s2 : CommStub) × (get_transaction library epoch max_size
            min_size s
          ≡ some (some w, s2))
        × Made k (transaction_wrapper s.epoch) s w s1
        × (s2.heap ≡ s1.heap)
        × (s.epoch_tr_sent_num + k ≡ epoch_max_tr_num
            → (s2.epoch ≡ to_uint32 (s.epoch + 1)) × (s2.epoch_tr_sent_num ≡ 0))
        × (s.epoch_tr_sent_num + k < epoch_max_tr_num
            → (s2.epoch ≡ s.epoch) × (s2.epoch_tr_sent_num ≡ s.epoch_tr_sent_num + k))
  unfolding get_transaction end_batch
  get_transaction-Made epoch max_size min_size s current more fits =
      let w0 = transaction_wrapper s.epoch in
      let open_epoch : ltb epoch s.epoch ≡ false = ground arith in
      let (w, s1, made, m0) =
        make_loop_lem (suc min_size) min_size w0 s refl (omega arith) (omega arith) fits
          (omega arith) in
      let k = min min_size (epoch_max_tr_num - s.epoch_tr_sent_num) in
      let m : Made k w0 s w s1 = subst (λ n. Made n w0 s w s1) (omega arith) m0 in
      let call : get_transaction library epoch max_size min_size s
          ≡ some (some w, end_batch library s1) =
        rw (get_transaction, open_epoch, made) refl in
      elim (Bool-cases (s1.epoch_tr_sent_num == epoch_max_tr_num)) [
        | inl full ↦
            let filled = (==_iff s1.epoch_tr_sent_num epoch_max_tr_num).0 full in
            (
              w,
              s1,
              record s1 { epoch_tr_sent_num = 0; epoch = to_uint32 (s1.epoch + 1) },
              rw (end_batch, full) at call,
              m,
              refl,
              λ h. (ap (λ e. to_uint32 (e + 1)) m.same_epoch, refl),
              λ h. absurd (omega (arith, m.sent, filled)),
            )
        | inr short ↦ (
          w,
          s1,
          s1,
          rw (end_batch, short) at call,
          m,
          refl,
          λ h. ground (arith, short, m.sent, h),
          λ h. (m.same_epoch, m.sent),
        )
      ]

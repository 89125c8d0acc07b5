-- ===== src/Coordinator/Buffer.antt =====
-- The bound and the order of the coordinator's queue (addTransaction of AriaCoordinator.cpp).
use mathlib.Core.List.{reverse, reverse-cons, append_assoc, append-nil}
use myblockchain.Prelude.{
  ℕ, zero, suc, ◌+◌, ◌≤◌, ◌≡◌, refl, sym, ◌∙◌, ap, List, [], ◌∷◌, ◌++◌, some, arith, length,
  length-append,
}
use myblockchain.Transaction.Wrapper.{TransactionWrapper, size, pop_transaction, unsnoc}
use myblockchain.Coordinator.{Input, input_max_buffer_size, unpack, add_transaction}

length-reverse {ℓ} : {A : Type ℓ} (xs : List A) → length (reverse xs) ≡ length xs
length-reverse [] = refl
length-reverse (x ∷ xs) =
    ap length (reverse-cons x xs)
    ∙ omega (arith, length-append (reverse xs) (x ∷ []), length-reverse xs)

length-unsnoc {ℓ} :
    {A : Type ℓ} (x : A) (xs : List A)
    → (y : A) × (ys : List A) × (unsnoc (x ∷ xs) ≡ some (y, ys)) × (length ys ≡ length xs)
unfolding unsnoc
length-unsnoc x [] = (x, [], refl, refl)
length-unsnoc x (z ∷ xs) = let (y, ys, e, l) = length-unsnoc z xs in (y, x ∷ ys, rw e, ap suc l)

abbrev wrap : ℕ → List ℕ → TransactionWrapper
wrap epoch ts = record { epoch = epoch; transaction_list = ts }

-- The first transaction of a wrapper is unpacked last.
unpack-cons :
    (epoch t : ℕ) (ts buffer : List ℕ) (n : ℕ)
    → n ≡ length ts
    → unpack (suc n) (wrap epoch (t ∷ ts)) buffer ≡ unpack n (wrap epoch ts) buffer ++ (t ∷ [])
unfolding unpack pop_transaction
unpack-cons epoch t [] buffer zero e = unfold unsnoc in refl
unpack-cons epoch t [] buffer (suc n) e = ground arith
unpack-cons epoch t (u ∷ ts) buffer zero e = ground arith
unpack-cons epoch t (u ∷ ts) buffer (suc n) e =
    let (y, ys, last, l) = length-unsnoc u ts in
    let last' : unsnoc (t ∷ u ∷ ts) ≡ some (y, t ∷ ys) = unfold unsnoc in rw last in
    rw (last', last) (unpack-cons epoch t ys (buffer ++ (y ∷ [])) n (omega (arith, l, e)))

unpack_lem :
    (epoch : ℕ) (ts buffer : List ℕ)
    → unpack (length ts) (wrap epoch ts) buffer ≡ buffer ++ reverse ts
unpack_lem epoch [] buffer = unfold unpack in sym (append-nil buffer)
unpack_lem epoch (t ∷ ts) buffer =
    unpack-cons epoch t ts buffer (length ts) refl
    ∙ ap (λ b. b ++ (t ∷ [])) (unpack_lem epoch ts buffer)
    ∙ append_assoc buffer (reverse ts) (t ∷ [])
    ∙ ap (◌++◌ buffer) (sym (reverse-cons t ts))

-- A wrapper that fits under the limit of the queue is unpacked behind what is there, its last
-- transaction first; none is lost, and the queue stays within the limit.
pub add_transaction_lem :
    (w : TransactionWrapper) (c : Input)
    → length c.transaction_buffer + size w ≤ input_max_buffer_size
    → (c' : Input) × (add_transaction w c ≡ some c')
      × (c'.epoch_chan ≡ c.epoch_chan)
      × (c'.transaction_buffer ≡ c.transaction_buffer ++ reverse w.transaction_list)
      × (length c'.transaction_buffer ≤ input_max_buffer_size)
unfolding add_transaction
add_transaction_lem w c fits =
    let all = unpack_lem w.epoch w.transaction_list c.transaction_buffer in
    (
      record c { transaction_buffer = c.transaction_buffer ++ reverse w.transaction_list },
      ground (arith, all),
      refl,
      refl,
      omega (
        arith,
        length-append c.transaction_buffer (reverse w.transaction_list),
        length-reverse w.transaction_list,
      ),
    )

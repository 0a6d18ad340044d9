-- ===== src/Consensus/L1Messages.antt =====
-- `validate_l1_messages` of crates/dogeos-reth-consensus/src/lib.rs: the order of L1 messages in a
-- block. `none` is a panic, of the `expect` on a missing queue index.
use mathlib.Core.Path.{subst}
use dogeos_reth.Prelude.{
  ℕ, zero, suc, ◌≡◌, ◌≢◌, ◌⊎◌, refl, Bool-cases, ap, Bool, true, false, not, Option, none, some,
  List, [], ◌∷◌, ◌++◌, map, arith, Result, ok, err, ◌==◌, if◌then◌else◌, is_some_and, length, All,
  wrap_add64, inl, inr,
}
use dogeos_reth.Consensus.{DogeosConsensusError, invalid_l1_message_order}
use dogeos_reth.Types.Transaction.{
  TxL1Message, ScrollTxEnvelope, legacy, eip2930, eip1559, eip7702, l1_message, is_l1_message,
  queue_index,
}

-- One round at a queue index that is `expect`ed: the new `next_queue_index`, or the error.
abbrev expect_index : Option ℕ → Option ℕ → Option (Result DogeosConsensusError ℕ)
expect_index expected none = none
expect_index expected (some q) =
    if is_some_and expected (λ e. not (q == e))
    then some (err invalid_l1_message_order)
    else some (ok (wrap_add64 q 1))

-- `n` queue indices from `q` on, as u64 counts.
abbrev pub count_from : ℕ → ℕ → List ℕ
count_from q zero = []
count_from q (suc n) = q ∷ count_from (wrap_add64 q 1) n

abbrev indices : List TxL1Message → List ℕ
indices = map (λ (m : TxL1Message). m.queue_index)

module _ {S : Type 0} where
  unfoldable pub validate_loop :
      Bool → Option ℕ → List (ScrollTxEnvelope S) → Option (Result DogeosConsensusError (Unit {0}))
  validate_loop saw_l2 next [] = some (ok tt)
  validate_loop saw_l2 next (tx ∷ txs) = elim (is_l1_message tx) [
    | true ↦
        if saw_l2
        then some (err invalid_l1_message_order)
        else elim (expect_index next (queue_index tx)) [
          | none ↦ none
          | some (err e) ↦ some (err e)
          | some (ok n) ↦ validate_loop saw_l2 (some n) txs
        ]
    | false ↦ validate_loop true next txs
  ]

  unfoldable pub validate_l1_messages :
      List (ScrollTxEnvelope S) → Option (Result DogeosConsensusError (Unit {0}))
  unfolding validate_loop
  validate_l1_messages txs = validate_loop false none txs

  -- No transaction of the list is an L1 message.
  abbrev pub AllL2 : List (ScrollTxEnvelope S) → Type 0
  AllL2 = All (λ tx. is_l1_message tx ≡ false)

  -- L1 messages with consecutive queue indices from `start`, then only L2 transactions.
  pub record IsOrdered (start : ℕ) (txs : List (ScrollTxEnvelope S)) : Type 0 where
    pub messages : List TxL1Message
    pub rest : List (ScrollTxEnvelope S)
    pub split : txs ≡ map l1_message messages ++ rest
    pub only_l2 : AllL2 rest
    pub consecutive : indices messages ≡ count_from start (length messages)

  loop_after_l2 :
      (next : Option ℕ) (txs : List (ScrollTxEnvelope S))
      → validate_loop true next txs ≡ some (ok tt)
      → AllL2 txs
  unfolding validate_loop
  loop_after_l2 next [] h = tt
  loop_after_l2 next (legacy s ∷ txs) h = (refl, loop_after_l2 next txs h)
  loop_after_l2 next (eip2930 s ∷ txs) h = (refl, loop_after_l2 next txs h)
  loop_after_l2 next (eip1559 s ∷ txs) h = (refl, loop_after_l2 next txs h)
  loop_after_l2 next (eip7702 s ∷ txs) h = (refl, loop_after_l2 next txs h)
  loop_after_l2 next (l1_message m ∷ txs) h = cc

  after_l2_accepts :
      (next : Option ℕ) (txs : List (ScrollTxEnvelope S))
      → AllL2 txs
      → validate_loop true next txs ≡ some (ok tt)
  unfolding validate_loop
  after_l2_accepts next [] h = refl
  after_l2_accepts next (l1_message m ∷ txs) h = cc (h.0)
  after_l2_accepts next (legacy s ∷ txs) h = after_l2_accepts next txs h.1
  after_l2_accepts next (eip2930 s ∷ txs) h = after_l2_accepts next txs h.1
  after_l2_accepts next (eip1559 s ∷ txs) h = after_l2_accepts next txs h.1
  after_l2_accepts next (eip7702 s ∷ txs) h = after_l2_accepts next txs h.1

  -- Where the next index is free, the block is ordered from its first index, if it has one.
  only_l2-IsOrdered : (q : ℕ) (txs : List (ScrollTxEnvelope S)) → AllL2 txs → IsOrdered q txs
  only_l2-IsOrdered q txs h = record {
    messages = [];
    rest = txs;
    split = refl;
    only_l2 = h;
    consecutive = refl;
  }

  cons-IsOrdered :
      (m : TxL1Message) (txs : List (ScrollTxEnvelope S))
      → IsOrdered (wrap_add64 m.queue_index 1) txs
      → IsOrdered m.queue_index (l1_message m ∷ txs)
  cons-IsOrdered m txs o = record {
    messages = m ∷ o.messages;
    rest = o.rest;
    split = ap (λ (l : List (ScrollTxEnvelope S)). l1_message m ∷ l) o.split;
    only_l2 = o.only_l2;
    consecutive = ap (λ (l : List ℕ). m.queue_index ∷ l) o.consecutive;
  }

  loop-IsOrdered :
      (q : ℕ) (txs : List (ScrollTxEnvelope S))
      → validate_loop false (some q) txs ≡ some (ok tt)
      → IsOrdered q txs
  unfolding validate_loop
  loop-IsOrdered q [] h = only_l2-IsOrdered q [] tt
  loop-IsOrdered q (l1_message m ∷ txs) h = elim (Bool-cases (m.queue_index == q)) [
    | inl same ↦
        let e : m.queue_index ≡ q = ground arith in
        subst (λ i. IsOrdered i (l1_message m ∷ txs)) e
          (cons-IsOrdered m txs (loop-IsOrdered (wrap_add64 m.queue_index 1) txs (rw same at h)))
    | inr other ↦ let bad = (rw other at h) in cc bad
  ]
  loop-IsOrdered q (legacy s ∷ txs) h =
      only_l2-IsOrdered q (legacy s ∷ txs) (refl, loop_after_l2 (some q) txs h)
  loop-IsOrdered q (eip2930 s ∷ txs) h =
      only_l2-IsOrdered q (eip2930 s ∷ txs) (refl, loop_after_l2 (some q) txs h)
  loop-IsOrdered q (eip1559 s ∷ txs) h =
      only_l2-IsOrdered q (eip1559 s ∷ txs) (refl, loop_after_l2 (some q) txs h)
  loop-IsOrdered q (eip7702 s ∷ txs) h =
      only_l2-IsOrdered q (eip7702 s ∷ txs) (refl, loop_after_l2 (some q) txs h)

  -- A block that the check accepts has its L1 messages first, with consecutive queue indices, and
  -- only L2 transactions behind them.
  pub validate_l1_messages_sound :
      (txs : List (ScrollTxEnvelope S))
      → validate_l1_messages txs ≡ some (ok tt)
      → (start : ℕ) × IsOrdered start txs
  unfolding validate_l1_messages
  validate_l1_messages_sound [] h = (0, only_l2-IsOrdered 0 [] tt)
  validate_l1_messages_sound (l1_message m ∷ txs) h =
      (m.queue_index, cons-IsOrdered m txs (loop-IsOrdered (wrap_add64 m.queue_index 1) txs h))
  validate_l1_messages_sound (legacy s ∷ txs) h =
      (0, only_l2-IsOrdered 0 (legacy s ∷ txs) (refl, loop_after_l2 none txs h))
  validate_l1_messages_sound (eip2930 s ∷ txs) h =
      (0, only_l2-IsOrdered 0 (eip2930 s ∷ txs) (refl, loop_after_l2 none txs h))
  validate_l1_messages_sound (eip1559 s ∷ txs) h =
      (0, only_l2-IsOrdered 0 (eip1559 s ∷ txs) (refl, loop_after_l2 none txs h))
  validate_l1_messages_sound (eip7702 s ∷ txs) h =
      (0, only_l2-IsOrdered 0 (eip7702 s ∷ txs) (refl, loop_after_l2 none txs h))

  before_l2_accepts :
      (next : Option ℕ) (txs : List (ScrollTxEnvelope S))
      → AllL2 txs
      → validate_loop false next txs ≡ some (ok tt)
  unfolding validate_loop
  before_l2_accepts next [] h = refl
  before_l2_accepts next (l1_message m ∷ txs) h = cc (h.0)
  before_l2_accepts next (legacy s ∷ txs) h = after_l2_accepts next txs h.1
  before_l2_accepts next (eip2930 s ∷ txs) h = after_l2_accepts next txs h.1
  before_l2_accepts next (eip1559 s ∷ txs) h = after_l2_accepts next txs h.1
  before_l2_accepts next (eip7702 s ∷ txs) h = after_l2_accepts next txs h.1

  ordered_accepts :
      (q : ℕ) (next : Option ℕ) (ms : List TxL1Message) (rest : List (ScrollTxEnvelope S))
      → (next ≡ none) ⊎ (next ≡ some q)
      → indices ms ≡ count_from q (length ms)
      → AllL2 rest
      → validate_loop false next (map l1_message ms ++ rest) ≡ some (ok tt)
  unfolding validate_loop
  ordered_accepts q next [] rest free e l2 = before_l2_accepts next rest l2
  ordered_accepts q next (m ∷ ms) rest free e l2 =
      ground (arith, ordered_accepts (wrap_add64 q 1) (some (wrap_add64 q 1)) ms rest (inr refl))

  -- A block whose L1 messages come first, with consecutive queue indices, is accepted.
  pub validate_l1_messages_complete :
      (start : ℕ) (txs : List (ScrollTxEnvelope S))
      → IsOrdered start txs
      → validate_l1_messages txs ≡ some (ok tt)
  unfolding validate_l1_messages
  validate_l1_messages_complete start txs o =
      rw o.split (ordered_accepts start none o.messages o.rest (inl refl) o.consecutive o.only_l2)

  loop-ne-none :
      (saw_l2 : Bool) (next : Option ℕ) (txs : List (ScrollTxEnvelope S))
      → validate_loop saw_l2 next txs ≢ none
  unfolding validate_loop
  loop-ne-none saw_l2 next [] h = cc
  loop-ne-none saw_l2 next (l1_message m ∷ txs) h =
      ground (arith, loop-ne-none saw_l2 (some (wrap_add64 m.queue_index 1)) txs)
  loop-ne-none saw_l2 next (legacy s ∷ txs) h = loop-ne-none true next txs h
  loop-ne-none saw_l2 next (eip2930 s ∷ txs) h = loop-ne-none true next txs h
  loop-ne-none saw_l2 next (eip1559 s ∷ txs) h = loop-ne-none true next txs h
  loop-ne-none saw_l2 next (eip7702 s ∷ txs) h = loop-ne-none true next txs h

  -- The `expect` on the queue index never panics.
  pub validate_l1_messages-ne-none :
      (txs : List (ScrollTxEnvelope S)) → validate_l1_messages txs ≢ none
  unfolding validate_l1_messages
  validate_l1_messages-ne-none txs = loop-ne-none false none txs

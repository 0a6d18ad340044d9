-- ===== src/Types/Transaction.antt =====
-- crates/dogeos-protocol-types/src/transaction/{l1_message, envelope}.rs: the transaction envelope
-- and its view as a Scroll transaction. `S` stands for alloy's signed Ethereum transactions, which
-- the envelope only carries. Addresses and hashes are numbers, byte strings are lists of bytes.
use dogeos_reth.Prelude.{ℕ, Bool, true, false, Option, none, some, List}

pub record TxL1Message : Type 0 where
  pub queue_index : ℕ
  pub gas_limit : ℕ
  pub to : ℕ
  pub value : ℕ
  pub sender : ℕ
  pub input : List ℕ

pub data ScrollTxEnvelope (S : Type 0) : Type 0 where
  legacy eip2930 eip1559 eip7702 : S → ScrollTxEnvelope S
  l1_message : TxL1Message → ScrollTxEnvelope S

-- `ScrollTransaction::is_l1_message`
abbrev pub is_l1_message : {S : Type 0} → ScrollTxEnvelope S → Bool
is_l1_message (legacy _) = false
is_l1_message (eip2930 _) = false
is_l1_message (eip1559 _) = false
is_l1_message (eip7702 _) = false
is_l1_message (l1_message _) = true

-- `ScrollTransaction::queue_index`
abbrev pub queue_index : {S : Type 0} → ScrollTxEnvelope S → Option ℕ
queue_index (legacy _) = none
queue_index (eip2930 _) = none
queue_index (eip1559 _) = none
queue_index (eip7702 _) = none
queue_index (l1_message tx) = some tx.queue_index

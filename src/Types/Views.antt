-- ===== src/Types/Views.antt =====
-- `Transaction`, alloy's trait, as a record of its required methods, with its implementations (the
-- provided method `to`, which two of them repeat from `kind`, is left out), in
-- crates/dogeos-protocol-types/src/transaction/{l1_message, envelope, pooled, typed}.rs. Those of
-- alloy's transactions are a parameter, as are their access lists `A` and authorizations `B`; `U`
-- stands for a transaction without its signature and `S` for one with it.
use mathlib.Core.Path.{subst}
use dogeos_reth.Prelude.{ℕ, ◌≡◌, refl, Bool, false, Option, none, some, List, ok, ok-injective}
use dogeos_reth.Types.Transaction.{TxL1Message, ScrollTxEnvelope}
use dogeos_reth.Types.Pooled.{ScrollPooledTransaction, try_into_pooled, into_scroll_envelope}
use dogeos_reth.Types.TxType.{ScrollTxType}
use dogeos_reth.Types.Envelope
use dogeos_reth.Types.Envelope.{AlloyTransactions}
use dogeos_reth.Types.Rlp.{AlloyRlp}
use dogeos_reth.Types.Pooled

pub data TxKind : Type 0 where
  create : TxKind
  call : ℕ → TxKind

pub record Transaction (A B : Type 0) : Type 0 where
  pub chain_id : Option ℕ
  pub nonce : ℕ
  pub gas_limit : ℕ
  pub gas_price : Option ℕ
  pub max_fee_per_gas : ℕ
  pub max_priority_fee_per_gas : Option ℕ
  pub max_fee_per_blob_gas : Option ℕ
  pub priority_fee_or_price : ℕ
  pub effective_gas_price : Option ℕ → ℕ
  pub is_dynamic_fee : Bool
  pub kind : TxKind
  pub is_create : Bool
  pub value : ℕ
  pub input : List ℕ
  pub access_list : Option A
  pub blob_versioned_hashes : Option (List ℕ)
  pub authorization_list : Option B

-- ScrollTypedTransaction
pub data ScrollTypedTransaction (U : Type 0) : Type 0 where
  legacy eip2930 eip1559 eip7702 : U → ScrollTypedTransaction U
  l1_message : TxL1Message → ScrollTypedTransaction U

-- `From<ScrollTxEnvelope> for ScrollTypedTransaction`; `strip` is alloy's `strip_signature`.
unfoldable pub into_typed : {U S : Type 0} → (S → U) → ScrollTxEnvelope S → ScrollTypedTransaction U
into_typed strip (ScrollTxEnvelope.legacy tx) = legacy (strip tx)
into_typed strip (ScrollTxEnvelope.eip2930 tx) = eip2930 (strip tx)
into_typed strip (ScrollTxEnvelope.eip1559 tx) = eip1559 (strip tx)
into_typed strip (ScrollTxEnvelope.eip7702 tx) = eip7702 (strip tx)
into_typed strip (ScrollTxEnvelope.l1_message tx) = l1_message tx

unfoldable pub typed_tx_type : {U : Type 0} → ScrollTypedTransaction U → ScrollTxType
typed_tx_type (legacy tx) = ScrollTxType.legacy
typed_tx_type (eip2930 tx) = ScrollTxType.eip2930
typed_tx_type (eip1559 tx) = ScrollTxType.eip1559
typed_tx_type (eip7702 tx) = ScrollTxType.eip7702
typed_tx_type (l1_message tx) = ScrollTxType.l1_message

module _ {A B : Type 0} where
  -- `impl Transaction for TxL1Message`
  unfoldable pub transaction_of_l1_message : TxL1Message → Transaction A B
  transaction_of_l1_message tx = record {
    chain_id = none;
    nonce = 0;
    gas_limit = tx.gas_limit;
    gas_price = none;
    max_fee_per_gas = 0;
    max_priority_fee_per_gas = none;
    max_fee_per_blob_gas = none;
    priority_fee_or_price = 0;
    effective_gas_price = λ base_fee. 0;
    is_dynamic_fee = false;
    kind = call tx.to;
    is_create = false;
    value = tx.value;
    input = tx.input;
    access_list = none;
    blob_versioned_hashes = none;
    authorization_list = none;
  }

  module _ {U : Type 0} (methods : U → Transaction A B) where
    -- A method of a variant's transaction.
    abbrev in_typed : {C : Type 0} → (Transaction A B → C) → ScrollTypedTransaction U → C
    in_typed method (ScrollTypedTransaction.legacy tx) = method (methods tx)
    in_typed method (ScrollTypedTransaction.eip2930 tx) = method (methods tx)
    in_typed method (ScrollTypedTransaction.eip1559 tx) = method (methods tx)
    in_typed method (ScrollTypedTransaction.eip7702 tx) = method (methods tx)
    in_typed method (ScrollTypedTransaction.l1_message tx) = method (transaction_of_l1_message tx)

    -- `impl Transaction for ScrollTypedTransaction`
    unfoldable pub transaction_of_typed : ScrollTypedTransaction U → Transaction A B
    transaction_of_typed tx = record {
      chain_id = in_typed (λ t. t.chain_id) tx;
      nonce = in_typed (λ t. t.nonce) tx;
      gas_limit = in_typed (λ t. t.gas_limit) tx;
      gas_price = in_typed (λ t. t.gas_price) tx;
      max_fee_per_gas = in_typed (λ t. t.max_fee_per_gas) tx;
      max_priority_fee_per_gas = in_typed (λ t. t.max_priority_fee_per_gas) tx;
      max_fee_per_blob_gas = in_typed (λ t. t.max_fee_per_blob_gas) tx;
      priority_fee_or_price = in_typed (λ t. t.priority_fee_or_price) tx;
      effective_gas_price = in_typed (λ t. t.effective_gas_price) tx;
      is_dynamic_fee = in_typed (λ t. t.is_dynamic_fee) tx;
      kind = in_typed (λ t. t.kind) tx;
      is_create = in_typed (λ t. t.is_create) tx;
      value = in_typed (λ t. t.value) tx;
      input = in_typed (λ t. t.input) tx;
      access_list = in_typed (λ t. t.access_list) tx;
      blob_versioned_hashes = in_typed (λ t. t.blob_versioned_hashes) tx;
      authorization_list = in_typed (λ t. t.authorization_list) tx;
    }

    module _ {S : Type 0} (tx_of : S → U) where
      -- A method of a variant's transaction.
      abbrev in_envelope : {C : Type 0} → (Transaction A B → C) → ScrollTxEnvelope S → C
      in_envelope method (ScrollTxEnvelope.legacy tx) = method (methods (tx_of tx))
      in_envelope method (ScrollTxEnvelope.eip2930 tx) = method (methods (tx_of tx))
      in_envelope method (ScrollTxEnvelope.eip1559 tx) = method (methods (tx_of tx))
      in_envelope method (ScrollTxEnvelope.eip7702 tx) = method (methods (tx_of tx))
      in_envelope method (ScrollTxEnvelope.l1_message tx) = method (transaction_of_l1_message tx)

      -- `impl Transaction for ScrollTxEnvelope`
      unfoldable pub transaction_of_envelope : ScrollTxEnvelope S → Transaction A B
      transaction_of_envelope tx = record {
        chain_id = in_envelope (λ t. t.chain_id) tx;
        nonce = in_envelope (λ t. t.nonce) tx;
        gas_limit = in_envelope (λ t. t.gas_limit) tx;
        gas_price = in_envelope (λ t. t.gas_price) tx;
        max_fee_per_gas = in_envelope (λ t. t.max_fee_per_gas) tx;
        max_priority_fee_per_gas = in_envelope (λ t. t.max_priority_fee_per_gas) tx;
        max_fee_per_blob_gas = in_envelope (λ t. t.max_fee_per_blob_gas) tx;
        priority_fee_or_price = in_envelope (λ t. t.priority_fee_or_price) tx;
        effective_gas_price = in_envelope (λ t. t.effective_gas_price) tx;
        is_dynamic_fee = in_envelope (λ t. t.is_dynamic_fee) tx;
        kind = in_envelope (λ t. t.kind) tx;
        is_create = in_envelope (λ t. t.is_create) tx;
        value = in_envelope (λ t. t.value) tx;
        input = in_envelope (λ t. t.input) tx;
        access_list = in_envelope (λ t. t.access_list) tx;
        blob_versioned_hashes = in_envelope (λ t. t.blob_versioned_hashes) tx;
        authorization_list = in_envelope (λ t. t.authorization_list) tx;
      }

      -- A method of a variant's transaction.
      abbrev in_pooled : {C : Type 0} → (Transaction A B → C) → ScrollPooledTransaction S → C
      in_pooled method (ScrollPooledTransaction.legacy tx) = method (methods (tx_of tx))
      in_pooled method (ScrollPooledTransaction.eip2930 tx) = method (methods (tx_of tx))
      in_pooled method (ScrollPooledTransaction.eip1559 tx) = method (methods (tx_of tx))
      in_pooled method (ScrollPooledTransaction.eip7702 tx) = method (methods (tx_of tx))

      -- `impl Transaction for ScrollPooledTransaction`
      unfoldable pub transaction_of_pooled : ScrollPooledTransaction S → Transaction A B
      transaction_of_pooled tx = record {
        chain_id = in_pooled (λ t. t.chain_id) tx;
        nonce = in_pooled (λ t. t.nonce) tx;
        gas_limit = in_pooled (λ t. t.gas_limit) tx;
        gas_price = in_pooled (λ t. t.gas_price) tx;
        max_fee_per_gas = in_pooled (λ t. t.max_fee_per_gas) tx;
        max_priority_fee_per_gas = in_pooled (λ t. t.max_priority_fee_per_gas) tx;
        max_fee_per_blob_gas = in_pooled (λ t. t.max_fee_per_blob_gas) tx;
        priority_fee_or_price = in_pooled (λ t. t.priority_fee_or_price) tx;
        effective_gas_price = in_pooled (λ t. t.effective_gas_price) tx;
        is_dynamic_fee = in_pooled (λ t. t.is_dynamic_fee) tx;
        kind = in_pooled (λ t. t.kind) tx;
        is_create = in_pooled (λ t. t.is_create) tx;
        value = in_pooled (λ t. t.value) tx;
        input = in_pooled (λ t. t.input) tx;
        access_list = in_pooled (λ t. t.access_list) tx;
        blob_versioned_hashes = in_pooled (λ t. t.blob_versioned_hashes) tx;
        authorization_list = in_pooled (λ t. t.authorization_list) tx;
      }

      -- What pooling keeps: the envelope, the methods of `Transaction`, the encoding with its announced
      -- length, the type flag, the signature and the type.
      pub record Kept {Sig : Type 0} (rlp : AlloyRlp) (txs : AlloyTransactions S)
          (signature_of : S → Sig) (tx : ScrollTxEnvelope S) (p : ScrollPooledTransaction S)
          : Type 0 where
        pub same_envelope : into_scroll_envelope p ≡ tx
        pub same_pooled : transaction_of_pooled p ≡ transaction_of_envelope tx
        pub same_typed : transaction_of_typed (into_typed tx_of tx) ≡ transaction_of_envelope tx
        pub same_bytes : Pooled.encode_2718 txs p ≡ Envelope.encode_2718 rlp txs tx
        pub same_length : Pooled.encode_2718_len txs p ≡ Envelope.encode_2718_len rlp txs tx
        pub same_flag : Pooled.type_flag p ≡ Envelope.type_flag tx
        pub same_signature :
            some (Pooled.signature signature_of p) ≡ Envelope.signature signature_of tx
        pub same_type : typed_tx_type (into_typed tx_of tx) ≡ Envelope.tx_type tx

      -- A transaction that is pooled comes back as it was, each method of `Transaction` answers alike
      -- for the pooled transaction, the envelope and the typed transaction, and the encoding, its
      -- announced length, the type flag and the signature are those of the envelope; the typed
      -- transaction has the envelope's type.
      pub pooling_keeps :
          {Sig : Type 0} (rlp : AlloyRlp) (txs : AlloyTransactions S) (signature_of : S → Sig)
          (tx : ScrollTxEnvelope S) (p : ScrollPooledTransaction S)
          → try_into_pooled tx ≡ ok p
          → Kept rlp txs signature_of tx p
      unfolding try_into_pooled into_scroll_envelope transaction_of_pooled transaction_of_envelope
          transaction_of_typed into_typed typed_tx_type Pooled.encode_2718 Envelope.encode_2718
          Pooled.encode_2718_len Envelope.encode_2718_len Pooled.type_flag Envelope.type_flag
          Pooled.signature Envelope.signature Envelope.tx_type
      pooling_keeps rlp txs sig (ScrollTxEnvelope.legacy tx) p h =
          subst (Kept rlp txs sig (ScrollTxEnvelope.legacy tx)) (ok-injective _ p h) (record {
            same_envelope = refl;
            same_pooled = refl;
            same_typed = refl;
            same_bytes = refl;
            same_length = refl;
            same_flag = refl;
            same_signature = refl;
            same_type = refl;
          })
      pooling_keeps rlp txs sig (ScrollTxEnvelope.eip2930 tx) p h =
          subst (Kept rlp txs sig (ScrollTxEnvelope.eip2930 tx)) (ok-injective _ p h) (record {
            same_envelope = refl;
            same_pooled = refl;
            same_typed = refl;
            same_bytes = refl;
            same_length = refl;
            same_flag = refl;
            same_signature = refl;
            same_type = refl;
          })
      pooling_keeps rlp txs sig (ScrollTxEnvelope.eip1559 tx) p h =
          subst (Kept rlp txs sig (ScrollTxEnvelope.eip1559 tx)) (ok-injective _ p h) (record {
            same_envelope = refl;
            same_pooled = refl;
            same_typed = refl;
            same_bytes = refl;
            same_length = refl;
            same_flag = refl;
            same_signature = refl;
            same_type = refl;
          })
      pooling_keeps rlp txs sig (ScrollTxEnvelope.eip7702 tx) p h =
          subst (Kept rlp txs sig (ScrollTxEnvelope.eip7702 tx)) (ok-injective _ p h) (record {
            same_envelope = refl;
            same_pooled = refl;
            same_typed = refl;
            same_bytes = refl;
            same_length = refl;
            same_flag = refl;
            same_signature = refl;
            same_type = refl;
          })
      pooling_keeps rlp txs sig (ScrollTxEnvelope.l1_message tx) p h = cc

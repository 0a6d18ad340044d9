-- ===== src/Wire/Signature/Commit.antt =====
-- What the signed bytes of a header commit to.
use dogeos_reth.Prelude.{
  ℕ, ◌<◌, ◌^◌, ◌≡◌, refl, sym, ap, ◌∙◌, ◌↔◌, inl, true, Option, none, some, [], ◌++◌, ok, length,
  length-append, arith,
}
use dogeos_reth.Types.Rlp.{AlloyRlp, IsAlloyRlp, encode-injective}
use dogeos_reth.Wire.Signature.{
  Header, HeaderCodecs, IsHeaderCodecs, Fits, base_fee_length, base_fee_bytes,
  signing_payload_length, signing_fields, signing_bytes,
}

-- The headers agree on what is signed; `extra_data` and the fields after the base fee are not.
pub record IsSameSigned (h h' : Header) : Type 0 where
  pub same_parent_hash : h.parent_hash ≡ h'.parent_hash
  pub same_ommers_hash : h.ommers_hash ≡ h'.ommers_hash
  pub same_beneficiary : h.beneficiary ≡ h'.beneficiary
  pub same_state_root : h.state_root ≡ h'.state_root
  pub same_transactions_root : h.transactions_root ≡ h'.transactions_root
  pub same_receipts_root : h.receipts_root ≡ h'.receipts_root
  pub same_logs_bloom : h.logs_bloom ≡ h'.logs_bloom
  pub same_difficulty : h.difficulty ≡ h'.difficulty
  pub same_number : h.number ≡ h'.number
  pub same_gas_limit : h.gas_limit ≡ h'.gas_limit
  pub same_gas_used : h.gas_used ≡ h'.gas_used
  pub same_timestamp : h.timestamp ≡ h'.timestamp
  pub same_mix_hash : h.mix_hash ≡ h'.mix_hash
  pub same_nonce : h.nonce ≡ h'.nonce
  pub same_base_fee_per_gas : h.base_fee_per_gas ≡ h'.base_fee_per_gas

module _ (rlp : AlloyRlp) (codecs : HeaderCodecs) (laws : IsAlloyRlp rlp)
    (codecs_lem : IsHeaderCodecs codecs) where
  open rlp use {u256}

  length-base_fee :
      (fee : Option ℕ)
      → ((n : ℕ) → fee ≡ some n → n < 2 ^ 64)
      → length (base_fee_bytes rlp codecs fee) ≡ base_fee_length rlp codecs fee
  length-base_fee none fits = refl
  length-base_fee (some fee) fits =
      let small = fits fee refl in laws.u256_codec.length-encode fee (omega arith)

  base_fee-injective :
      (fee fee' : Option ℕ)
      → ((n : ℕ) → fee ≡ some n → n < 2 ^ 64)
      → ((n : ℕ) → fee' ≡ some n → n < 2 ^ 64)
      → base_fee_bytes rlp codecs fee ≡ base_fee_bytes rlp codecs fee'
      → fee ≡ fee'
  base_fee-injective none none fits fits' e = refl
  base_fee-injective none (some fee) fits fits' e =
      let small = fits' fee refl in
      let full = laws.u256_codec.encoded_length_pos fee (omega arith) in
      let exact = laws.u256_codec.length-encode fee (omega arith) in
      let empty = ap (λ l. length l) e in absurd (omega arith)
  base_fee-injective (some fee) none fits fits' e =
      let small = fits fee refl in
      let full = laws.u256_codec.encoded_length_pos fee (omega arith) in
      let exact = laws.u256_codec.length-encode fee (omega arith) in
      let empty = ap (λ l. length l) e in absurd (omega arith)
  base_fee-injective (some fee) (some fee') fits fits' e =
      let small = fits fee refl in
      let small' = fits' fee' refl in
      let same =
        encode-injective laws.u256_codec fee fee' [] [] (omega arith) (omega arith)
          (ap (λ l. l ++ []) e) in
      ap (λ n. some n) same.0

  widen : {n : ℕ} → n < 2 ^ 64 → n < 2 ^ 256
  widen h = omega arith

  length-signing_fields :
      (h : Header)
      → Fits h
      → length (signing_fields rlp codecs h) ≡ signing_payload_length rlp codecs h
  unfolding signing_fields signing_payload_length
  length-signing_fields h f =
      simp
        (
          length-append,
          codecs_lem.b256_codec.length-encode h.parent_hash f.parent_hash_b256,
          codecs_lem.b256_codec.length-encode h.ommers_hash f.ommers_hash_b256,
          laws.address_codec.length-encode h.beneficiary f.beneficiary_address,
          codecs_lem.b256_codec.length-encode h.state_root f.state_root_b256,
          codecs_lem.b256_codec.length-encode h.transactions_root f.transactions_root_b256,
          codecs_lem.b256_codec.length-encode h.receipts_root f.receipts_root_b256,
          codecs_lem.bloom_codec.length-encode h.logs_bloom f.logs_bloom_bits,
          laws.u256_codec.length-encode h.difficulty f.difficulty_u256,
          laws.u256_codec.length-encode h.number (widen f.number_u64),
          laws.u256_codec.length-encode h.gas_limit (widen f.gas_limit_u64),
          laws.u256_codec.length-encode h.gas_used (widen f.gas_used_u64),
          laws.u64_codec.length-encode h.timestamp f.timestamp_u64,
          codecs_lem.b256_codec.length-encode h.mix_hash f.mix_hash_b256,
          codecs_lem.b64_codec.length-encode h.nonce f.nonce_b64,
          length-base_fee h.base_fee_per_gas f.base_fee_u64,
        )
        (omega arith)

  signing_fields-injective :
      (h h' : Header)
      → Fits h
      → Fits h'
      → signing_fields rlp codecs h ≡ signing_fields rlp codecs h'
      → IsSameSigned h h'
  unfolding signing_fields
  signing_fields-injective h h' f f' e =
      let same_0 =
        encode-injective codecs_lem.b256_codec h.parent_hash h'.parent_hash _ _ f.parent_hash_b256
          f'.parent_hash_b256 e in
      let same_1 =
        encode-injective codecs_lem.b256_codec h.ommers_hash h'.ommers_hash _ _ f.ommers_hash_b256
          f'.ommers_hash_b256 same_0.1 in
      let same_2 =
        encode-injective laws.address_codec h.beneficiary h'.beneficiary _ _ f.beneficiary_address
          f'.beneficiary_address same_1.1 in
      let same_3 =
        encode-injective codecs_lem.b256_codec h.state_root h'.state_root _ _ f.state_root_b256
          f'.state_root_b256 same_2.1 in
      let same_4 =
        encode-injective codecs_lem.b256_codec h.transactions_root h'.transactions_root _ _
          f.transactions_root_b256 f'.transactions_root_b256 same_3.1 in
      let same_5 =
        encode-injective codecs_lem.b256_codec h.receipts_root h'.receipts_root _ _
          f.receipts_root_b256 f'.receipts_root_b256 same_4.1 in
      let same_6 =
        encode-injective codecs_lem.bloom_codec h.logs_bloom h'.logs_bloom _ _ f.logs_bloom_bits
          f'.logs_bloom_bits same_5.1 in
      let same_7 =
        encode-injective laws.u256_codec h.difficulty h'.difficulty _ _ f.difficulty_u256
          f'.difficulty_u256 same_6.1 in
      let same_8 =
        encode-injective laws.u256_codec h.number h'.number _ _ (widen f.number_u64)
          (widen f'.number_u64) same_7.1 in
      let same_9 =
        encode-injective laws.u256_codec h.gas_limit h'.gas_limit _ _ (widen f.gas_limit_u64)
          (widen f'.gas_limit_u64) same_8.1 in
      let same_10 =
        encode-injective laws.u256_codec h.gas_used h'.gas_used _ _ (widen f.gas_used_u64)
          (widen f'.gas_used_u64) same_9.1 in
      let same_11 =
        encode-injective laws.u64_codec h.timestamp h'.timestamp _ _ f.timestamp_u64
          f'.timestamp_u64 same_10.1 in
      let same_12 =
        encode-injective codecs_lem.b256_codec h.mix_hash h'.mix_hash _ _ f.mix_hash_b256
          f'.mix_hash_b256 same_11.1 in
      let same_13 =
        encode-injective codecs_lem.b64_codec h.nonce h'.nonce _ _ f.nonce_b64 f'.nonce_b64
          same_12.1 in
      record {
        same_parent_hash = same_0.0;
        same_ommers_hash = same_1.0;
        same_beneficiary = same_2.0;
        same_state_root = same_3.0;
        same_transactions_root = same_4.0;
        same_receipts_root = same_5.0;
        same_logs_bloom = same_6.0;
        same_difficulty = same_7.0;
        same_number = same_8.0;
        same_gas_limit = same_9.0;
        same_gas_used = same_10.0;
        same_timestamp = same_11.0;
        same_mix_hash = same_12.0;
        same_nonce = same_13.0;
        same_base_fee_per_gas =
            base_fee-injective h.base_fee_per_gas h'.base_fee_per_gas f.base_fee_u64 f'.base_fee_u64
              same_13.1;
      }

  decode-signing_bytes :
      (h : Header)
      → Fits h
      → rlp.header.decode (signing_bytes rlp codecs h)
        ≡ ok (
          record { list = true; payload_length = signing_payload_length rlp codecs h },
          signing_fields rlp codecs h,
        )
  unfolding signing_bytes
  decode-signing_bytes h f =
      let exact = length-signing_fields h f in
      laws.decode-header _ (signing_fields rlp codecs h) (omega arith) (inl refl)

  -- The signed bytes of two headers are the same exactly when the headers agree on all that is
  -- signed: a block hash that differs only in `extra_data` or in the fields after the base fee does
  -- not need another signature, and any other change does.
  pub signing_bytes_iff :
      (h h' : Header)
      → Fits h
      → Fits h'
      → (signing_bytes rlp codecs h ≡ signing_bytes rlp codecs h') ↔ IsSameSigned h h'
  unfolding signing_bytes signing_fields signing_payload_length
  signing_bytes_iff h h' f f' = (
    λ e.
        let decoded =
          sym (decode-signing_bytes h f)
          ∙ ap (λ l. rlp.header.decode l) e
          ∙ decode-signing_bytes h' f' in
        signing_fields-injective h h' f f' (cc),
    λ s. rw (
      s.same_parent_hash, s.same_ommers_hash, s.same_beneficiary, s.same_state_root,
      s.same_transactions_root, s.same_receipts_root, s.same_logs_bloom, s.same_difficulty,
      s.same_number, s.same_gas_limit, s.same_gas_used, s.same_timestamp, s.same_mix_hash,
      s.same_nonce, s.same_base_fee_per_gas,
    ),
  )

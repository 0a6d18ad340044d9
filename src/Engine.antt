-- ===== src/Engine.antt =====
-- crates/dogeos-reth-engine/src/validator.rs: what the engine API accepts. alloy's conversion of a
-- payload to a block and the hash of a block are parameters.
pub mod Import
use dogeos_reth.Prelude.{
  ℕ, Bool, Option, Result, ok, err, ◌>>=◌, ◌>>◌, map_err, reject_if, is_some, ltb, ◌==◌,
  if◌then◌else◌,
}
use dogeos_reth.Consensus.{BlockHeader}
use dogeos_reth.Consensus.Body.{Block}

-- `ExecutionData`: its payload with the block hash that it carries, and its sidecar
pub record ExecutionData (P C : Type 0) : Type 0 where
  pub payload : P
  pub sidecar : C

-- The interface of alloy's payload: the hash of `ExecutionPayload::block_hash`, the conversion of
-- `try_into_block_with_sidecar` and `Header::hash_slow`.
pub record PayloadApi (P C X S : Type 0) : Type 0 where
  pub block_hash : P → ℕ
  pub try_into_block_with_sidecar : P → C → Result X (Block S)
  pub hash_slow : Block S → ℕ

pub data NewPayloadError (X : Type 0) : Type 0 where
  payload_error : X → NewPayloadError X
  -- the hash of the block that the payload gives, and the hash that it carries
  block_hash_mismatch : ℕ → ℕ → NewPayloadError X

-- `SealedBlock`
pub record SealedBlock (S : Type 0) : Type 0 where
  pub block : Block S
  pub hash : ℕ

abbrev pub with_difficulty : {S : Type 0} → ℕ → Block S → Block S
with_difficulty difficulty block = record block {
  header = record block.header { difficulty = difficulty };
}

module _ {P C X S : Type 0} (api : PayloadApi P C X S) where
  abbrev sealed_if : Bool → Block S → ℕ → ℕ → Result (NewPayloadError X) (SealedBlock S)
  sealed_if same block block_hash expected_hash =
      if same
      then ok (record { block = block; hash = block_hash })
      else err (block_hash_mismatch block_hash expected_hash)

  unfoldable pub convert_payload_to_block :
      ExecutionData P C → Result (NewPayloadError X) (SealedBlock S)
  convert_payload_to_block data_ = do
    block ← map_err payload_error (api.try_into_block_with_sidecar data_.payload data_.sidecar)
    let fixed = with_difficulty 1 block in
        sealed_if (api.hash_slow fixed == api.block_hash data_.payload) fixed (api.hash_slow fixed)
          (api.block_hash data_.payload)

-- The kind of the message, which `to_error` puts around the error of a version.
pub data MessageValidationKind : Type 0 where
  payload_attributes payload : MessageValidationKind

pub data VersionSpecificValidationError : Type 0 where
  parent_beacon_block_root_not_supported_before_v3 : VersionSpecificValidationError
  has_withdrawals_pre_shanghai : VersionSpecificValidationError

-- The two fields that are read of a payload or of attributes.
pub record EngineFields (W : Type 0) : Type 0 where
  pub parent_beacon_block_root : Option ℕ
  pub withdrawals : Option W

unfoldable pub validate_dogeos_fields :
    {W : Type 0}
    → EngineFields W
    → MessageValidationKind
    → Result (MessageValidationKind × VersionSpecificValidationError) (Unit {0})
validate_dogeos_fields fields kind = do
  reject_if (is_some fields.parent_beacon_block_root)
      (kind, parent_beacon_block_root_not_supported_before_v3)
  reject_if (is_some fields.withdrawals) (kind, has_withdrawals_pre_shanghai)

pub data InvalidPayloadAttributesError : Type 0 where
  invalid_timestamp : InvalidPayloadAttributesError

unfoldable pub validate_payload_attributes_against_header :
    ℕ → BlockHeader → Result InvalidPayloadAttributesError (Unit {0})
validate_payload_attributes_against_header timestamp header =
    reject_if (ltb timestamp header.timestamp) invalid_timestamp

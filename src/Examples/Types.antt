-- ===== src/Examples/Types.antt =====
-- The transaction types with concrete identifiers.
use dogeos_reth.Prelude.{◌≡◌, some, [], ◌∷◌, ◌++◌, arith}
use dogeos_reth.Types.TxType.{
  CompactIds, IsDistinguishing, eip7702, to_compact, from_compact, from_compact-to_compact,
}

abbrev ids : CompactIds
ids = record {
  compact_identifier_legacy = 0;
  compact_identifier_eip2930 = 1;
  compact_identifier_eip1559 = 2;
  compact_extended_identifier_flag = 3;
  eip7702_tx_type_id = 4;
}

distinguishing : IsDistinguishing ids
distinguishing = record {
  eip2930_new = λ h. omega arith;
  eip1559_new = λ h. omega arith;
  eip1559_new' = λ h. omega arith;
  flag_new = λ h. omega arith;
  flag_new' = λ h. omega arith;
  flag_new'' = λ h. omega arith;
  type_new = λ h. omega arith;
}

from_compact-to_compact_example :
    from_compact ids ((to_compact ids eip7702 []).1 ++ 9 ∷ []) (to_compact ids eip7702 []).0
    ≡ some (eip7702, 9 ∷ [])
from_compact-to_compact_example = from_compact-to_compact ids distinguishing eip7702 (9 ∷ [])

-- ===== src/Listeners/Certificates.antt =====
-- `Certificate` and `KeyData` (kubvernor-controller/src/common/mod.rs).
use kubvernor.Prelude.{ℕ, Option, none, some, List}
use kubvernor.Keys.{ResourceKey}

abbrev pub Bytes : Type 0
Bytes = List ℕ

pub record KeyData : Type 0 where
  pub cert : Bytes
  pub private_key : Bytes
  pub root : Option Bytes

pub data Certificate : Type 0 where
  resolved_same_space resolved_cross_space : ResourceKey → KeyData → Certificate
  not_resolved invalid : ResourceKey → Certificate

unfoldable pub resource_key : Certificate → ResourceKey
resource_key (resolved_same_space k _) = k
resource_key (resolved_cross_space k _) = k
resource_key (not_resolved k) = k
resource_key (invalid k) = k

unfoldable pub key_data : Certificate → Option KeyData
key_data (resolved_same_space _ data_) = some data_
key_data (resolved_cross_space _ data_) = some data_
key_data (not_resolved _) = none
key_data (invalid _) = none

unfoldable pub resolve : Certificate → Bytes → Bytes → Certificate
unfolding resource_key
resolve c cert key =
    resolved_same_space (resource_key c) (record { cert = cert; private_key = key; root = none })

unfoldable pub resolve_cross_space : Certificate → Bytes → Bytes → Certificate
unfolding resource_key
resolve_cross_space c cert key =
    resolved_cross_space (resource_key c) (record { cert = cert; private_key = key; root = none })

unfoldable pub to_not_resolved : Certificate → Certificate
unfolding resource_key
to_not_resolved c = not_resolved (resource_key c)

unfoldable pub to_invalid : Certificate → Certificate
unfolding resource_key
to_invalid c = invalid (resource_key c)

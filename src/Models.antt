-- ===== src/Models.antt =====
-- models/types.go: the numbers and names of block and transaction types.
use axia_network_v2_magellan.Prelude.{ℕ}
use axia_network_v2_magellan.Prelude.Text.{Text, codes}

pub data TransactionType : Type 0 where
  base create_asset operation avm_import avm_export : TransactionType
  add_validator add_subnet_validator add_delegator create_chain create_subnet : TransactionType
  pvm_import pvm_export advance_time reward_validator unknown : TransactionType

unfoldable pub string : TransactionType → Text
string base = codes "base"
string create_asset = codes "create_asset"
string operation = codes "operation"
string avm_import = codes "import"
string avm_export = codes "export"
string add_validator = codes "add_validator"
string add_subnet_validator = codes "add_subnet_validator"
string add_delegator = codes "add_delegator"
string create_chain = codes "create_chain"
string create_subnet = codes "create_subnet"
string pvm_import = codes "pvm_import"
string pvm_export = codes "pvm_export"
string advance_time = codes "advance_time"
string reward_validator = codes "reward_validator"
string unknown = codes "unknown"

-- `BlockType`
abbrev pub proposal_type : ℕ
proposal_type = 0

abbrev pub abort_type : ℕ
abort_type = 1

abbrev pub commit_type : ℕ
commit_type = 2

abbrev pub standard_type : ℕ
standard_type = 3

abbrev pub atomic_type : ℕ
atomic_type = 4

-- `AXChainType`: of an address, and of a transaction
abbrev pub axchain_in : ℕ
axchain_in = 1

abbrev pub axchain_out : ℕ
axchain_out = 2

abbrev pub axchain_import : ℕ
axchain_import = 1

abbrev pub axchain_export : ℕ
axchain_export = 2

-- ===== src/Domain/Enums.antt =====
-- States and types of the domain (wallet_ledger/domain/enums.py), with the comparisons that the
-- queries and guards make.
use wallet_ledger_assesment.Base.{Bool, true, false}

pub data EntryType : Type 0 where
  debit credit : EntryType

pub data EntryStatus : Type 0 where
  pending success failed : EntryStatus

pub data TransactionType : Type 0 where
  deposit transfer fx_transfer reversal : TransactionType

pub data TransactionStatus : Type 0 where
  pending success failed reversed : TransactionStatus

abbrev pub is_debit : EntryType → Bool
is_debit EntryType.debit = true
is_debit EntryType.credit = false

abbrev pub is_success : EntryStatus → Bool
is_success EntryStatus.success = true
is_success _ = false

abbrev pub is_pending : EntryStatus → Bool
is_pending EntryStatus.pending = true
is_pending _ = false

abbrev pub is_pending_transaction : TransactionStatus → Bool
is_pending_transaction TransactionStatus.pending = true
is_pending_transaction _ = false

abbrev pub is_success_transaction : TransactionStatus → Bool
is_success_transaction TransactionStatus.success = true
is_success_transaction _ = false

abbrev pub is_reversal : TransactionType → Bool
is_reversal TransactionType.reversal = true
is_reversal _ = false

-- ===== src/Store/Models.antt =====
-- The rows of the tables (wallet_ledger/models/*.py).
use wallet_ledger_assesment.Base.{ℕ, ◌+◌, ◌*◌, ◌^◌, Bool, String, Option, none}
use wallet_ledger_assesment.Base.Int.{ℤ, neg, abs}
use wallet_ledger_assesment.Domain.Enums.{
  EntryType, EntryStatus, TransactionType, TransactionStatus,
}
use wallet_ledger_assesment.Domain.Aggregates.{Metadata}

-- `number` is the ten digits read as a number; there is no column for a balance.
pub record Account : Type 0 where
  pub id : ℕ
  pub number : ℕ
  pub owner_id : String
  pub currency : String

-- `_generate_account_number` at what `secrets.randbelow(10**9)` returned: "2" and nine digits.
unfoldable pub generate_account_number : ℕ → ℕ
generate_account_number drawn = 2 * 10 ^ 9 + drawn

-- The `details` column, by the service that wrote it.
pub data Details : Type 0 where
  no_details : Details
  parties : (sender_id receiver_id : ℕ) → Details
  deposit_to :
      (provider : String) (account_id : ℕ) (operator phone_number : Option String) → Details
  exchange : (sender_id receiver_id : ℕ) (target_amount : ℤ) (target_currency : String) → Details
  reverses : (transaction_id : ℕ) → Details

-- The reference of a transaction at a provider, which may be null.
abbrev pub Reference : Type 0
Reference = Option String

pub record Transaction : Type 0 where
  pub id : ℕ
  pub transaction_type : TransactionType
  pub status : TransactionStatus
  pub amount : ℤ
  pub currency : String
  pub details : Details
  pub reference : Reference
  pub correlation_id : Option ℕ

pub record LedgerEntry : Type 0 where
  pub seq : ℕ
  pub account_id : ℕ
  pub transaction_id : ℕ
  pub amount : ℤ
  pub entry_type : EntryType
  pub status : EntryStatus
  pub currency : String
  pub metadata : Option Metadata

-- `LedgerEntry.debit` and `LedgerEntry.credit`, which decide the sign; the sequence number comes last.
abbrev pub debit_entry : ℕ → ℕ → ℤ → String → EntryStatus → ℕ → LedgerEntry
debit_entry account_id transaction_id amount currency status seq = record {
  seq = seq;
  account_id = account_id;
  transaction_id = transaction_id;
  amount = neg (abs amount);
  entry_type = EntryType.debit;
  status = status;
  currency = currency;
  metadata = none;
}

abbrev pub credit_entry : ℕ → ℕ → ℤ → String → EntryStatus → ℕ → LedgerEntry
credit_entry account_id transaction_id amount currency status seq = record {
  seq = seq;
  account_id = account_id;
  transaction_id = transaction_id;
  amount = abs amount;
  entry_type = EntryType.credit;
  status = status;
  currency = currency;
  metadata = none;
}

pub record BalanceSnapshot : Type 0 where
  pub account_id : ℕ
  pub balance : ℤ
  pub last_entry_seq : ℕ
  pub entry_count : ℕ

pub record Notification : Type 0 where
  pub channel : String
  pub recipient : String
  pub event_type : String
  pub sent : Bool
  pub correlation_id : Option ℕ

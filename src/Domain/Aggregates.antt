-- ===== src/Domain/Aggregates.antt =====
-- Aggregate roots (wallet_ledger/domain/aggregates.py): `TransactionAggregate` owns its lines and
-- imposes double entry, `AccountAggregate` refuses a debit that is not covered.
pub mod Balance
use wallet_ledger_assesment.Base.{ℕ, Bool, String, Option, none, List, [], ◌∷◌, ◌++◌, if◌then◌else◌}
use wallet_ledger_assesment.Base.Int.{ℤ, pos, ◌+ℤ◌, neg, abs, eqb_ℤ}
use wallet_ledger_assesment.Base.Text.{str_eq}
use wallet_ledger_assesment.Domain.Enums.{EntryType, EntryStatus}
use wallet_ledger_assesment.Domain.Errors.{
  Result, ok, err, ◌>>=◌, ledger_not_balanced, insufficient_funds,
}
use wallet_ledger_assesment.Domain.Money.{Money, lt}

-- A JSON object of text values.
abbrev pub Metadata : Type 0
Metadata = List (String × String)

pub record PostingLine : Type 0 where
  pub account_id : ℕ
  pub amount : ℤ
  pub entry_type : EntryType
  pub currency : String
  pub status : EntryStatus
  pub metadata : Option Metadata

pub record TransactionAggregate : Type 0 where
  pub currency : String
  pub lines : List PostingLine

-- `__init__`
abbrev pub new_aggregate : String → TransactionAggregate
new_aggregate currency = record { currency = currency; lines = [] }

unfoldable pub record_line :
    ℕ
    → ℤ
    → EntryType
    → String
    → EntryStatus
    → Option Metadata
    → TransactionAggregate
    → TransactionAggregate
record_line account_id amount entry_type currency status metadata t = record t {
  lines =
      t.lines
      ++ (record {
        account_id = account_id;
        amount = amount;
        entry_type = entry_type;
        currency = currency;
        status = status;
        metadata = metadata;
      }
          ∷ []);
}

-- A debit is negative and a credit positive, whatever the sign of the amount.
unfoldable pub debit : ℕ → Money → TransactionAggregate → TransactionAggregate
unfolding record_line
debit account_id m =
    record_line account_id (neg (abs m.amount)) EntryType.debit m.currency EntryStatus.success none

unfoldable pub credit : ℕ → Money → TransactionAggregate → TransactionAggregate
unfolding record_line
credit account_id m =
    record_line account_id (abs m.amount) EntryType.credit m.currency EntryStatus.success none

-- The dictionary of totals, in the order of first use.
abbrev pub Totals : Type 0
Totals = List (String × ℤ)

-- `totals[currency] += amount`, from zero where the key is new.
add_total : String → ℤ → Totals → Totals
add_total c x [] = (c, pos 0 +ℤ x) ∷ []
add_total c x ((d, y) ∷ t) =
    let rest = add_total c x t in if str_eq d c then (d, y +ℤ x) ∷ t else (d, y) ∷ rest

totals_from : List PostingLine → Totals → Totals
totals_from [] t = t
totals_from (l ∷ ls) t = totals_from ls (add_total l.currency l.amount t)

-- The first total that is not zero is reported.
check_totals : Totals → Result (Unit {0})
check_totals [] = ok tt
check_totals ((c, total) ∷ t) =
    let rest = check_totals t in if eqb_ℤ total (pos 0) then rest else err ledger_not_balanced

unfoldable pub assert_balanced : TransactionAggregate → Result (Unit {0})
unfolding add_total totals_from check_totals
assert_balanced t = check_totals (totals_from t.lines [])

-- `AccountAggregate`: its identity plays no part in the rule.
pub record AccountAggregate : Type 0 where
  pub account_id : ℕ
  pub currency : String

unfoldable pub ensure_can_debit : AccountAggregate → Money → Money → Result (Unit {0})
ensure_can_debit a amount available = do
  short ← lt available amount
  if short then err insufficient_funds else ok tt

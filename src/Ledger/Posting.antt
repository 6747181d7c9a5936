-- ===== src/Ledger/Posting.antt =====
-- Posting conserves money: `post` writes rows that sum to zero in every currency, or nothing.
use wallet_ledger_assesment.Base.{
  ℕ, suc, ◌≡◌, refl, ◌⊎◌, inl, inr, sym, ap, ◌∙◌, Bool, true, false, ◌&&◌, String, List, [], ◌∷◌,
  ◌++◌, map, if◌then◌else◌,
}
use wallet_ledger_assesment.Base.Int.{zero-+ℤ, pos, ◌+ℤ◌, +ℤ-zero}
use wallet_ledger_assesment.Base.Lists.{All}
use wallet_ledger_assesment.Base.Text.{str_eq}
use wallet_ledger_assesment.Domain.Enums.{EntryStatus, is_success}
use wallet_ledger_assesment.Domain.Errors.{>>=-eq-ok, ok, err, ok-injective, ledger_not_balanced}
use wallet_ledger_assesment.Domain.Aggregates.{PostingLine, TransactionAggregate, assert_balanced}
use wallet_ledger_assesment.Domain.Aggregates.Balance.{
  line_total, assert_balanced_iff, assert_balanced-cases,
}
use wallet_ledger_assesment.Store.{Db, add_entry, add_entries}
use wallet_ledger_assesment.Store.Models.{LedgerEntry}
use wallet_ledger_assesment.Store.Sums.{sum_where, sum_where-append}
use wallet_ledger_assesment.Ledger.{entry_of_line, post}
use wallet_ledger_assesment.Ledger.Numbering.{
  IsRow, numbered, add_entries-entries, add_entries-transactions,
}

-- All rows of the ledger in one currency, and the settled ones.
abbrev pub in_currency : String → LedgerEntry → Bool
in_currency c e = str_eq e.currency c

abbrev pub settled_in : String → LedgerEntry → Bool
settled_in c e = str_eq e.currency c && is_success e.status

-- Double entry over the whole ledger: the settled rows of every currency sum to zero.
pub record IsBalanced (db : Db) : Type 0 where
  pub at : (c : String) → sum_where (settled_in c) db.entries ≡ pos 0

-- The rows of a transaction sum to what its lines sum to.
pub rows-line_total :
    (c : String) (id : ℕ) (lines : List PostingLine) (n : ℕ)
    → sum_where (in_currency c) (numbered (map (entry_of_line id) lines) n) ≡ line_total c lines
rows-line_total c id [] n = refl
rows-line_total c id (l ∷ ls) n = rw (rows-line_total c id ls (suc n))

-- A line that is settled at once, as `debit` and `credit` of the aggregate make it.
abbrev pub IsSettled : PostingLine → Type 0
IsSettled l = l.status ≡ EntryStatus.success

and_true : (b : Bool) → (b && true) ≡ b
and_true true = refl
and_true false = refl

pub settled_rows-line_total :
    (c : String) (id : ℕ) (lines : List PostingLine) (n : ℕ)
    → All IsSettled lines
    → sum_where (settled_in c) (numbered (map (entry_of_line id) lines) n) ≡ line_total c lines
settled_rows-line_total c id [] n h = refl
settled_rows-line_total c id (l ∷ ls) n h =
    rw (settled_rows-line_total c id ls (suc n) h.1, h.0)
      (ap (λ (b : Bool). (if b then l.amount else pos 0) +ℤ line_total c ls) (and_true _))

pub rows-IsRow : (id : ℕ) (lines : List PostingLine) → All IsRow (map (entry_of_line id) lines)
rows-IsRow id [] = tt
rows-IsRow id (l ∷ ls) = (λ n. refl, rows-IsRow id ls)

-- What a post that returns has done.
pub post-ok :
    (t : TransactionAggregate) (id : ℕ) (db db' : Db)
    → post t id db ≡ ok db'
    → (db' ≡ add_entries (map (entry_of_line id) t.lines) db)
      × ((c : String) → line_total c t.lines ≡ pos 0)
unfolding post
post-ok t id db db' e =
    let (u, checked, done) = >>=-eq-ok (assert_balanced t) _ e in
    (sym (ok-injective done), (assert_balanced_iff t).0 checked)

pub post-transactions :
    (t : TransactionAggregate) (id : ℕ) (db db' : Db)
    → post t id db ≡ ok db'
    → db'.transactions ≡ db.transactions
post-transactions t id db db' e =
    ap (λ (x : Db). x.transactions) (post-ok t id db db' e).0
    ∙ add_entries-transactions (map (entry_of_line id) t.lines) db

pub add_entries-accounts :
    (es : List (ℕ → LedgerEntry)) (db : Db) → (add_entries es db).accounts ≡ db.accounts
add_entries-accounts [] db = refl
add_entries-accounts (e ∷ es) db = add_entries-accounts es (add_entry e db)

add_entries-next_id :
    (es : List (ℕ → LedgerEntry)) (db : Db) → (add_entries es db).next_id ≡ db.next_id
add_entries-next_id [] db = refl
add_entries-next_id (e ∷ es) db = add_entries-next_id es (add_entry e db)

pub post-next_id :
    (t : TransactionAggregate) (id : ℕ) (db db' : Db)
    → post t id db ≡ ok db'
    → db'.next_id ≡ db.next_id
post-next_id t id db db' e =
    ap (λ (x : Db). x.next_id) (post-ok t id db db' e).0
    ∙ add_entries-next_id (map (entry_of_line id) t.lines) db

pub post-accounts :
    (t : TransactionAggregate) (id : ℕ) (db db' : Db)
    → post t id db ≡ ok db'
    → db'.accounts ≡ db.accounts
post-accounts t id db db' e =
    ap (λ (x : Db). x.accounts) (post-ok t id db db' e).0
    ∙ add_entries-accounts (map (entry_of_line id) t.lines) db

not_ok :
    (t : TransactionAggregate)
    → assert_balanced t ≡ err ledger_not_balanced
    → ¬ (assert_balanced t ≡ ok tt)
not_ok t bad good = cc

-- The sum of every currency after balanced lines.
post-sum :
    (t : TransactionAggregate) (id : ℕ) (db : Db) (c : String)
    → line_total c t.lines ≡ pos 0
    → sum_where (in_currency c) (add_entries (map (entry_of_line id) t.lines) db).entries
      ≡ sum_where (in_currency c) db.entries
post-sum t id db c h =
    rw
      (
        add_entries-entries (map (entry_of_line id) t.lines) db,
        sum_where-append,
        rows-line_total c id t.lines db.next_seq,
        h,
      )
      (+ℤ-zero _)

-- A post is refused as unbalanced, or it writes exactly the lines of the aggregate, in order, and
-- the sum of all rows of each currency is what it was.
pub post-conserves :
    (t : TransactionAggregate) (id : ℕ) (db : Db)
    → ((post t id db ≡ err ledger_not_balanced) × ¬ ((c : String) → line_total c t.lines ≡ pos 0))
      ⊎ ((db' : Db) × (post t id db ≡ ok db')
          × (db'.entries ≡ db.entries ++ numbered (map (entry_of_line id) t.lines) db.next_seq)
          × ((c : String)
              → sum_where (in_currency c) db'.entries ≡ sum_where (in_currency c) db.entries))
unfolding post
post-conserves t id db = elim (assert_balanced-cases t) [
  | inl good ↦ inr (
    add_entries (map (entry_of_line id) t.lines) db,
    rw good,
    add_entries-entries (map (entry_of_line id) t.lines) db,
    λ c. post-sum t id db c ((assert_balanced_iff t).0 good c),
  )
  | inr bad ↦ inl (rw bad, λ zero_sums. not_ok t bad ((assert_balanced_iff t).1 zero_sums))
]

-- A post of settled lines keeps the settled rows of every currency at zero.
pub post-IsBalanced :
    (t : TransactionAggregate) (id : ℕ) (db db' : Db)
    → All IsSettled t.lines
    → post t id db ≡ ok db'
    → IsBalanced db
    → IsBalanced db'
post-IsBalanced t id db db' settled_lines e h =
    let (is, zero_sums) = post-ok t id db db' e in
    rw is (record {
      at = λ c.
          rw
            (
              add_entries-entries (map (entry_of_line id) t.lines) db,
              sum_where-append,
              settled_rows-line_total c id t.lines db.next_seq settled_lines,
              zero_sums c,
              h.at c,
            )
            (zero-+ℤ _);
    })

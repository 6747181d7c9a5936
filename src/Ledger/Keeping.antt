-- ===== src/Ledger/Keeping.antt =====
-- Cutting snapshots changes no row and no balance.
use wallet_ledger_assesment.Base.{ℕ, ◌<◌, ◌≡◌, refl, sym, ap, ◌∙◌, List, [], ◌∷◌}
use wallet_ledger_assesment.Base.Lists.{All, All-append}
use wallet_ledger_assesment.Domain.Errors.{ok, ok-injective, >>=-eq-ok}
use wallet_ledger_assesment.Store.{Db}
use wallet_ledger_assesment.Store.Models.{Account, LedgerEntry, BalanceSnapshot}
use wallet_ledger_assesment.Store.Sums.{sum_where}
use wallet_ledger_assesment.Ledger.{balance_amount, maybe_snapshot, snapshot_all}
use wallet_ledger_assesment.Ledger.Snapshots.{AllSound, settled, balance-eq-full}
use wallet_ledger_assesment.Ledger.Cutting.{
  Cut, Cut-IsSound, Cut-balance, maybe_snapshot-Cut, maybe_snapshot-ok, with_snapshot, kept, cut,
}

-- What a step of the ledger may not touch: everything but the snapshots.
pub record SameRows (db db' : Db) : Type 0 where
  pub accounts : db'.accounts ≡ db.accounts
  pub transactions : db'.transactions ≡ db.transactions
  pub entries : db'.entries ≡ db.entries
  pub notifications : db'.notifications ≡ db.notifications
  pub next_seq : db'.next_seq ≡ db.next_seq
  pub next_id : db'.next_id ≡ db.next_id

pub SameRows-refl : (db : Db) → SameRows db db
SameRows-refl db = record {
  accounts = refl;
  transactions = refl;
  entries = refl;
  notifications = refl;
  next_seq = refl;
  next_id = refl;
}

SameRows-snapshots : (db : Db) (s : BalanceSnapshot) → SameRows db (with_snapshot s db)
SameRows-snapshots db s = record {
  accounts = refl;
  transactions = refl;
  entries = refl;
  notifications = refl;
  next_seq = refl;
  next_id = refl;
}

pub SameRows-trans : {db db' db'' : Db} → SameRows db db' → SameRows db' db'' → SameRows db db''
SameRows-trans h k = record {
  accounts = k.accounts ∙ h.accounts;
  transactions = k.transactions ∙ h.transactions;
  entries = k.entries ∙ h.entries;
  notifications = k.notifications ∙ h.notifications;
  next_seq = k.next_seq ∙ h.next_seq;
  next_id = k.next_id ∙ h.next_id;
}

pub Cut-SameRows : {a : ℕ} {db db' : Db} → Cut a db db' → SameRows db db'
Cut-SameRows {a} {db} (kept e) = rw e (SameRows-refl db)
Cut-SameRows {a} {db} (cut s e _ _ _ _ _) = rw e (SameRows-snapshots db s)

Cut-cursors :
    {a : ℕ} {db db' : Db}
    → Cut a db db'
    → AllSound db
    → All (λ s. s.last_entry_seq < db.next_seq) db'.snapshots
Cut-cursors (kept e) h = rw e h.cursors
Cut-cursors {a} {db} (cut s e _ _ _ _ bound) h = rw e (
    All-append (λ (t : BalanceSnapshot). t.last_entry_seq < db.next_seq) db.snapshots (s ∷ [])
      h.cursors (bound db.next_seq h.rows, tt))

pub maybe_snapshot-AllSound :
    (threshold : ℕ) (account : Account) (db db' : Db)
    → AllSound db
    → maybe_snapshot threshold account db ≡ ok db'
    → AllSound db' × SameRows db db'
maybe_snapshot-AllSound threshold account db db' h e =
    let c = maybe_snapshot-Cut threshold account db db' e in
    let same = Cut-SameRows c in
    (
      record {
        at = λ b. Cut-IsSound b c (h.at b);
        started = rw same.next_seq h.started;
        rows = rw (same.next_seq, same.entries) h.rows;
        increasing = rw same.entries h.increasing;
        cursors = rw same.next_seq (Cut-cursors c h);
      },
      same,
    )

-- With a positive threshold, cutting succeeds, changes nothing but the snapshots, keeps every
-- snapshot sound, and leaves every account's balance what it was.
pub maybe_snapshot-keeps :
    (threshold : ℕ) (account : Account) (db : Db)
    → 0 < threshold
    → AllSound db
    → (db' : Db) × (maybe_snapshot threshold account db ≡ ok db')
      × AllSound db'
      × SameRows db db'
      × ((a : ℕ) → balance_amount a db' ≡ balance_amount a db)
maybe_snapshot-keeps threshold account db positive h =
    let (db', e) = maybe_snapshot-ok threshold account db positive in
    let (sound, same) = maybe_snapshot-AllSound threshold account db db' h e in
    (
      db',
      e,
      sound,
      same,
      λ a.
          balance-eq-full a db' (sound.at a)
          ∙ ap (λ (es : List LedgerEntry). sum_where (settled a) es) same.entries
          ∙ sym (balance-eq-full a db (h.at a)),
    )

-- The same for a list of accounts.
pub snapshot_all-keeps :
    (threshold : ℕ) (accounts : List Account) (db : Db)
    → 0 < threshold
    → AllSound db
    → (db' : Db) × (snapshot_all threshold accounts db ≡ ok db') × AllSound db' × SameRows db db'
unfolding snapshot_all
snapshot_all-keeps threshold [] db positive h = (db, refl, h, SameRows-refl db)
snapshot_all-keeps threshold (a ∷ accounts) db positive h =
    let (db', e, sound, same, _) = maybe_snapshot-keeps threshold a db positive h in
    let (db'', e', sound', same') = snapshot_all-keeps threshold accounts db' positive sound in
    (db'', rw e e', sound', SameRows-trans same same')

-- Without any assumption on the snapshots, cutting keeps the rows and every computed balance.
pub snapshot_all-balance :
    (threshold : ℕ) (accounts : List Account) (db db' : Db)
    → snapshot_all threshold accounts db ≡ ok db'
    → SameRows db db' × ((a : ℕ) → balance_amount a db' ≡ balance_amount a db)
unfolding snapshot_all
snapshot_all-balance threshold [] db db' e = rw (← ok-injective e) (SameRows-refl db, λ a. refl)
snapshot_all-balance threshold (x ∷ accounts) db db' e =
    let (db1, e1, rest) = >>=-eq-ok (maybe_snapshot threshold x db) _ e in
    let c = maybe_snapshot-Cut threshold x db db1 e1 in
    let (same, balances) = snapshot_all-balance threshold accounts db1 db' rest in
    (SameRows-trans (Cut-SameRows c) same, λ a. balances a ∙ Cut-balance a c)

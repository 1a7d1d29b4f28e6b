-- ===== src/Auth/Register/Sound.antt =====
-- A registration keeps the points tables sound.
use jito_india_game.Auth.{Libraries, RegisterDto, UserProfile}
use jito_india_game.Auth.Register.{
  RegisterOthers, RegisterStamp, new_account, new_user, register_user,
}
use jito_india_game.Auth.Register.Created.{RegisterAccounts, register_creates_both, with_player}
use jito_india_game.Database.{Db, Outcome, PointsAccount, PointsTransaction, User, err, ok}
use jito_india_game.Database.Statements.{find_account_by_id}
use jito_india_game.Points.Invariant.{IsSound}
use jito_india_game.Points.Reconciliation.{compute_ledger_derived_balance}
use jito_india_game.Prelude.{
  List, [], any, arith, false, inl, inr, none, refl, sym, ℕ, ◌==◌, ◌||◌, ◌∙◌, ◌∷◌, ◌≡◌,
}
use jito_india_game.Prelude.Int.{pos}
use mathlib.Core.Path.{subst}

no_rows :
    (i : ℕ) (ts : List PointsTransaction)
    → any (λ t. t.account_id == i) ts ≡ false
    → compute_ledger_derived_balance i ts ≡ pos 0
unfolding compute_ledger_derived_balance
no_rows i [] h = refl
no_rows i (t ∷ ts) h = ground (arith, no_rows i ts)

new_id :
    (a : PointsAccount) (accounts : List PointsAccount)
    → any (λ b. b.id == a.id || b.user_id == a.user_id) accounts ≡ false
    → find_account_by_id a.id accounts ≡ none
unfolding find_account_by_id
new_id a [] h = refl
new_id a (b ∷ more) h = ground (arith, new_id a more)

with_player-IsSound :
    (u : User) (a : PointsAccount) (db : Db)
    → a.balance_minor ≡ pos 0
    → any (λ b. b.id == a.id || b.user_id == a.user_id) db.accounts ≡ false
    → any (λ t. t.account_id == a.id) db.transactions ≡ false
    → IsSound db
    → IsSound (with_player u a db)
with_player-IsSound u a db zero_balance fresh unused s = record {
  balances = (
    (zero_balance ∙ sym (no_rows a.id db.transactions unused), rw zero_balance (omega arith)),
    s.balances,
  );
  ids = (new_id a db.accounts fresh, s.ids);
  keys = s.keys;
  rows = s.rows;
}

RegisterAccounts-IsSound :
    (u : User) (a : PointsAccount) (db m : Db) (o : Outcome UserProfile)
    → a.balance_minor ≡ pos 0
    → any (λ t. t.account_id == a.id) m.transactions ≡ false
    → IsSound db
    → IsSound m
    → RegisterAccounts u a db m o
    → IsSound o.1
RegisterAccounts-IsSound u a db m (ok p, db') zero_balance unused s s' (_, c) =
    subst IsSound (sym c.table) (with_player-IsSound u a m zero_balance c.new_account_row unused s')
RegisterAccounts-IsSound u a db m (err e, db') zero_balance unused s s' (inl same) =
    subst IsSound (sym same) s
RegisterAccounts-IsSound u a db m (err e, db') zero_balance unused s s' (inr same) =
    subst IsSound (sym same) s'

-- A registration keeps the points tables sound on every path, if the requests that commit meanwhile
-- do, as long as no ledger row has the identifier of the new points account yet.
pub register_user-IsSound :
    (lib : Libraries) (others : RegisterOthers) (stamp : RegisterStamp) (dto : RegisterDto)
    (db : Db)
    → any (λ t. t.account_id == stamp.account_uuid) (others.before_create db).transactions ≡ false
    → IsSound db
    → IsSound (others.before_create db)
    → IsSound (register_user others (new_user lib stamp dto) (new_account stamp) db).1
register_user-IsSound lib others stamp dto db unused s s' =
    RegisterAccounts-IsSound (new_user lib stamp dto) (new_account stamp) db
      (others.before_create db) _ refl unused s s'
      (register_creates_both others (new_user lib stamp dto) (new_account stamp) db)

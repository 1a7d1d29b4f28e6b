-- ===== src/Examples.antt =====
-- A database with one player, one open round and one audited credit, for runs of the operations.
mod Ledger
mod Placement
mod Adjustment
mod Engine
mod Authentication
mod Revocation
mod Players
use Prim.Native.String.{String}
use jito_india_game.Admin.{find_admin_log}
use jito_india_game.Database.{
  AdminLog, AdminUser, Db, GameRound, PointsAccount, PointsTransaction, User, UserStatus,
  admin_credit, betting_open, credit, operator, triple_chance_timer,
}
use jito_india_game.Database.Statements.{find_account_by_id, find_transaction}
use jito_india_game.Points.Invariant.{IsSound}
use jito_india_game.Points.Ledger.{Others, Stamp, apply_direction}
use jito_india_game.Points.Reconciliation.{compute_ledger_derived_balance, signed_amount}
use jito_india_game.Prelude.{
  [], arith, false, if◌then◌else◌, none, refl, some, true, ℕ, ◌==◌, ◌∷◌, ◌≡◌,
}
use jito_india_game.Prelude.Int.{pos, ◌+ℤ◌}
use jito_india_game.System.Sound.{IsSystemSound}

abbrev pub player : ℕ
player = 1

abbrev pub admin : ℕ
admin = 2

abbrev pub account : PointsAccount
account = record {
  id = 10;
  user_id = player;
  balance_minor = pos 1000;
  version = 1;
  updated_at = 5;
}

abbrev pub first_credit : PointsTransaction
first_credit = record {
  id = 100;
  account_id = 10;
  direction = credit;
  amount_minor = pos 1000;
  balance_before_minor = pos 0;
  balance_after_minor = pos 1000;
  reference_type = admin_credit;
  reference_id = some 200;
  idempotency_key = "first";
  description = some "welcome";
  created_at = 5;
}

abbrev pub first_log : AdminLog
first_log = record {
  id = 200;
  admin_id = admin;
  target_id = player;
  ip_address = "10.0.0.1";
  direction = credit;
  amount_minor = pos 1000;
  reason = "welcome";
}

abbrev pub betting_round : GameRound
betting_round = record {
  id = 300;
  game_id = triple_chance_timer;
  round_number = 1;
  display_code = "TC1";
  state = betting_open;
  state_version = 1;
  opens_at = 5;
  betting_deadline = 60;
  locked_at = none;
}

abbrev pub player_row : User
player_row = record {
  id = player;
  username = "asha";
  email = some "asha@example.com";
  phone = none;
  password_hash = "hash:secret77";
  display_name = none;
  status = UserStatus.active;
  failed_login_count = 9;
  locked_until = none;
  last_login_at = none;
  created_at = 1;
}

abbrev pub admin_row : AdminUser
admin_row = record {
  id = admin;
  username = "root";
  password_hash = "hash:admin777";
  role = operator;
  is_active = true;
  last_login_at = none;
}

abbrev pub start : Db
start = record {
  users = player_row ∷ [];
  accounts = account ∷ [];
  transactions = first_credit ∷ [];
  bets = [];
  bet_items = [];
  rounds = betting_round ∷ [];
  admin_logs = first_log ∷ [];
  admin_users = admin_row ∷ [];
  sessions = [];
}

pub start-IsSound : IsSound start
unfolding compute_ledger_derived_balance signed_amount apply_direction ◌+ℤ◌ find_account_by_id
    find_transaction
start-IsSound = record {
  balances = ((refl, omega arith), tt);
  ids = (refl, tt);
  keys = (refl, tt);
  rows = ((omega arith, refl, omega arith), tt);
}

pub start-IsSystemSound : IsSystemSound start
unfolding find_admin_log
start-IsSystemSound = record {
  service = record {
    points = start-IsSound;
    bets = record { owned = tt; references = (λ i e. absurd (false-ne-true e), tt); paid = tt };
  };
  audited = (
    λ e. record {
      log_id = 200;
      log = first_log;
      refers = refl;
      found = refl;
      direction = refl;
      amount = refl;
    },
    tt,
  );
}
  where
    false-ne-true : false ≡ true → ⊥
    false-ne-true e = cc

-- No other request commits.
abbrev pub alone : Others
alone = record { before_lock = λ db. db; before_reread = λ db. db }

abbrev pub ledger_stamp : Stamp
ledger_stamp = record { uuid = 101; now = 20 }

abbrev pub retry_stamp : Stamp
retry_stamp = record { uuid = 102; now = 30 }

-- The texts of the identifiers that the runs use.
abbrev pub uuid_text : ℕ → String
uuid_text i = if i == 400 then "00000000-0400" else "00000000-0300"

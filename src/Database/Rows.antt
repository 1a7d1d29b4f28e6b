-- ===== src/Database/Rows.antt =====
-- One record per table, with the columns that the modelled code uses.
use Prim.Native.String.{String}
use jito_india_game.Prelude.{Bool, List, Option, ℕ}
use jito_india_game.Prelude.Int.{ℤ}

pub data TxnDirection : Type 0 where
  credit debit : TxnDirection

pub data TxnRefType : Type 0 where
  bet_placed bet_refund settlement_win admin_credit admin_debit : TxnRefType

pub record PointsAccount : Type 0 where
  pub id : ℕ
  pub user_id : ℕ
  pub balance_minor : ℤ
  pub version : ℕ
  pub updated_at : ℕ

pub record PointsTransaction : Type 0 where
  pub id : ℕ
  pub account_id : ℕ
  pub direction : TxnDirection
  pub amount_minor : ℤ
  pub balance_before_minor : ℤ
  pub balance_after_minor : ℤ
  pub reference_type : TxnRefType
  pub reference_id : Option ℕ
  pub idempotency_key : String
  pub description : Option String
  pub created_at : ℕ

pub data BetCategory : Type 0 where
  singles doubles triples : BetCategory

pub data BetStatus : Type 0 where
  accepted settled refunded : BetStatus

pub record Bet : Type 0 where
  pub id : ℕ
  pub user_id : ℕ
  pub round_id : ℕ
  pub total_amount_minor : ℤ
  pub status : BetStatus
  pub idempotency_key : String
  pub accepted_at : ℕ

pub record BetItem : Type 0 where
  pub bet_id : ℕ
  pub category : BetCategory
  pub selection : ℤ
  pub amount_minor : ℤ

pub data GameId : Type 0 where
  triple_chance_timer triple_chance_pro_timer : GameId

pub data RoundState : Type 0 where
  round_created betting_open betting_active betting_locked result_pending : RoundState
  result_published settlement_pending round_completed round_void : RoundState

pub record GameRound : Type 0 where
  pub id : ℕ
  pub game_id : GameId
  pub round_number : ℕ
  pub display_code : String
  pub state : RoundState
  pub state_version : ℕ
  pub opens_at : ℕ
  pub betting_deadline : ℕ
  pub locked_at : Option ℕ

pub record AdminLog : Type 0 where
  pub id : ℕ
  pub admin_id : ℕ
  pub target_id : ℕ
  pub ip_address : String
  pub direction : TxnDirection
  pub amount_minor : ℤ
  pub reason : String

pub data UserStatus : Type 0 where
  active suspended banned : UserStatus

pub record User : Type 0 where
  pub id : ℕ
  pub username : String
  pub email : Option String
  pub phone : Option String
  pub password_hash : String
  pub display_name : Option String
  pub status : UserStatus
  pub failed_login_count : ℕ
  pub locked_until : Option ℕ
  pub last_login_at : Option ℕ
  pub created_at : ℕ

pub data AdminRole : Type 0 where
  super_admin operator viewer : AdminRole

pub record AdminUser : Type 0 where
  pub id : ℕ
  pub username : String
  pub password_hash : String
  pub role : AdminRole
  pub is_active : Bool
  pub last_login_at : Option ℕ

pub record Session : Type 0 where
  pub id : ℕ
  pub user_id : Option ℕ
  pub admin_id : Option ℕ
  pub refresh_token_hash : String
  pub ip_address : String
  pub user_agent : Option String
  pub expires_at : ℕ
  pub revoked_at : Option ℕ
  pub replaced_by_session_id : Option ℕ

pub record Db : Type 0 where
  pub users : List User
  pub accounts : List PointsAccount
  pub transactions : List PointsTransaction
  pub bets : List Bet
  pub bet_items : List BetItem
  pub rounds : List GameRound
  pub admin_logs : List AdminLog
  pub admin_users : List AdminUser
  pub sessions : List Session

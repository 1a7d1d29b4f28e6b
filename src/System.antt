-- ===== src/System.antt =====
-- The requests that change points, in any order and interleaving. A request names the requests that
-- commit while it runs: before its transaction takes its locks, and before it looks its key up
-- again after a rollback.
pub mod Sound
pub mod Steps
use Prim.Native.String.{String}
use jito_india_game.Admin.{AdjustPointsParams, AdjustStamp, adjust}
use jito_india_game.Bets.{BetStamp, PlaceBetParams, place_bet}
use jito_india_game.Database.{Db}
use jito_india_game.Prelude.{ℕ}

mutual
  pub data Request : Type 0 where
    place : Requests → Requests → BetStamp → PlaceBetParams → Request
    adjustment : Requests → Requests → AdjustStamp → AdjustPointsParams → Request

  pub data Requests : Type 0 where
    done : Requests
    first : Request → Requests → Requests

module _ (uuid_text : ℕ → String) where
  unfoldable mutual
    pub serve : Request → Db → Db
    serve (place before again stamp p) db =
        (place_bet uuid_text
          (record { before_lock = serve_all before; before_reread = serve_all again }) stamp p db).1
    serve (adjustment before again stamp p) db =
        (adjust (record { before_lock = serve_all before; before_reread = serve_all again }) stamp p
          db).1

    pub serve_all : Requests → Db → Db
    serve_all done db = db
    serve_all (first r more) db = serve_all more (serve r db)

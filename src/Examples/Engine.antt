-- ===== src/Examples/Engine.antt =====
-- Runs of the round engine.
use jito_india_game.Bets.{BetRequest, find_round, run_placement_transaction}
use jito_india_game.Database.{
  Db, GameId, GameRound, betting_locked, err, round_completed, round_created, round_mismatch,
  round_not_accepting, triple_chance_pro_timer, triple_chance_timer,
}
use jito_india_game.Examples.{betting_round, ledger_stamp, player, start, uuid_text}
use jito_india_game.Prelude.{
  All, List, [], arith, false, inl, inr, none, refl, some, true, ◌∷◌, ◌≡◌, ◌⊎◌,
}
use jito_india_game.Prelude.Int.{pos}
use jito_india_game.Rounds.{
  Races, RoundStamp, decimal, find_live_round, generate_display_code, lock_if_deadline_passed,
  open_round, reconcile,
}
use jito_india_game.Rounds.Betting.{run_placement_transaction-lock}
use jito_india_game.Rounds.Numbering.{reconcile-IsNumbered}
use jito_india_game.Rounds.Numbers.{IsNumbered, numbers}
use jito_india_game.Rounds.Progress.{reconcile_reaches_locked, undisturbed}
use jito_india_game.Rounds.Reconciled.{
  IsOneStep, KeepsRounds, reconcile-HasNoClash, reconcile-IsOneStep,
}
use jito_india_game.Rounds.Steps.{HasNoClash, RoundStep-HasNoClash, open_round-RoundStep}
use jito_india_game.Scheduler.{
  RoundScheduler, StepContext, acquire_leader_lock, answer_lost, answered, ensure_leader, not_run,
  tick, try_acquire,
}
use jito_india_game.Scheduler.Leadership.{attempts, ensure_leader-attempts}
use jito_india_game.Scheduler.Ticks.{tick_leads, tick_stands_down}

-- A game whose first round is complete and whose second is created.
abbrev rounds_start : List GameRound
rounds_start =
    record {
      id = 302;
      game_id = triple_chance_timer;
      round_number = 2;
      display_code = "TC2";
      state = round_created;
      state_version = 0;
      opens_at = 70;
      betting_deadline = 120;
      locked_at = none;
    }
    ∷ record betting_round { state = round_completed; state_version = 6; locked_at = some 60 }
    ∷ []

abbrev second_round : GameRound
second_round = record {
  id = 302;
  game_id = triple_chance_timer;
  round_number = 2;
  display_code = "TC2";
  state = round_created;
  state_version = 0;
  opens_at = 70;
  betting_deadline = 120;
  locked_at = none;
}

abbrev engine_start : Db
engine_start = record start { rounds = rounds_start }

engine_start-HasNoClash : HasNoClash engine_start.rounds
engine_start-HasNoClash = ((refl, tt), (tt, tt))

abbrev new_round : RoundStamp
new_round = record { uuid = 303; opens_at = 71 }

-- Another engine opens the round between the read and the write of this one.
abbrev overtaken : Races
overtaken = record { before_act = λ db. (open_round 302 db).1; before_insert = λ db. db }

overtaken-KeepsRounds : KeepsRounds (overtaken.before_act)
overtaken-KeepsRounds db h = RoundStep-HasNoClash 0 (open_round-RoundStep 0 302 db h) h

reconcile-IsOneStep_example :
    IsOneStep overtaken 75 engine_start
      (reconcile overtaken 50 75 new_round triple_chance_timer engine_start)
reconcile-IsOneStep_example =
    reconcile-IsOneStep overtaken 50 75 new_round triple_chance_timer overtaken-KeepsRounds
      (λ db h. h) engine_start engine_start-HasNoClash

reconcile-HasNoClash_example :
    HasNoClash (reconcile overtaken 50 75 new_round triple_chance_pro_timer engine_start).rounds
reconcile-HasNoClash_example =
    reconcile-HasNoClash overtaken 50 75 new_round triple_chance_pro_timer overtaken-KeepsRounds
      (λ db h. h) engine_start engine_start-HasNoClash

second_is_live : find_live_round triple_chance_timer rounds_start ≡ some second_round
unfolding find_live_round
second_is_live = refl

reconcile_reaches_locked_example :
    find_live_round triple_chance_timer
      (reconcile undisturbed 50 120 new_round triple_chance_timer
        (reconcile undisturbed 50 72 new_round triple_chance_timer engine_start)).rounds
    ≡ some (record second_round { state = betting_locked; state_version = 2; locked_at = some 120 })
reconcile_reaches_locked_example =
    reconcile_reaches_locked 50 72 120 new_round new_round triple_chance_timer engine_start
      second_is_live refl refl

-- The code of a round, and the creation of a first one.
code_runs : generate_display_code triple_chance_pro_timer 2304 ≡ "TCP2304"
unfolding generate_display_code decimal
code_runs = refl

abbrev first_engine : RoundScheduler
first_engine = record { holder_id = 1; is_leader = false; tick_in_flight = false }

abbrev second_engine : RoundScheduler
second_engine = record { holder_id = 2; is_leader = true; tick_in_flight = false }

first_leads : (ensure_leader answered answered 30 100 first_engine none).leader ≡ true
unfolding ensure_leader try_acquire acquire_leader_lock
first_leads = refl

ensure_leader-attempts_example :
    All
      (λ b. b ≡ false)
      (attempts 30
        (record { renewal = answered; acquisition = answered; now = 110; scheduler = second_engine }
          ∷ record {
            renewal = answer_lost;
            acquisition = not_run;
            now = 129;
            scheduler = second_engine;
          }
          ∷ [])
        (ensure_leader answered answered 30 100 first_engine none).lock)
ensure_leader-attempts_example =
    ensure_leader-attempts answered answered 30 100 first_engine none
      (record { renewal = answered; acquisition = answered; now = 110; scheduler = second_engine }
        ∷ record {
          renewal = answer_lost;
          acquisition = not_run;
          now = 129;
          scheduler = second_engine;
        }
        ∷ [])
      first_leads ((refl, omega arith), ((refl, omega arith), tt))

abbrev context : GameId → StepContext
context g = record { races = overtaken; now = 75; stamp = new_round }

-- Another engine has the lock until 130, and this one believes itself the leader.
tick_stands_down_example :
    let t =
      tick answered answered 30 50 context 110 second_engine
        (some (record { holder = 1; expires_at = 130 }))
        engine_start in
    (t.db ≡ engine_start) × (t.lock ≡ some (record { holder = 1; expires_at = 130 }))
tick_stands_down_example =
    tick_stands_down 30 50 context 110 second_engine
      (some (record { holder = 1; expires_at = 130 })) engine_start answered answered 1 130
      (inr (refl, refl, omega arith))

tick_leads_example :
    tick answered answered 30 50 context 100 first_engine none engine_start ≡ record {
      scheduler = record { holder_id = 1; is_leader = true; tick_in_flight = false };
      lock = some (record { holder = 1; expires_at = 130 });
      db =
          reconcile overtaken 50 75 new_round triple_chance_pro_timer
            (reconcile overtaken 50 75 new_round triple_chance_timer engine_start);
    }
tick_leads_example = tick_leads 30 50 context 100 first_engine none engine_start refl (inl refl)

abbrev late_bet : BetRequest
late_bet = record {
  user_id = player;
  key = "late";
  round_id = 300;
  game_id = triple_chance_timer;
  merged = [];
  total = pos 100;
}

betting_round_found : find_round 300 start.rounds ≡ some betting_round
unfolding find_round
betting_round_found = refl

run_placement_transaction-lock_example :
    (run_placement_transaction uuid_text
        (record { bet_uuid = 400; ledger = ledger_stamp })
        late_bet
        (lock_if_deadline_passed 60 300 start).1
      ≡ err round_mismatch)
    ⊎ (run_placement_transaction uuid_text
          (record { bet_uuid = 400; ledger = ledger_stamp })
          late_bet
          (lock_if_deadline_passed 60 300 start).1
        ≡ err round_not_accepting)
run_placement_transaction-lock_example =
    run_placement_transaction-lock uuid_text (record { bet_uuid = 400; ledger = ledger_stamp })
      late_bet 60 start betting_round_found refl refl

engine_start-IsNumbered : IsNumbered engine_start.rounds
unfolding numbers
engine_start-IsNumbered triple_chance_timer = (refl, (refl, tt))
engine_start-IsNumbered triple_chance_pro_timer = tt

reconcile-IsNumbered_example :
    IsNumbered (reconcile undisturbed 50 75 new_round triple_chance_pro_timer engine_start).rounds
reconcile-IsNumbered_example =
    reconcile-IsNumbered undisturbed 50 75 new_round triple_chance_pro_timer
      (λ db h. (h, λ g. omega arith)) (λ db h. (h, λ g. omega arith)) engine_start
      engine_start-IsNumbered

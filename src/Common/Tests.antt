-- ===== src/Common/Tests.antt =====
-- The controls of common/ on concrete requests, rows and ticks.
use mathlib.Core.List.{Permᴰ, reverse}
use mathlib.Core.List.Permᴰ
use ai_trading_system.Base.{ℕ, ◌≡◌, ◌↔◌, refl, true, false, none, some, List, [], ◌∷◌, take, drop}
use ai_trading_system.Broker.{Call, returned, raised}
use ai_trading_system.Common.State.{paper, live, ConfigState}
use ai_trading_system.Common.InstrumentMeta.{OrderMeta}
use ai_trading_system.Common.RuntimeMode.{
  RuntimeModeState, load_runtime_mode, derive_for_mode, legacy_mode,
}
use ai_trading_system.Common.PreLive.{Raw, flag}
use ai_trading_system.Common.ModeTransition.{Request, service_run, ok, apply, request_transition}
use ai_trading_system.Common.ModeTransition.Reasons.{IsCleared}
use ai_trading_system.Common.ModeTransition.Gate.{go_live_iff}
use ai_trading_system.Common.Commands.{
  Row, Table, created, find_key, settle, new_row, enqueue_command, claim_commands,
}
use ai_trading_system.Common.Commands.Laws.{pending_ids, IsKeyed, Disjoint, claim-fifo}
use ai_trading_system.Common.TickBuffer.{Buffer}

abbrev in_lots : OrderMeta
in_lots = record {
  quantity = some 150;
  price = some 1_000_500;
  lot_size = some 75;
  tick_size = some 500;
  freeze_qty = some 1800;
  expiry = some 20;
}

abbrev paper_config : ConfigState
paper_config = record {
  runtime_mode = none;
  execution_mode = none;
  kill_switch_active = false;
  block_new_entries = true;
  engine_halted = false;
  engine_paused = false;
}

abbrev live_config : ConfigState
live_config = record paper_config { execution_mode = some live }

abbrev live_state : RuntimeModeState
live_state = derive_for_mode live (some 42) 3

abbrev probes : List (ℕ × Call Raw)
probes = (1, returned (flag true)) ∷ (2, raised) ∷ []

abbrev go_live : Request
go_live = record {
  target_mode = live;
  confirm_token = some "LIVE";
  prelive_runner = some (returned (service_run []));
  kill_switch_active = some (returned false);
  reconcile_check = none;
  open_live_positions = none;
  allow_unflattened_downgrade = false;
  broker_account_id = some 42;
}

abbrev go_paper : Request
go_paper = record go_live { target_mode = paper; open_live_positions = some (returned 2) }

go_live_iff_example :
    (request_transition go_live paper_config ≡ ok (apply go_live paper_config)) ↔ IsCleared go_live
unfolding load_runtime_mode legacy_mode derive_for_mode
go_live_iff_example = go_live_iff go_live paper_config refl refl

abbrev landed : RuntimeModeState × ConfigState
landed = apply go_live paper_config

abbrev no_commands : Table
no_commands = record { rows = []; next_id = 1 }

abbrev two_commands : Table
two_commands = (enqueue_command none 5 (enqueue_command (some 9) 4 no_commands).1).1

two-IsKeyed : IsKeyed two_commands.rows
unfolding enqueue_command settle new_row find_key
two-IsKeyed = ((refl, tt), (tt, tt))

-- the database returns the rows last first
claim-fifo_example :
    let (ids, t') = claim_commands reverse 1 two_commands in
    let (ids', t'') = claim_commands reverse 1 t' in
    Permᴰ ids (take 1 (pending_ids two_commands.rows))
    × (pending_ids t'.rows ≡ drop 1 (pending_ids two_commands.rows))
    × Disjoint ids ids'
claim-fifo_example =
    claim-fifo reverse reverse Permᴰ.reverse Permᴰ.reverse 1 1 two_commands two-IsKeyed

abbrev a_row : Row
a_row = record { id = 1; idempotency_key = none; kind = 4; status = created; attempts = 0 }

abbrev one_command : Table
one_command = record { rows = a_row ∷ []; next_id = 2 }

abbrev small : Buffer ℕ
small = record { max_symbols = 1; latest = []; order = []; coalesced = 0; evicted = 0 }

-- ===== src/EventBus/Tests.antt =====
-- Runs of the bus, and its theorems at concrete inputs.
use ruseon_core.Common.{
  true, zero, suc, ◌≢◌, inr, ℕ, ◌+◌, ◌≡◌, refl, false, some, List, [], ◌∷◌, ◌++◌, ◌⊎◌, arith,
}
use ruseon_core.Common.Int.{pos}
use ruseon_core.Common.Go.{returns, make_chan}
use ruseon_core.Common.Bytes.{Bytes}
use ruseon_core.EventBus.{EventBus, WebhookConfig, worker_for, fnv32a}
use ruseon_core.EventBus.Trace.{Trace, Action, publishes, takes, run, keep, queue_of}
use ruseon_core.EventBus.Fifo.{of_key, start, run_fifo}
use ruseon_core.EventBus.Worker
use ruseon_core.EventBus.Worker.{
  Point, idle, considers, sends, Pool, act, Move, receives, checks, finishes,
}
use ruseon_core.EventBus.Worker.Check.{Checked, unlock_time, InFlight}
use ruseon_core.EventBus.Worker.Circuit.{check_lem, IsShut, finishes-IsShut}

-- The published test vector of FNV-1a for "a".
fnv32a-a : fnv32a (b'a' ∷ []) ≡ 0xe40c292c
unfolding fnv32a
fnv32a-a = refl

abbrev online : Bytes
online = b'o' ∷ b'n' ∷ []

abbrev hook : WebhookConfig
hook = record { url = b'u' ∷ []; topics = online ∷ []; secret = [] }

abbrev any_hook : WebhookConfig
any_hook = record { url = b'v' ∷ []; topics = []; secret = [] }

-- Two workers: one has a request to the first URL under way, and the other has come to the same webhook.
abbrev two_points : ℕ → Point
two_points zero = sends online hook false (any_hook ∷ [])
two_points (suc zero) = considers online hook (any_hook ∷ [])
two_points (suc (suc k)) = idle

abbrev two_workers : Pool (hook ∷ any_hook ∷ [])
two_workers = record { breakers = []; points = two_points }

two_points_alone : (k : ℕ) → 0 ≢ k → ¬ InFlight hook.url (two_points k)
two_points_alone zero n f = n refl
two_points_alone (suc zero) n f = f
two_points_alone (suc (suc k)) n f = f

check_lem_example :
    let s' = act (hook ∷ any_hook ∷ []) 1 (checks 5) two_workers in
    Checked 5 online hook (any_hook ∷ []) (unlock_time hook.url []) (s'.points 1)
    × (s'.breakers ≡ [])
    × ((k : ℕ) → 1 ≢ k → s'.points k ≡ two_points k)
check_lem_example =
    check_lem (hook ∷ any_hook ∷ []) 1 5 two_workers online hook (any_hook ∷ []) refl

-- The second worker passes the webhook over, and takes another event.
abbrev later_moves : List (ℕ × Move)
later_moves =
    (1, checks 20)
    ∷ (1, checks 21)
    ∷ (0, checks 22)
    ∷ (0, finishes 30 (some 204))
    ∷ (0, receives online true)
    ∷ (0, checks 31)
    ∷ []

finishes-IsShut_example : IsShut (hook ∷ any_hook ∷ []) hook.url (10 + 30000000000) (
    Worker.run
      (hook ∷ any_hook ∷ [])
      later_moves
      (act (hook ∷ any_hook ∷ []) 0 (finishes 10 (some 500)) two_workers))
finishes-IsShut_example =
    finishes-IsShut (hook ∷ any_hook ∷ []) 0 10 (some 500) two_workers online hook false
      (any_hook ∷ []) later_moves refl (inr (omega arith)) two_points_alone
      (omega arith, (omega arith, (omega arith, (tt, (tt, (omega arith, tt))))))

abbrev script : List (Action ℕ)
script =
    publishes 1 online (b'1' ∷ []) 7
    ∷ publishes 2 online (b'2' ∷ []) 8
    ∷ takes 0
    ∷ publishes 3 online (b'1' ∷ []) 9
    ∷ []

run_fifo_example :
    let w = worker_for 2 (b'1' ∷ []) in
    (t : Trace ℕ) × (run script (start (hook ∷ []) (pos 2)) ≡ returns t)
    × (keep (of_key (b'1' ∷ [])) (t.taken w ++ queue_of w t.bus.workers)
        ≡ keep (of_key (b'1' ∷ [])) t.accepted)
    × ((w ≡ 0) ⊎ (keep (of_key (b'1' ∷ [])) (t.taken 0) ≡ []))
run_fifo_example = run_fifo (hook ∷ []) (pos 2) script (b'1' ∷ []) 0 (omega arith)

abbrev small_bus : EventBus ℕ
small_bus = record {
  webhooks = hook ∷ [];
  workers = make_chan 2 ∷ [];
  circuit_breakers = [];
  stopped = false;
  drops = 0;
}

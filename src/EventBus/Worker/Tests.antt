-- ===== src/EventBus/Worker/Tests.antt =====
-- A run of two workers whose requests to one webhook are under way at the same time.
use ruseon_core.Common.{ℕ, zero, suc, ◌≡◌, refl, true, List, none, some, [], ◌∷◌}
use ruseon_core.Common.Dict.{lookup, insert, erase}
use ruseon_core.Common.Bytes.{bytes_discrete, codes}
use ruseon_core.Common.Heap.{update}
use ruseon_core.EventBus.{WebhookConfig, send_failed}
use ruseon_core.EventBus.Worker.{Move, Point, idle, sends, settle, move, Pool, act, finishes, run}

abbrev hook : WebhookConfig
hook = record { url = codes "u"; topics = []; secret = [] }

-- Both have found a breaker whose time had come.
abbrev both_send : ℕ → Point
both_send zero = sends (codes "t") hook true []
both_send (suc zero) = sends (codes "t") hook true []
both_send (suc (suc k)) = idle

abbrev overlapping : Pool (hook ∷ [])
overlapping = record { breakers = (codes "u", 5) ∷ []; points = both_send }

abbrev both_finish : List (ℕ × Move)
both_finish = (0, finishes 10 (some 500)) ∷ (1, finishes 11 (some 204)) ∷ []

-- The success of the second deletes the breaker that the failure of the first has just set.
run-overlapping :
    lookup bytes_discrete (codes "u") (run (hook ∷ []) both_finish overlapping).breakers ≡ none
unfolding run act move settle send_failed update lookup insert erase bytes_discrete
run-overlapping = refl

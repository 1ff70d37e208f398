-- ===== src/Examples/Relaying.antt =====
-- The theorems on the relay of the outbox, at an example table.
use fast_api.Base.{◌⊎◌, ◌≤◌, ◌≡◌, refl, inl, inr, true, false, [], ◌∷◌, arith}
use fast_api.Base.Int.{ℤ}
use fast_api.Database.{Database, OutboxEntry, new_entry}
use fast_api.Worker.Outbox.{process_outbox, unstopped, before_release}
use fast_api.Worker.Outbox.Relay.{Run, relays, handled}
use fast_api.Worker.Outbox.Handled.{relays-handled}
use fast_api.Worker.Outbox.Done.{is_done, process_outbox-done}
use fast_api.Examples.{redis, database, paid_order}

abbrev owed : OutboxEntry
owed = new_entry 5 0 2

abbrev owing_database : Database
owing_database = record database { orders = paid_order ∷ []; outbox = owed ∷ [] }

abbrev failing : Run
failing = record { now = 9; locked = λ id. false; faults = λ id. before_release }

relays-handled_example :
    (handled {F = ℤ} 0 (failing ∷ failing ∷ []) (owing_database, redis) ≤ 8)
    × ((1 ≤ handled {F = ℤ} 0 (failing ∷ failing ∷ []) (owing_database, redis))
        ⊎ (is_done 0 (relays (failing ∷ failing ∷ []) (owing_database, redis)).0.outbox
            ≡ is_done 0 owing_database.outbox))
relays-handled_example =
    relays-handled 0 (failing ∷ failing ∷ []) (owing_database, redis) (omega arith, tt)
      (omega arith)

process_outbox-done_example :
    is_done 0 (process_outbox 9 (λ id. false) (λ id. unstopped) (owing_database, redis)).0.outbox
    ≡ true
process_outbox-done_example =
    process_outbox-done 9 (λ id. false) (λ id. unstopped) owed owing_database redis (inl refl) refl
      refl refl (inr (paid_order, refl, refl))

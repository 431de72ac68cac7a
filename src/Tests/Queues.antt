-- ===== src/Tests/Queues.antt =====
-- The event queue, the model registry and the plugin registry at concrete inputs.
use mathlib.Core.List.{Sublist}
use vulpes_core.Base.{
  ℕ, ◌≤◌, ◌≡◌, refl, true, false, ◌||◌, ◌&&◌, List, [], ◌∷◌, ◌++◌, length, arith, ◌==◌,
}
use vulpes_core.Base.Int.{pos}
use vulpes_core.Base.Dict.{lookup}
use vulpes_core.Capabilities.{GatewayEvent}
use vulpes_core.Queue.{Queue, new_queue, enqueue, enqueue_all, take_batch, flush}
use vulpes_core.Queue.Overflow.{refuses, newest}
use vulpes_core.Queue.Kept.{enqueue_all-new_queue}
use vulpes_core.Queue.Flush.{Flushed, quiet, flush-Flushed}
use vulpes_core.Queue.Steps.{
  History, Reach, here, next, send, take_one, start, after_send, after_take, interleaving_in_order,
}
use vulpes_core.Queue.Life.{
  Life, Lives, born, then, sends, closes, sees_closed, rounds, last_flush, stopped, new_life,
  flush_round, stopped_delivered,
}
use vulpes_core.Models.{new_registry, candidates, found}
use vulpes_core.Models.Lookup.{configured, candidates-new_registry}
use vulpes_core.Plugins.Registry.{Metadata, has}
use vulpes_core.Plugins.Register.{register_client, metadata_has_capability}
use vulpes_core.Plugins.Granted.{is_known, member, has-register_client}
use vulpes_core.Tests.Fixtures.{event, models_config, plugin, registry, client}

abbrev full : Queue ℕ
full = record {
  events = event "a" ∷ event "b" ∷ [];
  cap = 2;
  batch = 1;
  interval = 1;
  overflow = "fail";
  observers = [];
}

abbrev three : List GatewayEvent
three = event "a" ∷ event "b" ∷ event "c" ∷ []

enqueue_all-new_queue_example :
    (enqueue_all three (new_queue {W = ℕ} (pos 2) (pos 1) (pos 1) "drop_oldest" [])).events
    ≡ newest 2 three
enqueue_all-new_queue_example = enqueue_all-new_queue (pos 2) (pos 1) (pos 1) "drop_oldest" [] three

-- Between the first two rounds three events are sent, of which one finds room.
flush-Flushed_example :
    let r = flush ((three ∷ []) ++ quiet 3) full 0 in Flushed full (three ++ []) 0 r.0 r.1 r.2
flush-Flushed_example =
    flush-Flushed (three ∷ []) 3 full 0 (omega arith) (omega arith) (omega arith)

one_found_room :
    (flush ((three ∷ []) ++ quiet 3) full 0).0
    ≡ (event "a" ∷ []) ∷ (event "b" ∷ []) ∷ (event "a" ∷ []) ∷ []
unfolding flush enqueue take_batch
one_found_room = refl

abbrev sent_once : History ℕ
sent_once = after_send (event "c") (start full)

abbrev taken_once : History ℕ
taken_once = after_take sent_once

steps : Reach (start full) taken_once
steps = next (next here (send (start full) (event "c"))) (take_one sent_once)

interleaving_in_order_example :
    (length taken_once.queue.events ≤ 2)
    × Sublist (taken_once.taken ++ taken_once.queue.events) taken_once.sent
interleaving_in_order_example = interleaving_in_order full {t = taken_once} steps

candidates-new_registry_example :
    candidates (new_registry models_config) "fast"
    ≡ found "fast" (configured models_config.aliases "fast")
unfolding lookup
candidates-new_registry_example = candidates-new_registry models_config "fast" (refl, tt)

abbrev metadata : Metadata
metadata = record {
  name = "a";
  version = "1";
  homepage = "";
  capabilities = record { type = "router"; name = "router"; version = "1" } ∷ [];
  permissions = record {
    outbound_hosts = [];
    secret_names = [];
    data_permissions = record {
      read_prompt = false;
      read_response = false;
      modify_request = false;
      modify_response = false;
      read_headers = false;
    };
  };
}

-- The plugin is configured for router and observer, and its metadata declares the router alone.
has-register_client_example :
    has "a" "router" (register_client (plugin "a") client metadata registry) ≡ (
      has "a" "router" registry
      || (is_known "router"
          && metadata_has_capability metadata "router"
          && member "router" (plugin "a").capabilities
          && "a" == "a"))
has-register_client_example = has-register_client "a" (plugin "a") client metadata "router" registry

abbrev small : Queue ℕ
small = new_queue (pos 4) (pos 2) (pos 1) "fail" []

abbrev life_sent : Life ℕ
life_sent = record (new_life small) { history = after_send (event "a") (new_life small).history }

abbrev life_closed : Life ℕ
life_closed = record life_sent { closed = true }

abbrev life_seen : Life ℕ
life_seen = record life_closed { phase = last_flush }

abbrev life_stopped : Life ℕ
life_stopped = flush_round (flush_round life_seen)

-- Close is called behind one event, and the last flush has two rounds.
closed_life : Lives (new_life small) life_stopped
unfolding flush_round after_send enqueue new_queue
closed_life =
    then
      (then
        (then (then (then born (sends (new_life small) (event "a"))) (closes life_sent refl))
          (sees_closed life_closed refl refl))
        (rounds life_seen refl))
      (rounds (flush_round life_seen) refl)

stops : life_stopped.phase ≡ stopped
unfolding flush_round after_send enqueue new_queue
stops = refl

stopped_delivered_example :
    (life_stopped.closed ≡ true)
    × (refuses "fail" ≡ true
        → (life_stopped.history.taken ≡ life_stopped.before)
          × (life_stopped.before ++ life_stopped.history.queue.events
              ≡ life_stopped.history.accepted))
unfolding new_queue
stopped_delivered_example = stopped_delivered small (ground arith) closed_life stops

-- ===== src/Pipeline/Events.antt =====
-- `emit` and `emitError`: events go to the queue, and whether it takes them is not looked at.
use vulpes_core.Base.{
  String, Bool, true, false, Option, none, some, [], map, ◌==◌, ◌&&◌, if◌then◌else◌,
}
use vulpes_core.Base.Int.{pos}
use vulpes_core.Base.Dict.{Dict, insert}
use vulpes_core.Base.Text.{sprint_int}
use vulpes_core.Capabilities.{GatewayEvent, Usage, Error, error_text, as_upstream}
use vulpes_core.Queue.{enqueue}
use vulpes_core.Pipeline.Platform.{Platform}
use vulpes_core.Pipeline.State.{zero_usage}
use vulpes_core.Pipeline.Exec.{Exec, next, call, ◌>>=◌}

-- `fmt.Sprint(b)`
abbrev pub sprint_bool : Bool → String
sprint_bool true = "true"
sprint_bool false = "false"

abbrev pub usage_or_zero : Option Usage → Usage
usage_or_zero none = zero_usage
usage_or_zero (some usage) = usage

-- The Error map of an event.
unfoldable pub error_details : Error → Dict String
error_details e =
    let message = insert "message" (error_text e) [] in
    elim (as_upstream e) [
      | none ↦ message
      | some up ↦ insert "rate_limited" (sprint_bool up.rate_limited) (
          insert "retryable" (sprint_bool up.retryable)
            (insert "http_status" (sprint_int up.http_status) (insert "code" up.code message)))
    ]

-- The property map of the event `request.started` is the map of the request itself. Where the
-- request's properties change later, an event that still waits in the queue changes with them.
unfoldable pub share_properties : String → Dict String → GatewayEvent → GatewayEvent
share_properties request_id props ev =
    if ev.event_type == "request.started" && ev.request_id == request_id
    then record ev { properties = props }
    else ev

module _ {W R : Type 0} where
  unfoldable pub enqueue_event : GatewayEvent → Exec W R (Unit {0})
  enqueue_event ev g = (next tt, record g { events = (enqueue ev g.events).0 })

  unfoldable pub update_shared : String → Dict String → Exec W R (Unit {0})
  unfolding share_properties
  update_shared request_id props g = (
    next tt,
    record g {
      events = record g.events { events = map (share_properties request_id props) g.events.events };
    },
  )

module _ {W R : Type 0} (P : Platform W) where
  unfoldable pub emit : String → String → String → Dict String → Option Usage → Exec W R (Unit {0})
  unfolding enqueue_event
  emit event request_id tenant props usage = do
    event_id ← call P.new_uuid
    now ← call P.now
    enqueue_event (record {
      event_id = event_id;
      request_id = request_id;
      tenant_id = tenant;
      event_type = event;
      timestamp_unix_nano = pos now;
      properties = props;
      usage = usage_or_zero usage;
      error = [];
    })

  unfoldable pub emit_error : String → String → String → Dict String → Error → Exec W R (Unit {0})
  unfolding enqueue_event error_details
  emit_error event request_id tenant props e = do
    event_id ← call P.new_uuid
    now ← call P.now
    enqueue_event (record {
      event_id = event_id;
      request_id = request_id;
      tenant_id = tenant;
      event_type = event;
      timestamp_unix_nano = pos now;
      properties = props;
      usage = zero_usage;
      error = error_details e;
    })

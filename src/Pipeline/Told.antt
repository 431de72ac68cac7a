-- ===== src/Pipeline/Told.antt =====
-- The events of a request as they stand in the queue, and those of the goroutine of a stream.
use mathlib.Core.List.{append-nil, append_assoc, map-append}
use vulpes_core.Base.{
  ◌+◌, ◌≤◌, String, ◌≡◌, refl, sym, ◌∙◌, ap, some, List, [], ◌∷◌, ◌++◌, map, length, length-append,
  length-map, arith, ok,
}
use vulpes_core.Base.Dict.{Dict}
use vulpes_core.Capabilities.{GatewayEvent, ChatCompletionRequest}
use vulpes_core.Config.{Config}
use vulpes_core.Models.{ModelRegistry}
use vulpes_core.Queue.{Queue}
use vulpes_core.Queue.Overflow.{enqueue_room}
use vulpes_core.Plugins.Registry.{Registry}
use vulpes_core.Pipeline.Compile.{compile}
use vulpes_core.Pipeline.Platform.{Platform}
use vulpes_core.Pipeline.State.{Pipeline, Reply}
use vulpes_core.Pipeline.Exec.{Gateway, Exit, next, done, panic}
use vulpes_core.Pipeline.Events.{share_properties}
use vulpes_core.Pipeline.Answers.{returned, execute_chat_answers}
use vulpes_core.Pipeline.Chat.{execute_chat}
use vulpes_core.Pipeline.Trace.{Label, Action, send, share, labels, act, replay, Says}
use vulpes_core.Pipeline.Protocol.{outcome, Protocol}
use vulpes_core.Pipeline.Sent.{execute_chat-Run}

abbrev pub label : GatewayEvent → Label
label ev = (ev.request_id, ev.event_type)

label-share_properties :
    (id : String) (props : Dict String) (ev : GatewayEvent)
    → label (share_properties id props ev) ≡ label ev
unfolding share_properties
label-share_properties id props ev = ground arith

labels-share_properties :
    (id : String) (props : Dict String) (evs : List GatewayEvent)
    → map label (map (share_properties id props) evs) ≡ map label evs
labels-share_properties id props [] = refl
labels-share_properties id props (ev ∷ evs) =
    rw (label-share_properties, labels-share_properties id props evs) refl

-- With room for all of them, the events that are sent stand behind those that were there.
replay-labels :
    {W : Type 0} (acts : List Action) (q : Queue W)
    → length q.events + length (labels acts) ≤ q.cap
    → map label (replay acts q).events ≡ map label q.events ++ labels acts
unfolding replay act
replay-labels [] q h = sym (append-nil _)
replay-labels {W = W} (send ev ∷ acts) q h =
    let q' : Queue W = record q { events = q.events ++ ev ∷ [] } in
    let added : act (send ev) q ≡ q' = ap (λ x. x.0) (enqueue_room ev q (omega arith)) in
    let rest : map label (replay acts q').events ≡ map label q'.events ++ labels acts =
      replay-labels acts q' (omega (arith, length-append {0} q.events (ev ∷ []))) in
    ap (λ x. map label (replay acts x).events) added ∙ rest ∙ rw (map-append, append_assoc) refl
replay-labels (share id props ∷ acts) q h =
    replay-labels acts (act (share id props) q)
      (omega (arith, length-map (share_properties id props) q.events))
    ∙ rw labels-share_properties refl

pub Says-returned :
    (N : Reply → List Label → Type 0) (e : Exit Reply Reply) (ls : List Label) {r : Reply}
    → Says N N e ls
    → returned e ≡ some r
    → N r ls
Says-returned N (next x) ls {r} h same = let e : x ≡ r = ground (arith, same) in rw (← e) h
Says-returned N (done x) ls {r} h same = let e : x ≡ r = ground (arith, same) in rw (← e) h
Says-returned N panic ls h same = absurd (ground (arith, same))

module _ {W : Type 0} (P : Platform W) where
  -- A request to a compiled pipeline ends with a reply, and what it does to the event queue is a
  -- list of operations: events that are sent, and changes of the properties of an event that waits.
  -- Each event that is sent names the request. They are none, with an error as the reply; or the
  -- start, and then nothing with an error, a cache hit with an answer, or the choice of a route, any
  -- number of errors of providers, and the end: completion with an answer, completion or failure
  -- with an error, and nothing with a stream. A reply is an answer only if the request does not ask
  -- for a stream, and a stream only if it does. A queue with room for these events holds them behind
  -- those that it held before.
  pub execute_chat_events :
      (reg : Registry W) (cfg : Config) (models : ModelRegistry) {p : Pipeline W} {q : Queue W}
      (req : ChatCompletionRequest) (headers : Dict String) (source_ip : String) (g : Gateway W)
      → compile reg cfg models ≡ ok (p, q)
      → let run = execute_chat P p req headers source_ip g in
        (r : Reply) × (acts : List Action) × (returned run.0 ≡ some r)
        × (run.1.events ≡ replay acts g.events)
        × Protocol (P.new_uuid g.world).0 req.stream (outcome r) (labels acts)
        × (length g.events.events + length (labels acts) ≤ g.events.cap
            → map label run.1.events.events ≡ map label g.events.events ++ labels acts)
  execute_chat_events reg cfg models {p} req headers source_ip g compiled =
      let (r, ret, tag) = execute_chat_answers reg cfg models P req headers source_ip g compiled in
      let run = execute_chat-Run P p req headers source_ip g.world in
      let queue = ap (λ x. x.1.events) (run.runs g.events) in
      (
        r,
        run.acts,
        ret,
        queue,
        Says-returned _ run.exit (labels run.acts) run.says
            (ap (λ x. returned x.0) (sym (run.runs g.events)) ∙ ret),
        λ room. ap (λ x. map label x.events) queue ∙ replay-labels run.acts g.events room,
      )

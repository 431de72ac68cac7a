-- ===== src/Pipeline/Routed.antt =====
-- Which of the router's routes serves a request.
use vulpes_core.Base.{
  ℕ, ◌<◌, ◌≡◌, Bool, true, false, Option, none, some, List, length, take, arith, subst, ◌+◌,
  if◌then◌else◌,
}
use vulpes_core.Capabilities.{SelectedRoute}
use vulpes_core.Pipeline.Platform.{Platform}
use vulpes_core.Pipeline.State.{Pipeline, ChatResult, Reply}
use vulpes_core.Pipeline.Exec.{Gateway}
use vulpes_core.Pipeline.Attempts.{Attempt, execute_non_stream, execute_stream, max_attempts}
use vulpes_core.Pipeline.Answers.{returned, returned-Meets}
use vulpes_core.Pipeline.Served.{
  nth, ServedBy, Served, nth-take, Served-try_routes, Served-try_streams,
}

module _ {W : Type 0} (P : Platform W) (p : Pipeline W) where
  -- What runs the attempts: executeStream or executeNonStream.
  abbrev pub attempts : Bool → Attempt → List SelectedRoute → ChatResult → Gateway W → Option Reply
  attempts stream a routes result g = returned (
      if stream
      then (execute_stream P p a routes result g).0
      else (execute_non_stream P p a routes result g).0)

  chosen :
      (a : Attempt) (routes : List SelectedRoute) (n : ℕ) (reply : Reply)
      → Served p (take n routes) 0 reply
      → reply.error ≡ none
      → (k : ℕ) × (r : SelectedRoute) × (k < n)
        × (nth k routes ≡ some r)
        × ServedBy p reply.result k r
  chosen a routes n reply h fine =
      let (k, r, there, by) = h.at fine in
      let (below, at) = nth-take k n routes there in
      let from_zero : ◌≡◌ {A = ℕ} (0 + k) k = omega arith in
      (k, r, below, at, subst (λ n. ServedBy p reply.result n r) from_zero by)

  -- The attempts always end with a reply. Where it has no error, one of the first
  -- `max_attempts` routes served the request: its provider is configured, and the reply's
  -- fallback index and its two route headers name that route.
  pub attempts_served :
      (stream : Bool) (a : Attempt) (routes : List SelectedRoute) (result : ChatResult)
      (g : Gateway W)
      → (reply : Reply) × (attempts stream a routes result g ≡ some reply)
        × (reply.error ≡ none
            → (k : ℕ) × (r : SelectedRoute) × (k
                < max_attempts p.cfg.fallbacks.max_attempts (length routes))
              × (nth k routes ≡ some r)
              × ServedBy p reply.result k r)
  unfolding execute_stream execute_non_stream
  attempts_served true a routes result g =
      let n = max_attempts p.cfg.fallbacks.max_attempts (length routes) in
      let (reply, ends, served) =
        returned-Meets (Served p (take n routes) 0) _
          ((Served-try_streams P p a (take n routes) 0 none result).at g) in
      (reply, ends, chosen a routes n reply served)
  attempts_served false a routes result g =
      let n = max_attempts p.cfg.fallbacks.max_attempts (length routes) in
      let (reply, ends, served) =
        returned-Meets (Served p (take n routes) 0) _
          ((Served-try_routes P p a (take n routes) 0 none result).at g) in
      (reply, ends, chosen a routes n reply served)

-- ===== src/Server/Ready.antt =====
-- pkg/server/server.go: the readiness probe.
use spyre_health_checker.Base.{ℕ, ◌≡◌, refl, false, List, Text, codes, if◌then◌else◌}
use spyre_health_checker.Server.Queue.{
  HealthServer, ServerEvent, stopped, Step, register, start_sending, first_sent, first_failed,
  leave, offer, drop, deliver, stop, Run, done, next,
}

-- `handleReadyz`: the status and the body of its answer
unfoldable pub handle_readyz : HealthServer → ℕ × Text
handle_readyz s = if s.ready then (200, codes "Ready") else (503, codes "Not Ready")

Step-unready :
    {s t : HealthServer} {e : ServerEvent} → Step s e t → s.ready ≡ false → t.ready ≡ false
Step-unready register h = h
Step-unready start_sending h = h
Step-unready (first_sent m) h = h
Step-unready (first_failed m) h = h
Step-unready (leave m) h = h
Step-unready (offer p r c) h = h
Step-unready (drop p r) h = h
Step-unready (deliver p m) h = h
Step-unready (stop p c) h = refl

Run-unready :
    {s t : HealthServer} {es : List ServerEvent} → Run s es t → s.ready ≡ false → t.ready ≡ false
Run-unready done h = h
Run-unready (next r rs) h = Run-unready rs (Step-unready r h)

stop-unready : {s t : HealthServer} → Step s stopped t → t.ready ≡ false
stop-unready (stop p c) = refl

stopped_unready :
    {s t u : HealthServer} {es : List ServerEvent}
    → Step s stopped t
    → Run t es u
    → handle_readyz u ≡ (503, codes "Not Ready")
unfolding handle_readyz
stopped_unready r rs = rw (Run-unready rs (stop-unready r)) refl

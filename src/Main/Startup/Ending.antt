-- ===== src/Main/Startup/Ending.antt =====
-- cmd/health-checker/main.go: when main reaches its loop, and what it leaves behind when it ends.
use spyre_health_checker.Base.{
  ℤ, is_positive, ◌≡◌, refl, ◌⊎◌, ◌↔◌, inl, inr, true, false, List, [], ◌∷◌, ◌∙◌, Option, none,
  some, Bool-cases, codes, Text, ap, sym, subst, arith,
}
use spyre_health_checker.Types.{ok, Outcome-cases}
use spyre_health_checker.Healthcheck.{Tick}
use spyre_health_checker.Utils.Interval.{parse_interval}
use spyre_health_checker.Utils.Metrics.{Labels, init_metrics}
use spyre_health_checker.Server.Ready.{handle_readyz}
use spyre_health_checker.Server.Setup.{stop_server, new_server}
use spyre_health_checker.Server.Setup.Started.{start_cases}
use spyre_health_checker.Main.{Host}
use spyre_health_checker.Main.Flags.{Flags}
use spyre_health_checker.Main.Startup.{
  Surroundings, MainState, Exit, start_failed, bad_interval, panicked, launch, serve_http,
  stopped_main, start_watcher, LoopEvent, ticked, signalled, handle_loop_event, main_loop,
  first_check, tick_loop, monitor_devices, with_interval, with_server, main_run, configured_vitals,
}

-- Main is in its loop and ready exactly under a condition; otherwise it has ended and is not ready.
abbrev pub Ends : {W K : Type 0} → Type 0 → MainState W K × Option Exit → Type 0
Ends P (m, exit) =
    (P × (exit ≡ none) × (handle_readyz m.service.flags ≡ (200, codes "Ready")))
    ⊎ ((¬ P)
        × ((e : Exit) × (exit ≡ some e))
        × (handle_readyz m.service.flags ≡ (503, codes "Not Ready")))

-- The gRPC server serves, and Stop has not been called.
abbrev IsServing : {W K : Type 0} → MainState W K → Type 0
IsServing m = (m.service.flags.ready ≡ true) × (m.service.flags.is_closed ≡ false)

Ends-iff :
    {W K : Type 0} {P Q : Type 0} (r : MainState W K × Option Exit) → (P ↔ Q) → Ends P r → Ends Q r
Ends-iff (m, exit) (f, g) (inl (p, h, u)) = inl (f p, h, u)
Ends-iff (m, exit) (f, g) (inr (n, h, u)) = inr (λ q. n (g q), h, u)

module _ {W K : Type 0} (env : Surroundings W K) (flags : Flags) where
  stopped-unready :
      (m : MainState W K)
      → m.service.flags.is_closed ≡ false
      → handle_readyz (stopped_main env flags m).service.flags ≡ (503, codes "Not Ready")
  unfolding stopped_main stop_server handle_readyz
  stopped-unready m h = rw h refl

  serving-ready :
      (m : MainState W K) → IsServing m → handle_readyz m.service.flags ≡ (200, codes "Ready")
  unfolding handle_readyz
  serving-ready m h = rw h.0 refl

  main_loop-service :
      (m : MainState W K) (events : List LoopEvent)
      → (main_loop env flags m events).service ≡ m.service
  unfolding main_loop
  main_loop-service m [] = refl
  main_loop-service m (ticked t ∷ events) =
      main_loop-service (handle_loop_event env flags m (ticked t)) events
  main_loop-service m (signalled ∷ events) =
      main_loop-service (handle_loop_event env flags m signalled) events

  tick_loop-Ends :
      (interval : ℤ) (events : List LoopEvent) (m : MainState W K)
      → IsServing m
      → Ends (is_positive interval ≡ true) (tick_loop env flags interval events m)
  unfolding tick_loop
  tick_loop-Ends interval events m h = elim (Bool-cases (is_positive interval)) [
    | inl e ↦ inl (
      e,
      rw (e, tick_loop) refl,
      rw (e, tick_loop)
          (ap (λ s. handle_readyz s.flags) (main_loop-service m events) ∙ serving-ready m h),
    )
    | inr e ↦ inr (
      λ q. ground arith,
      (panicked (codes "non-positive interval for NewTicker"), rw (e, tick_loop) refl),
      rw (e, tick_loop) (stopped-unready m h.1),
    )
  ]

  watcher-service : (m : MainState W K) → (start_watcher env flags m).service ≡ m.service
  unfolding start_watcher
  watcher-service m = ground arith

  -- What `Register` answers for the gauge lets main go on.
  abbrev pub HasMetrics : Type 0
  HasMetrics = (series : List Labels) × (init_metrics env.registration ≡ ok series)

  monitor-Ends :
      (interval : ℤ) (first : Tick Host) (events : List LoopEvent) (m : MainState W K)
      → IsServing m
      → Ends
          (HasMetrics × (is_positive interval ≡ true))
          (monitor_devices env flags interval first events m)
  unfolding monitor_devices first_check
  monitor-Ends interval first events m h =
      let watched = start_watcher env flags m in
      let h' : IsServing watched = rw (watcher-service m) h in
      elim (Outcome-cases (init_metrics env.registration)) [
        | inr (e, p) ↦ inr (
          λ q. ground (arith, p, q.0.1),
          (panicked e, rw (p, monitor_devices) refl),
          rw (p, monitor_devices) (stopped-unready watched h'.1),
        )
        | inl (series, p) ↦
            rw (p, monitor_devices)
              (Ends-iff
                (tick_loop env flags interval events (first_check env flags first series watched))
                (λ q. ((series, refl), q), λ q. q.1)
                (tick_loop-Ends interval events (first_check env flags first series watched) h'))
      ]

  launch-cases :
      (w : W) (boot : Tick Host)
      → ((e : Text) × ((launch env flags w boot).0 ≡ some e)
          × (handle_readyz (launch env flags w boot).1.service.flags ≡ (503, codes "Not Ready")))
        ⊎ (((launch env flags w boot).0 ≡ none) × IsServing (launch env flags w boot).1)
  unfolding launch new_server handle_readyz
  launch-cases w boot =
      elim (start_cases env.os w (new_server boot (configured_vitals env flags)).1 flags.socket
        flags.tls_cert flags.tls_key flags.tls_ca) [
          | inl (e, w', p) ↦ inl (e, ap (λ o. o.0) p, ap (λ o. handle_readyz o.2.flags) p)
          | inr (cert, ca_cert, w', p) ↦
              inr (ap (λ o. o.0) p, (ap (λ o. o.2.flags.ready) p, ap (λ o. o.2.flags.is_closed) p))
        ]

  -- What main needs to reach its loop: the gRPC server starts, the interval of the flag parses and is positive,
  -- and the gauge can be registered.
  abbrev pub CanRun : W → Tick Host → Type 0
  CanRun w boot =
      ((launch env flags w boot).0 ≡ none)
      × ((interval : ℤ) × (parse_interval env.parse_duration flags.timer ≡ ok interval)
          × (HasMetrics × (is_positive interval ≡ true)))

  -- Main reaches its loop exactly if the gRPC server starts, the interval of the flag parses and is positive,
  -- and the gauge can be registered; then it stays there with a server that is ready, whatever ticks and
  -- signals come. In every other case it ends, with a server that is not ready.
  pub main_run-Ends :
      (w : W) (boot first : Tick Host) (events : List LoopEvent)
      → Ends (CanRun w boot) (main_run env flags w boot first events)
  unfolding main_run with_server with_interval serve_http
  main_run-Ends w boot first events =
      let m = (launch env flags w boot).1 in
      let served = serve_http env flags m in
      elim (launch-cases w boot) [
        | inl (e, p, u) ↦
            subst (Ends (CanRun w boot)) (sym (ap (λ o. with_server env flags o first events m) p))
              (inr (λ c. ground (arith, p, c.0), (start_failed e, refl), u))
        | inr (p, h) ↦
            subst (Ends (CanRun w boot)) (sym (ap (λ o. with_server env flags o first events m) p))
              (elim (Outcome-cases (parse_interval env.parse_duration flags.timer)) [
                | inr (e, q) ↦
                    subst (Ends (CanRun w boot))
                      (sym (ap (λ o. with_interval env flags o first events served) q))
                      (inr (
                        λ c. ground (arith, q, c.1.1),
                        (bad_interval e, refl),
                        stopped-unready served h.1,
                      ))
                | inl (interval, q) ↦
                    subst (Ends (CanRun w boot))
                      (sym (ap (λ o. with_interval env flags o first events served) q))
                      (Ends-iff (monitor_devices env flags interval first events served)
                        (
                          λ r. (p, (interval, q, r)),
                          λ c. (c.1.2.0, ground (arith, q, c.1.1, c.1.2.1)),
                        )
                        (monitor-Ends interval first events served h))
              ])
      ]

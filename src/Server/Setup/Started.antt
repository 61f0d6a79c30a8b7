-- ===== src/Server/Setup/Started.antt =====
-- pkg/server/server.go: what the start of the gRPC server leaves behind.
use spyre_health_checker.Base.{
  Bool-cases, ◌≡◌, refl, ap, subst, ◌∙◌, sym, inl, inr, ◌⊎◌, ◌↔◌, Bool, true, false, not, ◌&&◌,
  List, ◌++◌, Option, none, some, Option-cases, Text, codes, All, arith,
}
use spyre_health_checker.Types.{Outcome, err, Outcome-cases}
use spyre_health_checker.Healthcheck.{Vitals, Tick}
use spyre_health_checker.Server.Queue.{
  HealthServer, ServerEvent, stopped, Step, register, start_sending, first_sent, first_failed,
  leave, offer, drop, deliver, stop, Run, done, next,
}
use spyre_health_checker.Server.Ready.{handle_readyz}
use spyre_health_checker.Server.Authorize.{Peer, NamesOrganisation, authorize_stream_lem}
use spyre_health_checker.Server.Setup.{
  require_and_verify_client_cert, version_tls12, GrpcServer, Service, Os, new_server, safe_remove,
  secure_server, listen_and_serve, start_secure_grpc_server,
}

abbrev pub is_stop : ServerEvent → Bool
is_stop stopped = true
is_stop _ = false

ready-Step :
    {s t : HealthServer} {e : ServerEvent} → Step s e t → t.ready ≡ (s.ready && not (is_stop e))
ready-Step register = ground arith
ready-Step start_sending = ground arith
ready-Step (first_sent m) = ground arith
ready-Step (first_failed m) = ground arith
ready-Step (leave m) = ground arith
ready-Step (offer p r c) = ground arith
ready-Step (drop p r) = ground arith
ready-Step (deliver p m) = ground arith
ready-Step (stop p c) = ground arith

ready-Run :
    {s t : HealthServer} {es : List ServerEvent}
    → Run s es t
    → (t.ready ≡ true) ↔ ((s.ready ≡ true) × All (λ e. is_stop e ≡ false) es)
ready-Run done = (λ h. (h, tt), λ h. h.0)
ready-Run (next r rs) = ground (arith, ready-Step r, ready-Run rs)

handle_readyz_iff : (s : HealthServer) → (handle_readyz s ≡ (200, codes "Ready")) ↔ (s.ready ≡ true)
unfolding handle_readyz
handle_readyz_iff s = elim (Bool-cases s.ready) [
  | inl e ↦ (λ h. e, λ h. rw (e, handle_readyz) refl)
  | inr e ↦ (λ h. ground (arith, h, rw (e, handle_readyz) at h), λ h. ground arith)
]

-- `s` once the gRPC server is up.
abbrev pub with_server : {K : Type 0} → Service K → GrpcServer K → Service K
with_server s g = record s {
  flags = record (s.flags) { ready = true };
  socket = g.socket;
  grpc_server = some g;
}

module _ {W K : Type 0} (os : Os W K) where
  abbrev pub start : W → Service K → Text → Text → Text → Text → Option Text × W × Service K
  start = start_secure_grpc_server os

  -- The start fails and leaves the service as it was, or it succeeds and the service has its server.
  pub start_cases :
      (w : W) (s : Service K) (socket tls_cert_path tls_key_path ca_cert_path : Text)
      → ((e : Text) × (w' : W) × (start w s socket tls_cert_path tls_key_path ca_cert_path
            ≡ (some e, w', s)))
        ⊎ ((cert : K) × (ca_cert : Text) × (w' : W) × (start w s socket tls_cert_path tls_key_path
                ca_cert_path
              ≡ (none, w', with_server s (secure_server os socket cert ca_cert))))
  unfolding start_secure_grpc_server listen_and_serve
  start_cases w s socket tls_cert_path tls_key_path ca_cert_path =
      let w' = (safe_remove os w socket).1 in
      elim (Outcome-cases (os.load_key_pair w' tls_cert_path tls_key_path)) [
        | inr (e, p) ↦ inl (
          codes "failed to load TLS credentials: " ++ e,
          w',
          rw (p, start_secure_grpc_server) refl,
        )
        | inl (cert, p) ↦ elim (Outcome-cases (os.read_file w' ca_cert_path)) [
          | inr (e, q) ↦ inl (
            codes "failed to read CA certification: " ++ e,
            w',
            rw (p, q, start_secure_grpc_server) refl,
          )
          | inl (ca_cert, q) ↦ elim (Option-cases (os.listen w' socket).0) [
            | inr (e, r) ↦ inl (
              e,
              (os.listen w' socket).1,
              rw (p, q, r, start_secure_grpc_server, listen_and_serve) refl,
            )
            | inl r ↦ inr (
              cert,
              ca_cert,
              (os.listen w' socket).1,
              rw (p, q, r, start_secure_grpc_server, listen_and_serve) refl,
            )
          ]
        ]
      ]

  start-ready :
      (w : W) (s : Service K) (socket tls_cert_path tls_key_path ca_cert_path : Text)
      → s.flags.ready ≡ false
      → ((start w s socket tls_cert_path tls_key_path ca_cert_path).2.flags.ready ≡ true)
        ↔ ((start w s socket tls_cert_path tls_key_path ca_cert_path).0 ≡ none)
  start-ready w s socket tls_cert_path tls_key_path ca_cert_path h =
      elim (start_cases w s socket tls_cert_path tls_key_path ca_cert_path) [
        | inl (e, w', p) ↦ ground (arith, h, ap (λ o. o.0) p, ap (λ o. o.2.flags.ready) p)
        | inr (cert, ca_cert, w', p) ↦ ground (arith, ap (λ o. o.0) p, ap (λ o. o.2.flags.ready) p)
      ]

  -- A server answers the readiness probe with 200 Ready exactly if its gRPC server has been started
  -- without error and Stop has not been called, whatever clients and updates do.
  pub readyz_iff :
      {H : Type 0} {u : HealthServer} {es : List ServerEvent}
      → (t : Tick H) (v : Vitals H) (w : W) (socket tls_cert_path tls_key_path ca_cert_path : Text)
      → Run
          (start_secure_grpc_server os w
            (new_server t v).1
            socket
            tls_cert_path
            tls_key_path
            ca_cert_path).2.flags
          es
          u
      → (handle_readyz u ≡ (200, codes "Ready")) ↔ (
          ((start_secure_grpc_server os w
              (new_server t v).1
              socket
              tls_cert_path
              tls_key_path
              ca_cert_path).0
            ≡ none)
          × All (λ e. is_stop e ≡ false) es)
  unfolding new_server
  readyz_iff {u = u} t v w socket tls_cert_path tls_key_path ca_cert_path rs = ground (
    arith,
    handle_readyz_iff u,
    ready-Run rs,
    start-ready w (new_server t v).1 socket tls_cert_path tls_key_path ca_cert_path refl,
  )

  -- The gRPC server that a start sets up demands and verifies a certificate of each client in the TLS
  -- handshake, with TLS 1.2 or later, and it calls a stream handler exactly for a peer whose first
  -- certificate names an organisation; for any other peer the call ends in an error.
  pub served_authorized :
      {H : Type 0} {g : GrpcServer K}
      → (t : Tick H) (v : Vitals H) (w : W) (socket tls_cert_path tls_key_path ca_cert_path : Text)
        (peer : Peer) (handler : Peer → Outcome Text (Unit {0}))
      → (start_secure_grpc_server os w
          (new_server t v).1
          socket
          tls_cert_path
          tls_key_path
          ca_cert_path).2.grpc_server
        ≡ some g
      → (g.creds.client_auth ≡ require_and_verify_client_cert)
        × (g.creds.min_version ≡ version_tls12)
        × ((NamesOrganisation peer × (g.stream_interceptor peer handler ≡ handler peer))
            ⊎ ((¬ NamesOrganisation peer)
                × ((e : Text) × (g.stream_interceptor peer handler ≡ err e))))
  unfolding new_server secure_server
  served_authorized {g = g} t v w socket tls_cert_path tls_key_path ca_cert_path peer handler h =
      elim (start_cases w (new_server t v).1 socket tls_cert_path tls_key_path ca_cert_path) [
        | inl (e, w', p) ↦ absurd (ground (arith, h, ap (λ o. o.2.grpc_server) p))
        | inr (cert, ca_cert, w', p) ↦
            subst Guarded (set_unique (sym (ap (λ o. o.2.grpc_server) p) ∙ h))
              (refl, refl, authorize_stream_lem peer handler)
      ]
    where
      Guarded : GrpcServer K → Type 0
      Guarded g =
          (g.creds.client_auth ≡ require_and_verify_client_cert)
          × (g.creds.min_version ≡ version_tls12)
          × ((NamesOrganisation peer × (g.stream_interceptor peer handler ≡ handler peer))
              ⊎ ((¬ NamesOrganisation peer)
                  × ((e : Text) × (g.stream_interceptor peer handler ≡ err e))))

      set_unique : {a b : GrpcServer K} → some a ≡ some b → a ≡ b
      set_unique e = cc

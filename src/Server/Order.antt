-- ===== src/Server/Order.antt =====
-- pkg/server/server.go: the order in which the states that main publishes reach the clients.
use mathlib.Core.List.{append_assoc, append-nil, map-append}
use spyre_health_checker.Base.{
  ℕ, ◌≡◌, refl, ap, sym, ◌∙◌, Bool, true, false, List, [], ◌∷◌, ◌++◌, Option, none, some, map,
  if◌then◌else◌, ◌==◌, All, arith,
}
use spyre_health_checker.Types.{DeviceState}
use spyre_health_checker.Server.Queue.{
  HealthServer, ServerEvent, registered, starting, left, offered, dropped, delivered, stopped,
  is_member, Step, register, start_sending, first_sent, first_failed, leave, offer, drop, deliver,
  stop, Run, done, next,
}
use spyre_health_checker.Server.Stream.{update, message, stream_updates}

-- The states for which UpdateHealths was called, handed over or not.
abbrev pub published : List ServerEvent → List (List DeviceState)
published [] = []
published (offered states ∷ es) = states ∷ published es
published (dropped states ∷ es) = states ∷ published es
published (_ ∷ es) = published es

-- The states that were handed over to a handler.
abbrev pub received_by : ℕ → List ServerEvent → List (List DeviceState)
received_by i [] = []
received_by i (delivered j states ∷ es) =
    let rest = received_by i es in if i == j then states ∷ rest else rest
received_by i (_ ∷ es) = received_by i es

-- The states that a blocked UpdateHealths holds.
abbrev pub held : Option (List DeviceState) → List (List DeviceState)
held none = []
held (some states) = states ∷ []

-- No client comes or goes.
abbrev pub is_steady : ServerEvent → Bool
is_steady (registered i) = false
is_steady (starting i) = false
is_steady (left i) = false
is_steady _ = true

-- The loop of a single handler waits, and the flag is set.
abbrev pub ServesOnly : ℕ → HealthServer → Type 0
ServesOnly i s = (s.waiting ≡ i ∷ []) × (s.streaming ≡ true)

only_member :
    (i j : ℕ) (s : HealthServer) → ServesOnly i s → is_member j s.waiting ≡ true → (i == j) ≡ true
unfolding is_member
only_member i j s h m = ground (arith, ap (is_member j) h.0)

Fifo-Step :
    {i : ℕ} {s t : HealthServer} {e : ServerEvent}
    → Step s e t
    → is_steady e ≡ true
    → ServesOnly i s
    → ServesOnly i t
      × (held s.pending ++ published (e ∷ []) ≡ received_by i (e ∷ []) ++ held t.pending)
Fifo-Step register n h = cc
Fifo-Step start_sending n h = cc
Fifo-Step (first_sent m) n h = cc
Fifo-Step (first_failed m) n h = cc
Fifo-Step (leave m) n h = cc
Fifo-Step (offer p r c) n h = (h, rw p refl)
Fifo-Step (drop p r) n h = cc
Fifo-Step {i} (deliver {s} {i = j} p m) n h = (h, rw (p, only_member i j s h m) refl)
Fifo-Step (stop p c) n h = (h, rw p refl)

published-append :
    (e : ServerEvent) (es : List ServerEvent)
    → published (e ∷ es) ≡ published (e ∷ []) ++ published es
published-append (registered i) es = refl
published-append (starting i) es = refl
published-append (left i) es = refl
published-append (offered states) es = refl
published-append (dropped states) es = refl
published-append (delivered i states) es = refl
published-append stopped es = refl

received_by-append :
    (i : ℕ) (e : ServerEvent) (es : List ServerEvent)
    → received_by i (e ∷ es) ≡ received_by i (e ∷ []) ++ received_by i es
received_by-append i (registered j) es = refl
received_by-append i (starting j) es = refl
received_by-append i (left j) es = refl
received_by-append i (offered states) es = refl
received_by-append i (dropped states) es = refl
received_by-append i (delivered j states) es = ground arith
received_by-append i stopped es = refl

Fifo-Run :
    {i : ℕ} {s t : HealthServer} {es : List ServerEvent}
    → Run s es t
    → All (λ e. is_steady e ≡ true) es
    → ServesOnly i s
    → held s.pending ++ published es ≡ received_by i es ++ held t.pending
Fifo-Run {s = s} done n h = append-nil (held s.pending)
Fifo-Run {i} (next {s} {t} {u} {e} {es} r rs) (n, ns) h =
    let (h', q) = Fifo-Step r n h in
    ap (λ l. held s.pending ++ l) (published-append e es)
    ∙ sym (append_assoc (held s.pending) (published (e ∷ [])) (published es))
    ∙ ap (λ l. l ++ published es) q
    ∙ append_assoc (received_by i (e ∷ [])) (held t.pending) (published es)
    ∙ ap (λ l. received_by i (e ∷ []) ++ l) (Fifo-Run rs ns h')
    ∙ sym (append_assoc (received_by i (e ∷ [])) (received_by i es) (held u.pending))
    ∙ ap (λ l. l ++ held u.pending) (sym (received_by-append i e es))

stream_updates-map :
    (states : List (List DeviceState))
    → stream_updates (map (λ ss. update ss true) states) ≡ map message states
unfolding stream_updates
stream_updates-map [] = refl
stream_updates-map (ss ∷ states) = ap (λ l. message ss ∷ l) (stream_updates-map states)

-- While a single handler waits on the queue and no client comes or goes, UpdateHealths drops nothing: the
-- handler of a client whose messages can be sent sends one message for each states that are published, in
-- their order, with at most the last one still held by a blocked UpdateHealths.
pub sole_client_in_order :
    {i : ℕ} {s t : HealthServer} {es : List ServerEvent}
    → Run s es t
    → All (λ e. is_steady e ≡ true) es
    → ServesOnly i s
    → s.pending ≡ none
    → map message (published es)
      ≡ stream_updates (map (λ states. update states true) (received_by i es))
        ++ map message (held t.pending)
sole_client_in_order {i} {s} {t} {es} rs n h p =
    ap (λ l. map message (l ++ published es)) (sym (ap held p))
    ∙ ap (map message) (Fifo-Run rs n h)
    ∙ map-append message (received_by i es) (held t.pending)
    ∙ ap (λ l. l ++ map message (held t.pending)) (sym (stream_updates-map (received_by i es)))

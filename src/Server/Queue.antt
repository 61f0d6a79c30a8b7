-- ===== src/Server/Queue.antt =====
-- pkg/server/server.go: the update queue, which UpdateHealths, the stream handlers and Stop share, as
-- a step relation on the server's state. Each step is one that no other goroutine sees in the middle.
use spyre_health_checker.Base.{
  ℕ, ◌≡◌, refl, ap, Bool, true, false, ◌||◌, List, [], ◌∷◌, Option, none, some, if◌then◌else◌, ◌==◌,
  All, arith,
}
use spyre_health_checker.Types.{DeviceState}

-- The flags of the server, the states that a blocked UpdateHealths wants to hand over, the handlers that wait on the
-- queue, and those that still send their first message with the flag `streaming` set.
pub record HealthServer : Type 0 where
  pub ready : Bool
  pub streaming : Bool
  pub is_closed : Bool
  pub pending : Option (List DeviceState)
  pub waiting : List ℕ
  pub sending : List ℕ

-- `NewServer`, after the gRPC server has started
abbrev pub started_server : HealthServer
started_server = record {
  ready = true;
  streaming = false;
  is_closed = false;
  pending = none;
  waiting = [];
  sending = [];
}

unfoldable pub is_member : ℕ → List ℕ → Bool
is_member i [] = false
is_member i (j ∷ js) = i == j || is_member i js

unfoldable pub without : ℕ → List ℕ → List ℕ
without i [] = []
without i (j ∷ js) = let rest = without i js in if i == j then rest else j ∷ rest

-- A handler enters its loop, starts with the flag already set, or returns; UpdateHealths
-- begins, finds no stream, or hands its states to a handler; Stop closes the queue.
pub data ServerEvent : Type 0 where
  registered starting left : ℕ → ServerEvent
  offered dropped : List DeviceState → ServerEvent
  delivered : ℕ → List DeviceState → ServerEvent
  stopped : ServerEvent

pub data Step : HealthServer → ServerEvent → HealthServer → Type 0 where
  -- `RegisterForSpyreDevicesEvents`, once the first message is sent
  register :
      {s : HealthServer} {i : ℕ}
      → Step s (registered i) (record s { streaming = true; waiting = i ∷ s.waiting })
  -- `RegisterForSpyreDevicesEventsWithDevices` sets the flag before the first message
  start_sending :
      {s : HealthServer} {i : ℕ}
      → Step s (starting i) (record s { streaming = true; sending = i ∷ s.sending })
  first_sent :
      {s : HealthServer} {i : ℕ}
      → is_member i s.sending ≡ true
      → Step s (registered i) (record s { sending = without i s.sending; waiting = i ∷ s.waiting })
  first_failed :
      {s : HealthServer} {i : ℕ}
      → is_member i s.sending ≡ true
      → Step s (left i) (record s { streaming = false; sending = without i s.sending })
  -- The end of the client's context, of the queue or of sending: `defer s.streaming.Store(false)`
  leave :
      {s : HealthServer} {i : ℕ}
      → is_member i s.waiting ≡ true
      → Step s (left i) (record s { streaming = false; waiting = without i s.waiting })
  -- `UpdateHealths` holds the lock while it waits, so that no second call begins
  offer :
      {s : HealthServer} {states : List DeviceState}
      → s.pending ≡ none
      → s.streaming ≡ true
      → s.is_closed ≡ false
      → Step s (offered states) (record s { pending = some states })
  drop :
      {s : HealthServer} {states : List DeviceState}
      → s.pending ≡ none
      → s.streaming ≡ false
      → Step s (dropped states) s
  deliver :
      {s : HealthServer} {i : ℕ} {states : List DeviceState}
      → s.pending ≡ some states
      → is_member i s.waiting ≡ true
      → Step s (delivered i states) (record s { pending = none })
  -- `Stop`; a send on the closed queue would end the program
  stop :
      {s : HealthServer}
      → s.pending ≡ none
      → s.is_closed ≡ false
      → Step s stopped (record s { ready = false; is_closed = true })

pub data Run : HealthServer → List ServerEvent → HealthServer → Type 0 where
  done : {s : HealthServer} → Run s [] s
  next :
      {s t u : HealthServer} {e : ServerEvent} {es : List ServerEvent}
      → Step s e t
      → Run t es u
      → Run s (e ∷ es) u

abbrev pub is_entry : ServerEvent → Bool
is_entry (registered i) = true
is_entry (starting i) = true
is_entry _ = false

abbrev pub is_delivery : ServerEvent → Bool
is_delivery (delivered i states) = true
is_delivery _ = false

-- UpdateHealths begins or returns.
abbrev pub is_update : ServerEvent → Bool
is_update (offered states) = true
is_update (dropped states) = true
is_update (delivered i states) = true
is_update _ = false

abbrev Quiet : HealthServer → Type 0
Quiet s = (s.streaming ≡ false) × (s.pending ≡ none)

Quiet-Step :
    {s t : HealthServer} {e : ServerEvent}
    → Step s e t
    → is_entry e ≡ false
    → Quiet s
    → Quiet t × (is_delivery e ≡ false)
Quiet-Step register n q = cc
Quiet-Step start_sending n q = cc
Quiet-Step (first_sent m) n q = cc
Quiet-Step (first_failed m) n q = ((refl, q.1), refl)
Quiet-Step (leave m) n q = ((refl, q.1), refl)
Quiet-Step (offer p r c) n q = cc
Quiet-Step (drop p r) n q = (q, refl)
Quiet-Step (deliver p m) n q = cc
Quiet-Step (stop p c) n q = (q, refl)

Quiet-Run :
    {s t : HealthServer} {es : List ServerEvent}
    → Run s es t
    → All (λ e. is_entry e ≡ false) es
    → Quiet s
    → All (λ e. is_delivery e ≡ false) es
Quiet-Run done n q = tt
Quiet-Run (next r rs) (n, ns) q = let (q', d) = Quiet-Step r n q in (d, Quiet-Run rs ns q')

-- Once any handler has returned while no update was in flight, no update reaches any other handler,
-- however many of them still wait, until a further client registers.
pub leave_silences :
    {i : ℕ} {s t u : HealthServer} {es : List ServerEvent}
    → s.pending ≡ none
    → Step s (left i) t
    → Run t es u
    → All (λ e. is_entry e ≡ false) es
    → All (λ e. is_delivery e ≡ false) es
leave_silences p (first_failed m) rs n = Quiet-Run rs n (refl, p)
leave_silences p (leave m) rs n = Quiet-Run rs n (refl, p)

abbrev pub IsBlocked : HealthServer → Type 0
IsBlocked s = ((states : List DeviceState) × (s.pending ≡ some states)) × (s.waiting ≡ [])

no_member : (i : ℕ) (s : HealthServer) → s.waiting ≡ [] → is_member i s.waiting ≡ true → ⊥
unfolding is_member
no_member i s w m = ground (arith, ap (is_member i) w)

IsBlocked-Step :
    {s t : HealthServer} {e : ServerEvent}
    → Step s e t
    → is_entry e ≡ false
    → IsBlocked s
    → IsBlocked t × (is_update e ≡ false)
unfolding is_member
IsBlocked-Step register n b = cc
IsBlocked-Step start_sending n b = cc
IsBlocked-Step (first_sent m) n b = cc
IsBlocked-Step (first_failed m) n b = (b, refl)
IsBlocked-Step (leave {s} {i} m) n ((states, p), w) = absurd (no_member i s w m)
IsBlocked-Step (offer p r c) n ((states, q), w) = cc
IsBlocked-Step (drop p r) n ((states, q), w) = cc
IsBlocked-Step (deliver {s} {i} p m) n ((states, q), w) = absurd (no_member i s w m)
IsBlocked-Step (stop p c) n ((states, q), w) = cc

-- If the last waiting handler returns while UpdateHealths has states to hand over, no update begins, is handed
-- over or is dropped any more until a further client registers.
pub blocked_updates :
    {s t : HealthServer} {es : List ServerEvent}
    → Run s es t
    → All (λ e. is_entry e ≡ false) es
    → IsBlocked s
    → All (λ e. is_update e ≡ false) es
blocked_updates done n b = tt
blocked_updates (next r rs) (n, ns) b =
    let (b', d) = IsBlocked-Step r n b in (d, blocked_updates rs ns b')

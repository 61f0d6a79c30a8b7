-- ===== src/Server/Authorize.antt =====
-- pkg/server/server.go: the check of a client's certificate behind the TLS handshake.
use spyre_health_checker.Base.{
  ◌≡◌, refl, inl, inr, ◌⊎◌, ap, ◌∙◌, List, List-cases, arith, [], ◌∷◌, Option, none, some, Text,
  codes,
}
use spyre_health_checker.Types.{Outcome, err}

-- A certificate, with the organisations of its subject.
pub record Certificate : Type 0 where
  pub organization : List Text

-- What the context of a call says of the peer: nothing, authentication other than TLS, or the certificates that it
-- presented.
pub data Peer : Type 0 where
  no_peer other_auth : Peer
  tls : List Certificate → Peer

abbrev pub no_peer_info : Text
no_peer_info = codes "no peer info in context"

abbrev pub no_certificate : Text
no_certificate = codes "no client certificate presented"

abbrev pub no_organisation : Text
no_organisation = codes "client certificate has no Organisation"

-- `authorizeClientCert`, with the message of the error Unauthenticated
unfoldable pub authorize_client_cert : Peer → Option Text
authorize_client_cert no_peer = some no_peer_info
authorize_client_cert other_auth = some no_certificate
authorize_client_cert (tls []) = some no_certificate
authorize_client_cert (tls (cert ∷ certs)) = elim cert.organization [
  | [] ↦ some no_organisation
  | o ∷ os ↦ none
]

-- `authorizeStream`
unfoldable pub authorize_stream : {A : Type 0} → Peer → (Peer → Outcome Text A) → Outcome Text A
unfolding authorize_client_cert
authorize_stream peer handler = elim (authorize_client_cert peer) [
  | some e ↦ err e
  | none ↦ handler peer
]

-- `authorizeUnary`
unfoldable pub authorize_unary :
    {Q A : Type 0} → Peer → Q → (Peer → Q → Outcome Text A) → Outcome Text A
unfolding authorize_client_cert
authorize_unary peer req handler = elim (authorize_client_cert peer) [
  | some e ↦ err e
  | none ↦ handler peer req
]

-- The peer has presented a certificate, and the first one names an organisation.
abbrev pub NamesOrganisation : Peer → Type 0
NamesOrganisation peer =
    (cert : Certificate) × (certs : List Certificate) × (o : Text) × (os : List Text) × (peer
      ≡ tls (cert ∷ certs))
    × (cert.organization ≡ o ∷ os)

peer-cases :
    (peer : Peer)
    → ((authorize_client_cert peer ≡ none) × NamesOrganisation peer)
      ⊎ ((e : Text) × (authorize_client_cert peer ≡ some e))
unfolding authorize_client_cert
peer-cases no_peer = inr (no_peer_info, refl)
peer-cases other_auth = inr (no_certificate, refl)
peer-cases (tls []) = inr (no_certificate, refl)
peer-cases (tls (cert ∷ certs)) = elim (List-cases cert.organization) [
  | inl e ↦ inr (no_organisation, rw e refl)
  | inr (o, os, e) ↦ inl (rw e refl, (cert, certs, o, os, refl, e))
]

named-none : (peer : Peer) → NamesOrganisation peer → authorize_client_cert peer ≡ none
unfolding authorize_client_cert
named-none peer (cert, certs, o, os, q, e) = ap authorize_client_cert q ∙ rw e refl

-- A stream handler is called exactly for a peer whose first certificate names an organisation, and
-- its answer is the answer of the call. For any other peer the call ends in an error.
pub authorize_stream_lem :
    {A : Type 0}
    → (peer : Peer) (handler : Peer → Outcome Text A)
    → (NamesOrganisation peer × (authorize_stream peer handler ≡ handler peer))
      ⊎ ((¬ NamesOrganisation peer) × ((e : Text) × (authorize_stream peer handler ≡ err e)))
unfolding authorize_stream
authorize_stream_lem peer handler = elim (peer-cases peer) [
  | inl (e, n) ↦ inl (n, rw (e, authorize_stream) refl)
  | inr (m, e) ↦ inr (λ n. ground (arith, named-none peer n), (m, rw (e, authorize_stream) refl))
]

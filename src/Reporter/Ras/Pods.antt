-- ===== src/Reporter/Ras/Pods.antt =====
-- internal/reporter/ras.go: which pods the RAS reporter scans. Pods and claims have the fields of the
-- Kubernetes API that the code reads; the answers of the API are an argument.
use spyre_health_checker.Base.{
  ℕ, Bool, true, false, not, ◌&&◌, ◌||◌, List, [], ◌∷◌, ◌++◌, Option, none, some, Text, codes,
  text_eq, has_prefix, if◌then◌else◌, any,
}
use spyre_health_checker.Types.{Outcome, ok, err}

-- `State.Waiting` of a container may be nil; it has a reason otherwise.
pub record ContainerStatus : Type 0 where
  pub name : Text
  pub waiting : Option Text

-- A container, with the names of the resources it requests.
pub record Container : Type 0 where
  pub name : Text
  pub requests : List Text

pub record Pod : Type 0 where
  pub namespace : Text
  pub name : Text
  pub phase : Text
  pub containers : List Container
  pub container_statuses : List ContainerStatus
  pub resource_claims : List (Option Text)
  pub resource_claim_statuses : List (Option Text)
  pub extended_resource_claim : Option Text

-- Forbidden and Unauthorized are the errors that the code tells apart.
pub data ApiError : Type 0 where
  forbidden unauthorized other_error : ApiError

-- The drivers of the devices that a claim was given, if it was given any.
pub record ResourceClaim : Type 0 where
  pub allocation : Option (List Text)

pub record PodLogOptions : Type 0 where
  pub container : Text
  pub previous : Bool
  pub tail_lines : ℕ

-- What the API answers, by namespace and name: a claim, and the text that a log's stream delivers.
pub record Cluster : Type 0 where
  pub get_claim : Text → Text → Outcome ApiError ResourceClaim
  pub get_logs : Text → Text → PodLogOptions → Outcome ApiError Text

abbrev pub crash_loop : Text
crash_loop = codes "CrashLoopBackOff"

abbrev pub pod_failed : Text
pod_failed = codes "Failed"

-- `cs.State.Waiting != nil && cs.State.Waiting.Reason == "CrashLoopBackOff"`
unfoldable pub is_crash_looping : ContainerStatus → Bool
is_crash_looping cs = elim cs.waiting [ none ↦ false | some reason ↦ text_eq reason crash_loop ]

-- `isFailedOrCrashLooping`
unfoldable pub is_failed_or_crash_looping : Pod → Bool
unfolding is_crash_looping
is_failed_or_crash_looping pod =
    text_eq pod.phase pod_failed || any is_crash_looping pod.container_statuses

-- `requestsSpyreResource`
unfoldable pub requests_spyre_resource : Pod → Bool
requests_spyre_resource pod =
    any (λ c. any (λ name. has_prefix name (codes "ibm.com/spyre_")) c.requests) pod.containers

-- The pointers to a name that are not nil.
unfoldable pub set_names : List (Option Text) → List Text
set_names [] = []
set_names (none ∷ names) = set_names names
set_names (some name ∷ names) = name ∷ set_names names

-- `podClaimNames`
unfoldable pub pod_claim_names : Pod → List Text
unfolding set_names
pod_claim_names pod =
    set_names pod.resource_claims
    ++ (set_names pod.resource_claim_statuses ++ elim pod.extended_resource_claim [
      | none ↦ []
      | some name ↦ if text_eq name [] then [] else name ∷ []
    ])

-- One round of the loop of `usesSpyreDRAClaim`.
unfoldable pub is_spyre_claim : Outcome ApiError ResourceClaim → Bool
is_spyre_claim (err e) = false
is_spyre_claim (ok claim) = elim claim.allocation [
  | none ↦ false
  | some drivers ↦ any (λ driver. text_eq driver (codes "spyre.ibm.com")) drivers
]

-- `usesSpyreDRAClaim`
unfoldable pub uses_spyre_dra_claim : Cluster → Pod → Bool
unfolding pod_claim_names is_spyre_claim
uses_spyre_dra_claim cluster pod =
    any (λ name. is_spyre_claim (cluster.get_claim pod.namespace name)) (pod_claim_names pod)

unfoldable pub is_allowed : Option (List Text) → Text → Bool
is_allowed none namespace = true
is_allowed (some namespaces) namespace = any (λ ns. text_eq ns namespace) namespaces

-- `skipPod`
unfoldable pub skip_pod : Option (List Text) → Cluster → Pod → Bool
unfolding is_failed_or_crash_looping is_allowed requests_spyre_resource uses_spyre_dra_claim
skip_pod allowed_namespaces cluster pod =
    if not (is_failed_or_crash_looping pod)
    then true
    else if not (is_allowed allowed_namespaces pod.namespace)
    then true
    else not (requests_spyre_resource pod) && not (uses_spyre_dra_claim cluster pod)

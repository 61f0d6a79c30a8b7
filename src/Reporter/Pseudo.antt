-- ===== src/Reporter/Pseudo.antt =====
-- internal/reporter/pseudo.go: the reporter that returns the static pseudo devices.
use spyre_health_checker.Base.{
  ℕ, length, ◌≡◌, Bool, true, false, List, [], ◌∷◌, ◌++◌, Text, codes, ◌&&◌, Option, none, some,
  All,
}
use spyre_health_checker.Types.{
  DeviceState, PbDeviceType, PbDeviceState, vf, pf, online, in_error, Reporter, Outcome, ok, Fault,
  priority_lspci, find_state,
}
use spyre_health_checker.Utils.PseudoDevice.{
  get_pseudo_device_healths, good_cards, bad_cards, good_isolated_vf_cards, bad_isolated_vf_cards,
}
use spyre_health_checker.Regexp.{take}
use spyre_health_checker.Reporter.{stamp}

abbrev pub pseudo_name : Text
pseudo_name = codes "pseudo"

-- `PseudoReporter.Collect`
unfoldable pub pseudo_collect : Text → Outcome Fault (List DeviceState)
unfolding stamp get_pseudo_device_healths
pseudo_collect arch = ok (stamp (get_pseudo_device_healths arch) pseudo_name priority_lspci)

-- `PseudoReporter`, on a machine of the given architecture.
abbrev pub pseudo_reporter : {W : Type 0} → Text → Reporter W
pseudo_reporter arch = record {
  name = pseudo_name;
  priority = priority_lspci;
  collect = λ _. pseudo_collect arch;
}

abbrev is_none : {A : Type 0} → Option A → Bool
is_none none = true
is_none (some a) = false

-- A test for distinct addresses.
abbrev distinct : List DeviceState → Bool
distinct [] = true
distinct (s ∷ ss) = is_none (find_state s.pci_address ss) && distinct ss

-- A PF card or a virtual function is listed in this state.
abbrev pub IsListed : List DeviceState → PbDeviceType → PbDeviceState → Text → Type 0
IsListed l t c a =
    find_state a l
    ≡ some (record { pci_address = a; type = t; state = c; source = codes "lspci"; priority = 1 })

-- The address of another function of a card: all but the last of the twelve characters stays.
abbrev pub function_address : Text → ℕ → Text
function_address a digit = take 11 a ++ digit ∷ []

-- The card is listed, and so are its first two virtual functions, in the same state.
abbrev pub HasFunctions : List DeviceState → PbDeviceState → Text → Type 0
HasFunctions l c a =
    IsListed l pf c a
    × IsListed l vf c (function_address a b'1')
    × IsListed l vf c (function_address a b'2')

-- The list of every architecture but s390x.
abbrev pub ListsCards : List DeviceState → Type 0
ListsCards l =
    All (HasFunctions l online) good_cards
    × All (HasFunctions l in_error) bad_cards
    × (length l ≡ 24)

-- The list of s390x, where virtual functions stand alone.
abbrev pub ListsIsolated : List DeviceState → Type 0
ListsIsolated l =
    All (IsListed l pf online) good_cards
    × All (IsListed l pf in_error) bad_cards
    × All (IsListed l vf online) good_isolated_vf_cards
    × All (IsListed l vf in_error) bad_isolated_vf_cards
    × (length l ≡ 16)

-- ===== src/Utils/PseudoDevice.antt =====
-- internal/utils/pseudo_device.go. The architecture and the environment variable are arguments.
use spyre_health_checker.Base.{
  ℕ, Bool, List, [], ◌∷◌, ◌++◌, Text, codes, text_eq, split, ltb, decimal, if◌then◌else◌,
}
use spyre_health_checker.Types.{
  DeviceState, PbDeviceType, PbDeviceState, pf, vf, online, in_error, priority_lspci,
}

abbrev pub sriov_vf_arch : Text
sriov_vf_arch = codes "s390x"

abbrev pub good_cards : List Text
good_cards =
    codes "0000:1a:00.0"
    ∷ codes "0000:1c:00.0"
    ∷ codes "0000:1d:00.0"
    ∷ codes "0000:1e:00.0"
    ∷ codes "0000:3d:00.0"
    ∷ codes "0000:3f:00.0"
    ∷ codes "0000:40:00.0"
    ∷ []

abbrev pub bad_cards : List Text
bad_cards = codes "0000:41:00.0" ∷ []

abbrev pub good_isolated_vf_cards : List Text
good_isolated_vf_cards =
    codes "0001:00:00.0"
    ∷ codes "0002:00:00.0"
    ∷ codes "0003:00:00.0"
    ∷ codes "0004:00:00.0"
    ∷ codes "0005:00:00.0"
    ∷ codes "0006:00:00.0"
    ∷ codes "0007:00:00.0"
    ∷ []

abbrev pub bad_isolated_vf_cards : List Text
bad_isolated_vf_cards = codes "0008:00:00.0" ∷ []

-- `IsPseudoDeviceMode`, of the value of PSEUDO_DEVICE_MODE.
unfoldable pub is_pseudo_device_mode : Text → Bool
is_pseudo_device_mode value = text_eq value (codes "1")

abbrev pub pseudo_health_source : Text
pseudo_health_source = codes "lspci"

first_part : List Text → Text
first_part [] = []
first_part (t ∷ ts) = t

unfoldable pub get_pseudo_vf_address : Text → ℕ → Text
unfolding decimal first_part split
get_pseudo_vf_address pf_address vf_index =
    if ltb vf_index 1 then [] else first_part (split b'.' pf_address) ++ b'.' ∷ decimal vf_index

abbrev pseudo_state : Text → PbDeviceType → PbDeviceState → DeviceState
pseudo_state a t s = record {
  pci_address = a;
  type = t;
  state = s;
  source = pseudo_health_source;
  priority = priority_lspci;
}

-- One round of the loops over the PF cards.
unfoldable pub pf_healths : Text → PbDeviceState → Text → List DeviceState
unfolding get_pseudo_vf_address
pf_healths arch s card =
    pseudo_state card pf s
    ∷ (if text_eq arch sriov_vf_arch
        then []
        else pseudo_state (get_pseudo_vf_address card 1) vf s
          ∷ pseudo_state (get_pseudo_vf_address card 2) vf s
          ∷ [])

unfoldable pub pf_cards_healths : Text → PbDeviceState → List Text → List DeviceState
unfolding pf_healths
pf_cards_healths arch s [] = []
pf_cards_healths arch s (card ∷ cards) = pf_healths arch s card ++ pf_cards_healths arch s cards

unfoldable pub isolated_vf_healths : PbDeviceState → List Text → List DeviceState
isolated_vf_healths s [] = []
isolated_vf_healths s (card ∷ cards) = pseudo_state card vf s ∷ isolated_vf_healths s cards

unfoldable pub get_pseudo_device_healths : Text → List DeviceState
unfolding pf_cards_healths isolated_vf_healths
get_pseudo_device_healths arch =
    pf_cards_healths arch online good_cards
    ++ (pf_cards_healths arch in_error bad_cards
        ++ (if text_eq arch sriov_vf_arch
            then isolated_vf_healths online good_isolated_vf_cards
              ++ isolated_vf_healths in_error bad_isolated_vf_cards
            else []))

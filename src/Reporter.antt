-- ===== src/Reporter.antt =====
-- internal/reporter/reporter.go: what every reporter does to its states, and their merge (Merge).
pub mod Merge
pub mod Lspci
pub mod Ras
pub mod Pseudo
pub mod Cardmgmt
pub mod CardHealth
use spyre_health_checker.Base.{ℕ, List, [], ◌∷◌, Text}
use spyre_health_checker.Types.{DeviceState}

-- `stamp` overwrites source and priority on every entry.
unfoldable pub stamp : List DeviceState → Text → ℕ → List DeviceState
stamp [] source priority = []
stamp (s ∷ states) source priority =
    record s { source = source; priority = priority } ∷ stamp states source priority

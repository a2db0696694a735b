-- ===== src/Tests/Probes.antt =====
-- The health checker, at a backend that goes down and comes back.
use xal_tor_ka.Base.{ℕ, code, true, List, [], ◌∷◌, pos}
use xal_tor_ka.Models.Services.{Backend}
use xal_tor_ka.Health.Checker.{Network, responded, new_checker}
use xal_tor_ka.Health.Checker.Laws.{Agrees, Round, rounds, rounds-Agrees}
use xal_tor_ka.Tests.Fixtures.{app}

abbrev probed : Backend
probed = record app {
  health = record { url = "http://app/"; interval_seconds = pos 1; timeout_seconds = pos 1 };
}

abbrev answers : ℕ → ℕ → Network
answers at code be limit = record { start = at; response = responded code }

abbrev round : ℕ → ℕ → Round
round at code = record { net = answers at code; now = at; backends = probed ∷ [] }

abbrev outage : List Round
outage = round 0 200 ∷ round 5000000000 503 ∷ round 10000000000 200 ∷ []

rounds-Agrees_example : Agrees (rounds (new_checker true) outage)
rounds-Agrees_example = rounds-Agrees outage

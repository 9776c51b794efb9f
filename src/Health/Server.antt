-- ===== src/Health/Server.antt =====
-- The server of internal/health/health.go: `New`, `Enabled` and `Run`. What the listener and the context
-- do is an argument.
use domainturva.Prelude.{String, ◌==◌, Bool, not, Option, none, some, if◌then◌else◌}
use domainturva.Time.{Time}
use domainturva.Config.{Config}

pub record Server : Type 0 where
  pub listen : String
  pub config : Config
  pub started : Time

unfoldable pub new : Config → (now : Time) → Server
new c now = record { listen = c.health_listen; config = c; started = now }

unfoldable pub enabled : Server → Bool
enabled s = not (s.listen == "")

-- Which way the `select` of `Run` goes: the context ends, or `ListenAndServe` returns with an error.
pub data Ending : Type 0 where
  shut_down server_closed : Ending
  listen_failed : String → Ending

abbrev ending_error : Ending → Option String
ending_error shut_down = none
ending_error server_closed = none
ending_error (listen_failed e) = some e

-- `Run` does not listen where it is not enabled.
unfoldable pub run : Server → Ending → Option String
unfolding enabled
run s ending = if enabled s then ending_error ending else none

-- ===== src/Main.antt =====
-- cmd/domainturva/main.go: the notifiers of the configuration, and, in the modules below, the flags and
-- the subcommands.
pub mod Routes
pub mod Flags
pub mod Commands
pub mod Startup
use domainturva.Prelude.{◌==◌, List, [], ◌∷◌, Dict, insert, if◌then◌else◌}
use domainturva.Config.{Notifier, notifier_slack, notifier_smtp}
use domainturva.Notifier.Backend.{Backend, slack, smtp, new_slack, new_smtp}

-- One round of the loop of `buildNotifiers`; an unknown type is only logged.
unfoldable pub add_notifier : Dict Backend → Notifier → Dict Backend
unfolding insert new_slack new_smtp
add_notifier out n =
    if n.type == notifier_slack
    then insert n.name (slack (new_slack n.name n.webhook)) out
    else if n.type == notifier_smtp
    then insert n.name (smtp (new_smtp n.name n.host n.port n.username n.password n.from n.to)) out
    else out

unfoldable pub add_notifiers : Dict Backend → List Notifier → Dict Backend
unfolding add_notifier
add_notifiers out [] = out
add_notifiers out (n ∷ ns) = add_notifiers (add_notifier out n) ns

unfoldable pub build_notifiers : List Notifier → Dict Backend
unfolding add_notifiers
build_notifiers ns = add_notifiers [] ns

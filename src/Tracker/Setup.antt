-- ===== src/Tracker/Setup.antt =====
-- How the tracker is set up: `Init` of common/tracker/default_tracker.go, common/tracker/tracker.go
-- and `GetEnv` of common/utils/utils.go. The environment, the files and yaml are parameters.
use virtual_kubelet.Common.{◌≡◌, refl, Bool, Option, none, some, [], Text, text, if◌then◌else◌}
use virtual_kubelet.Tracker.{Config, Event, Tracked, record_event, report_event, error_report}

-- `read_file` is `none` on an error, `unmarshal` fills in what the text sets and is `none` on an
-- error, and `open_file` says whether the file can be opened.
pub record Host : Type 0 where
  pub lookup_env : Text → Option Text
  pub read_file : Text → Option Text
  pub unmarshal : Text → Config → Option Config
  pub join_path : Text → Text → Text
  pub open_file : Text → Bool

unfoldable get_env : (Text → Option Text) → Text → Text → Text
get_env lookup_env key default = elim (lookup_env key) [ some value ↦ value | none ↦ default ]

data Writer : Type 0 where
  stdout : Writer
  log_file : Text → Writer

record DefaultTracker : Type 0 where
  config : Config
  log_writer : Writer

-- `T` of the package before it is set up.
abbrev unset : DefaultTracker
unset = record {
  config = record { report_level = []; report_links = []; log_dir = [] };
  log_writer = stdout;
}

abbrev given_level : Config
given_level = record { report_level = text "error"; report_links = []; log_dir = [] }

abbrev config_path : Text
config_path = text "config/default_tracker_config.yaml"

module _ (host : Host) where
  -- `none` is the panic on a file that is not yaml.
  unfoldable configured : Option Config → Option DefaultTracker
  configured none = none
  configured (some config) =
      let file = host.join_path config.log_dir (text "events.log") in
      some (record {
        config = config;
        log_writer = if host.open_file file then log_file file else stdout;
      })

  unfoldable init : DefaultTracker → Option DefaultTracker
  unfolding configured get_env
  init t =
      let path = get_env host.lookup_env (text "TRACKER_CONFIG_PATH") config_path in
      elim (host.read_file path) [
        | none ↦ some (record t { log_writer = stdout })
        | some content ↦ configured (host.unmarshal content given_level)
      ]

-- The tracker that is in use after `SetTracker`; `init` may panic.
unfoldable set_tracker : {A : Type 0} → (A → Option A) → Option A → A → Option A
set_tracker init none current = some current
set_tracker init (some new) current = init new

module _ {S : Type 0} (host : Host) where
  -- Without a file to read, setting up the package's own tracker does not panic, and afterwards no
  -- event is reported to any link.
  unread-silent :
      host.read_file (get_env host.lookup_env (text "TRACKER_CONFIG_PATH") config_path) ≡ none
      → (t : DefaultTracker) × (set_tracker (init host) (some unset) unset ≡ some t)
        × ((e : Event) (message code : Text) (x : Tracked S)
            → (error_report t.config e message code x).reported ≡ x.reported)
  unfolding set_tracker init error_report record_event report_event
  unread-silent h = (unset, rw (h, init) refl, λ e message code x. refl)

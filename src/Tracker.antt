-- ===== src/Tracker.antt =====
-- common/tracker/default_tracker.go: events are recorded in the log, and reported to the configured
-- links. Reports run beside the log, so the two are kept apart; the file and HTTP calls are left out.
pub mod Records
pub mod Setup
pub mod Tests
use virtual_kubelet.Common.{
  ℕ, ◌≡◌, Bool, true, false, ◌||◌, Option, none, some, is_some, List, [], ◌∷◌, ◌++◌, map, Text,
  text, Map, Error, if◌then◌else◌,
}
use virtual_kubelet.Biz.{same_text}
use virtual_kubelet.Polling.{check_and_finally_call}

pub record Config : Type 0 where
  pub report_level : Text
  pub report_links : List Text
  pub log_dir : Text

unfoldable pub is_debug : Config → Bool
is_debug config = same_text config.report_level (text "debug")

-- `time_used` is in milliseconds.
pub record LogData : Type 0 where
  pub trace_id : Text
  pub scene : Text
  pub event : Text
  pub time_used : ℕ
  pub result : Text
  pub message : Text
  pub code : Text
  pub labels : Map Text

-- Both lists have the latest entry first; `outer` is what the tracked functions change.
pub record Tracked (S : Type 0) : Type 0 where
  pub outer : S
  pub recorded : List LogData
  pub reported : List (Text × LogData)

-- What the caller says of an event.
pub record Event : Type 0 where
  pub trace_id : Text
  pub scene : Text
  pub event : Text
  pub labels : Map Text

abbrev pub code_success : Text
code_success = text "00000"

abbrev pub data_of : Event → Text → Text → Text → ℕ → LogData
data_of e result message code time_used = record {
  trace_id = e.trace_id;
  scene = e.scene;
  event = e.event;
  time_used = time_used;
  result = result;
  message = message;
  code = code;
  labels = e.labels;
}

module _ {S : Type 0} where
  unfoldable pub record_event : LogData → Tracked S → Tracked S
  record_event entry t = record t { recorded = entry ∷ t.recorded }

  unfoldable pub report_event : Config → LogData → Tracked S → Tracked S
  report_event config entry t = record t {
    reported = map (λ link. (link, entry)) config.report_links ++ t.reported;
  }

  unfoldable pub error_report : Config → Event → Text → Text → Tracked S → Tracked S
  unfolding record_event report_event
  error_report config e message code t =
      let entry = data_of e (text "fail") message code 0 in
      record_event entry (report_event config entry t)

-- `error_text` is the `Error` method.
abbrev pub func_data : (Error → Text) → Event → Option Error → Text → ℕ → LogData
func_data error_text e none code time_used = data_of e (text "success") [] code time_used
func_data error_text e (some x) code time_used =
    data_of e (text "fail") (error_text x) code time_used

module _ {S : Type 0} (config : Config) (error_text : Error → Text) where
  unfoldable pub func_track :
      Event → (S → Option Error × Text × S) → ℕ → Tracked S → Option Error × Tracked S
  unfolding record_event report_event is_debug
  func_track e f time_used t =
      let (x, code, s) = f t.outer in
      let entry = func_data error_text e x code time_used in
      let ran = record t { outer = s } in
      (
        x,
        record_event entry
            (if is_some x || is_debug config then report_event config entry ran else ran),
      )

module _ {S : Type 0} where
  -- The state under the poll has the flag `checkTimeout`; the poll's own error is dropped.
  unfoldable pub poll : ℕ → (S → Bool × Option Error × S) → (S → S) → (S → S) → S → Bool × S
  unfolding check_and_finally_call
  poll ticks check passed timeout_call s =
      (check_and_finally_call (λ (x : Bool × S). (x.0, passed x.1))
        (λ (x : Bool × S). (true, timeout_call x.1)) ticks
        (λ (x : Bool × S). (let (b, e, s') = check x.1 in (b, e, (x.0, s')))) (false, s)).1

module _ {S : Type 0} (config : Config) where
  -- On a timeout the code is set to the timeout's, and then to success.
  unfoldable pub after_poll : Event → ℕ → Bool → Tracked S → Tracked S
  unfolding record_event report_event is_debug
  after_poll e time_used true t =
      let entry = data_of e (text "fail") (text "event timeout") code_success time_used in
      record_event entry (report_event config entry t)
  after_poll e time_used false t =
      let entry = data_of e (text "success") [] code_success time_used in
      record_event entry (if is_debug config then report_event config entry t else t)

  unfoldable pub eventually :
      Event
      → Text
      → ℕ
      → (S → Bool × Option Error × S)
      → (S → S)
      → (S → S)
      → ℕ
      → Tracked S
      → Tracked S
  unfolding poll after_poll
  eventually e timeout_code ticks check passed timeout_call time_used t =
      let (timed_out, s) = poll ticks check passed timeout_call t.outer in
      after_poll e time_used timed_out (record t { outer = s })

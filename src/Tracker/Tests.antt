-- ===== src/Tracker/Tests.antt =====
-- Tracked events (common/tracker/default_tracker.go) with one link.
use virtual_kubelet.Common.{
  ℕ, suc, ◌≡◌, refl, Bool, false, Option, none, some, [], ◌∷◌, ◌++◌, map, Error, message, text,
  text_dec,
}
use virtual_kubelet.Tracker.{
  Config, Tracked, Event, code_success, data_of, is_debug, record_event, report_event, error_report,
  func_track, poll, after_poll, eventually,
}
use virtual_kubelet.Tracker.Records.{eventually-times_out}

abbrev config : Config
config = record {
  report_level = text "error";
  report_links = text "http://log" ∷ [];
  log_dir = text "logs";
}

abbrev event : Event
event = record {
  trace_id = text "t1";
  scene = text "vpod_deploy";
  event = text "ContainerStart";
  labels = [];
}

abbrev start : Tracked ℕ
start = record { outer = 5; recorded = []; reported = [] }

abbrev never : ℕ → Bool × Option Error × ℕ
never n = (false, none, suc n)

abbrev fails : ℕ → Bool × Option Error × ℕ
fails n = (false, some (message (text "gone")), n)

eventually-times_out_example :
    let entry = data_of event (text "fail") (text "event timeout") code_success 900 in
    eventually config event (text "00002") 2 never (λ n. n) (λ n. 0) 900 start ≡ record {
      outer = 0;
      recorded = entry ∷ [];
      reported = map (λ link. (link, entry)) config.report_links ++ [];
    }
eventually-times_out_example =
    eventually-times_out never (λ n. n) (λ n. 0) config event (text "00002") 900 2 start
      ((refl, refl), ((refl, refl), tt))

tracker_program : Unit {0}
unfolding text_dec is_debug record_event report_event error_report func_track poll after_poll
    eventually
tracker_program = tt

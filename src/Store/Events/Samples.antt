-- ===== src/Store/Events/Samples.antt =====
-- The listing of one document's events.
use lybrix.Base.{◌≡◌, refl, false, some}
use lybrix.Store.Events.{EventFilter, list_events_query, can_run, all_given, list_events_can_run}

abbrev of_one_document : EventFilter
of_one_document = record {
  doc_id = some 7;
  level = "";
  stage = "";
  limit = 50;
  last_id = 0;
  asc = false;
}

cannot_run : can_run (list_events_query of_one_document) ≡ false
unfolding list_events_query
cannot_run = refl

list_events_can_run_example :
    can_run (list_events_query of_one_document) ≡ all_given of_one_document
list_events_can_run_example = list_events_can_run of_one_document

-- ===== src/Backoffice/Tests.antt =====
-- The administration API on the sample event.
use gqueue.Common.{String, Option, none}
use gqueue.Event.{Event, Invalid}
use gqueue.Common.{Try, ok}
use gqueue.Backoffice.{EventDto, save_consumer_handle}
use gqueue.Backoffice.Saving.{Saves, save_consumer_handle-Saves}
use gqueue.Samples.{payment}

abbrev dto : EventDto
dto = record {
  name = payment.name;
  type = payment.type;
  option = payment.option;
  consumers = payment.consumers;
}

abbrev taken : Event → Option String
taken e = none

abbrev invalid_text : Invalid → String
invalid_text why = "invalid event payload"

abbrev encode : EventDto → Try String
encode d = ok d.name

save_consumer_handle-Saves_example :
    Saves 10 "3" "gqueue" invalid_text taken encode
      (ok dto)
      (save_consumer_handle 10 "3" "gqueue" invalid_text taken encode (ok dto))
save_consumer_handle-Saves_example =
    save_consumer_handle-Saves 10 "3" "gqueue" invalid_text taken encode (ok dto)

abbrev disabled_event : String → Option String
disabled_event id = none

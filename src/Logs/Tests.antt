-- ===== src/Logs/Tests.antt =====
-- Loggers of an accepted configuration.
use gqueue.Common.{false, some, [], pos, ok, ◌≡◌, refl}
use gqueue.Logs.{Config, Logger, start, new, logger_of, new_config, get_logger}

abbrev conf : Config
conf = record { wq = "redis"; log_level = pos 3 }

abbrev text_logger : Logger
text_logger = logger_of (record (new_config conf) { json_format = false })

new-conf : new (ok conf) [] ≡ ok (logger_of (new_config conf))
unfolding new
new-conf = refl

from_context : get_logger (some text_logger) (ok conf) start ≡ some text_logger
unfolding get_logger
from_context = refl

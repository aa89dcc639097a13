-- ===== src/Logs/Default.antt =====
-- The default logger.
use gqueue.Common.{some, [], Try, ok, ◌≡◌, refl}
use gqueue.Logs.{Config, Logger, start, new, default, set_default}

-- A logger that is set before the default logger is first used is replaced at that use by a new one,
-- where the configuration does not panic; one that is set after the first use is kept by every later
-- use, with any configuration.
pub set_default_kept :
    (env later : Try Config) (l made : Logger)
    → new env [] ≡ ok made
    → ((default env (set_default l start)).default_logger ≡ some made)
      × ((default later (set_default l (default env start))).default_logger ≡ some l)
unfolding default
set_default_kept env later l made h = rw h (refl, refl)

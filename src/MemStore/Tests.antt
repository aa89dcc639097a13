-- ===== src/MemStore/Tests.antt =====
-- The memory store over two loads, of which the second fails.
use gqueue.Common.{string_Eq}

-- ===== src/AsyncLogging/Flushing.antt =====
-- base/AsyncLogging.cc: a round of the thread that writes brings everything to the file.
use dserver.AsyncLogging.{AsyncLogging}

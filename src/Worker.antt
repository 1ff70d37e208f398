-- ===== src/Worker.antt =====
-- app/worker.py: the background jobs. `Intents` turns the entries of the order stream into orders,
-- `Stream` is the consumer group that feeds it and gives up on poison, `Outbox` the relay of owed
-- releases, `Partitions` the calendar of the audit log.
pub mod Intents
pub mod Stream
pub mod Outbox

-- ===== src/EventSource.antt =====
-- packages/eventsource: the parser of server-sent events and the client that feeds it.
pub mod Parser
pub mod Client

-- ===== src/Api.antt =====
-- internal/api: live API calls and their answers over the event bus.
pub mod Requests
pub mod Responses

-- ===== src/Event/Service/Moved/Announced.antt =====
-- A completion and the event that follows it (CompleteMove in internal/application/repository.go,
-- ProduceApplicationMoved in internal/event/event_service.go).
use prappser_spaces.Base.Dict.{Dict}
use prappser_spaces.Event.{Event}

-- ===== src/Lib.antt =====
-- Prappser Spaces is a server for shared applications: members submit events, the space checks,
-- numbers, stores and executes them, and sends them on to the devices of the other members. This
-- library models the part that every change goes through.
--
-- Value is decoded JSON and its numbers (Value/Number: the float64 values as exact binary
-- fractions). Result is Go's pair of a result and an error; an error is the list of the marks that
-- errors.Is and errors.As can find in it.
--
-- Application is internal/application/application.go. Application/Memory is the application
-- repository as internal/application/memory_repository.go has it: maps of applications, groups,
-- components and members, one definition per method (GetMembersByApplicationID is
-- get_members_by_application_id). Its children are the registration of
-- an application (Registration), what is listed of applications (Listing, Versions), and the lemmas
-- on the rows of the members.
--
-- Event is internal/event/event.go, and its children are the other files of that directory:
-- Validator (event_validator.go), Authorizer (event_authorizer.go), Staleness
-- (event_staleness.go), Store (event_repository.go, with the table as a list of rows in the order
-- of their ordinals, and MoveGuard of internal/application/repository.go) and Service
-- (event_service.go). In Service, accept_event is AcceptEvent and produce_event ProduceEvent: each
-- takes the world around it (clock, fresh id, and the database error that strikes each statement,
-- if any) and a store, and returns the answer, the store that it leaves, and its calls on the hub
-- and the pusher. Persist is persistAndApply, one transaction: an error leaves the store as it
-- was. Execute is executeEvent with its handlers, Broadcast is broadcastEvent. Sync is
-- GetEventsSince, and Moved is ProduceApplicationMoved. Store/Queries are the
-- other queries of the events table, and Store/Moves the rows that StartMove,
-- AbortMove and CompleteMove of internal/application/repository.go write, over the store and the
-- table of invitations; the columns of a move stand in a map of their own.
--
-- Hub is internal/websocket/hub.go with the subscriptions of internal/websocket/client.go: the maps
-- of the hub and the queue of each client, and one definition per operation of the hub's loop.
--
-- RateLimit is internal/middleware/rate_limit.go: Allow on a map of buckets. Reminder is
-- ParseOffsetDuration of internal/reminder/recurrence.go.
--
-- Storage is internal/storage: the tables of files and chunks (Repository, repository.go), the
-- backend as an interface with the laws that its callers rely on and the local disk as one
-- (Backend, local_storage.go), and the service (Service, service.go) as operations (Run) of
-- the monad Effect, which keeps the state of a run that fails; what they keep is proved by the
-- rules of Effect/Hoare. History is any sequence of them, Overlap the uploads in steps that others
-- come between, and Purge the scheduled runs of purge.go. The
-- libraries for hashes, images and media types are fields of the record Service.
--
-- Invitation is internal/invitation: Repository (invitation_repository.go, an update of the one row
-- that a primary key finds), Proof (join_proof.go), Tokens, Options and Service
-- (invitation_service.go), whose Join is split into the checks (Service/Joiner), the gates of new
-- accounts and of promotions (Service/Gates) and what follows them (Service/Join), and whose answers
-- for the join screen are Service/Status. A run keeps its
-- state when it fails, as the storage service's does; the variable heldClaim of Join is a field of
-- that state, and `deferred` its deferred function. Users, applications and events answer through
-- the record Others on a state of their own; the clock, fresh ids, signatures and the parser of
-- tokens are fields of the record Service. A text that an error is compared with is a case of its
-- answer. A nil caller is not modelled; one without a key is refused in the same way.
--
-- Lens is internal/component/lens: Values (json.go: decoded values, their equality, maps as lists of
-- entries of which the first for a key counts), Paths and Ops (lens.go: the operations of a step),
-- Steps (lookup), Migrate (migrate) and WriteBack (writeback.go), with Encoded for entries that are
-- stored as text. The loops over versions are by recursion on the number of versions left.
--
-- What is read from outside is a parameter: time zone names and the size of encoded JSON
-- (Platform), the optional reminder store, and the clock. Times and sequence numbers are int64 in
-- the source; where they can overflow, in the age of an event and in the offset of a reminder, they
-- wrap around here too.
-- Sequence numbers and ordinals are naturals, since 2 ^ 63 events are out of reach. Loops are
-- structural, but for the client that follows pages (Event/Store/Paging), whose fuel is the number
-- of rows plus one, which is enough. Histories are sequences of
-- requests. For events, the row lock of the transaction puts them in an order. Storage has no such
-- lock: checkQuota reads the sum before the insert, so uploads that overlap can exceed the quota,
-- and the histories of Storage/History are of requests that end before the next begins.
-- Storage/Overlap lets uploads overlap: an upload there is its check, the write of its content, the
-- insert of its row and what follows, each a step of its own.
-- A log line that cuts a key at 20 bytes has no counterpart here.
--
-- Not modelled: HTTP endpoints, configuration, the S3 client, push delivery, users, their tokens,
-- and the parts of the space beside the event service, which appear in histories as steps that
-- change the applications and leave the log alone (the histories of a move, in
-- Event/Service/Moved, have its deletions as well).
pub mod Base
pub mod Value
pub mod Result
pub mod Effect
pub mod Application
pub mod Event
pub mod Hub
pub mod RateLimit
pub mod Reminder
pub mod Scenarios
pub mod Invitation
pub mod Lens
pub mod Storage

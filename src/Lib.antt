-- ===== src/Lib.antt =====
-- The verification library of Brainard: the agent chat rooms of the brain server, their
-- attachments, the deposits of its machines, its machines, its flags and its proposals.
--
-- The program. A chat room seats two agents, which post to a numbered transcript, and is watched by
-- its owner. app/rooms.py holds the operations on rooms, app/room_seats.py the binding of a seat to
-- a machine, app/room_modes.py the modes of a conversation, and app/room_sweeper.py the background
-- task that warns and closes rooms at their deadline. The HTTP routers and the UI call app/rooms.py;
-- the sweeper calls its `close_room` and `post_closing_nudge`; notifications to the owner leave
-- through app/notify.py. app/attachments.py receives the files that are attached to rooms, stores
-- each content once under its hash, and deletes it when no room and no document needs it any more.
-- app/routers/deposits.py accepts a session's checkpoint as one transaction: events, a handoff, new
-- and retired entries of the library, copies of documents.
--
-- The files.
--   Prelude: shared names, Boolean tests, lists, `str.strip` (Prelude/Text), a table keyed by its
--     primary key (Prelude/Table), `str(n)` and `join` (Prelude/Decimal), JSON values (Prelude/Json).
--   Errors: `ApiError` of app/errors.py with its status and code, and the result of code that may
--     raise. `OnOk P r` says that the result of `r`, if there is one, satisfies `P`.
--   Model: the rows of app/models.py. A `Chat` is a room's row with the rows that refer to it. A
--     `Hub` is the tables of rooms and machines with the notices sent to the owner.
--   Modes: app/room_modes.py.
--   Rooms: app/rooms.py, one module for each group of operations: Validate and Create
--     (`create_room`), Seats (app/room_seats.py), Consensus, Reminder and Post (`post_message`,
--     the gates, the reminder, the retries), Close (`close_room`, `post_closing_nudge`), Tombstone
--     (`delete_message`), Switch (`switch_room_mode`), Toggle (`set_agent_uploads_allowed`,
--     `set_requires_owner_open`, `set_room_member_seat`), Attach (the announcements of attachments), Poll (`poll_messages`, the
--     leases, the stall alarm), Remove (`delete_room`, `assign_group_to_rooms`), Queries (what they
--     share: the next number, announcements, the row lock). The children of these modules and
--     Messages, Invariant, Isolation, Keeps, Soundness, Upkeep, Evolution and Evolves hold theorems.
--   Uploads: the reception of a file (`receive_attachment_upload`) with the incremental decoder
--     (Uploads/Utf8), its contract on the whole content (Uploads/Reference), and many uploads in
--     flight over one ledger of pledges (Uploads/Traffic).
--   Attachments: the tables and the storage directory (`Vault`), with Add (`add_room_attachment`,
--     `add_attachment_from_brain_document`), Reclaim (`_reclaim_blob_if_unreferenced`, the sweep, the
--     deletion of an attachment and of a room with its blobs), Save (`save_attachment_to_brain`) and
--     Requests (the requests of app/routers/room_attachments.py in sequence). The other children
--     hold theorems.
--   Deposits: app/routers/deposits.py with Validate (the checks of the request, and app/projects.py's
--     of a project update), References (`_validate_knowledge_references`), Knowledge
--     (`_apply_knowledge`), Documents (`_apply_documents`), Insert (`_insert_deposit`, `_build_ack`)
--     and Create (`create_deposit`). The other children hold theorems.
--   Machines: app/machines.py with app/auth.py and app/roles.py, the registry of machines and the
--     authentication of a token.
--   Judgments: app/flags.py and app/proposals.py, what closes a flag and a proposal.
--   Sweeper: app/room_sweeper.py. Trace: every operation as a call, and sequences of calls.
--   Examples: concrete rooms, with the theorems applied to them.
--
-- The correspondence. An operation that takes the row lock is a body over the room that the lock
-- finds (`post_locked` and the like), run by `with_room_lock`: it stores the room after the body,
-- or nothing when the body raises. What an operation reads before its lock is an argument (`seen`),
-- so a sequence of calls of app/rooms.py with arbitrary such arguments stands for every
-- interleaving of them. A body is given the one room that it locks. The statements of a poll are
-- separate, with other requests between any two of them. The current time and fresh ULIDs are
-- arguments; instants are microseconds. An IntegrityError of the unique index on (room_id, seq) is
-- the result `none` of `insert_opened`. An upload is a list of arrivals, each with the free disk
-- space that the check reads then; the handling of one chunk is one step, since it awaits nothing
-- but an uncontended lock. The tables of an attachment's transaction are rolled back on a rejection
-- while the directory is not, so an operation on both answers with tables that it commits and with
-- the directory that it leaves. The hash of a content is an argument, and the blob files are kept
-- by hash, one table for each suffix. The requests on the attachments of rooms are served one after
-- the other, and the commit and the deletion of the file of a reclaimed blob are one step; many
-- receptions of uploads at once are the subject of Uploads/Traffic alone. A deposit's request comes
-- with what commits while its attempts collide (`Meanwhile`): the deposit that an attempt collides
-- with, and deposits between its rollback and the next attempt, each checked against the state that
-- it commits to. A deposit that commits after the checks of a request without a collision is not
-- modelled.
--
-- Bounds. `insert_attempts` has the 3 attempts of the code. `poll_loop` runs on a number of rounds;
-- 121 are enough, since a wait is at most 120 seconds. `deposit_attempts` has the 3 attempts of the
-- code. `decimal` runs on the number plus one.
--
-- Not modelled: the human-readable `detail` of a rejection, checks of JSON types (`isinstance`)
-- outside deposits, the database engine and its failures, failures of the file system, the delivery
-- of notices, the sanitizing of display names, `receive_pdf_upload`, which no route calls, the
-- plain reads for the views (`list_rooms` and its cursor, recent messages), and the rest of the
-- server: doctrine, the reads of deposits and projects, the listings of flags and proposals, the
-- reads of the library, the librarian, search, export and the UI. The digest of a token, in
-- app/security.py, is an argument, and so are the check of a ULID, the size of a payload as JSON
-- and the duplicates that the text search of the database finds.
pub mod Prelude
pub mod Errors
pub mod Model
pub mod Rooms
pub mod Modes
pub mod Sweeper
pub mod Trace
pub mod Machines
pub mod Judgments
pub mod Uploads
pub mod Attachments
pub mod Deposits
pub mod Examples

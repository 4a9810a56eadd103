-- ===== src/Lib.antt =====
-- Inventory: the household stock of a storage, its ledger, its scores and its job queue.
--
-- The program is a Go server over PostgreSQL. Its HTTP handlers (internal/httpapi) call the store
-- (internal/store), which keeps every rule that spans tables; the rules that need no table are in
-- packages of their own (internal/expiry, internal/gamification). An uploaded image passes through
-- internal/images before anything stores it. This library models the store's stock operations and
-- its job queue with the pure rules that they use, the rate limiter of the handlers, and what
-- becomes of an uploaded image:
--
--   Prelude          the shared names: tests on numbers, integers, lists, and database tables
--   Expiry           internal/expiry/expiry.go: the resolution chain, dates and urgency bands
--   Gamification     internal/gamification: Level is level.go, and Level/Thresholds about it, Selection
--                    is SelectQuests of quests.go, Holiday is holiday.go
--   Store/Schema     the rows of migrations/*.sql that the operations read and write
--   Store/Tx         internal/store/tx.go and errors.go: transactions
--   Store/Rows       single statements that several files of internal/store share
--   Store/Progress   internal/store/gamification.go: the score cache
--   Store/Quests     internal/store/quests.go: what a ledger row does to the week's quests
--   Store/ShelfLife  internal/store/expiry.go: expiryRulesFor
--   Store/Containers internal/store/containers.go
--   Store/Batches    internal/store/batches.go: createBatch and adjustBatch; Split is SplitBatch and
--                    Update is UpdateBatch
--   Store/Sound      the invariant of the stock, and the operations on batches against it
--   Store/Flow       what each operation does to the stock of every product
--   Store/Dates      internal/store/expiry.go: the recompute of dates and the reset of one; Cascade and
--                    Recompute compare its loop with one pass over the batches
--   Store/Tree       internal/store/tree.go: Rooted is the shape of a tree, Cycles the cycle check, Edits
--                    what the checks of a parent establish
--   Store/Locations  internal/store/locations.go: create, move, patch and rename; Forest, Moved and
--                    Created are about the tree, Shelved about the stock. Delete is DeleteLocation
--                    with the cascade and internal/store/tombstones.go; Held is about its refusal,
--                    Kept about the stock, and Height about the length of a path to a root
--   Store/RowSets    matchRowIDs of internal/store/ingestion.go and matchBatchIDs of stocktake.go
--   Store/Stocktake  internal/store/stocktake.go: Rows and Counted follow one batch through a confirm
--   Store/Consumption internal/store/consumption.go: Once is about repeated confirms, Taken about the
--                    stock
--   Store/HolidayWeeks SetHolidayWeeks of internal/store/gamification.go; Sets is about lists without
--                    repetition
--   Store/Jobs       internal/store/jobs.go: Inbox is the review side, Life the state machine, and
--                    Calls, Reviews, Claims, History and Once what is proved of the calls
--   Httpapi          internal/httpapi: RateLimit is ratelimit.go, Charged what a charge makes of one key
--   Images           internal/images: Bytes is a slice of bytes and how it is read, Exif is exif.go,
--                    Transform is transform.go, and Jpeg, Png and Strip are strip.go. Jpeg/Segments and
--                    Png/Chunks read a file as a list, and Strip/Total and Strip/Turned are about Strip
--   Tests            a small household, some image files, the witnesses and runs of the code
--
-- A Go method is the function of the same name in snake case. A transaction is a function from a
-- session (the database, the ids that uuid.NewV7 will return, and the clock, one instant for the
-- whole transaction as now() has it) to a result, and in_tx commits or rolls back. An error
-- carries no session, since a rollback of PostgreSQL keeps no write; that is assumed here, not
-- proved. A COMMIT that reports an error may have applied all the same (answer_lost). The error of
-- a Go function is one of the three domain errors of errors.go, or internal for every other one.
-- Where a method checks its input before the transaction begins, so does the function. A statement
-- outside a transaction is a transaction of its own.
--
-- Tables are lists of rows under a primary key. A uuid is a number, and UUIDv7 order is the order
-- of the numbers. An instant is a number of seconds; fractions of a second are left out, except in
-- the rate limiter, which counts nanoseconds. Where it counts stock, a Go int is an exact integer:
-- the columns are int4, whose range the writes check (fits_int4), and the sums that the operations
-- form of two of them fit the 64 bits of the program. A week is the number of its Monday. Level is
-- computed in float64, as Go computes it: a number is rounded to 53 bits after the conversion, the
-- division and the root. Its thresholds wrap around at 64 bits; the theorem on them is about the
-- exact curve (exact_level), of which Level differs where float64 rounds an xp up to a threshold.
-- The need of a quest candidate, a float64, is any type with a comparison that has the laws of >
-- on floats other than NaN. The walk up the category tree has the program's own bound of 64 steps
-- (max_tree_depth), and so has the cycle check of the trees. The subtree that DeleteLocation reads
-- has the same bound, while the cascade of its DELETE has as many steps as the table has rows,
-- which every path to a root stays within (height_bound). The loops over a JPEG or a PNG file have
-- the length of the file as their fuel, which is enough since every round takes a byte at least. A
-- count of bits has the fuel 256 and a root the fuel 64, more than an xp of 64 bits needs. No
-- other recursion needs a bound. A byte is a number, an image is its bounds and a pixel at every
-- place, and the decoders and encoders of Go's image packages, and the conversion of a colour to
-- RGBA, are a parameter (Codec).
--
-- Not modelled: the users table and the foreign keys to it, the audit trail, row locks and the
-- interleaving of statements of concurrent transactions (transactions run one after the other, as
-- their locks on the rows make them; SetHolidayWeeks takes no lock), failures of the database
-- other than at begin, commit, a range check or a key, and the parts of the program above and
-- beside the store: HTTP beyond the rate limiter, authentication, configuration, notifications,
-- the thumbnails and files of images, vision, imports, the web client and deployment.
pub mod Prelude
pub mod Expiry
pub mod Gamification
pub mod Httpapi
pub mod Images
pub mod Store
pub mod Tests

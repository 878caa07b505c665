-- ===== src/Lib.antt =====
-- k-pos-be: the backend of an offline-first point of sale (NestJS, Prisma on PostgreSQL, RabbitMQ).
-- Cash registers record sales offline and send them in batches; a batch is checked and queued, a
-- worker stores its sales and takes the goods from the stock, and conflicts are resolved by hand.
--
-- The parts, and the files that model them:
--   Common            tests, texts, lists and whole numbers that the parts share
--   Schema            prisma/schema.prisma: enums, rows and tables with keys and relations, and the
--                     bodies of src/modules/sync/dto/sync-batch.dto.ts
--   Prisma            the Prisma client as an interface with its documented laws; service calls as
--                     actions (Action), what they keep (Keeps, Kept, Quiet, Steps), tables in memory
--                     as an instance (Memory), sums over rows (Sums)
--   Inventory         src/common/utils/inventory.util.ts; Ledger is the stock of a product against
--                     its audit trail
--   Sync              src/modules/sync: Process, Failure and Consumer are sync-consumer.service.ts,
--                     Producer is sync-producer.service.ts, Service is sync.service.ts and
--                     sync.controller.ts, Topology is onModuleInit of the producer; the other
--                     children hold proofs
--   Transactions      src/modules/transactions/transactions.service.ts; Correction has
--                     correctTransaction, Listing has findAll, History has
--                     getTransactionHistory, the other children hold proofs
--   Paging            the page that a list cuts off, and a reader who follows the cursors
--   Reconciliations   src/modules/reconciliations/reconciliations.service.ts and
--                     src/modules/payments/payments.service.ts; Lists has the reads of the
--                     first, Resolving holds proofs
--   Products          src/modules/products/products.service.ts; Listing has findAll, Adjusting
--                     holds proofs
--   Storage           src/storage/supabase-storage.service.ts
--   Devices, Users    src/modules/devices/devices.service.ts (Pairing holds proofs),
--                     src/modules/users/users.service.ts (Listing has findAll)
--   Auth              src/modules/auth and src/common/guards/roles.guard.ts; Rotation and Leaving
--                     hold proofs
--   Payments          src/modules/payments/payments.service.ts, its reads; Merchants and Health are
--                     their services, Tenant has proofs on the reads of a merchant
--   Api               the controllers, src/common/guards, filters and interceptors: Guard, Sales,
--                     Catalogue, Batches, Disputes and Office are the calls with their roles,
--                     Responses is what the client is sent, the other children hold proofs
--   System            the requests and deliveries that change the state, one after another
--   Crypto, User      hashes and tokens as parameters; the caller as the guard leaves it
--   Tests             the services on tables in memory
--
-- A method is an action: from the state (database, messages queued, images removed, a count of the
-- calls made) to a result and a state. The count numbers calls outside, and the interface `Prisma`
-- says of each number which id, which instant and which refusal the call meets. `$transaction` takes
-- the database back on a throw. A write is refused on a unique key that is taken (P2002), on a
-- relation without its row (P2003) and on a row that is missing (P2025), as the schema says. A table
-- is a multiset: which of several rows a query finds is left open. A list is put in the order of its
-- column, ties as the database likes, and a page begins at the row of the cursor.
--
-- Kept simple: amounts are whole rupiah and quantities whole numbers, so the rounding of
-- JavaScript's numbers does not show; a JSON column is the value that it encodes; createMany is the
-- loop of its creates; the columns `updated_at` and the log are left out. One action runs at a time:
-- what two workers do to each other is not modelled. A loop runs over a list and needs no fuel, but
-- for the two of getTransactionHistory, which follow corrections from sale to sale: their fuel is
-- enough where it exceeds the bound of a rank that every correction raises. A retry is one more
-- delivery of the message; where RabbitMQ routes a message is a parameter with the rules of the
-- default exchange and of a direct exchange.
--
-- Where passport accepts a token, its payload is an argument of a call; the statuses of NestJS's
-- exceptions are a parameter.
--
-- Not modelled: the wiring of the modules, the seeds and the scripts, the log, and the libraries that
-- run before a controller: the rate limit, the checks of class-validator and the limits of multer.
pub mod Common
pub mod Schema
pub mod Prisma
pub mod Inventory
pub mod Sync
pub mod Crypto
pub mod User
pub mod Transactions
pub mod Storage
pub mod Products
pub mod Reconciliations
pub mod Devices
pub mod Auth
pub mod Users
pub mod Paging
pub mod System
pub mod Tests
pub mod Payments
pub mod Merchants
pub mod Health
pub mod Tenant
pub mod Api

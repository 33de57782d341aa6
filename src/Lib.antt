-- ===== src/Lib.antt =====
-- A verification library for the FetchIt backend, a NestJS service written in TypeScript.
--
-- Parts and files
--
-- Base, Schema, World: shared ground. Base holds Boolean tests and a database table as the list of
--   its rows (find_where for findUnique, update_where with count_where for updateMany). Schema has
--   the tables of prisma/schema.prisma, the exceptions of src/common/exceptions and the events of
--   src/common/events. World is the database with the events emitted so far, the monad M in which a
--   service method runs (writes stay when a later step throws; `transaction` rolls back), and the
--   repositories' queries (src/database/repositories).
-- Market: the marketplace. Market/Customer models src/modules/service-requests/
--   service-requests.service.ts, Market/Handyman the jobs and applications of src/modules/handyman/
--   handyman.service.ts. A method m is m_check (its reads and guards) followed by m_commit (its
--   transaction or conditional update, and the event). Market/Race runs the two halves of many calls
--   in any order: a call in flight keeps what it has read, and writes later. The transaction of
--   applyToRequest reads once more before it inserts, and is two steps as well. Race/Consistency,
--   Race/Distinct, Race/Safety, Race/Known, Race/Keeping and Race/Reachable carry the invariant;
--   Race/Agreement and Race/Life say it of an application, of a request and of its status.
--   Market/Effects names the rows that each write touches; Market/Once is about calls made twice,
--   Market/Stale about a release and an insert that are written too late, Market/Outcomes about a
--   method that nobody disturbs.
-- Cache: Cache is src/cache/providers/memory-cache.provider.ts, Cache/Redis
--   src/cache/providers/redis-cache.provider.ts, and Cache/Service the interface that both implement
--   (a record of operations on a state) with src/cache/cache.service.ts. Cache/Abstract is a cache as
--   a function from keys to entries, Cache/MemoryRefines and Cache/RedisRefines relate it to the
--   providers, Cache/Agreement the providers to each other, Cache/Outage is about commands that Redis
--   rejects. The commands of Redis, JSON and the engine of regular expressions are parameters;
--   Cache/RedisLaws says what is relied on. Cache computes the regular expression of a pattern.
-- Vetting: how a handyman's profile is completed, submitted and reviewed, in src/modules/handyman/
--   handyman.service.ts up to submitDocuments, src/modules/admin/admin-verification.service.ts, and
--   getOrCreate and updateVerificationStatus of src/database/repositories/
--   handyman-profile.repository.ts. Vetting/Profile and Vetting/Review have the methods,
--   Vetting/Writes and Vetting/Methods what each writes, Vetting/Sound the invariant of sequences of
--   calls. The review methods are split where their write begins, and Vetting/Overlap runs two of
--   them at once. Vetting/Reading has what an administrator reads, Vetting/Audited the audit log.
-- Auth: sessions and one-time tokens, in src/modules/auth/auth.service.ts (login, logout,
--   refreshTokens), src/modules/auth/services/password-reset.service.ts and
--   src/modules/auth/services/email-verification.service.ts, with the repositories that they use. A
--   token is a number; the hash of a token, the check of a password, the tokens that are made with
--   their expiry, and whether a mail could be sent are arguments. refreshTokens is split where its
--   write begins. Auth/Rotation and Auth/Login are about sessions, Auth/SingleUse about tokens.
-- Users: src/modules/users/users.service.ts and src/database/repositories/user.repository.ts, with the
--   unique columns and the foreign keys of prisma/schema.prisma. Auth/Registration is register of
--   auth.service.ts, Auth/OAuth handleGoogleLogin of src/modules/auth/services/oauth.service.ts, and
--   Auth/Access the strategies and guards that a request passes. Auth/Registered and Auth/Verified
--   follow an account from its registration to its first login, Auth/Linked and Auth/Google a Google
--   account, and Auth/Guarded a request. A step that may fail outside (signing, mail) has its outcome
--   as an argument; `clean_up` is a catch block that undoes and rethrows.
-- Texts: strings as lists of UTF-16 code units, with split, trim and the like as JavaScript has them.
-- Storage: where objects are kept. Storage/Keys is src/storage/storage.util.ts, Storage/Settings the
--   storage part of src/config/env.validation.ts and src/config/configuration.ts, Storage/Provider
--   the bucket and the address of a key in src/storage/providers/s3-compatible-storage.provider.ts.
--   Storage/Privacy puts the three together, Storage/Inside reads a key as a path.
-- Uploads: files that users send. Uploads/FileType and Uploads/FileName are
--   src/common/utils/file-type.util.ts, Uploads/Objects the storage with upload of
--   src/modules/uploads/uploads.service.ts, Uploads/Documents uploadDocumentFile of
--   src/modules/handyman/handyman.service.ts, and Uploads/Matched relates rows and objects. World
--   holds the stored objects, without their bytes.
-- Migration: src/cli/migrate-local-storage.ts, which copies the files of the local driver into Neon.
--   Migration/Walk lists a directory, Migration/Run copies files and rewrites avatars, and
--   Migration/Main goes from the arguments to the exit code. The disk is a tree; the buckets are a
--   list of objects; which calls throw, and what SQL's LIKE matches, are arguments.
--   Migration/Kept, Complete, Predicted and Untouched hold the proofs.
-- Categories: src/modules/service-categories/service-categories.service.ts with its repository; the
--   slug of a name, and in Categories/Slugged what sequences of calls keep.
-- Listing: pages of a list, src/common/utils/pagination.util.ts and src/common/dto/pagination.dto.ts.
--   Listing/Requests has the listings of the two marketplace services, Listing/Pages is about pages,
--   Listing/Private and Listing/Own about who sees what. The rows of a table stand newest first.
-- Api: the controllers of src/modules for service requests, handymen, administrators, users and
--   categories. `protected` puts the guards of Auth/Access in front of a route, and a route calls the
--   method of the service. Api/Separate and Api/Jobs (with Market/Others and Market/OtherJobs for the
--   methods) follow the requests of others, Api/Privilege the administrators.
--
-- Modelling
--
-- Ids (UUIDs) are numbers that the code only compares, and a row is created with a key that is an
-- argument; a key in use is refused, as the database does. `new Date()` is an argument `now`, in
-- milliseconds. Coordinates, money, password digests and other values that the services only copy
-- are opaque numbers. Exceptions carry no text; Auth/OAuth gives those that a Google login hands to
-- the browser. The status OPEN is `opened`, since `open` is reserved. A single updateMany is one
-- atomic step, and so is a transaction that begins with one: the isolation that PostgreSQL gives to a
-- conditional update of a row, at READ COMMITTED. A transaction that reads first takes no lock, and
-- in Market/Race others commit between its read and its write. The reads of one method before its
-- write are taken at one moment. No bound and no fuel is needed: every loop is over a list, a text or
-- a directory tree.
--
-- Not modelled: the controllers of auth, uploads and the waitlist; the waitlist, whose service copies
-- a form into a table of its own; pipes, filters and interceptors, DTO decorators and Swagger, CORS,
-- the settings that are not about storage, mail, queues, web sockets, logging, the clients of the
-- storage services, the calls of the cache that wait while its Redis client has no connection, and the scripts, which hand values to third-party libraries.
pub mod Api
pub mod Auth
pub mod Base
pub mod Cache
pub mod Categories
pub mod Listing
pub mod Market
pub mod Migration
pub mod Schema
pub mod Storage
pub mod Texts
pub mod Uploads
pub mod Users
pub mod Vetting
pub mod World

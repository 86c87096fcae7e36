-- ===== src/Lib.antt =====
-- Practice Match: what the backend (app/) promises about photographs, disclosure, access and public
-- data, as functions on its tables, with theorems about them.
--
-- A table is the list of its rows, and a statement is a function from the table to an outcome (Sql):
-- an UPDATE rewrites the rows that its WHERE selects, and a row that would break a CHECK or a unique
-- index makes the statement raise and write nothing. Of the UPDATEs one alone can meet a unique
-- index, record_derivative's: the others write no column of one, or keep the row in its place there.
-- Ids, keys, digests and jsonb values are texts.
-- The time of a call is an argument; durations are in microseconds where PostgreSQL or Redis keeps
-- them, in seconds in the guard. Numbers are natural numbers, as the columns' uses are.
--
--   Prelude: the library names that the modules share, Boolean tests and list helpers.
--   Sql: the statements, and the rows that a unique index keeps apart (Sql.Unique).
--   Privacy: app/privacy. State, Row and Keys are the states, the row and the storage keys of
--     record.py, __init__.py and migrations/041. Assign holds the SET and WHERE of every statement of
--     record.py, Record the functions under their own names; History drives every one of them from
--     an empty table, and History.Named as the pipeline names its objects. Delivery is
--     delivery.py's buyer_variant and the gate of gate.py and migrations/042.
--   Disclosure: app/disclosure. Levels is levels.py, Request the table of migrations/096, Access
--     access.py, Requests requests.py; an approval there is what Access answers from.
--   Auth: app/auth. Permissions is permissions.py's matrix, Caller and Guard are deps.py's
--     current_principal and the dependency that stands before every handler, Sessions is sessions.py
--     with its cache, Tokens tokens.py, Limits the script of app/ratelimit.py with limits.py.
--   Listing: app/api/seller_listings.py and app/api/admin_listings.py. Row is the table of
--     migrations/016, 030 and 034 with its CHECKs, Text and Fields turn a request's values into
--     columns (columns_for and what it calls), Store holds the tables with the trigger of
--     migrations/042, Patch, Transitions, Photos and Decide are the handlers, Visibility what the
--     privacy switch does to the photographs (Privacy.Record). Life drives every handler: Lawful is
--     the step relation of one listing, Safety and Laws say what requests make of it.
--   Media: app/tasks/media.py. Scanning and Worker are process_photo over Privacy.Record, each
--     statement between other actors' writes, Ladder the retries, Sweep the sweeper; Regions is the merging
--     of boxes of app/privacy/aggregate.py, Union its rule of a re-run, union_auto.
--   Census: app/census. Runs is ingest.py's run, Vintage vintage.py's check and activation.
--   Tests: runs on concrete inputs.
--
-- Parameters stand for code that is not in the repository: urlparse and the text of an integer in
-- the guard, the hashes of secrets, the reading of a uuid, str.strip, the newline join of a load's
-- notes, and Redis: a record of the commands that sessions.py sends, and one of the sorted set of
-- ratelimit.py, each with the documented effect of a write on the later reads, a
-- tombstone's for as long as it lives. In the listings they are Unicode's
-- tables of spaces, digits and lower case, the object store and the address of an account; in the
-- worker the text, barcode, vision and redaction engines and the bucket. The merging of boxes has
-- fuel, one turn for each box, which is enough since a turn takes one box away; every other
-- function recurs on a list, a text or a number.
--
-- A list of roles stands for a frozenset, and its order is not read. A permission is a constructor,
-- so the KeyError of an unknown name has no counterpart. The ratio of two row counts is compared by
-- products of naturals where the source divides floats; a box's coordinates are naturals in a fixed
-- fraction of a pixel where the source has floats. Concurrent transactions are not interleaved:
-- each call sees the table that the call before it left, except for the worker, whose run commits statement
-- by statement with any writes of other actors in between. A listing handler locks its one row, so
-- the table of listings is a map from ids; the unique index on slug is not modelled. A NUL in a
-- text, which psycopg2 refuses, is modelled where the source looks for it and in a reviewer's decision, and left out elsewhere.
-- The commands of one cache_set run together: one that has looked for a tombstone before it is there
-- and writes after a sign-out is the race that sessions.py says it accepts. Of the foreign keys, those
-- to account of an INSERT into request are modelled; a row is not deleted in any history.
--
-- Not modelled: uploads, deletions, captions, documents and the region editor of
-- app/api/seller_listings.py and every payload; the engines of the photograph pipeline
-- (app/privacy/ocr.py, vision.py, barcodes.py), the padding of boxes of
-- app/privacy/aggregate.py, whose regions_for is a parameter of the worker; the accounts' administration (app/api/admin_users.py, auth.py), the market's
-- answers (app/api/market.py, app/census/serve.py), the mail's sender, configuration, and the frontend.
pub mod Prelude
pub mod Sql
pub mod Auth
pub mod Listing
pub mod Media
pub mod Privacy
pub mod Disclosure
pub mod Census
pub mod Tests

-- ===== src/Lib.antt =====
-- VaeDB, the data server of the Vae platform: the C++ server under cpp/, which answers the calls of
-- vae.thrift. It keeps the sites that it has loaded and the sessions of its clients, and passes the
-- calls on caches and locks to memcache and MySQL.
--
-- The parts, and the files that model them:
--
-- Exec        results, exceptions and calls that change a state. `undefined` is what C++ leaves
--             undefined, `diverges` a loop that has used up its fuel.
-- Pool        the connection pools of cpp/mysql_proxy.cpp and cpp/memcache_proxy.cpp: `get_connection`
--             and `free_connection` are getConnection and freeConnection; Pool/Init holds the
--             constructors; Pool/System lets threads share a pool, in any interleaving of their
--             critical sections.
-- Mysql       the calls of cpp/mysql_proxy.cpp on the database, over the interface `Database` for what
--             the connector does with a prepared statement.
-- Site        the constructor and the secret keys of cpp/site.cpp. What loadXmlDoc makes of a feed and
--             the objects of S3 are the interface `Feeds`; Site/Keys joins the keys with read_s3 of S3.
-- S3          cpp/s3.cpp: an object is downloaded into a temporary file, moved into the cache, and read
--             from the cache where S3 does not answer. What the S3 library hands to the callbacks is
--             the interface `Download`, what the file system allows the interface `Disk`.
-- Xml         the trees of libxml2.
-- Load        loadXmlDoc of cpp/site.cpp from a text to a generation; its two loops are steps of the
--             interface `Loading`, and what they do to the nodes is in Build and Association.
-- Build       how a site makes contexts of a feed: the constructor and populateAttrs of
--             cpp/context.cpp, structureFromStructureId of cpp/site.cpp.
-- Association initializeAssociation of cpp/context.cpp, which joins the trees of two nodes, and the two
--             loops of ~Site in cpp/site.cpp that part them, on a heap of nodes. libxml2's calls are the
--             interface `Libxml`, what they are documented to do `Documented` and `Removes`.
--             Association/Free is ~Site with freeContexts.
-- Context     what a context remembers: getCount, getData, populateData of cpp/context.cpp.
-- Query       the constructor of cpp/query.cpp; Query/Rewrite is the rewriting into an XPath
--             expression, Query/Design runDesignQuery. pcrecpp and boost are the interface `Pcre`,
--             libxml2 and the site `Engine`.
-- Response    cpp/response.cpp: Response/Options reads the options, Response/Window computes the rows of
--             a page, Response itself is the loop over the rows of a filtered or unique query,
--             Response/Query the whole of Response::query, Response/Filter filterMatch, Response/Sort
--             sortCallback, Response/Create createInfo, Response/Serve the constructor and the
--             writers.
-- QueryCache  the query cache of cpp/site.cpp, over the interface `LruCache`.
-- Memcache    the calls of cpp/memcache_proxy.cpp, each on a connection of Pool, over the interface
--             `Client`.
-- Session     cpp/session.cpp: `response_at` is the access to `responses` that createInfo, data, get
--             and structure make. `Response` is the interface `Responses`.
--             Session/Threads lets threads call one session at once, with each access to its vector as a
--             step. Session/Served fills `Responses` with the constructors and writers of Response.
-- QueryLog    cpp/query_log.h and cpp/query_log.cpp: QueryLog/Escape is str_replace and ValueRep,
--             QueryLog/Entry the entries.
-- Handler     cpp/vae_db_handler.cpp: Handler/State holds the fields of VaeDbHandler and what
--             surrounds a call, Handler/Sites getSite, resetSite and reloadSite, Handler/Sessions the
--             calls on sessions, Handler/Caches those on caches and locks. The proxies, `rand` and the
--             clocks are the interface `Backend`.
--             Handler/Sessions/Shared has the sessions again, as several threads and the reaper of
--             cpp/reaper.cpp share them: `find_shared` is the copy of a `shared_ptr` that every call on a
--             session takes under `sessionsMutex`, and `release` what its end or `erase` does to the use
--             count.
--             Handler/Threads has the calls on sites again, by several threads at once: the steps of
--             each call between taking and giving up the mutexes, in any order.
-- Bus         cpp/bus.cpp: the messages that reload sites, and the threads that reload them again. Their
--             reloads are calls of `reloadSite` of Handler/Threads, cut where it takes and gives up the
--             mutexes.
-- Util        cpp/util.cpp: Util/Tokens is tokenize_string, Util/Merge merge_floats, Util/Compare
--             str_compare_nat, Util/Replace str_replace. The value that isdigit returns at a digit is
--             a parameter, and so is `lexical_cast<double>`.
-- Prelude     names, maps, integers and lemmas that the others share.
--
-- A call of the handler writes its arguments to the log, runs, and writes the end of its entry; it
-- reaches its session by number in `sessions`, and the site through the session. openSession takes the
-- site from Handler/Sites, which builds it by `new_site`. A map of the source is an association list
-- here, a pointer or an address a number, a null `shared_ptr` is `none`, a string a list of bytes.
--
-- Bounds and fuel: the counter of a pool is a number without bound, since it never passes the 8 or
-- 16 connections. A session number is an integer, and `to_size_t` and `to_int32` write out the
-- conversions of cpp/session.cpp. The query number wraps at 2^32. The loop of tokenize_string has
-- one round more than the string has bytes, which is always enough where isdigit returns 1. The
-- loop in openSession has fuel because it ends only when rand() gives a free number, and the loop
-- of str_replace in cpp/query_log.h because it may not end at all. The loops of cpp/query.cpp that
-- replace as long as a pattern matches have fuel too. In Response/Window an `int` is an integer
-- whose range is tested, and out of range the call is undefined. In Util/Replace the lengths that
-- str_replace keeps in an `int` wrap as they do there. A quotient of floats is a
-- parameter, `ceil_quotient`; that it is exact is asked for up to 2^24, the digits of a float,
-- above which a float does not hold every row number.
--
-- Not modelled: cpp/main.cpp and the logger, which are input and output; the sleep of the reaper;
-- cpp/lru_cache.h and cpp/zmq.hpp, which come from other projects; the generated code and the clients.
-- Elsewhere than in Handler/Threads, Session/Threads and Handler/Sessions/Shared a call of the handler
-- is one step. In Handler/Sessions/Shared what is done under `sessionsMutex` is one step, and so is what
-- a session does for a call. No allocation fails. In `Feeds` read_s3 gives a text: the exceptions of the
-- file system that may leave it are in S3 only. In Handler/Threads a constructor that hangs keeps its
-- thread, and the mutex, where it stands.
pub mod Association
pub mod Build
pub mod Bus
pub mod Context
pub mod Exec
pub mod Handler
pub mod Load
pub mod Memcache
pub mod Mysql
pub mod Pool
pub mod Prelude
pub mod Query
pub mod QueryCache
pub mod QueryLog
pub mod Response
pub mod S3
pub mod Session
pub mod Site
pub mod Util
pub mod Xml

-- ===== src/Lib.antt =====
-- NDNFS-port: a FUSE file system that signs what is written to it, and a server that publishes the
-- files over NDN.
--
-- The file system (fs/) keeps three SQLite tables beside an ordinary directory: `file_system` with the
-- current version of each path, `file_versions`, and `file_segments` with one signature for each
-- segment of 8192 bytes. Its FUSE handlers pass each call on to the directory under `root_path`;
-- mknod, release, unlink and rename also change the tables. When a file that was open for writing is
-- released, the time becomes its version and each of its segments is signed. The server (server/)
-- reads the same tables and the same directory. It answers an interest for a segment with that part of
-- the file and the stored signature, and an interest for a path with information about the file or
-- with a page that lists the directory.
--
-- Prelude/     numbers, lists, C's integers, and texts as sequences of bytes.
-- Exec.antt    C++ functions with early returns, as actions on a state.
-- External/    SQLite, POSIX and ndn-cpp, as one record `Env` of operations; Documented is the record
--              of what their documentation says of them; Memory is a small instance for the examples.
-- World.antt   the state: the tables, the operating system, the output argument of a handler, and the
--              packets put on the face.
-- Mime/        fs/mime-inference.cc: mime_infer and its table.
-- Fs/          fs/: Config (ndnfs.h and ndnfs.cc: constants, abs_path), FileType, Segment (segment.h
--              and segment.cc), Version (version.cc), File (open, mknod, read, write, truncate and
--              unlink of file.cc), Release (ndnfs_release of file.cc), Link (the other handlers of
--              file.cc), Directory, Attribute, Requests (the table of operations in ndnfs.cc, with
--              the catalogue that it refines), Startup (main of ndnfs.cc) and Logger (logger.h).
-- Server/      server/: Config (server.cc, namespace.cc), Name (parseName), Content (readFileSize and
--              sendFileContent), Meta (sendFileMeta), Html and Directory (sendDirMetaBrowserFriendly
--              and sendDirMeta), Interest (onInterestCallback), Replies (what all replies share) and
--              Startup (main of server.cc).
-- Client/      test/handler.cc: the callbacks of a client that fetches a file. Console is
--              test/console-handling.h, and Command a round of the loop in test/client.cc.
-- Cat/         test/cat_file.cc (Single) and test/cat_file_pipe.cc (Pipe), the network they meet with
--              its time-outs (Network), and both with the server (Served, Fetched, Pipe/Answered).
-- Delivery/    file system and server together: from the release on, from the write on (Written),
--              from mknod on (Created), over many writes (Session), while the release signs (During),
--              and for earlier versions (Earlier).
-- System/      file system and server beside each other, over any interleaving of requests with
--              interests: what the catalogue holds (Catalogue) and what the server tells of it (Told).
-- Fetch/       client, server and file system together: the exchanges for the segments (Content), from
--              the information on (Start), from a segment in its place (Retry); and what a command
--              typed asks the server for, and is answered (Typed).
-- Examples     the theorems at concrete inputs.
--
-- A handler is a function from a `World` to a result and a `World`; the names are those of the source
-- in snake_case. A result of `time(0)` is an argument `now`. Numbers are natural numbers; an `int` is
-- a number of the library's ℤ with its wrap-around to 32 bits written out (`to_int`), and `seg << 13`
-- wraps in the same way. Two loops run on fuel: that of ndnfs_release with 262145 rounds, which is
-- enough since the offset of round 262144 is negative and pread refuses it, and of which a smaller bound
-- gives the state behind as many rounds; and that which unescapes "%2F", with one more round than
-- the text has bytes, since each round makes the text shorter.
--
-- What getopt makes of a command line is the input of the programs that call it; fuse_opt_parse is a
-- parameter. The network is a relation: it answers any interest that waits, in any order. The number
-- of answers is bounded where a counter of 32 bits would overflow.
--
-- Not modelled: keys and event loops (I/O), log output inside the handlers, the serialisation of
-- messages that protoc generates, and the build scripts. Timers are left out: an interest that
-- brings no data waits, and for the cat programs it may run out at any moment. An exception out of a
-- callback ends the program, and nothing follows it. The callbacks of a `Handler` are stated for one
-- that is alive. test/client.cc gives them the address of a local object that is gone when they run,
-- so of its commands only the interest that they send is modelled.
-- Paths have no bound: `strcat` into a buffer of PATH_MAX bytes is an append here.
-- Statements that SQLite reports as failed are seen only where the source looks at their result.
pub mod Prelude
pub mod Exec
pub mod External
pub mod World
pub mod Mime
pub mod Fs
pub mod Server
pub mod System
pub mod Client
pub mod Delivery
pub mod Fetch
pub mod Cat
pub mod Examples

-- ===== src/Lib.antt =====
-- Gufo Blob: key-value storage of binary objects behind one interface, and its backends.
--
-- The program. `BlobBase` (src/gufo/blob/sync/base.py) is the interface: put, get, delete, exists and
-- scan, and dict-like methods over them. `MemoryBlob` (src/gufo/blob/sync/memory.py) keeps a
-- dictionary under optional limits, `SQLiteBlob` (src/gufo/blob/sync/sqlite.py) a table, and `FTPBlob`
-- (src/gufo/blob/sync/ftp.py) the files of an FTP server, with the parsers of
-- src/gufo/blob/common/ftp.py and the integer readers of src/gufo/blob/utils.py; `S3Blob`
-- (src/gufo/blob/sync/s3.py) keeps the objects of a bucket, and `FileBlob`
-- (src/gufo/blob/sync/file.py) the files below a directory. src/gufo/blob/aio has the same backends
-- over asyncio.
--
-- The files.
--   Base: shared names; texts and bytes as lists of numbers, lists, integers, Python's `dict`
--     (Base/Dict), and the exceptions with the monad of methods that read and write their object and
--     may raise (Base/Result; src/gufo/blob/error.py).
--   Blob: the interface as a record of methods over a state, and `IsLawful`, the contract of its
--     docstrings as a refinement of a partial map; Blob/Client has what a client may rely on.
--     Blob/Open: `from_url`, `open_blob` and the context manager; gufo.loader is a parameter.
--   Utils: `bytes_to_int`, `bytes_to_int_range`, `bytes_to_octet`, and the decimal printer.
--   Url: what the `parse_url` methods use of urllib, as a parameter; Url/Laws and Url/Encoding hold what
--     Python documents of it, and Url/Sample is a small one for the examples. The `parse_url` of a store
--     is in a module Url below it, as Memory/Url.
--   Stores: the five synchronous stores behind `open_blob`, over what they find outside of the program.
--   Memory: `MemoryBlob`; the fields are `_data`, `_max_objects`, `_max_size` and `_size`. Its lock
--     makes each method one step.
--   Sqlite: `SQLiteBlob`; `conn` says whether `_conn` is set. The database engine is a parameter with
--     the statements of SQL, their conditions and their ON CONFLICT, and `IsEngine` holds what SQLite
--     documents of them on the rows of a table.
--   Ftp/Common: reply codes, `from_feat`, `parse_pasv`, `parse_list_line`, `parse_mlsd_line`,
--     `iter_parent_dirs`, and the methods of `str` and `bytes` that they call, UTF-8 included.
--   Ftp/Wire: `_read_line` and `_read_response` over a stream that arrives in pieces.
--   Ftp/Client: the object, `connection`, `_connect`, `_login`, `_cmd`, `_expect`, `open` and `close`;
--     Ftp/Client/Transfer: `_get_passive_socket`, `_pasv_cmd`, `get`, `_ensure_parent_dirs`, `put`;
--     Ftp/Client/Methods: `delete`, `features`, `_scan`, `scan`, `exists`.
--   S3: `S3Blob`, its URLs and its methods. The HTTP client, the percent encoding and the XML parser
--     are a parameter, `Service`. S3/Xml has the XML
--     readers of src/gufo/blob/common/s3.py, S3/Listing and S3/Pages what a service writes as a page of
--     a listing, S3/Scan the pages of a scan. S3/Sign is `sign_request`, with the digests and the clock as
--     parameters, S3/Request the `Service` that `_request` makes of an HTTP client and these headers, and
--     S3/Info is `S3Info`; S3/Errors is about the exceptions that leave the methods. `quote` raises
--     UnicodeEncodeError for a text that UTF-8 does not encode; where a request is signed it reads parts
--     of a URL that is made already, and the bucket and the endpoint have no lone surrogate.
--   File: `FileBlob` over the tree of files and directories below its root; File/Sandbox has what
--     `_resolve` accepts, File/Directories the directories above a path, File/Contents, File/Writes
--     and File/Calls what the methods do to the files.
--   Blob/Simulation: when two stores answer every row of calls alike.
--   Aio/Ftp: the asynchronous `FTPBlob`, with Aio/Ftp/Wire, Aio/Ftp/Transfer and Aio/Ftp/Methods as for
--     the synchronous one; `closes` is a script for the closings of its control connection, which may
--     raise here. Aio/Ftp/Same relates the two clients, and Aio/Ftp/Close is about `close`.
--   Aio/Memory: the asynchronous `MemoryBlob`, with `AsyncIterWrapper` of
--     src/gufo/blob/aio/_wrapper.py; Aio/Memory/Snapshot lets other calls come between the pulls.
--   Aio/Open: `from_url`, `open_blob` and the context manager of src/gufo/blob/aio/base.py.
--   Aio/S3: the asynchronous `S3Blob`; Aio/S3/Same relates its methods to the synchronous ones.
--   Aio/Wrapper: `AsyncWrapper`, which the asynchronous file and SQLite stores are.
--
-- The network is a script for each kind of call, with the failures that the source handles, and a log
-- of what the client did. A script that has ended answers with a failure, as a socket with a timeout
-- does. A generator is run to where its consumer stops. The loop over the lines of a reply runs on
-- fuel, one more than the bytes that are buffered or still to come: each line takes two bytes, so it
-- is never cut short. The loop that replaces `//` in an S3 prefix runs on the length of the prefix, since
-- each round makes it shorter. The pages of an S3 listing run on fuel that the caller gives, since
-- nothing in the code bounds their number. All other loops are recursion on a list or on a number.
--
-- Bytes are numbers that are not bounded by 256 where no operation depends on it. The messages of
-- exceptions are not kept, only which raise site it was. In the file system there are no symbolic
-- links and no other writers, access is never refused, no name of a key is longer than the system
-- takes, and the order of a scan is that of the writes. A key of the SQLite store has no lone surrogate.
-- The asynchronous FTP client runs on Python 3.11 or later, where asyncio.TimeoutError is the built-in
-- TimeoutError that it catches. Closing an HTTP client raises nothing. Not modelled: the code of urllib, gufo.loader, gufo.http, expat, SQLite and the digests, which
-- are parameters; a task that asyncio cancels, and two tasks that use one FTP client at once.
pub mod Base
pub mod Blob
pub mod Utils
pub mod Memory
pub mod Sqlite
pub mod Ftp
pub mod S3
pub mod File
pub mod Aio
pub mod Url
pub mod Stores

-- ===== src/Lib.antt =====
-- filetransferdaemon: the download manager of the Bubba server (bubba-ftd/src).
--
-- The daemon takes requests over a UNIX socket, keeps the downloads of all users, and runs each in
-- a thread of its own: with libcurl, with libtorrent, or as an upload whose connection a CGI
-- program hands over.
--
-- The files, by the part of the program:
--   Prelude              lists, texts (lists of character codes), tables (std::map), Boolean tests
--   Commands, Json       Commands.h, and the values that requests and replies are made of
--   Downloader           Downloader.cpp: the state that all downloads share. Functions on a record;
--     Completion         what one thread sees of RegisterCompletionCallback and Complete
--     Threads, Races     the same two as a step relation of any number of threads with two mutexes
--     Waiting            WaitForCompletion against Complete, as a step relation
--   Platform             what is called outside bubba-ftd/src: the record Library has the string
--                        and URL functions, and Effect the traces in the operating system
--   CurlDownloader       CurlDownloader.cpp: WriteContent is write_content, CbProgress is
--                        cb_progress, and so on; Headers, Run and Filter are children
--   SocketFdDownloader   SocketFdDownloader.cpp, with FixFiles in Files and the thread in Run
--   TorrentDownloader    TorrentDownloader.cpp, one torrent, with its files on disk in Files, its
--                        GetInfo in Info, the wait for resume data in Resume, and the destructor
--                        in Ending
--   TorrentDownloadManager  the registry of torrents, and the manager's thread in Session
--   FtdConfig            FtdConfig.cpp: the configuration with defaults
--   DirWatcher           DirWatcher.cpp: the torrent files that users put in a directory
--   FtdClient, Upload    ftdclient.cpp and upload.cpp, the programs that call the daemon
--   World, Object        the answers that one request gets from outside, and the virtual methods;
--     Threads            what the threads do to an object, stage by stage
--   FtdApp               FtdApp.cpp: the tables of all users and the heap of download objects; the
--                        children Adding, Canceling, Listing, Throttling and Stopping have the requests
--     Heap               the tables and the heap agree, and what each operation does to the downloads
--   Daemon               filetransferdaemon.cpp: the loop, its switch and the signal handler
--     Automatic          the end of a transfer, from Run to the deferred removal of the download, and
--                        in Twice what becomes of one that a request has cancelled as well
--     Locks              which of transfermutex and dlmutex are taken when a torrent has finished
--     Shutdown           the loop from the first request to the shutdown
--     Turns, Shelves     the loop with the threads around it, and what each user has in the end: an
--                        abstract shelf of URLs for each, with no URL on two shelves
--   Tests                concrete runs
--
-- How they interact: the loop of Daemon reads a request and calls an operation of FtdApp, which
-- asks the managers for an object and keeps its address; Run of the object ends in Complete of
-- Downloader, which calls FtdApp::Remove; that defers the removal, which deletes the object once it
-- may be reaped. A C++ pointer is a number that the heap maps to an object.
--
-- Bounds and fuel: byte counts are natural numbers, which doubles hold exactly below 2 ^ 53. The
-- throttles are C ints, and their conversions through unsigned are written out. Only the search for
-- a free file name runs on fuel; a free number up to the fuel is enough, and without one the answer
-- is `none`, a loop that goes on. The buffer of the loop has its 16384 bytes.
--
-- Threads: each operation is one step. Mostly it holds its mutex (dlmutex, curllock, transfermutex)
-- throughout; AddDownload takes transfermutex only in FindByUUID, FindByURL and RegisterDownload, and
-- CancelDownload gives it back before DeferredRemove: what other threads do in between is not
-- modelled. The threads of the base class are interleaved step by step. The waits for mutexes are
-- modelled in Locks only; a removal elsewhere is one that gets them. The destructor of a torrent
-- may still wait for its completion, and RemoveDownload waits with it.
--
-- Not modelled: logging, the bytes sent on the sockets of an upload, the printing for debugging,
-- MsgQueue, which is not built, and the vendored libraries, which are parameters (the limit that
-- libtorrent answers once it was given one is such a parameter too). The request for the headers in
-- Filter is one whose waits end. The use of a deleted object is undefined in the program: a removal
-- of an address at which nothing stands changes nothing here. Turns takes it that users have one
-- uid each, that requests spell a URL as libeutils does, and that a file is found once.
pub mod Prelude
pub mod Commands
pub mod Json
pub mod Downloader
pub mod Platform
pub mod FtdConfig
pub mod DirWatcher
pub mod FtdClient
pub mod Upload
pub mod CurlDownloader
pub mod SocketFdDownloader
pub mod TorrentDownloader
pub mod TorrentDownloadManager
pub mod World
pub mod Object
pub mod FtdApp
pub mod Daemon
pub mod Tests

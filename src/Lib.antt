-- ===== src/Lib.antt =====
-- A model of parts of the C++ libraries of this repository, and theorems about them.
--
-- The parts, and how they interact:
--   - `Sys::Fs::Path` (libsrc/libfs/Path.cpp) holds a text and what an analysis finds in it; an
--     accessor analyses first. `Path::resolve` combines two paths, and `Path::resolved` takes '.'
--     and '..' out of one.
--   - `Sys::Fs::FsObject` (libsrc/libfs/FsObject.cpp) is a path with a type and a real path. It asks
--     the operating system about the object, makes the directories above it and the object itself,
--     changes its mode, and removes, moves, copies and links it, partly by shell commands.
--   - `File`, `Dir` and `Os` (libsrc/libfs) build on `FsObject`: a file with a stream, a directory
--     with its listing, and functions on paths.
--   - The record stream (libsrc/libcutils/record_stream.cpp) cuts what a descriptor delivers into
--     records with their length in front. It shares nothing with the other parts.
--   - The functions on texts (libsrc/libcpputils/strings.cpp) cut, join and trim them.
--   - The functions on files (libsrc/libcpputils/file.cpp) read and write whole descriptors and
--     files. `unique_fd` (libsrc/libcpputils/cpputils-base/unique_fd.h) owns a descriptor.
--   - `ParseUint` and `ParseInt` (libsrc/libcpputils/cpputils-base/parseint.h) read numbers, also for
--     the named properties (libsrc/libcpputils/properties.cpp). `ParseNetAddress`
--     (libsrc/libcpputils/parsenetaddress.cpp) splits a host from a port.
--   - `Unix::Shell` (libsrc/libcpputils/sysutil.cpp) keeps a command and where its output goes; it
--     trims both. `FsObject` runs its commands by it.
--   - The logger (libsrc/libcpputils/logging.cpp and
--     libsrc/libcpputils/cpputils-base/logging.h) hands the messages that its macros make to one of
--     several printers. It cuts its configuration by `Split`, and makes the directory of its file
--     by the loop that `FsObject::makePath` has.
--   - `SendFileDescriptorVector` and `ReceiveFileDescriptorVector` (libsrc/libcpputils/cmsg.cpp) pass
--     descriptors over a socket, the latter with `unique_fd` for what it receives.
--   - The sockets (libsrc/libcutils/socket_*_unix.cpp, sockets.cpp and sockets_unix.cpp) and the
--     kernel's events (libsrc/libcutils/uevent.cpp) open sockets by system calls.
--   - `MappedFile` (libsrc/libcpputils/mapped_file.cpp), `load_file` (libsrc/libcutils/load_file.cpp)
--     and `StringAppendV` (libsrc/libcpputils/stringprintf.cpp) stand alone.
--
-- The files, and the code that each models:
--   - FilePath: libsrc/libfs/Path.cpp and libsrc/libfs/sys-fs/Path.h. The record `FilePath` has the
--     members of the class (`m_path` is `path`, `m_fullPath` is `full_path`, and so on), and each
--     function has the method's name in lower case with underscores. `analyze` fills `mutable`
--     members, so that an accessor returns the path with its new members beside the value. Below
--     it: FullPath and FileName on what the analysis finds, Coherence on its cache, Content and
--     Stored on `setPath`.
--   - PathResolution: `Path::resolved`, with its stack as a list whose last item is in front.
--     `pop_back` of an empty stack is undefined behaviour in the source and `none` here. Below it:
--     Normal on the stack, Walk on the reading of a path as a walk through directories, Result,
--     Text and Combine on where a path leads.
--   - FileSystem: the system calls of libsrc/libfs/FsObject.cpp as a record `Os` of functions on the
--     state of the file system, with laws that POSIX documents; no file system is fixed.
--   - FsObject: libsrc/libfs/FsObject.cpp. The record `FsObject` has a `FilePath` for the base class
--     and the two members of its own; FsObject/Making has `makePath`, `create`, `getAbsolutePath`
--     and `changeMode`, FsObject/Commands has `move`, `copy`, `createSymLink`, `remove`,
--     `removeSymLink`, `setOwner` and `setGroup`. Below it: Existence and Found on `isExist`,
--     Directories and Parents on `makePath`, Renaming and Creation on `create`, Modes on
--     `changeMode`, Removal on `remove`, `setOwner` and `setGroup`, Links on the symbolic links,
--     Transfer on `move` and `copy`; SmallOs is a file system for the tests.
--   - FsFile, FsDir and FsOs: libsrc/libfs/File.cpp, Dir.cpp and Fs.cpp, on top of FsObject. The
--     stream of a `File` is the path that it is open at. FsFile/Tracking is on that path, and
--     FsDir/Listing on the entries of `getEntries`.
--   - RecordStream: libsrc/libcutils/record_stream.cpp, with its three pointers as offsets into the
--     buffer, and `read` as a record `Reader` of a function with its laws. Below it: Bounds on the
--     offsets, Stream on one call, Limit on many calls.
--   - Strings: libsrc/libcpputils/strings.cpp and `Join` of
--     libsrc/libcpputils/cpputils-base/strings.h; a loop over an index is recursion on the rest of
--     the text. Below it: Parts on `Split` and `Join`, Trimmed on `Trim`, Affixes on
--     `StartsWith` and `EndsWith`.
--   - Shell: the state of `Shell`, `updateCommand` and `setOutPath`; Shell/Execution has `execute`
--     and `execCommand` over a record `ShellOs` of the system calls, with laws on the reading of a
--     pipe. Below it: Redirection on how a command is cut, Output on what `execCommand` reports and
--     which lines it keeps, Termination on where it ends.
--   - FileIo: libsrc/libcpputils/file.cpp, the functions on descriptors over a record `FdOs` of
--     calls with laws on what a descriptor has in front of it and has taken; FileIo/Files has those
--     on paths over a record `FileOs`. Below it: Reading and Filling on what is read, Writing and
--     Saving on what is written, RoundTrip on what is read of it, Links on `Readlink` and
--     `RemoveFileIfExists`; Disk is a disk for the tests.
--   - Numbers: libsrc/libcpputils/cpputils-base/parseint.h, with `strtoull` and `strtoll` as ISO C has
--     them; none stands for false. Below it: Decimals on texts of decimal digits.
--   - UniqueFd: libsrc/libcpputils/cpputils-base/unique_fd.h, with the steps of a program that has
--     owners of descriptors. Below it: Ownership on what is closed.
--   - Properties: libsrc/libcpputils/properties.cpp, the map in memory, with `ParseUint` of Numbers.
--     Below it: Setting on what is read once it is set.
--   - NetAddress: libsrc/libcpputils/parsenetaddress.cpp, with `sscanf` as ISO C has it. Below it:
--     HostPort on a host and a port.
--   - Logging: the state of libsrc/libcpputils/logging.cpp, which its statics are, as a record;
--     loggers and aborters are functions on a world. Below it: Messages on `LogMessage`, Macros on
--     logging.h, Configuration on `InitLogging`, Kernel on `KernelLogger`, Outputs on the loggers
--     that print and on `GetLogFile`; Delivery on what is logged of a message, Errno on what the
--     macros leave, Levels on the minimum severity, Kernel/Bounds on the buffer of `KernelLogger`,
--     Outputs/LogFile on the directories of the log file.
--   - Cmsg: libsrc/libcpputils/cmsg.cpp over a record `SocketOs` of `sendmsg` and `recvmsg`. Below it:
--     Receiving on what becomes of the descriptors that arrive, Passing on what is sent and
--     received.
--   - Sockets: libsrc/libcutils/sockets.cpp, sockets_unix.cpp and socket_inaddr_any_server_unix.cpp
--     over a record `SocketCalls` of the system calls, with laws on the descriptors that are open.
--     Sockets/Local has socket_local_client_unix.cpp and socket_local_server_unix.cpp,
--     Sockets/Network has socket_network_client_unix.cpp. Code with early returns and gotos is one
--     function for each piece behind a call, by the call's result. Below it: Address on
--     `socket_make_sockaddr_un`, Ledger and Servers on what is left open.
--   - Uevent: libsrc/libcutils/uevent.cpp, with the system calls of Sockets. Below it: Kernel on the
--     messages that are let through, Opening on what is left open.
--   - MappedFile: libsrc/libcpputils/mapped_file.cpp over a record `MapOs` of `mmap` and `munmap`.
--     Below it: Mapping on what is mapped.
--   - Formatting: libsrc/libcpputils/stringprintf.cpp. Below it: Appending on what is appended.
--   - FileLoading: libsrc/libcutils/load_file.cpp. Below it: Closing on its descriptor and its block.
--   - Prelude: texts, lists and positions, and `std::getline`.
--
-- Bounds and fuel: a text is a list of byte values and holds no NUL byte where a system call reads
-- it; `size_t` is 64 bits wide where its wrap-around shows (`setPath` of the empty text). Loops are
-- recursion on the list that they run over. `create` calls itself with a name that is one byte
-- longer or more; it runs on fuel, and 4097 rounds are enough since nothing stands at a path of
-- 4096 bytes (PATH_MAX). The read loop of `execCommand` runs on fuel, and one round more than bytes
-- wait in the pipe is enough, since each round but the last takes one at least; it does not come
-- back where the call of `system` does not. The loops of FileIo run on fuel likewise: each round
-- moves a byte at least, and each round of `Readlink` doubles its buffer. The loop over the lines
-- of a log message runs on as much fuel as the text has bytes and one more, and each round takes
-- one line at least. The loops of `CHECK_OP` and `CHECK_STROP` run on fuel, and one round is enough
-- for an aborter that does not return. Where the size of a control message may wrap around, it is
-- taken modulo 2^64. The length of a formatted text is an `int`, of at most 2^31 - 1, and what the
-- code does at that bound is undefined, which is none.
--
-- Not modelled: what a moved-from object holds, of `Path::operator=(Path &&)` and the like, where
-- the source of the move is left alone; `create` and `removeSymLink` of a `File`, where `setPath`
-- is virtual and closes the stream; `Fdopen` and `Fdopendir`; `Realpath`, `Basename`, `Dirname`,
-- `TemporaryFile` and `TemporaryDir` of `file.cpp`; of the logger the locks, what other parts log,
-- the logger of Android, `OpenKmsg` beyond its result, and CHECK_CONSTEXPR; the templates of
-- `cmsg.h`; the other files of libsrc/libcpputils, which wrap system calls and macros; Windows.
pub mod Prelude
pub mod FilePath
pub mod FileSystem
pub mod FsObject
pub mod PathResolution
pub mod RecordStream
pub mod Strings
pub mod Shell
pub mod FileIo
pub mod FsFile
pub mod FsDir
pub mod FsOs
pub mod Numbers
pub mod UniqueFd
pub mod Properties
pub mod Logging
pub mod NetAddress
pub mod Cmsg
pub mod Sockets
pub mod Uevent
pub mod MappedFile
pub mod FileLoading
pub mod Formatting

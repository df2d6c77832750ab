-- ===== src/Lib.antt =====
-- Verification of the FTP server in src/, a version of vsftpd that serves cloud storage.
--
-- A session reads lines from the control connection, makes a command of each, acts on it, and
-- writes replies. All text is in strings of src/str.c; transfers in ASCII mode go through
-- src/ascii.c; the listener counts its children in tables of src/hash.c.
--
-- Base: what the modules share. `Outcome` is what a call ends in: a value, `bug` and `die` of
-- src/utility.c, an exit of the process, or `fault` for an access outside a block of memory. `Ends`
-- and `Returns` say how a call ends, and no call with such a result faults.
-- Str: src/str.c with what it uses of src/sysutil.c. Str.Buf has `struct mystr` with its heap block,
-- where `malloc` is a parameter that may refuse; its theorems say what text the block holds. The
-- other modules work on that text, a list of bytes: Str.Compare, Str.Locate, Str.Split, Str.Edit,
-- Str.Lines and Str.Chars, each function under its name.
-- Ascii: src/ascii.c. A buffer is a list, and the flag goes from block to block.
-- SysUtil.Numbers: the numbers printed and parsed in src/sysutil.c.
-- Control: src/netstr.c (Control.Netstr) and src/ftpcmdio.c (Control.Reply, Control.Command). The
-- socket is the list of the arrivals still to come; a peek sees one of them at most.
-- Hash: src/hash.c. A chain is the list of its nodes; the hash function is a parameter.
-- Standalone: the accounts that src/standalone.c keeps of its children. A run is a sequence of
-- accepts, each with what fork returned, and of calls of the handler for dead children, each with
-- the process numbers that waiting returned.
-- Listing: `vsf_filename_passes_filter` of src/ls.c, a pattern match with a limit of iterations.
-- Access: src/access.c over the filter; the real path and the root of a session are arguments, which
-- Commands.Paths gives.
-- Session: src/prelogin.c, with the commands of src/ssl.c, src/opts.c, src/features.c and
-- src/banner.c that a session takes before its login. A handler gives what it does, in order, and
-- whether the session goes on; `parse_username_password` is the loop over the commands that come.
-- Whether a login succeeds, and the TLS handshake, are arguments.
-- Addresses: src/ipaddrparse.c, on text.
-- Settings: src/parseconf.c, with the defaults of src/tunables.c and the reload of
-- src/standalone.c. The variables are functions of the names of their settings; a file is its text,
-- with whether it is a regular file of the user. `atoi` of the C library is an argument here and in
-- Addresses.
-- Users: the login of src/cosswitch.cpp against the setting `login_users`.
-- Process: the child that talks to the client and its privileged parent. Process.Privsock is
-- src/privsock.c, where an end of the socket pair is what arrives at it, what it sent, and whether
-- writes are taken. Process.Privops and Process.Pasv are src/privops.c, Process.Login the login of
-- src/twoprocess.c, Process.Broker src/postprivparent.c, and Process.Asks what the child asks, of
-- src/twoprocess.c. What the system gives to a call is an argument: sockets, random bytes, errors.
-- Commands: src/postlogin.c, with the addresses of src/sysutil.c and the start and the end of a data
-- connection of src/ftpdataio.c. `Client` is the session, with the working directory of its process;
-- a command gives what it does, in order, and what it ends in (`Run`). `Host` is what the system, the
-- storage and the parent answer during one command, so a history is a list of commands, each with
-- its host. Commands.Paths has the paths, Commands.Data PORT, EPRT and PASV, Commands.Transfers the
-- data connection, Commands.Files, Commands.Downloads, Commands.Uploads and Commands.Replies the
-- handlers, Commands.Convert the conversion of arguments to UTF-8 (src/cosswitch.cpp and
-- src/encode.cpp, with `iconv` an argument), and Commands.Round the lists of commands, the choice of a
-- command, and the loop. The chain of tests is a list of tests with their branches (`branches`), in
-- the order of the source.
-- Commands.Granted has the proofs, by command: what may be done is `Granted`, and how a session is
-- between two commands is `Between`. Commands.Answered has the proofs that the handlers reply.
-- Scenarios: sessions and their processes at concrete inputs.
-- CommandScenarios: sessions after a login at concrete inputs.
-- Examples: the definitions and the theorems at concrete inputs.
--
-- Bounds. An `unsigned int` wraps at 2^32, written out where a sum is taken. Loops whose end is not
-- structural run on fuel: the text's length and one more for `str_replace_text` and
-- `str_contains_line`, for the lines of a file of settings, for the tokens of `login_users` and for
-- the fields of an IPv6 address, for the real path, for a list of commands and for the calls of
-- `iconv`, and the buffer's size and one more for `str_netfd_alloc`; each round uses up at least one
-- byte. The rounds of the filter are limited to 1000 by its own count, so
-- its fuel is one more than the rounds left.
-- The random port is scaled on `double` in the source; the numbers are small enough for that to be
-- exact, and the model takes the integer part. Printed numbers have 22 digits at most, which 64 bits
-- in base 8 need.
--
-- Not modelled: system calls, the sandboxes, TLS itself, the storage SDK and the rest of its C++
-- glue, forking and the change of credentials, what a transfer sends and receives, HTTP after the
-- request, and how a line of the log is made of its entry.
pub mod Base
pub mod Str
pub mod Ascii
pub mod SysUtil
pub mod Control
pub mod Hash
pub mod Standalone
pub mod Listing
pub mod Access
pub mod Settings
pub mod Addresses
pub mod Session
pub mod Process
pub mod Users
pub mod Commands
pub mod Examples
pub mod Scenarios
pub mod CommandScenarios

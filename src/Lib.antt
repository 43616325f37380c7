-- ===== src/Lib.antt =====
-- A model of grabber, which downloads a URL to a directory over one of several protocols.
--
-- A download starts in grabber.go: a checksum is taken from the URL or the caller, a protocol is
-- chosen by prefix or detection, the protocol fills a temporary directory, the checksum is
-- verified, an archive is extracted, and the result moves to the destination. The settings say
-- which credentials, proxies and keys a host gets, and the SSRF guard says which hosts and
-- addresses may be connected to.
--
-- The parts, and the code that each models:
--   Base, Text, FilePath, Net: what the code uses of Go's language and standard library: lists,
--     (value, error) pairs as `Result`, strings as lists of bytes, path/filepath on
--     slash-separated paths, and IP addresses with their parsers.
--   SafePath: internal/safepath/safepath.go, and securePath of protocols/git/sparse.go.
--   Ssrf: ssrf/ssrf.go; Ssrf/Proxied: ssrf/proxied.go; Ssrf/Cache: ssrf/lookupcache.go. The
--     resolver and the IDNA conversions are parameters. A cache call is a step on the state that
--     the lock protects, with the time in seconds as an argument.
--   Extract: extract/extract.go. Format is the table of formats and detectExtension, Engine the
--     extractor: a method takes the state (the budget, and the effects on the disk so far) to a
--     state and an error. Decoders and disk are parameters: what a reader yields is its size and
--     whether it fails.
--   Netrc: internal/netrc/netrc.go. The pointers of the parser are numbers of cells in a store.
--   Limitio: internal/limitio/limitio.go; Childenv: internal/childenv/childenv.go.
--   Settings: settings/settings.go and settings/envproxy.go. Types has the records, Match the
--     choice by host, Credentials the HTTPS credentials, Network the probe, the pre-fetch check
--     and the proxy of the environment, Transport the transports for a host.
--   Grabber: grabber.go and protocols/protocol.go. Dispatch is init and download, Checksum is
--     extractChecksum and verifyChecksum, Grab is grab. Package url, the hash functions, the
--     protocols and the disk are parameters. Options is options.go, New the constructor and
--     Defaults of settings.go.
--   File: protocols/file/file.go; File/Copy: its copyDir, copySymlink and copyFile, and those of
--     grabber.go. The file system is a parameter.
--   Http: protocols/http/http.go. The transport, the server and the disk are in the record World.
--   Stores: what protocols/s3/s3.go and protocols/gcs/gcs.go share, the download of an object or
--     of a listing; Stores/S3 and Stores/Gcs are the rest of each. The clients are parameters.
--   Hg: protocols/hg/hg.go, and Oci: protocols/oci/oci.go. The hg command, the oras client and the
--     disk are in their records World.
--   Git: protocols/git/git.go and protocols/git/sparse.go. Url reads a URL, Scheme converts
--     between SSH and HTTPS, Refs has clone attempts and commit hashes, Sparse the selection and
--     the writing of a subdirectory, Download the loops over URLs and credentials, and
--     Download/Prepare cloneAndPrepare. Auth is the chain of credentials of git.go, with the SSH
--     identities, known_hosts and the credential helper, Archive is git_archive.go, ErrBody
--     errbody.go, and Pinned pinned.go. go-git,
--     package url, the key parsers and the user's system (the helper, the SSH agent and the
--     environment, in the record System) are parameters.
--   Tests: the definitions run, and the theorems applied, at concrete inputs.
--
-- Numbers are natural numbers. An int64 that may be negative is a ℤ, and where a sum can leave
-- the range of int64 its wrap-around is written out (Extract.Engine.read_limit,
-- Limitio.read_limit). Every loop of the code but one runs over a list and is structural
-- recursion. The way up of File.climb has as many rounds as the path has bytes and one more, which
-- is enough since each round shortens the path.
--
-- Not modelled: the negotiation of a partial clone in sparse.go, which is a sequence of calls of
-- go-git; cmd/grabber and internal/version, which only read flags and print; and
-- internal/testcert, which serves the tests.
pub mod Base
pub mod Text
pub mod FilePath
pub mod File
pub mod Http
pub mod Hg
pub mod Oci
pub mod Stores
pub mod SafePath
pub mod Net
mod Tests
pub mod Ssrf
pub mod Extract
pub mod Limitio
pub mod Childenv
pub mod Settings
pub mod Grabber
pub mod Git
pub mod Netrc

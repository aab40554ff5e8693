-- ===== src/Lib.antt =====
-- A verification library for tls-forge, an HTTP client that sends what a browser sends.
--
-- Modelled are the parts that decide what a connection looks like and what is made of it:
--   * fingerprint/: a ClientHello is parsed from the bytes of a connection (clienthello.go), its
--     GREASE left out (grease.go), and fingerprinted as JA3 (ja3.go) and JA4 (ja4.go). An HTTP/2
--     preface and an HTTP/1.1 request are fingerprinted likewise (http2.go, http1.go). Two of a
--     kind are compared field by field (compare.go), with code points spelled out (names.go).
--   * header.go: the ordered headers that a request is made of, and how those of a caller are
--     laid over those of a browser profile.
--   * cookie/: the file of warmed sessions (cookie.go) and the cookies.txt (netscape.go).
--   * daemon/: requests that come as lines, and their answers.
--   * cmd/tls-forge/joblist.go: the list of URLs of a batch, in its formats.
--   * proxy/: which headers a request is sent on with, and how the proxy is closed.
--   * capture/: what one client sent, as it is exchanged and read back.
--   * profile/: a browser's identity: the checks on it and what the transport is given of it
--     (profile.go), how it is made of a capture (fromcapture.go), the order of its trust anchors
--     in one process (trustanchors.go), and how a name is resolved to one (registry.go).
--   * client.go: the headers of a profile over HTTP/1.1, and those of a request that follows a
--     redirect.
--   * echo/: the server that measures a client: requests of HTTP/1.1 (h1.go), a connection of
--     HTTP/2 frame by frame (h2.go), and which session a report belongs to (server.go).
--
-- The files:
--   Base/*                 what the parts share: Boolean tests, lists, texts, sorting, numerals,
--                          white space and lines, integers
--   Header                 header.go; a name's lookup, update and merge in Header/*
--   Fingerprint/Hello      the types and constants of clienthello.go
--   Fingerprint/Wire       cryptobyte, as an interface with laws, and the encodings it reads
--   Fingerprint/Parse      handshakeBody, completeHandshake and ParseClientHello
--   Fingerprint/Accessors  the methods of ClientHello that read an extension
--   Fingerprint/Grease, Ja3, Ja4, Names, Http, Compare   the file of that name
--   Cookie                 cookie.go but for Load, which is Cookie/Load
--   Cookie/Netscape        netscape.go
--   Daemon                 daemon/daemon.go
--   Joblist                cmd/tls-forge/joblist.go
--   Proxy                  mergeHeaders of proxy/proxy.go
--   Proxy/Connections      track, forget and Close of proxy/proxy.go, as steps
--   Capture                capture/capture.go
--   Profile                profile/profile.go but for Spec and ClientProfile, in Profile/Spec
--   Profile/TrustAnchors, FromCapture, Registry   the file of that name; the registry's state and
--                          Get are in Profile/Registry/Resolve
--   Client                 profileHTTP1Headers of client.go
--   Client/Redirect        redirectHTTP1Layout of client.go and what it calls
--   Echo/Http1, Http2      echo/h1.go and echo/h2.go
--   Echo/Navigation        the sessions, tokens and captures of echo/server.go
-- What is below a file with these names states properties of it; Examples are runs and instances.
-- A Go function keeps its name in lower case with underscores: ParseClientHello is
-- parse_client_hello, loadNetscape is load_netscape. A method takes its receiver as an argument,
-- and one that changes its receiver returns it changed.
--
-- Bytes and code points are natural numbers; a string is the list of its bytes. Case and white
-- space are those of ASCII, and Go's treatment of other letters is not modelled. A map is an
-- association list. An error is a value, one constructor for each message. A zero time is `none`.
-- The counter of navigations has 64 bits.
--
-- The loops over bytes run on fuel, one more than the bytes they read, since each round reads at
-- least one. The search for a free id has two rounds more than there are ids, since its candidates
-- differ. A handshake message is at most 131,072 bytes, as in the source. A response is cut into frames on
-- as much fuel as it has bytes. Get of the registry calls itself for longer names only, on fuel
-- that is enough above the longest name.
--
-- Parameters: cryptobyte's readers (with what they document as hypotheses), MD5 and SHA-256,
-- base64, encoding/json's and encoding/csv's decoders, the draws of a random source, the client of
-- the daemon, the two keys under which fhttp keeps an order, utls's fingerprinter, the catalogue of
-- tls-client, httpguts's check of a header name, and a tree of files.
--
-- Not modelled: the printing of a report, the writing of JSON, sockets, TLS and the HTTP stacks,
-- net/url, and the other commands, the rest of the proxy and of the echo server, the grouped
-- listing of profiles, and what else the client does.
pub mod Base
pub mod Header
pub mod Fingerprint
pub mod Capture
pub mod Cookie
pub mod Proxy
pub mod Daemon
pub mod Joblist
pub mod Profile
pub mod Client
pub mod Echo

-- ===== src/Lib.antt =====
-- chat-hub: a chat client and a chat server that talk over TLS, in length-prefixed frames with JSON
-- bodies. This library models the contracts that both sides share, the server's handshake, the codecs
-- of the hello exchange on both sides, the TLS settings of both sides, and the tool that issues
-- certificates for a development server.
--
-- The parts and how they interact. A frame is eight bytes of header and a UTF-8 body. The header
-- names a protocol type, which the registry describes: who sends it, in which connection states it
-- is allowed, how large its body may be and which response it has. The frame codec reads and writes
-- frames by that registry and checks the body for UTF-8. The bodies carry identities and sequence
-- numbers, which are parsed into types of their own, and the sets of capabilities that the first
-- exchange of a connection, the hello exchange, negotiates: the client encodes a request, the server
-- decodes it, encodes a response, and the client decodes that. Before the first frame the server runs
-- a TLS handshake with a deadline, with a context loaded from a chain and a key; the client trusts the
-- authorities of one file. A tool issues these files for a server at an IPv4 address.
--
-- Which file models what:
-- * Protocol.antt and Protocol/ model shared/include/chathub/contracts/protocol_descriptor.hpp.
--   Types has the values of `ProtocolType`, ConnectionStates has `ConnectionState`,
--   `ConnectionStates`, `operator|` and `hasState`, Descriptor has `Direction` and
--   `ProtocolDescriptor`, Table has the 54 rows of `kProtocolDescriptors`, and Protocol.antt itself
--   has `findProtocol`. Checks runs a Boolean test over all rows; Registry, Pairing, Ownership and
--   Policy hold the facts on the table that follow from such runs.
-- * Utf8.antt and Utf8/ model `isValidUtf8` of shared/include/chathub/contracts/frame.hpp. Scalars
--   is the encoding as RFC 3629 defines it, and shares no code with the validator.
-- * Frame.antt and Frame/ model the rest of that header: `FrameDecoder`, with a record for its
--   members and a function for each method, and `encodeFrame`. Frame/Stream is the specification: a
--   relation between a whole byte stream, its frames and its ending, without buffer or cursor.
--   Frame/Rounds, Append, Refines and Feeding lead from one round of the loop to one `feedBytes`;
--   Session runs any sequence of calls; RoundTrip, Canonical, Bounds and Drain are about whole
--   streams, and Termination is about the loop.
-- * Ids.antt and Ids/ model shared/include/chathub/contracts/ids.hpp: AccountName, UuidId and
--   DecimalSeq with their parsers and tags, over Ascii for the characters.
-- * Hello.antt and Hello/ model `CapabilitySet`, over `std::set`, `HelloRequest` and `HelloResponse`
--   of shared/include/chathub/contracts/hello.hpp; TextOrder and
--   Ascending are about the order of texts and the lists in that order, Sets, Members and Bounds about the
--   sets.
-- * Handshake.antt models `asyncServerHandshake` of chat-server/src/tls_handshake.cpp: the shared
--   state and its two callbacks. Handshake/Outcomes runs them in every order.
-- * Outcome.antt models `Outcome`, `Error` and `isSnakeCaseCode` of
--   shared/include/chathub/contracts/outcome.hpp.
-- * Codec.antt has what the two codecs of the hello exchange do alike, over the record JsonLibrary
--   for a JSON reader. ServerCodec.antt models `decodeHelloRequest` and `encodeHelloResponse` of
--   chat-server/src/hello_codec.cpp, ClientCodec.antt models `encodeHelloRequest` and
--   `decodeHelloResponse` of client-qt/src/hello_codec.cpp; the files Accepts below them say which
--   texts a decoder accepts. Json.antt has the documents that the encoders build, and Double.antt
--   the finite values of a `double`, exactly; the files Failures say with which error code a decoder
--   fails, over Codec/Failures for the steps and Codec/Refusals for the order of the tests.
--   Exchange.antt and Exchange/ put the two sides together: Exchange/Wire puts the frame codec between
--   them, Exchange/Negotiation has a request and the answer to it, and Exchange/ErrorCodes the codes of
--   both decoders.
-- * Pki.antt and Pki/ model `isIpv4Literal` of tools/pki/src/dev_ca.cpp. DevCa.antt and DevCa/ model
--   `issueDevCa` with the functions that it calls, as a chain of calls that may fail (Attempt.antt).
--   Inspection.antt, with CertFields.antt for the parts of a certificate, models `inspectCertPem`,
--   `verifySignedBy` and `certMatchesKey` of the same file; Inspection/Names says which names are
--   told apart, and Inspection/Reading applies the three to what `issueDevCa` returns; and CaTool.antt models `writeDevCaFiles` and the command tools/pki/src/dev_ca_main.cpp.
-- * TlsContext.antt models `TlsContext` of chat-server/src/tls_context.cpp with its header
--   chat-server/include/chathub/server/transport/tls_context.hpp, TlsClient.antt models
--   `TlsClientConfig` of client-qt/src/tls_client.cpp with its header
--   client-qt/include/chathub/client/infrastructure/tls_client.hpp, and ErrorText.antt the texts of
--   their errors.
-- * Deployment.antt and Deployment/ put the tool and the two sides together: the command writes its
--   files, the server loads its certificate and key from them, and the client the root.
-- * Prelude.antt has what all of them share: bytes, lists measured by native numbers, Boolean tests
--   and bit operations on bytes.
-- * Tests.antt applies the theorems at concrete inputs.
--
-- Conventions. A `std::string`, a `std::string_view` and a byte vector are lists of numbers; where
-- it matters, a hypothesis says that they are bytes. A `uint8_t`, `uint32_t` or `uint64_t` is a
-- number, with its wrap-around written out where the code can reach it; a `size_t` never comes near
-- its bound and is a plain number. `std::optional` is Option, and a method that changes its object
-- returns the new object.
--
-- Loops. The loops over a text or a table recurse on it. The loop of `isValidUtf8` has the length
-- of the text as fuel: each round takes a byte at least. The loop of `decodeAvailableFrames` has
-- one round more than the buffer has bytes: a round that goes on takes the eight bytes of a
-- header at least. The loop of `isIpv4Literal` has one round more than the text has bytes: each
-- round but the last removes a dot. `std::to_string` has twenty rounds, since a `uint64_t` has
-- twenty digits at most. The results below are about whole inputs, so they hold only because this
-- fuel is enough.
--
-- Libraries of others are parameters, and what a theorem assumes of one is a hypothesis of it.
-- * Boost.JSON and Qt's JSON: JsonLibrary, QtLibrary. Which texts a decoder accepts is said in terms
--   of what the library's accessors return, without any assumption. The hello exchange assumes that a
--   reader shows a document as it is (Views, QtViews), that it reads back what the other side's
--   library has written for the one document at hand (ReadsBack), and that a `QString` keeps valid
--   UTF-8 (KeepsUtf8).
-- * OpenSSL in the tool: OpenSsl, with the effect of each call on a certificate that succeeds
--   and that a digest is bytes (DevCa/Contents: Documented), and Inspector, with what the extensions of the server's certificate
--   and of the root decode to (Inspection/Facts: Decodes, Inspection/Root: DecodesRoot), how it checks
--   keys and signatures (Inspection/Chain: ChecksKeys) and that it reads back what it has written
--   (Inspection/Reading: ReadsBack). That a call succeeds is assumed only where a theorem says
--   that certificates are issued (DevCa/Reliable: Reliable).
-- * The file system: FileSystem, with what a stream that is written and closed leaves in the file that
--   its directory and name designate, which other texts may designate too (CaTool/Files: Documented), and without a failure where a theorem says so (CaTool/Reliable: Works).
-- * asio and OpenSSL in the server, and Qt in the client: AsioSsl and QtSsl, with the settings
--   that each call changes and keeps, where options are added to those in force (TlsContext/Loaded and
--   TlsClient/Verified: Documented), and for the files of
--   the tool that they take what OpenSSL can read (Deployment: Serves, Trusts).
--
-- Not modelled: what the tool prints; exceptions of allocation; infinities and NaN, which JSON texts
-- do not have; the sessions behind the handshake, which the repository does not have yet; and the
-- test programs (tests/).
pub mod Prelude
pub mod Protocol
pub mod Utf8
pub mod Frame
pub mod Ids
pub mod Hello
pub mod Exchange
pub mod Pki
pub mod Attempt
pub mod DevCa
pub mod CertFields
pub mod Inspection
pub mod CaTool
pub mod ErrorText
pub mod TlsContext
pub mod TlsClient
pub mod Outcome
pub mod Double
pub mod Json
pub mod Codec
pub mod Deployment
pub mod ClientCodec
pub mod ServerCodec
pub mod Handshake
pub mod Tests

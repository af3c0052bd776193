-- ===== src/Lib.antt =====
-- push1st, a publish and subscribe message broker.
--
-- Prelude holds the names and lemmas that the modules share; texts of the program are lists of
-- bytes.
--
-- Base64 models cbase62 (source/core/util/cbase62.cpp) and ToBase64, FromBase64
-- (source/http/chttp.cpp): encode_loop is the loop of Encode with its buffer char_array_3 as
-- Pending, decode_quads the loop of Decode over whole groups, strip_pads the loop that removes
-- paddings.
--
-- WebSocket models the frames (include/http/cwebsocket.h, source/http/cwebsocket.cpp) and the
-- connection (source/http/cwsconn.cpp): make is cwebsocket::Make, read_message is WsReadMessage
-- over the bytes that will arrive and the error that follows them.
--
-- Channel models include/channels and source/channels: Kind the type of a channel, Message the
-- fields of a message that routing reads, Defs the class cchannel with Push, Gc, Subscribe and
-- UnSubscribe, Registry the class cchannels, with a push through a pointer to a public or private
-- channel. A weak pointer to a session is a number, and what sessions answer is the record
-- Sessions; whether try_lock succeeds is an argument. A channel's requests to the registry, hooks
-- and cluster are a list of effects, which Registry applies. Presence and Users are
-- cpresencechannel, whose JSON texts are the record Bodies. Registry/Idle is OnIdle of
-- application/push1st/broker/cbroker.cpp.
--
-- Credentials models capplication (include/core/credentials/ccredentials.h and
-- source/core/credentials/ccredentials.cpp): Text is Hex and Trim, Decimal the conversions of
-- numbers, App the checks of a channel, Session SessionToken and ValidateSession, Access and Bearer
-- AccessToken and ValidateToken. The functions of OpenSSL are the record Crypto; that decryption
-- inverts encryption is a hypothesis where it is needed. The digits of a number n are written on
-- fuel n + 1, which is enough as each step divides it by ten.
--
-- Pusher models application/push1st/proto/cpushersession.h and cpushersession.cpp: Session has
-- OnWsMessage with the handlers of its events, whose calls outside the session are a list of
-- actions; the registry, the JSON parser and the socket answer through the record Peers.
--
-- Raw models application/push1st/proto/cwssession.cpp: Connect is OnWsConnect, with the check of a
-- token and the registry as parameters, and Session OnWsMessage and OnSocketError over the registry
-- of Channel, on the answers of the JSON parser. Which weak pointers can be locked and whose
-- try_lock succeeds are arguments, the same throughout a call.
--
-- Router models include/http/crouter.h: Path is key_t with Explode and Compare, where a read past
-- the end is an outcome of its own, and Table is Add and Call.
--
-- Smpp models application/push1st/smppservice: RateLimiter is Enqueue and a round of the worker of
-- cratelimiter, interleaved as a list of events. The rest is csmppservice.h and csmppservice.cpp:
-- Pdu has Pack and Unpack of the messages of the protocol, Chunks cmessage::Split, Receipt
-- cshortmsg::Unpack, Service the queues of messages with SendChunk, IsLeaveUs and the two updates
-- of OnDeliveryStatus, as events in the order of their locks, the jobs of
-- retryQueue among them, and Gateway OnDeliveryStatus as a
-- whole, whose sendings and hook are a list of actions. Link is the connection of a gateway,
-- Connect on what comes of each host and IsLeaveUs on the two times it reads. A message is the
-- number of its object, and whether the gateway took it is an argument. The loop of Split has the
-- length of the text as fuel and drops up to 132 bytes in a round; the loop of Unpack has one more
-- than the length, and drops at least the colon that it found.
--
-- Inet models source/inet: Socket has the loops of csocket over recv, recvfrom, send and sendto,
-- which are functions of the system's state, and Stream what the program relies on of them. The
-- loops have fuel, and beyond the number of bytes it is enough, as each call that goes on moves one
-- at least; only a write to a datagram socket tries again for as long as it is told EAGAIN. Poll is
-- the queue of cpoll::Gc.
--
-- Cluster models source/core/cluster: Frame the frames of ccluster.cpp, Receive OnUdpData on the
-- datagrams of the system, Relay the handlers of what another node announces, on the registry of
-- Channel, Peers the nodes of cadapter, and Sending what ccluster sends and its clock. JSON texts
-- are parameters: the record Reader reads them, and that it reads what the JSON library wrote is
-- a hypothesis.  The first byte of a header is read as the compilers for x86 lay bit fields out.
-- A node is one of a list of peers; the adapter for k8s is left out.
--
-- ApiServer models application/push1st/apiserver/capiserver.cpp: Events is ApiOnEvents over the
-- registry of Channel, Channels is ApiOnChannels, and Tokens is ApiOnToken over Credentials, each
-- with the response that it sends, and Requests its routes and the text of the responses. Upgrade
-- models source/http/cwsserver.cpp and application/push1st/websocketserver: from the first
-- request of a connection to its session.
--
-- Http models ParseRequest of source/http/chttp.cpp: Scan has ParserNext, ParseNumber and
-- SplitBy, Uri the splitting of the uri, whose multimap of parameters is a list without a
-- meaning to its order, Request the loop over the headers and the content. A
-- view of the request is the bytes that are left, and the bytes that were moved over go along,
-- since the end of the headers is found by looking back at four of them. Each loop has the length
-- of what it reads as fuel, and removes at least a byte in a round. Messages is GetMessage
-- (source/http/httpmsg.cpp), and Connection the reading and writing of requests and responses
-- through a socket (source/http/chttpconn.cpp), over the loops of Inet.
--
-- Not modelled: the parser of responses and the authorization of HTTP, the rest of the handlers
-- of the sessions, the table of the gateways of the SMPP service and its conversion to UTF-16,
-- the loops over OpenSSL, the adapter for k8s, hooks and scripts, configuration, timers, the
-- opening of sockets, and the vendored libraries. The contents of JSON documents are left out
-- where the modelled code does not look at them.
pub mod ApiServer
pub mod Base64
pub mod Channel
pub mod Cluster
pub mod Credentials
pub mod Http
pub mod Inet
pub mod Prelude
pub mod Pusher
pub mod Raw
pub mod Router
pub mod Smpp
pub mod Upgrade
pub mod WebSocket

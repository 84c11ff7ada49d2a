-- ===== src/Lib.antt =====
-- NexaWhats: a WhatsApp Web client in TypeScript.
--
-- The program keeps a socket to the server, over which it exchanges stanzas: trees of nodes,
-- with a tag, attributes and content. src/binary turns a stanza into bytes and back. Users,
-- groups and devices have textual addresses, the JIDs of src/utils/jid.ts, for which the binary
-- format has encodings of its own. The text of a message travels inside stanzas, encrypted end
-- to end; in a group under the sender keys of src/signal/group. Outgoing messages wait in the
-- queue of src/queue, and the state machine and the circuit breaker of src/socket say when the
-- client may connect. Below the stanzas lies the Noise protocol of src/socket/noise.ts, which
-- src/socket/handshake.ts sets up. To send a message, src/messages looks up the devices of its
-- receivers and their LIDs, and to receive first messages the client offers pre-keys to the
-- server.
--
-- Which file models what:
-- - Common (Tests, Lists, Text, Dict): Boolean tests and lists on native numbers, and text as a
--   list of UTF-16 code units, which is what a JavaScript string is. Dict: a `Map` or a plain
--   object.
-- - Jid: src/utils/jid.ts and the enum and the record of src/types/jid.ts, one function for
--   each of the source, under its name in snake_case (`jidEncode` is `jid_encode`). Jid.Numbers
--   has the conversions between numbers and text that they use (`+text`, `parseInt`,
--   templates).
-- - Binary: the nodes of src/binary/types.ts. Binary.Tags, Binary.Tokens and its children
--   Single and Double: src/binary/constants.ts. Binary.Encoder and its child Primitives:
--   src/binary/encoder.ts; the closures over the output buffer become functions to the bytes
--   that they push, `none` where they throw. Binary.Decoder and its child Readers:
--   src/binary/decoder.ts; the buffer from the index on is the state of a reader.
--   Binary.Helpers: the accessors of src/binary/types.ts, with `encodeBigEndian` of
--   src/proto/payload.ts; Binary.Lookup has their theorems. Binary.Streams:
--   `encodeBinaryNodes` and `decodeBinaryNodes`, with their theorem. Binary.Utf8: the
--   conversions of Node between text and bytes. The theorems stand in Binary.RoundTrip,
--   Binary.Constants and Binary.Termination.
-- - Group: src/signal/group. Group.Keys, State, Record, Message, Cipher and Builder are the
--   classes of its files; a method that changes its object gives the changed object back, and a
--   record is passed in the place of the store. The theorems stand in Group.Cache, Invariant,
--   Updates, Spent, Ratchet, Skipped, OutOfOrder, Framing, Session, Delivery and Joining.
-- - Queue: src/queue/index.ts, with the queue itself in Queue and the operations of the class
--   in Queue.Processing, and Queue.DeadLetters: src/queue/dead-letter.ts. Other calls run where
--   the code awaits, so a round of `processNext` is two operations, `pick` and `finish`.
--   Queue.Order and Queue.Drain have the theorems. Queue.RateLimiter:
--   src/queue/rate-limiter.ts, in parts of tokens.
-- - Socket.StateMachine: src/socket/state-machine.ts, with the events emitted as a list.
--   Socket.CircuitBreaker: src/socket/circuit-breaker.ts, with the time of each call as an
--   argument, like Socket.KeepAlive: src/socket/keepalive.ts.
--   Socket.Crockford: `bytesToCrockford` of src/socket/pairing.ts, with the theorem in
--   Socket.PairingCode.
-- - Store.Memory: src/store/memory.ts. Utils.Retry: src/utils/retry.ts. Middleware:
--   src/middleware/index.ts, with the theorems in Middleware.Order. Messages.RetryManager:
--   src/messages/retry-manager.ts, over the interface Messages.LruCache, with the theorems in
--   Messages.Retries.
-- - Messages.Receive and Clean: the parts of src/messages/recv.ts that read the attributes of a
--   stanza and the keys of a message, with theorems in Messages.Origin and Clean.
--   Messages.Devices: `getUSyncDevices` of src/messages/send-relay.ts, with a theorem in
--   Messages.DeviceCache. Messages.Relay: the nodes for the devices, the participant hash and
--   the types of messages of the same file, with a theorem in Messages.Participants. Their
--   parameters are the query to the server, the encryption for a device, which is taken to be a
--   function of the device and the bytes, and the generated code for messages.
-- - Utils.PreKeyManager and PreKeyUpload: src/utils/pre-key-manager.ts, with the theorems in
--   Utils.PreKeyMutations and PreKeysStored. The answers to queries and the key pairs are
--   parameters.
-- - Groups.Metadata, Operations and Participating: src/groups/index.ts, over the query to the
--   server, with the theorem in Participating.
-- - Signal.Address and Repository: src/signal/libsignal.ts, the addresses and the sessions behind
--   the lookup of LIDs, over the interface LidLookup, which the LID store fills in Signal.Known.
--   The theorems stand in Signal.Addresses and Sessions.
-- - Signal.LidPairs and LidMapping: src/signal/lid-mapping.ts, with the theorem in
--   Signal.Mappings. A record is passed in the place of the bucket of the key store and the
--   cache.
-- - Crypto: the functions of src/utils/crypto.ts that the next part calls, over those of
--   node:crypto, which are the fields of `NodeCrypto`; Crypto.Laws has what is assumed of
--   these, `IsSound`.
-- - Noise: src/socket/noise.ts. The variables of the closures are the records `Cipher` and
--   `Noise`, which each function takes and gives back changed; Noise.Frames has `decodeFrame`, and
--   Noise.Interleaving its calls as they interleave.
--   Noise.Handshake: `processHandshake` and `performHandshake` of src/socket/handshake.ts, over
--   the generated proto code, the fields of `Messages`. Noise.Delivery: `sendNode` of
--   src/client/connect.ts. The theorems stand in Noise.Chunks, Session, Delivery, Oversize and
--   Established.
-- - The modules named Tests and Messages.StanzaTests run the models and the theorems on
--   concrete input.
--
-- Fuel: `readString` and the decoder of nodes call themselves after they have read at least one
-- byte, so they run on fuel above the number of bytes, and never run out. `writeString` calls
-- itself on proper parts of its text, and runs on the length of the text and one. The loop of
-- `getSenderKey` runs for the difference of the iterations, and the eviction of dead letters
-- for their number. `decodeFrame` takes three bytes at least for each frame, and runs on the
-- number of bytes and one. The loop of the queue runs on fuel, of which `maxRetries + 1` for
-- each entry is enough, and that of `acquire` on fuel, of which 61 rounds are enough unless the
-- clock went back.
--
-- Parameters: `inflate` of zlib; the caches of lru-cache, under `Messages.LruCache.IsCache`;
-- the ciphers of node:crypto, under `Crypto.Laws.IsSound`; the functions of libsignal and the
-- generated proto code, the fields of `Crypto`, with what is relied on in
-- `Group.Framing.IsSound`. The session records of libsignal are any `SessionRecord`.
--
-- Not modelled: sockets, timers, files and databases, the HTTP of media, the encryption of
-- direct messages in libsignal, the move of sessions to a LID and the cache before the key
-- store, the JSON in which the records of groups are stored and the repository's operations on
-- them, the keys and stanzas of pairing, the building and the decryption of messages, and the
-- client's glue: calls of libraries for the most part. Calls of `decodeFrame` run one after the
-- other but in Noise.Interleaving, and middlewares await each call of `next` but in Middleware's `entered`. In the decoder
-- a BINARY_32 length of 2^31 or more is a negative number that moves the index back; the model
-- ends there with `rewind`.
pub mod Common
pub mod Binary
pub mod Crypto
pub mod Group
pub mod Groups
pub mod Jid
pub mod Messages
pub mod Middleware
pub mod Noise
pub mod Queue
pub mod Signal
pub mod Socket
pub mod Store
pub mod Utils

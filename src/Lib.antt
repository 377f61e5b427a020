-- ===== src/Lib.antt =====
-- session-proxy carries SSH over the WebSocket data channel of AWS SSM and offers it as a SOCKS5
-- proxy. This library models its core and proves what makes it correct.
--
-- Paths are from the root of the repository.
--  - Message: the frames of internal/protocol/message.go. Encode has AgentMessage.MarshalBinary,
--    Decode has UnmarshalMessage; RoundTrip relates the two, Malformed is about other bytes.
--  - Adapter: internal/protocol/adapter.go and adapter_resume.go, one module for each group of
--    fields that a mutex guards. Reorder is handleDataMessage behind its acknowledgement with
--    processBufferedMessages (incomingMsgBufMu); Outgoing is addOutgoing, ackOutgoing,
--    dropOutgoing, markOutgoingForRetransmit and the ticks of resendLoop (outgoingMu); Lifecycle
--    is Close, its reason, and the WebSocket with handleTransportFailure and reconnectLoop
--    (connMu, reconnectMu), and Closing how these interleave; Seen is markMessageSeen
--    (seenMsgIdsMu); Publication is the pausing of writers with handleAcknowledge (pauseMu); Write
--    is Write with waitForPublication, writeRaw and waitUntilConnected; Settings has what
--    NewAdapter reads from the environment, with applyAdapterOptions; Dispatch is dispatchMessage
--    with its handlers and the handshake, over all of these; Reading, Pinging and Resuming are the
--    loops readLoopForGen, pingLoopForGen and reconnectLoop of a WebSocket, and Deadlines has the
--    waits under the write deadline.
--  - Socks: internal/socks5. Const and Addr are const.go and addr.go; Negotiation is the
--    handshake, the authentication, the request and the replies of server.go over the connections
--    of Conn; Server is its accept loop with the limit of connections, the counters and
--    handleConn, Relay has the two copies of relay, and Watching is newDialContext with
--    watchClientDisconnect.
--  - Router: internal/router/router.go, the rules, their hot reload and the match of an address.
--  - Pool: internal/upstream/pool.go. Selection picks the connection of a dial, Waiting is the
--    wait of a dial for capacity, Channels has the counters of one connection under concurrent
--    dials, Growth is startScale and the replenishing of maintainOnce with the counts of a Group,
--    Upkeep is which connections maintainOnce and cleanup remove, Eviction is isTransportError and
--    removeConn, Connect is the failover of connect and connectPool, Single is connectSingle,
--    Startup is Connect and Close of the Pool, Handoff is what dial and the goroutine that it
--    starts do, Keepalive is the loop of startSSHKeepalives, and Reconnect is recordDialTimeout
--    and maybeForceReconnect.
--  - Config: internal/config. Config itself is config.go with its validation; Options is ToConfig
--    and reload of options.go, Watch is Watch, rehydrateKeys and captureConfigFileUsed.
--  - Proxy: the dialer of internal/proxy/server.go and run, buildRouter and onConfigReload of
--    cmd/session-proxy/main.go, which put Config, Router and the names of the pool together.
--  - Retry: RunContext of internal/retry/retry.go.
--  - Ssh and Ssm: Connect of internal/ssh/client.go, and StartSession and ResumeSession of
--    internal/aws/ssm/client.go.
--  - Prelude: numbers, lists, maps as association lists, bytes, and int64 as bit patterns.
--  - Tests: runs at concrete inputs.
--
-- Conventions. A Go map is an association list in an arbitrary order of iteration. An int64 is its
-- bit pattern below 2^64, compared by its biased value; uint32 sums wrap at 2^32. Strings and byte
-- slices are lists of bytes. Instants and durations are nanoseconds and do not wrap. The loop of
-- processBufferedMessages has fuel for each entry of the buffer; every round removes one, and
-- drain-Missing shows that the loop ends by its own test. Goroutines are events of a step relation
-- (in Closing, Window.Runs, Limit, Growth.Bound, Waiting, Handoff, Watching, Relay): a section
-- that holds a mutex or one atomic operation is a step, and any order of steps is a run. In
-- Channels the reservation of a dial, which adds, looks and takes back, is one step, so that
-- others do not see an addition that is taken back. All else is a function, what one thread does
-- with nobody between its sections: so Lifecycle has Close, startReconnect and the end of
-- reconnectLoop, Reconnect has the calls of one dial, and Upkeep the pass of maintainOnce.
-- encoding/json, crypto/sha256, google/uuid and package net are parameters, and so are the dialer,
-- and the glob patterns of path/filepath.
--
-- Loops that wait on others take what each of their rounds finds as a list; where it ends first, the
-- result says that the code still waits, and write-returns shows when Write does not.
--
-- Not modelled: the draining of the pool (closeDrainingConns, which nothing calls), the delays of
-- the retryer (floating point with random jitter), the parsing of flags, variables and
-- configuration files by viper, the diagnostics server, the requests to the AWS SDK, the pong
-- handler and the setters of deadlines, which forward to the WebSocket, and the resume experiment.
pub mod Prelude
pub mod Message
pub mod Adapter
pub mod Socks
pub mod Router
pub mod Pool
pub mod Config
pub mod Proxy
pub mod Retry
pub mod Ssh
pub mod Ssm
mod Tests

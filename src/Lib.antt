-- ===== src/Lib.antt =====
-- Verification of outline-cli-ws, a client that tunnels TCP and UDP over WebSocket to Outline servers.
--
-- The program takes connections from a SOCKS5 server or a TUN device, has the load balancer pick an
-- upstream for each, and dials that upstream's WebSocket over HTTP/1.1, HTTP/2 (RFC 8441) or HTTP/3
-- (RFC 9220). Over HTTP/2 and HTTP/3 it frames the messages itself. Health checks feed the balancer,
-- and failures of live traffic are reported to it.
--
-- Parts, and the files of the repository that they model:
--   Ws/Frame     internal/ws_h2.go: readFrame, buildFrame. A reader takes bytes off a list; its
--                children hold the round trip and how much a read takes.
--   Ws/Sink      internal/ws_h2.go: the write loops of writeRaw and sendClose. A writer answers each
--                call with a count and an error.
--   Ws/Conn      internal/ws_h2.go: framedWSConn, its Read (readFragmentedMessage included), Write
--                and Close. The state holds what the stream still delivers, what has gone out, and
--                the flag closeSent. Conn/Messages and Conn/Refinement compare Read with the frames
--                that spell a message, Conn/Closing runs sequences of calls.
--   Ws/Alive     internal/ws_api.go: WSConn as a record; internal/warm_standby.go: wsAliveCheck.
--   Ws/Dial      internal/ws.go: parseTransportHints and DialWSStream, whose three handshakes are
--                answers from outside; internal/lb.go: wsDialTimeoutForURL; internal/ws_h3.go:
--                dialRFC9220. Dial/Plan is the order of the handshakes as a list.
--   Ws/Uri       internal/rfc8441_raw_h2.go: cleanedRequestURI; Uri/Left compares it with the hints.
--   Ws/RawH2     internal/rfc8441_raw_h2.go: the wait for settings in init, readResponseHeaders, Write
--                and readLoop of the one stream. The framer gives events and takes frames.
--   H3/Varint    internal/ws_h3.go: appendVarint, readVarint.
--   H3/Stream    internal/ws_h3.go: Read and Write of h3wsStream over DATA frames.
--   H3/Frames    internal/ws_h3.go: a frame as h3ReadResponseHeaders and h3LogPeerControlStream read it.
--   H3/Control   internal/ws_h3.go: h3ParseSettingsPayload, h3LogPeerControlStream, h3PeerSupportHint,
--                and the streams of h3OpenClientUniStreams.
--   H3/Request   internal/ws_h3.go: h3ConnectHeaderFields, h3ConnectHeaderMap, the HEADERS frame of
--                dialRFC9220Profile, and h3ReadResponseHeaders.
--   H3/Dial      internal/ws_h3.go: dialRFC9220Profile, as what it has open when it returns.
--   H3/Qpack     internal/ws_h3_qpack_min.go: the static table, prefixed integers, header blocks.
--   Lb/State     internal/lb.go, internal/config.go: hcState, UpstreamState, LoadBalancer.
--   Lb/Health    internal/lb.go, internal/util.go: applyHCResult and its intervals, checkOneTCP and
--                checkOneUDP behind their probes, runDueChecks, ReportTCPFailure, ReportUDPFailure.
--   Lb/Select    internal/lb.go: PickTCP, PickUDP, the score of an upstream; Select/TopN: pickTopN.
--   Lb/Slots     internal/lb.go: the slots of probes and dials, such as acquireDialSlot and
--                DialWSStreamLimited, as goroutines that take turns on one channel.
--   Lb/Start     internal/lb.go: NewLoadBalancer, DisableBackgroundProbes; Start/Ready has what PickTCP and
--                PickUDP make of them, by Select/Total.
--   Standby      internal/warm_standby.go: AcquireTCPWS, AcquireUDPWS, EnsureStandbyTCP,
--                EnsureStandbyUDP, keepaliveOneStandby; internal/lb.go: the shutdown branch of
--                RunWarmStandby. A goroutine is a stage between two critical sections, and an
--                interleaving is a sequence of turns.
--   Socks/Addr   internal/socksaddr.go: parseSocksAddrAt; internal/outline_udp_session.go:
--                parseAddrKeyFromPlain.
--   Socks/Server internal/socks5.go: socks5Handshake, socks5ReadRequest, readAddrPort, socks5Reply,
--                and handleConnect up to the tunnel.
--   Udp/Session  internal/outline_udp_session.go: Subscribe, Unsubscribe, Close and readLoop. The map and
--                a store of channels are shared, and a step is one critical section: readLoop takes two
--                for a packet. Session/Keys has addrKeyFromHostPort against parseAddrKeyFromPlain.
--                Session/Lookups is the map of subscriptions before and behind a call.
--   Udp/Association internal/outline_udp.go: a round of readFromClientLoop and of readFromUpstreamLoop.
--   Outline/Conn internal/outline_tcp.go: WSStreamConn, as a source of bytes over the messages of the
--                connection; internal/ws_packet_conn.go: WSPacketConn.
--   Outline/Relay internal/outline_tcp.go: ProxyTCPOverOutlineWS; internal/outline_tcp_common.go:
--                newSSTCPConn; internal/outline_dial.go: DialOutlineTCP.
--   Probe/Dns    internal/active_probe.go: buildDNSQuery, and the loop of ProbeUDPQuality.
--   Probe/Tcp    internal/active_probe.go: ProbeTCPQuality over the interface Common/Source, which
--                WSStreamConn fills.
--   Tun/Ports    internal/tun_udp_porttable.go: getOrCreate and gcOnce, as stages between critical
--                sections; Ports/Ownership and Ports/Unique run their interleavings.
--   Tun/Flows    internal/tun_native.go: the critical sections of tunHandleUDP on the flows of a source
--                port; internal/tun_udp_porttable.go: their pruning by gcOnce. They call Udp/Session.
--   Config       internal/config.go: the defaults of LoadConfig, which Defaults/Health follows into the
--                health checks of Lb, and normalizeHostPort.
--   Common       shared names, lists and numbers, Go's error values, signed integers, bit tables,
--                bytes, readers, sources of bytes with io.ReadAtLeast, owners of numbered objects,
--                and float64 as a record of operations and laws.
--
-- Bounds and fuel. The loops of Read run on as many rounds as the stream has bytes, plus one: each
-- frame takes two bytes at least, and so does a DATA frame. The write loop runs on the length of
-- what is left, the line loop of the header decoder on the length of the block. A Write on the
-- HTTP/2 stream runs on one round more than the slice has bytes. The wait for the response headers
-- runs on the bytes of the stream, plus one, and io.ReadAtLeast on the bytes that it wants, plus one.
-- A control stream is read for eight frames and 32 settings, as in the code. The liveness check runs on a
-- number of messages that the theorem quantifies over. Bytes are numbers below 256, a uint64 and an
-- int64 are taken modulo 2 ^ 64 where the code can overflow them. Sums of instants and durations
-- are exact integers, and the thresholds of the health checks are not negative.
--
-- Not modelled: network dials, TLS, QUIC, HTTP/2 transport, ciphers, the network stack of the TUN
-- device, metrics and logging, which are libraries or reports. What the code takes from them is a
-- parameter: the context, crypto/rand, the stream's Write, the Huffman decoder, the texts of
-- addresses, the probes' results, and float64. So are the handshakes of a dial, the HTTP/2 framer
-- and its pipe, the YAML parser, and net.SplitHostPort and net.ParseIP. Also left out are
-- the drainer of the HTTP/3 connection, the pumps of the TUN device, the copies of a relay, the dial
-- of the UDP association, and the schedules of the health checks and of the warm standby.
pub mod Common
pub mod Ws
pub mod H3
pub mod Lb
pub mod Socks
pub mod Standby
pub mod Udp
pub mod Config
pub mod Tun
pub mod Probe
pub mod Outline

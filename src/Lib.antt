-- ===== src/Lib.antt =====
-- Verification of pure-webrtc-transport, a WebRTC transport in Python: RTP and RTCP packets, the router
-- that gives them to receivers and senders, and the receiver's statistics.
--
-- The parts and their files:
-- - Base: the shared names. Lists and tests over the native numbers (Lists, Tests), signed integers
--   (Int), shifts and masks (Bits), the outcome of a call as a value or an exception (Result), and
--   Python's dictionaries and sets (Dict).
-- - Struct and Text: the formats of Python's `struct` module and the codecs ascii and utf8 that the
--   code calls, as far as it uses them.
-- - Utils: transport/utils.py, the arithmetic of sequence numbers and the timestamp unwrapper.
-- - Rtp: the RTP part of transport/rtp.py. Rtp.Extensions is `pack_header_extensions` and
--   `unpack_header_extensions`, Rtp.ExtensionsMap the class `HeaderExtensionsMap` (its object is the
--   record of ids), Rtp.Packet the class `RtpPacket` with `unwrap_rtx` and `wrap_rtx`.
-- - Rtcp: the RTCP part of transport/rtp.py. Rtcp.Types holds the classes as one data type,
--   Rtcp.Report the reports, Rtcp.Sdes the source descriptions, Rtcp.Nack the lists of lost packets,
--   Rtcp.Remb the bitrate estimate, Rtcp.Twcc the transport-wide feedback, and Rtcp.Compound the bytes of
--   each class and `RtcpPacket.parse`.
-- - Dtls.Router: `RtpRouter` of transport/rtcdtlstransport.py, its tables as dictionaries and its
--   receivers and senders as numbers.
-- - Dtls.Transport: `RTCDtlsTransport` of the same file. Dtls.Action is a method that can raise and
--   leaves its object changed; Dtls.Transport.Receive is `_recv_next` and what it calls,
--   Dtls.Transport.Handshake `start`, and Dtls.Transport.Pump `__run`, `stop` and what is sent. The record
--   Library stands for OpenSSL, ICE, SRTP, the clock and the handlers that packets are handed to.
-- - Receiver: `StreamStatistics`, `TimestampMapper` and the handler `_handle_rtp_packet` of
--   transport/rtcrtpreceiver.py.
-- - Sender: transport/rtcrtpsender.py, the loop body of `_run_rtp` up to the bytes and the history that
--   feedback is looked up in. Sender.Retransmit is `_retransmit`, with the extensions as shared objects.
-- - Policy: policy/cc.py, the congestion control of the send side. Policy.RateCounter is the class of
--   that name, its buckets as a list; Policy.InterArrival is `InterArrivalMillisecond`, Policy.Aimd
--   `AimdRateControl`, Policy.Trendline `TrendlineEstimator`, and Policy.SendSide
--   `SendSideDelayBasedBitrateEstimator`, which calls the four. Policy.Float is the record of Python's
--   floating point operations that they take as a parameter, and Policy.Pacer policy/pacer.py.
-- - Peer.Signaling: transport/rtcpeerconnection.py, the signaling of `RTCPeerConnection`: which descriptions
--   it takes and keeps. Peer.Codecs: `find_common_codecs` of the same file, the choice of codecs; a
--   codec is a record of the values that the choice reads or keeps, its payload type a number.
--   Peer.States: the states of the connection, of ICE and of gathering, which sum up the transports'; the
--   events are kept in a list.
-- - Ice: transport/rtcicetransport.py, the states of `RTCIceTransport`, as steps between its awaits.
-- - Vpx: content/vpx.py, the VP8 and VP9 payload descriptors.
-- A datagram goes through Rtp.Packet or Rtcp.Compound, whose packets the router gives to a receiver,
-- where Receiver.Statistics counts them, or to a sender.
--
-- The handshake and the data pump go on for as long as their peer does, so that they run on any amount
-- of fuel, and a run that is out of fuel is one that waits.
--
-- A byte string is a list of numbers below 256, a position in it is the list of the bytes that are
-- left, and an exception is a value. Random bytes and the clock are arguments. Loops over bytes run on
-- as many rounds as there are bytes, since each round takes at least one; the theorems on termination
-- and the round trips show that these are enough. The scaling loop of `pack_remb_fci` runs on the
-- bitrate, which it halves.
--
-- Not modelled: what asyncio tasks interleave within a method, but for Ice; DTLS, SRTP and the checks of
-- ICE, which are calls of other libraries; the reports of sender and receiver, the receive side of
-- policy/cc.py, which nothing calls, the priority pacer, the filter of layers, the session description,
-- and the peer connection beyond its signaling, its choice of codecs and its states. The rate of a
-- counter is exact while its window holds less than 5.6e11 bytes; the state that an exception leaves
-- behind in policy/cc.py is not kept.
pub mod Base
pub mod Utils
pub mod Struct
pub mod Text
pub mod Rtp
pub mod Rtcp
pub mod Dtls
pub mod Receiver
pub mod Vpx
pub mod Policy
pub mod Peer
pub mod Ice
pub mod Sender

-- ===== src/Wire/PeerLaws.antt =====
-- Every history of an `RpcPeer` of apps/broker/src/wire.ts: the limits on inbound requests, and the
-- settlement of outbound ones.
use tabgrant.Protocol.Platform.{Platform}
use tabgrant.Wire.Peer.{Peer}

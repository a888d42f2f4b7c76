-- ===== src/Grpc.antt =====
-- The gRPC service between the web application and the daemon: the daemon's side is
-- backend/stakepoold/rpc/rpcserver/server.go with `grpcCommandQueueHandler` of
-- backend/stakepoold/server.go, the other is stakepooldclient/stakepooldclient.go.
pub mod Messages
pub mod Server
pub mod Client
pub mod Reload
mod Tests

-- ===== src/Rock/Sockets.antt =====
-- `RockMessageDecoder` on a `Socket` over Winsock.
use sylar_windows.ByteArray.State.{ByteArray}
use sylar_windows.Rock.Message.{Message}

-- ===== src/Box/Exchange/Ended.antt =====
-- MP2: a sync of the client's whole tree, performed with the server, to its end.
use sp.Box.Posix.{Posix}
use sp.Box.Server.{Server}
use sp.Box.Exchange.Run.{Client}

-- ===== src/HostIp/Candidates.antt =====
-- The candidates of em_gethostip in src/sock_common.c fit their array, and one of them, or the loopback address, is
-- the result.
use emlib.SockAddr.{SockAddr}

-- ===== src/Syntax.antt =====
-- What the program uses of packages strconv and net on texts: decimal numbers, host:port pairs.
pub mod Decimal
pub mod HostPort
pub mod RoundTrip

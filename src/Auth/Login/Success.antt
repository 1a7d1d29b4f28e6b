-- ===== src/Auth/Login/Success.antt =====
-- What a login that succeeds means.
use Prim.Native.String.{String}

-- ===== src/Service/Estimate/Examples.antt =====
-- A bundler's answer that fits.
use tornado_4337_relayer.Service.{Fetched, body, rpc_result, object, number}
use tornado_4337_relayer.Service.Estimate.Fits.{Fits}

abbrev answer : Fetched
answer = body (rpc_result (object (λ field. number 2)))

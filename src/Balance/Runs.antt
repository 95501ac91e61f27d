-- ===== src/Balance/Runs.antt =====
-- Runs of the codecs on a concrete balance.
use smaran.Prelude.{◌≡◌, some, arith}
use smaran.Balance.{CurrentBalance, HistoricalBalance}
use smaran.Balance.{marshal_historical, unmarshal_historical}
use smaran.Balance.RoundTrip.{Fits, unmarshal-marshal_historical}

abbrev paid : CurrentBalance
paid = record { version = 3; balance = 70000; start_block = 19000000 }

abbrev ended : HistoricalBalance
ended = record { current = paid; end_block = 19000777 }

paid-Fits : Fits paid
paid-Fits = record {
  version_fits = omega arith;
  balance_fits = omega arith;
  start_fits = omega arith;
}

unmarshal-marshal_historical_example : unmarshal_historical (marshal_historical ended) ≡ some ended
unmarshal-marshal_historical_example = unmarshal-marshal_historical ended paid-Fits (omega arith)

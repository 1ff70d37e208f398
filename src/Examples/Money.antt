-- ===== src/Examples/Money.antt =====
-- The theorems on payments, at an example order.
use fast_api.Base.{some}
use fast_api.Payments.{PaymentIntent}

abbrev charge : PaymentIntent
charge = record { id = 4; order_id = some 1; amount_received = some 500; amount = some 500 }

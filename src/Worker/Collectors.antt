-- ===== src/Worker/Collectors.antt =====
-- services/order-worker/consumer/metrics.go: the collectors of the worker.
use ticketer.Base.{List, [], ◌∷◌}
use ticketer.Platform.Action.{Metrics}
use ticketer.Platform.Collectors.{Collector, counter, histogram, default_buckets, bounds}

-- What NewMetrics registers, in the order of the fields.
abbrev pub collectors : List Collector
collectors =
    record {
      name = "orders_processed_total";
      help = "Total orders processed by status (confirmed, retry, dlq, duplicate, poison)";
      kind = counter;
      labels = "status" ∷ [];
    }
    ∷ record {
      name = "order_processing_duration_seconds";
      help = "Duration of order processing in seconds";
      kind = histogram default_buckets;
      labels = [];
    }
    ∷ record {
      name = "payment_simulation_duration_seconds";
      help = "Duration of payment simulation in seconds";
      kind = histogram (bounds (500 ∷ 1000 ∷ 2000 ∷ 3000 ∷ 5000 ∷ 7500 ∷ 10000 ∷ []));
      labels = [];
    }
    ∷ record {
      name = "dlq_messages_total";
      help = "Total messages sent to the Dead Letter Queue";
      kind = counter;
      labels = [];
    }
    ∷ record {
      name = "compensation_operations_total";
      help = "Total compensation operations performed (ticket releases)";
      kind = counter;
      labels = [];
    }
    ∷ []

-- NewMetrics, whose collectors start at zero
abbrev pub new_metrics : Metrics
new_metrics = record {
  orders_processed = [];
  processing_observed = 0;
  payment_observed = 0;
  dlq_messages = 0;
  compensation_ops = 0;
}

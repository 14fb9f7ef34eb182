-- ===== src/Gateway/Middleware/Collectors.antt =====
-- services/api-gateway/middleware/metrics.go: the collectors of the gateway.
use ticketer.Base.{List, [], ◌∷◌}
use ticketer.Platform.Collectors.{Collector, counter, gauge, histogram, default_buckets, bounds}

abbrev pub booking_requests_total : Collector
booking_requests_total = record {
  name = "booking_requests_total";
  help = "Total number of booking requests by status";
  kind = counter;
  labels = "status" ∷ [];
}

abbrev pub booking_request_duration : Collector
booking_request_duration = record {
  name = "booking_request_duration_seconds";
  help = "Duration of booking requests in seconds";
  kind = histogram default_buckets;
  labels = "method" ∷ "path" ∷ "status_code" ∷ [];
}

abbrev pub redis_gatekeeper_duration : Collector
redis_gatekeeper_duration = record {
  name = "redis_gatekeeper_duration_seconds";
  help = "Duration of Redis gatekeeper operations in seconds";
  kind = histogram (bounds (1 ∷ 5 ∷ 10 ∷ 50 ∷ 100 ∷ 500 ∷ 1000 ∷ []));
  labels = [];
}

abbrev pub kafka_publish_duration : Collector
kafka_publish_duration = record {
  name = "kafka_publish_duration_seconds";
  help = "Duration of Kafka publish operations in seconds";
  kind = histogram (bounds (10 ∷ 50 ∷ 100 ∷ 500 ∷ 1000 ∷ 5000 ∷ 10000 ∷ []));
  labels = [];
}

abbrev pub websocket_connections_active : Collector
websocket_connections_active = record {
  name = "websocket_connections_active";
  help = "Number of active WebSocket connections";
  kind = gauge;
  labels = [];
}

abbrev pub redis_inventory_current : Collector
redis_inventory_current = record {
  name = "redis_inventory_current";
  help = "Current ticket inventory in Redis";
  kind = gauge;
  labels = [];
}

abbrev pub http_requests_in_flight : Collector
http_requests_in_flight = record {
  name = "http_requests_in_flight";
  help = "Number of HTTP requests currently being processed";
  kind = gauge;
  labels = [];
}

-- What the package registers, in the order of the code.
abbrev pub collectors : List Collector
collectors =
    booking_requests_total ∷ booking_request_duration ∷ redis_gatekeeper_duration
    ∷ kafka_publish_duration ∷ websocket_connections_active ∷ redis_inventory_current
    ∷ http_requests_in_flight ∷ []

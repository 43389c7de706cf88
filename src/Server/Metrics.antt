-- ===== src/Server/Metrics.antt =====
-- src/metrics.rs: the zeroed counters and the text for Prometheus.
use ferrium.Common.{ℕ, ◌-◌, ◌^◌, if◌then◌else◌, ltb, List, [], ◌∷◌, ◌++◌, Bytes, bytes, length}
use ferrium.Protocol.Decimal.{ℤ, pos, negsuc, decimal, to_string}
use ferrium.Protocol.Resp.{crlf}
use ferrium.Server.{MetricsInner}

abbrev pub new : MetricsInner
new = record {
  gets_total = 0;
  sets_total = 0;
  dels_total = 0;
  not_leader_total = 0;
  elections_won_total = 0;
  current_term = 0;
  is_leader = 0;
  commit_index = 0;
  log_len = 0;
}

-- `as i64` of a u64.
unfoldable pub as_i64 : ℕ → ℤ
as_i64 n = if ltb n (2 ^ 63) then pos n else negsuc (2 ^ 64 - n - 1)

-- `# TYPE {name} {kind}\n{name} {value}\n`
unfoldable pub series : Bytes → Bytes → Bytes → Bytes
series kind name value =
    bytes "# TYPE " ++ name ++ bytes " " ++ kind ++ 10 ∷ name ++ bytes " " ++ value ++ 10 ∷ []

unfoldable pub counters : List (Bytes × ℕ) → Bytes
counters [] = []
counters ((name, value) ∷ rest) = series (bytes "counter") name (decimal value) ++ counters rest

unfoldable pub gauges : List (Bytes × ℤ) → Bytes
gauges [] = []
gauges ((name, value) ∷ rest) = series (bytes "gauge") name (to_string value) ++ gauges rest

unfoldable pub render : MetricsInner → Bytes
render m =
    counters (
      (bytes "ferrium_gets_total", m.gets_total)
      ∷ (bytes "ferrium_sets_total", m.sets_total)
      ∷ (bytes "ferrium_dels_total", m.dels_total)
      ∷ (bytes "ferrium_not_leader_total", m.not_leader_total)
      ∷ (bytes "ferrium_elections_won_total", m.elections_won_total)
      ∷ [])
    ++ gauges (
        (bytes "ferrium_current_term", as_i64 m.current_term)
        ∷ (bytes "ferrium_is_leader", pos m.is_leader)
        ∷ (bytes "ferrium_commit_index", as_i64 m.commit_index)
        ∷ (bytes "ferrium_log_entries", as_i64 m.log_len)
        ∷ [])

-- What `serve_metrics` writes on each connection.
unfoldable pub response : MetricsInner → Bytes
response m =
    let body = render m in
    bytes "HTTP/1.1 200 OK"
    ++ crlf
    ++ bytes "Content-Type: text/plain; version=0.0.4"
    ++ crlf
    ++ bytes "Content-Length: "
    ++ decimal (length body)
    ++ crlf
    ++ bytes "Connection: close"
    ++ crlf
    ++ crlf
    ++ body

-- ===== src/Replication/TcpTransport/Client.antt =====
-- core/internal/replication/tcp_transport.go: `Fetch` and `Ack` of the transport, with the request that
-- they send. The network is a parameter: the dialling of an address, and the exchange of a line for the
-- answer up to its newline.
use distributed_real_time_ev.Base.{
  ℕ, ◌+◌, ◌%◌, ℤ, pos, leb_ℤ, String, ◌==◌, string_comparable, Option, none, some, if◌then◌else◌,
}
use distributed_real_time_ev.Base.Text.{◌⧺◌, itoa, trim_space}
use distributed_real_time_ev.Replication.Worker.{FetchResult, Fetched, received, failed, Transport}
use distributed_real_time_ev.Replication.TcpTransport.{
  Payload, payload, refused, parse_ok_payload, parse_fetch,
}

pub record TcpTransport : Type 0 where
  pub leader_addr : String
  pub timeout : ℤ
  pub seq : ℕ

unfoldable pub new_tcp_transport : String → ℤ → TcpTransport
new_tcp_transport leader_addr timeout = record {
  leader_addr = leader_addr;
  timeout = if leb_ℤ timeout (pos 0) then pos 3000000000 else timeout;
  seq = 0;
}

-- A line, or the text of an error.
pub data Line : Type 0 where
  text : String → Line
  broken : String → Line

-- What the client calls of package net: the error of a dial, and the line that answers a line.
pub record Wire (Net : Type 0) : Type 0 where
  pub dial : String → ℤ → Net → Option String × Net
  pub exchange : String → ℤ → String → Net → Line × Net

-- V1|%s|%s|%s
unfoldable pub request_line : ℕ → String → String → String
request_line seq command args =
    "V1" ⧺ String.◌∷◌ "|" (itoa (pos seq) ⧺ String.◌∷◌ "|" (command ⧺ String.◌∷◌ "|" (args ⧺ "\n")))

unfoldable pub fetch_text : String → ℤ → ℤ → ℤ → ℤ → String
fetch_text topic partition follower offset max =
    topic
    ⧺ String.◌∷◌ " " (
        itoa partition
        ⧺ String.◌∷◌ " " (itoa follower ⧺ String.◌∷◌ " " (itoa offset ⧺ String.◌∷◌ " " (itoa max))))

unfoldable pub ack_text : String → ℤ → ℤ → ℤ → String
ack_text topic partition follower offset =
    topic
    ⧺ String.◌∷◌ " "
        (itoa partition ⧺ String.◌∷◌ " " (itoa follower ⧺ String.◌∷◌ " " (itoa offset)))

-- The error of a text that `Fetch` does not take apart; what it says is left open.
abbrev pub fetched_text : Option FetchResult → Fetched
fetched_text none = failed "malformed payload"
fetched_text (some result) = received result

abbrev pub read_fetch : Payload → Fetched
read_fetch (refused err) = failed err
read_fetch (payload p) = fetched_text (parse_fetch p)

abbrev pub fetched_line : Line → Fetched
fetched_line (broken err) = failed err
fetched_line (text line) = read_fetch (parse_ok_payload line)

abbrev pub read_ack : Payload → Option String
read_ack (refused err) = some err
read_ack (payload p) = none

abbrev pub acked_line : Line → Option String
acked_line (broken err) = some err
acked_line (text line) = read_ack (parse_ok_payload line)

-- strings.TrimSpace of the answer.
abbrev pub trimmed : Line → Line
trimmed (broken err) = broken err
trimmed (text line) = text (trim_space line)

module _ {Net : Type 0} (wire : Wire Net) where
  -- `send` once it has dialled: atomic.AddUint64, and the exchange.
  unfoldable pub sent_on :
      String → String → TcpTransport × Net → Option String → Line × (TcpTransport × Net)
  sent_on command args (t, net) (some err) = (broken err, (t, net))
  sent_on command args (t, net) none =
      let seq = (t.seq + 1) % 18446744073709551616 in
      let (line, net') =
        wire.exchange t.leader_addr t.timeout (request_line seq command args) net in
      (trimmed line, (record t { seq = seq }, net'))

  unfoldable pub send : String → String → TcpTransport × Net → Line × (TcpTransport × Net)
  send command args (t, net) =
      let (err, net') = wire.dial t.leader_addr t.timeout net in
      let rest = sent_on command args (t, net') err in
      if t.leader_addr == "" then (broken "leader address is required", (t, net)) else rest

  unfoldable pub fetch :
      String → ℤ → ℤ → ℤ → ℤ → TcpTransport × Net → Fetched × (TcpTransport × Net)
  fetch topic partition follower offset max w =
      let max' = if leb_ℤ max (pos 0) then pos 100 else max in
      let (line, w') = send "BROKER_FETCH" (fetch_text topic partition follower offset max') w in
      (fetched_line line, w')

  unfoldable pub ack :
      String → ℤ → ℤ → ℤ → TcpTransport × Net → Option String × (TcpTransport × Net)
  ack topic partition follower offset w =
      let (line, w') = send "BROKER_REPLICA_ACK" (ack_text topic partition follower offset) w in
      (acked_line line, w')

  -- The transport as the worker takes it.
  abbrev pub tcp : Transport (TcpTransport × Net)
  tcp = record { fetch = fetch; ack = ack }

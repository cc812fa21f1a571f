-- ===== src/Lib.antt =====
-- A model of the Flux broker, the event streaming server under core/ of this repository, and proofs
-- about it. The broker keeps partition logs on disk (core/internal/storage), tracks the followers
-- of each partition (core/internal/replication), assigns partitions to consumer groups and keeps
-- their offsets (core/internal/coordinator), owns the cluster's metadata
-- (core/internal/controlplane), and serves all of it over a line protocol
-- (core/internal/protocol, core/internal/network); core/internal/broker wires the parts and runs
-- the follower's replication.
--
-- Base and its children hold what the parts share: Base.Int has Go's 64-bit integers (`int64` is
-- the wrap-around, written where the source adds or subtracts), Base.Map its maps as association
-- lists, Base.Clock its times and durations. A method of the source is a function that takes the
-- state and returns the new one; each call of `time.Now` is an argument; an error is an `Option` or
-- a result type; a mutex that is held for the whole of a method makes the method one step.
--
-- Replication.Partition is the state of one partition and `recomputeLocked`, Replication.Manager
-- the methods of `Manager` (core/internal/replication/manager.go), Replication.Manager.Calls those
-- methods as one step function, and Replication.Manager.AckAll the polling loop of
-- `WaitForAckAll`, over a schedule of what the other goroutines do between its rounds: the loop
-- recurs on the schedule, and its result is `none` when the schedule ends first.
-- Replication.TcpTransport is what the follower reads in the leader's responses
-- (core/internal/replication/tcp_transport.go), and Replication.TcpTransport.Client its `Fetch` and
-- `Ack`, with what they call of package net as a parameter: a dial, and the exchange of one line for
-- the answer. Protocol is core/internal/protocol/protocol.go, with Go's unicode.ToUpper as a parameter.
-- Replication.Worker is the follower's loop (core/internal/replication/worker.go) over an abstract
-- connection and store.
--
-- Coordinator.State, Coordinator.Assign and Coordinator.Group are consumer groups
-- (core/internal/coordinator/group.go): the state with its file, the two assignors, and the methods
-- of `GroupManager`. groups.json holds what was last encoded, or is absent or corrupt, and the
-- operating system's answers to the saves are a list. Coordinator.Group.Runs has the methods as one
-- step function.
--
-- ControlPlane.Metadata, ControlPlane.Store and ControlPlane.Controller are core/internal/controlplane:
-- the cluster's metadata, the store that applies commands to it, and the controller on that store,
-- whose methods ControlPlane.Controller.Runs makes the steps of a run. Loops over a map go through
-- its sorted keys, as in the source.
--
-- Coordinator.Offsets is core/internal/coordinator/offset.go in the same way, with offsets.json.
--
-- Storage and its children are core/internal/storage/storage.go. A text is a list of characters, as
-- valid UTF-8 is; Base.Text has the functions of Go's packages strings and strconv that the source
-- calls. Storage.World has the files of the data directory by their names in it, the file system's
-- answers to the calls that may fail (done, refused, or a write cut off), and the clock.
-- Storage.Record is the line of a record and the scanner that reads a segment, Storage.Names the
-- names of the files, Storage.State the state, whose maps from topics to maps from partitions are
-- maps from pairs, Storage.Retention the loading and deleting of segments, Storage.Log the appends
-- and the reads, and Storage.Loading the recovery at the start. The checksum of a value and the hash
-- of a key, of Go's packages hash/crc32 and hash/fnv, are parameters. Where the source goes through
-- a map in no fixed order, the model goes through the list of its keys. The loops of retention recur
-- on the list of the segments that are left.
--
-- Config is core/internal/config/config.go: `Load` over an environment, a function from the names of
-- variables to texts, where a variable that is not set has the empty text.
--
-- Broker holds the parts together (core/internal/broker/broker.go). `Action` is a small monad: a call
-- takes the broker and ends with a value and the broker after it, with an early answer of a code and
-- a message, with a panic, or, for the wait of acks=all, with a schedule that is used up. Its clock is
-- that of the storage's world. Broker.Start is `NewBroker`, Broker.Topics `EnsureTopicMetadata`, and
-- Broker.Runtime and Broker.Runtime.Workers the two ticks of core/internal/broker/cluster_runtime.go,
-- which one goroutine runs one at a time: the roles that follow the metadata, and a step of every
-- follower worker with the failover after ten failures. The network is a parameter, a transport to
-- each address.
--
-- Network and its children are core/internal/network/handler.go: a handler is an action that gives the
-- payload of a success, `respond` prints the answers, `handle_request` is the switch over the commands,
-- `serve_line` one turn of the loop over a connection. A handler runs whole: the calls that it makes on
-- the parts, each a step under its own mutex, are not interleaved with those of other requests, but for
-- the rounds of the wait of acks=all. Process is `main` of core/cmd/broker/main.go, which takes the lines
-- of all connections and the ticks of the runtime in any order. Broker.Keeping and Network.Keeping have
-- the rules for the invariants of the parts, call by call; Network.Replicating connects a follower's
-- transport to a leader's handlers, where the text of a request has no limit, and
-- Broker.Runtime.Copying joins the worker's step with the broker's own storage.
--
-- Not modelled: the listener and the connections themselves, the tickers and the stopping of the runtime,
-- with the 64 KB that the scanner of a connection allows a line, and the clients in other languages. Making
-- room for the records of a fetch is taken to succeed.
--
-- Logging is left out everywhere: it changes no state that the program reads.
pub mod Base
pub mod Replication
pub mod Coordinator
pub mod ControlPlane
pub mod Storage
pub mod Protocol
pub mod Config
pub mod Broker
pub mod Network
pub mod Process

-- ===== src/Lib.antt =====
-- The uplink service of an electric scooter: it collects the vehicle's state from Redis, reports
-- it to a cloud server, detects events and executes remote commands.
--
-- Prelude and GoMap hold what the modules share: tests on native numbers, the functions of Go's
-- package strings, strconv.Atoi, and Go's map as an association list whose order stands for the
-- order of iteration.
-- Timeutil (internal/timeutil/clock.go): time stamps before and after the clock is trusted; instants
-- and durations are whole nanoseconds, the float64 of the offsets a parameter.
-- Telemetry.Env: float64, strconv and fmt as parameters; a snapshot as a map of sections.
-- Telemetry.Delta and Telemetry.Publisher (internal/telemetry/delta.go): flattenState, diffFlat
-- and nestFlat are flatten_state, diff_flat and nest_flat; Publish is publish, with the sink's
-- answers as an argument and the message that was accepted as a result.
-- Telemetry.Buffer (internal/telemetry/buffer.go): Add, Flush, persistLocked and load are add,
-- flush, persist_locked and load, over a store with the contents of the Redis key and of the
-- file.
-- Telemetry.Collector (internal/telemetry/collector.go): which fields leave the vehicle.
-- Telemetry.Monitor (internal/telemetry/monitor.go): handleFieldChange, armLocked and onDeadline;
-- a timer is the time at which it fires.
-- Telemetry.Events (internal/telemetry/events.go): one definition for each handler, which returns
-- the new last values and the event; Telemetry.EventBuffer models the queue file of the same
-- source, with how far bufferEvent gets and what a flush meets as arguments.
-- Connection.State, Sends, Loops, Live and Lifecycle (internal/connection/manager.go and
-- live.go): SendState and its companions, readLoop, writeLoop, authenticate, markConnected,
-- markDisconnected, getRetryDelay, PublishLive, takeLive and writeLive keep their names in this
-- development's spelling; PublishLive is publish_locked and then wake_live. A channel is the list of what it holds, a socket a number, and a
-- closure that authorizes a frame a number whose answers are an argument. Lifecycle.Step is the
-- relation of the states of connectionLoop, in which callers and loops take turns.
-- Commands (internal/commands): Gate models executeCommand, the table of dispatch and
-- sendResponse of handler.go, with what a handler returns as an argument, and Names reads the name
-- of a command off its handler; Redis models
-- redisCommand, Routes models navigate with buildWaypoints and firstNumber, Locate models locate
-- and beep, and Alarm models alarmPulse with startAlarm, clearAlarm and stopAlarm, all of
-- scooter.go; Keycards models keycardCommand and its result channel of keycard_handlers.go, and
-- Updates models update_handlers.go.
--
-- Config (internal/config/reflect.go and internal/commands/config_handlers.go): resolvePath,
-- assignScalar, SetField, GetField, DeleteField and ApplyDeltas over a tree of values, as
-- reflection sees them.
-- RideGroup (internal/ridegroup), version 2 of the protocol, which is the default: State has the
-- messages of protocol_v2.go (State.Messages) and the fields of Adapter. Authority holds
-- grantCurrentV2Locked and its companions; Egress the pending MQTT publications and the queue to
-- Redis of egress.go, with mqttPublicationAuthorizedLocked in Egress.Authorization; Delivery the
-- last check of ipc_v2.go; Lease, Probes, Stops, Snapshots, Answers, Controls and Peers the
-- functions of protocol_v2_adapter.go under their names in this development's spelling, without
-- the suffixes V2 and Locked; Source those of gps_v2.go; Link and Dispatch those of adapter.go.
-- Inputs.step is the reaction to one input and Inputs.run to a list of them. The other modules of
-- RideGroup hold proofs: Same and Core are what an operation leaves as it is, Consent the guard
-- of the grant, Kept the grant itself, Replay the streams of the peers, and Applied the attempts
-- to stop.
--
-- Telemetry's publisher and buffer hand their messages to Connection's Send functions, whose
-- answers (connected, accepted) are arguments of publish and flush; the commands of Commands come
-- from the command channel that readLoop fills, and their responses go to SendCommandResponse.
-- The adapter of RideGroup publishes over the live frames of Connection; it takes snapshots,
-- activities and reports of the receiver from Redis, controls and peers from the server.
--
-- Loops over slices and maps recur on the list, so there is no fuel but in
-- RideGroup.Controls.evict, which gets as many steps as there are challenges: each step deletes
-- one. A goroutine's endless loop is modelled by its iteration, as a function of the state and of
-- what it receives. JSON is a parameter; where the code reads back what it wrote, with the law
-- that decoding undoes encoding. Go's int is taken as 64 bits wide, and the counters wrap around
-- there. The delay between two attempts is a natural number of nanoseconds, so a configured
-- maximum is not negative. In RideGroup a time is a natural number of nanoseconds and the zero
-- time is none; a handler reads the clock, the state of the client and a new identifier once,
-- from its argument Now, and the lock it holds makes it one step. The field consumed of a probe
-- and of a permit is left out, since the code sets it only where it also drops them from the
-- state.
--
-- Not modelled: version 1 of the ride-group protocol, the parsers and encoders of both versions
-- and the estimator of the motion (arguments of the definitions), the files and the defaults of
-- the configuration (internal/config/config.go, but for CommandDisabled and IsDevelopment; Save
-- and RawYAML of reflect.go), the modem and board identities, the remaining command handlers, log
-- lines and statistics texts, and the clients of Redis, NTP and the web socket, whose answers are
-- arguments.
pub mod Prelude
pub mod GoMap
pub mod Timeutil
pub mod Telemetry
pub mod Config
pub mod Connection
pub mod Commands
pub mod RideGroup
pub mod Tests

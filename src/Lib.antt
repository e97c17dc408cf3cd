-- ===== src/Lib.antt =====
-- Verification of wmq, a service that takes messages by HTTP, hands them to RabbitMQ and delivers
-- them to the URLs of their consumers.
--
-- The program is one Go package. api.go serves the management requests and the publishing of
-- messages. message.go keeps the list `messages`, each message with its consumers, and changes it
-- under `msgLock`; a message is an exchange of RabbitMQ and a consumer is a queue bound to it. The
-- calls of RabbitMQ are in mq.go, on channels from a pool (pool.go), which are made on connections
-- from another pool. One goroutine of message.go, the consumer manager, takes the commands `update`,
-- `delete` and `status`; it starts a goroutine for each consumer, and all of them share a map of 32
-- shards (map.go).
--
-- The files:
--   * Common: texts as lists of bytes, Go's results with an error, list and dictionary lemmas.
--   * ConcurrentMap: map.go. A shard is an association list and the map the list of its shards; an
--     operation on a key holds one lock, so it is a function. ConcurrentMap/Invariant has the
--     well-formedness, Refinement the specification by one map, and Iteration the output of the
--     goroutines of `IterBuffered` as a relation, for a map that is not changed meanwhile. Iteration/Goroutines
--     has these goroutines step by step, with the channels' capacities, the closes and the wait group.
--   * Pool: pool.go, over the callbacks `Factory`, `IsActive` and `Release`, which act on a world of
--     any type. The channel of connections is a list with its capacity.
--   * Mq: mq.go. The two pools and the calls of RabbitMQ, over the client library as a parameter:
--     the record `Amqp`, with the state of broker and network as a type of its own.
--   * Registry: message.go, the searches and the operations on the messages, over the calls of mq.go
--     and the manager's answers as the record `Backend`. An operation that fails keeps what was done
--     before. Registry/Broker fills the record with the calls of Mq, and
--     Registry/Directory is the specification of the operations by a directory of the messages.
--   * Manager: `initConsumerManager` of message.go, as a step relation in which every access to the
--     shared map and to a channel is a step. The steps that connect a goroutine to RabbitMQ are one
--     step, which may fail; a `delete` or `status` of an unknown consumer changes nothing and is no
--     step. Manager/Connect is that one step in full, over the calls of Mq; Manager/Consume is
--     the loop over the deliveries, with `process` of Delivery; Manager/Goroutine joins the two to
--     the whole goroutine, on Mq/Accepted, which has what the calls of Mq keep of a broker. Manager/Channels, Owners and Waiting
--     follow the channels and the goroutines that wait. Orphans, Stuck, Stale with Updates, and Queues, which
--     adds the queues of the broker, and Restarts have what may go wrong; Ends has how a goroutine ends, and Served
--     joins the manager with `initMessages` and Mq.
--   * Api: the handlers of api.go with their guards in order, the answer, and the check of the token.
--     A request runs as one step: the program takes `msgLock` for each call, not for a request. Api/Races
--     splits `apiMessageAdd` at its search, which holds no lock, for requests that cross each other.
--   * Delivery: `process` of message.go, which sends a message to a consumer's URL, and in
--     Delivery/Publishing `apiPublish` of api.go, which makes the text of the message. Base64 is
--     written out in Delivery/Base64, after `StdEncoding` of Go's standard library; the libraries for JSON
--     and HTTP are the records `Json` and `Client`.
--   * Storage: the file of the messages (message.go): `writeMessagesToFile`, `loadMessagesFromFile` and
--     `parseMessages`. What `encoding/json` makes of a message, and a message of it, are functions on
--     trees, in Storage/Values; the library gabs, which prints and parses the trees, and the file system are parameters.
--     Storage/Restart joins them with the handlers of Api.
--   * Start: wmq.go, `init` and `main`, over the record `Parts`; Start/Config is config.go over the library
--     viper, and Start/Logs is logger.go with `inArray` of utils.go. Start/Reaches has what a start
--     comes to, and Start/Settings what the configuration means for `main` and for `apiPublish`.
--   * Api/Logs: the log routes of api.go, with the paths that they use, and the fields of the access log.
--   * Services: `serveAPI`, `servePublish` and `timeoutFactory` of api.go, from the method and the path of a
--     request to its reply, over the router as a parameter. Services/Reached is about the management
--     service and Services/Names about the publishing one.
--   * Tests: runs on concrete inputs.
--
-- Bounds: numbers are natural numbers. `fnv32` wraps at 32 bits. The numbers that the API stores in
-- `float64` fields go through the conversion of the record `Service`, and `strconv.Atoi` stops at the
-- bounds of a 64-bit `int`. Lengths and counts of connections, messages and calls do not reach the
-- bounds of `int`. The declaring loops of mq.go have two rounds, as `maxRetryCount` says, so no fuel is
-- needed. The loop that prints a number has the number as its fuel; all other loops run over a list.
--
-- Not modelled: log lines, the text of JSON (its trees are), a service that fails to listen, the poster that is
-- printed at the start, `ctxFunc`, and the functions that nothing calls (`value`, `pathExists`,
-- `panicHandler`, `config`). The `float64` fields hold whole numbers; fractions in
-- the file are left out, and so are names of fields that match only by letters outside ASCII, and what is
-- left of the first of two fields `Consumers` of one message. The libraries under vendor are parameters.
pub mod Common
pub mod ConcurrentMap
pub mod Pool
pub mod Mq
pub mod Registry
pub mod Manager
pub mod Delivery
pub mod Api
pub mod Storage
pub mod Services
pub mod Start
pub mod Tests

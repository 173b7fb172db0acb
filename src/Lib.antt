-- ===== src/Lib.antt =====
-- The core of gomud2: a verification library of the zones of a multi-user dungeon, of the store that
-- keeps their events, and of the path finding of its brains.
--
-- A zone (src/github.com/sayotte/gomud2/core/zone.go) keeps actors, locations, exits and objects.
-- Commands reach it one at a time through a channel. `processCommand` hands each to its handler; a
-- handler checks the command, makes events, numbers them and applies each to the zone's memory
-- (`applyEvent`), which also tells observers; the events that the handler returns are then
-- persisted: an event store (store/store.go) appends each to a file, with a header and a body. A zone
-- is loaded again by replaying the events that the store retrieves (`ReplayEvents`), and a snapshot
-- of it spares the older ones. Changes that touch two zones are first written to a log of intents
-- (store/logger.go), which is worked off when it is opened after a crash.
--
-- Which file models what (paths below src/github.com/sayotte/gomud2/core):
--   Base            names, tests, lists, integers and maps that all modules share
--   Core/Data       the structs Actor, Location, Exit, Object, ActorInventory and AttributeSet, and
--                   the interface Container
--   Core/Monad      errors, panics and code that changes state
--   Core/Refs       IndexOf, Remove, Copy and Dedupe of ActorList, ObjectList, ExitList and
--                   ObserverList (actor.go, object.go, exit.go, observer.go)
--   Core/Inventory  the methods of ActorInventory (actorinventory.go)
--   Core/Body       the heap with the fields of Zone, and the setters of location.go, actor.go,
--                   exit.go and object.go
--   Core/Container  the methods of the interface Container over its three implementations
--   Core/Event      the events' structs (event.go and the files of what they are about)
--   Core/Apply      `applyEvent` without its numbering, and one function for each of its handlers
--   Core/Zone       the zone with its sequence number, its observers and its persister: the numbering
--                   of events, `applyEvent`, `ReplayEvents` and the end of `processCommand`
--   Core/Command    the commands' structs (command.go and others)
--   Core/Process    the handlers of the commands, `processX` of zone.go as process_x, doActorDeath of
--                   actor.go, the decisions of combat.go, and `processCommand`
--                   Process/Inversion, Rules, Recorded and Log are about events and their replay;
--                   ExitUpdates, LocationRemoval, Burials and Blows about the handlers of that kind
--   Core/Places     how actors and locations refer to each other: in the steps that appliers are made
--                   of, in events, in commands and in runs of commands
--   Core/Snapshot   `snapshot` of a zone, its depth-first traversal (zone.go, snapshottable.go), and
--                   snapshotDependencies and snapshot of each type
--   Core/Tests      tests and examples on a small zone
-- and, paths below src/github.com/sayotte/gomud2/store:
--   Store/Bytes     encoding/binary and `copy` on byte slices
--   Store/Header    eventHeader (eventheader.go), and the core events with time and zone
--   Store/Actors, Locations, Exits, Objects, Combat
--                   the structs that are written, with FromDomain and ToDomain (actor.go, location.go,
--                   zone.go, exit.go, object.go, combat.go)
--   Store/Structs   the switches over the event types in domainconverter.go, Header and SetHeader
--   Store/Stream    `writeEvent`, `readEvent` and the loop of `retrieveAllFromFile`
--   Store/EventStore  EventStore (store.go) with its file and its snapshots
--   Store/IntentLog, Intents  logger.go: the entries and the reading loop, and the operations
--   Store/Restart   a zone together with the event store
--   Store/Tests     tests and examples
-- and, of src/github.com/sayotte/gomud2/brain/internal/inner/pathfind:
--   Brain/Pathfind  DijkstraFindPath and AStarFindPath (dijkstra.go, astar.go), with the nodes as
--                   numbers
--   Brain/Tests     a search on a small graph
--
-- How the code is modelled. A pointer is an address in a heap of four total maps, nil is `none`, and
-- new cells are taken at `next_ref`. An interface value keeps its dynamic type, so that one around a
-- nil pointer is not nil, as in Go. A UUID is a number and uuid.Nil is 0; NewId draws from a stream of
-- identifiers, which is part of the state. A function returns a value, fails with an error, or
-- panics; an error keeps the changes made before it. A Go map keyed by identifiers is an association
-- list; where the code ranges over a map, the model takes the list's order. Sequence numbers wrap at
-- 2 ^ 64. Attributes and damages are integers without bounds, since nothing in the game comes near
-- those of `int`.
--
-- Recursions over containers in containers and over the dependencies of a snapshot are bounded by
-- `stack`, a field of the state: a recursion that is deeper overflows the stack, which is a panic.
-- The loops that read a file have fuel, which is one more than the length of the file; each turn
-- takes a byte off it at least, and a loop that runs out of fuel has a result of its own. The searches of path finding have fuel: one more than the bound on
-- expansions is enough; A* has no such bound.
--
-- What is a parameter: the persister (store/) is a function from events to an optional error, and
-- what a dice roll came to is an argument of the melee command. In the store, encoding/json,
-- compress/flate and the check of a time's bytes are the fields of a Codec; that json and flate give
-- back what they were given is a hypothesis where it is used. The handler of the intent log is a
-- function that answers whether it succeeded. In path finding the costs, which are float64 values, and
-- container/heap are parameters; what it needs of the heap is that Push puts in the given element and
-- Pop takes out one that the queue has.
--
-- What is not modelled: the goroutine of a zone and its channels, which only put the commands in
-- order; locks; the clock; skills and damage formulas, which work on floats; the commands that a
-- World composes from those of two zones (world.go); failures of the file system; the rest of brain;
-- and the programs around the core: commands, auth, spawnreap, telnet, wsapi and cmd.
mod Base
pub mod Core
pub mod Store
pub mod Brain

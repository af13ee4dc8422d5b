-- ===== src/Lib.antt =====
-- herd: a daemon that gives each session a Firecracker machine of its own, pools the machines, and
-- routes requests to them.
--
-- The parts and how they interact. `Pool` (pool.go) pins a session to one worker: Acquire takes a
-- ticket, asks a factory for a worker and writes it to the registry (registry.go), KillWorker and
-- release undo that, onCrash forgets a worker that died. The factory (firecracker_factory.go) leases
-- a user id (internal/uid/pool.go), a snapshot, an address (internal/network/ipam.go), a network
-- interface and port mappings (internal/network/nat.go, portmgr.go), and undoes what it has done when
-- a step fails. The lifecycle manager (internal/lifecycle) holds a lease for each session and kills
-- what has expired. The controller (internal/daemon/controller.go) ties a session's lease to its
-- worker, and the proxy (proxy/proxy.go) brackets each request by the calls that keep the lease. The
-- controller is reached by the HTTP handlers (internal/daemon/api.go) and by the commands of a cloud
-- service (internal/cloud/client.go), to which it reports what the observer (observer) reads of the host.
-- In each machine an agent (cmd/herd-guest-agent) reads the command line that the factory wrote, mounts
-- the file systems and runs the command that it is sent over a socket (internal/vsock).
--
-- Which file models which part:
--   Pool/State      the records of pool.go, worker.go, options.go and registry.go, the program points of
--                   a goroutine, and the two operations on channels
--   Pool/Acquire    Acquire, wireWorker and GetSession, one function for each critical section or
--                   select: seek, wait, take_ticket, spawn, drop_flight, wire_worker, pin
--   Pool/Teardown   KillWorker, release, onCrash, Stats and Shutdown, in the same way
--   Pool/System     one step of a goroutine, and a pool with all its goroutines under a schedule
--   Pool/Spec       the pool as a map from sessions to idle, claimed or bound to a worker, and what each
--                   goroutine may do to it; Pool/Refinement relates the pool to it
--   Uid/Defs        internal/uid/pool.go: NewPool, Checkout, Return, Available, Capacity
--   Network/Ports   internal/network/portmgr.go: Allocate, Release and isHostPortFree
--   Network/Ipam    internal/network/ipam.go: NewIPAM, Acquire, Release, inc, isBroadcast
--   Network/Nat     internal/network/nat.go: Bootstrap, Teardown, CreatePointToPointTap, DeleteTap,
--                   AddPortMapping, RemovePortMapping and getDefaultInterface
--   Network/Bindings  internal/network/utils.go: SanitizeNetworkBindings and GetInterfaceIP
--   Storage         internal/storage/bootstrap.go: Bootstrap as its steps with the cleanup stack
--                   (Storage/Bootstrap), Teardown (Storage/Teardown) and their helpers; Storage/Host is
--                   what they ask of package os, losetup, dmsetup, blockdev, pkill and containerd;
--                   Storage/Images, Storage/Manager and Storage/Inject are
--                   internal/storage/containerd.go: the references of images, WarmImage, Snapshot,
--                   Teardown, ExtractImageConfig and InjectGuestAgent, with containerd as a parameter
--   Host/Machine    the commands and resources of the host that nat.go and the factory use; the
--                   machine that runs them is a parameter, with the laws that iptables, netlink, the
--                   file system and signals document: a removal may fail, and then takes nothing
--                   away. Host/Sample is one for the tests
--   Firecracker     firecracker_factory.go: Spawn as stages over a frame of its variables, the undo
--                   stack as a list of data, perform and unwind for the deferred loop, and Close
--   Tenant          worker.go: PortMapping and TenantConfig
--   Lifecycle       internal/lifecycle: Register, Remove, UnregisterAndKill, GetSession, ListSessions,
--                   UpdateHeartbeat, BeginRequest, EndRequest and sweep
--   Settings        internal/config/config.go: applyDefaults, Validate, validateDataBind and Load
--   Proxy           proxy/proxy.go: ServeHTTP
--   Daemon          internal/daemon: CreateSession, DeleteSession, the counters and the runtime policy
--                   (Daemon/Defs), the handlers of api.go (Daemon/Api), and the routes of the data plane,
--                   the metrics and the socket of runtime.go (Daemon/Runtime)
--   Cli             cmd/herd: buildPool and runDaemon of start.go up to the servers (Cli/Start), and
--                   runInit of init.go up to the configuration that it writes (Cli/Init) and the
--                   archive that it reads (Cli/Archive)
--   Cloud           internal/cloud/client.go: Start with its fallback and credentials and the files of the
--                   identity (Cloud/Client), commandLoop (Cloud/Commands), the boot of a machine
--                   (Cloud/Boot) and sendTelemetry (Cloud/Heartbeat)
--   Vsock           internal/vsock/dialer.go: DialFirecracker and Execute
--   Guest           cmd/herd-guest-agent/main.go: the mounts (Guest/Mounts), the network
--                   (Guest/Network) and the execution of a command (Guest/Execution), on the kernel of
--                   Guest/Kernel; Guest/BootArgs is the command line that the factory writes
--   Observer        observer/observer_linux.go: the readers of /proc
--   Common          association lists for Go's maps, lists, Go's integers, byte strings and how they are
--                   split, numerals, paths of files, tests
--
-- How the code is read. A method is a function on the state that its receiver holds. The goroutines
-- of the pool are cut where the mutex is dropped or a channel is used; between two cuts nothing else
-- runs, and a schedule is a list of events that each let one goroutine take one step or start a new
-- one. What a step meets from outside (a context that ended, a registry, Spawn or Close that fails) is
-- an argument of the step; a theorem about schedules says which of them it leaves out. The other parts
-- are not interleaved: a method or a handler there is one function from state to state, also where the
-- code takes its mutex more than once or not at all. Strings that the code only compares
-- or uses as keys are numbers, 0 for the empty one where the code tests for it; strings whose
-- characters it reads are lists of bytes. Times are numbers of nanoseconds, ports and user ids are not
-- negative. Durations, the sums of the observer and the counters of telemetry wrap at 64 bits and the
-- numbers of the heartbeat at 32; Go's other signed integers are integers without overflow, and NewPool
-- of the user ids has an answer of its own where its range overflows. The log is left out.
--
-- Bounds and fuel. Every loop is a recursion on its list but two: Acquire of the addresses takes the
-- number of its rounds, for which 65533 are enough on the /16 block that nat.go names, and the loop of
-- the pool's Acquire goes on for as long as the schedule lets it.
--
-- Not modelled: the generated code of internal/proto; the commands of cmd/herd other than start and init,
-- the downloads of init, and the servers, signals and shutdown of the daemon; internal/system
-- and internal/core, which read and set facts of the operating system. Of the guest agent the phases of
-- main, its listeners and the reaping of zombies are left out, of exec the copy between the two
-- connections, and of the cloud client the ticker of its heartbeats. Of Session.Release only the call of
-- release is there, of the ticker of the reaper each of its sweeps, and of the loop that dials the agent
-- its outcome.
mod Common
pub mod Pool
pub mod Uid
pub mod Network
pub mod Storage
pub mod Observer
pub mod Vsock
pub mod Guest
pub mod Tenant
pub mod Lifecycle
pub mod Settings
pub mod Proxy
pub mod Cloud
pub mod Daemon
pub mod Host
pub mod Firecracker
pub mod Cli

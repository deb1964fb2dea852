-- ===== src/Lib.antt =====
-- labctl runs Firecracker microVMs on one host. A command (cmd/) opens the state database
-- (state/), looks up or allocates the row of a VM, and lets a Runner (vm/) drive the host: the
-- chroot, the tap device, the systemd units, the API socket of Firecracker and, over vsock, the
-- agent in the guest. A function of the program is an action here: it takes a world, which is the
-- database and the history of the calls that were made, and returns a result or an error with the
-- world behind it.
--
-- Prelude: names of the library passed on, Boolean tests, Go strings as lists of bytes, decimal
-- digits.
--
-- World: the world and its actions (World/Monad), the calls that leave the program and the host
-- that answers them (World/Calls), the rows of the tables (World/Rows). A host is a record of
-- functions of the history and the call, so that every call may fail at every point. World/Keeps
-- (the database is kept), World/Ends (how an action ends), World/Emits (which calls it makes),
-- World/Total (it gives no error) and World/Clock have the rules by which the proofs step through
-- an action.
--
-- State: state/state.go. State/Vms has AllocateAndInsert (allocate_and_insert), Get, List, Remove,
-- SetPorts and CountVMsUsingImage; State/Images and State/Snapshots have their operations;
-- State/Ports has json.Marshal and json.Unmarshal of the ports column; State/Names has the names
-- of a slot. State/Vms/Registry is the abstract view of the vms table, a VM for some of the ids,
-- with the steps that it may take. State/Migrations has the two migrations, on tables that may
-- lack a column. SQLite is not code of the repository: each statement is a call, which may fail,
-- and what it does to the rows when it does not fail is written out as a function on a list of
-- rows, with the UNIQUE constraints.
--
-- FilePath and Strings: what the program uses of path/filepath and strings.
--
-- Vsock: vm/vsock.go, DialVsock and DialVsockRetry. Agent: vm/status.go; the protobuf encoding is
-- the parameter Codec.
--
-- Runner: vm/vm.go. Runner/Api has bootVM, apiRequest and waitForSocket, Runner/Systemd the three
-- implementations of the interfaces NetworkProvisioner, VMSupervisor (VmSupervisor) and
-- PortForwarder, Runner/Chroot the set-up of a chroot, Runner/Lifecycle Run, Destroy, Snapshot,
-- Restore and the port forwards, Runner/Session AttachConsole and AttachSession. The modules named
-- Unrecorded show that these leave the database alone.
--
-- Cmd: the commands run, restore, destroy, snapshot, snapshot delete (Cmd/Vms), ports (Cmd/Ports),
-- the commands on images (Cmd/Images, with checkExt4 in Cmd/Images/Ext4), list (Cmd/Listing, with
-- formatBytes, whose panic ends the command as an error does), console and vsock (Cmd/Attached)
-- and setup (Cmd/Setup, with its rules as a table in Cmd/Setup/Firewall; Cidr has net.ParseCIDR
-- for IPv4); Cmd/Defaults has the defaults of the flags, Cmd/Tree the tree of commands with their
-- flags, and Cmd/Reachable sequences of commands; in Cmd/Reachable/Interleaved the commands ports
-- add and ports rm are two moves each, a read and a write of the vms table, which may interleave.
--
-- OciImage: ociimage/, with the path of the guest agent in OciImage/Build/Placed. parsePlatform is
-- in OciImage, Builder.Build in OciImage/Build, InjectGuestAgent in OciImage/Inject, PackExt4 in
-- OciImage/Ext4; OciImage/Resources says what a history of calls has left behind: temporary
-- directories and mounts. The registry client and the docker daemon are not code of the
-- repository: they are calls, and the configuration of an image is the parameter config_of.
--
-- Guest: the agent in the guest, guest-agent/src, as actions on a machine of its own, with the
-- guest's kernel as a parameter. Guest/Machine has the machine and its calls, Guest/Mounts
-- boot/mount.rs and boot/time.rs, Guest/Proxies transport/tcp_vsock_proxy.rs, Guest/Dispatch
-- transport/dispatch.rs, Guest/Server transport/vsock.rs, Guest/Stats stats.rs and proc_stats.rs,
-- Guest/Poller scheduler/epoll.rs with the tags of boot/signals.rs, Guest/Session session/pty.rs,
-- Guest/Loop the boot and the loop of main.rs. Guest/Client joins a request of labctl and the
-- agent that serves it; the protobuf encoding of the agent is the parameter GuestCodec. Requests
-- are served one after the other, although the agent has a thread for each connection.
--
-- Vmtest: the fakes of vm/vmtest, as state machines; the start and the end of their HTTP server
-- are left out.
--
-- Bounds: a loop that waits has a bound on its rounds. DialVsockRetry sleeps 100 ms in each round,
-- so the timeout divided by 100, plus 2, rounds are enough on a clock that does not go back;
-- waitForSocket has such a bound too. The search for a slot has 1000 rounds, as in the source. The
-- conversion of a number to digits has the number itself as its bound, and the loop of formatBytes
-- the 64 bits of its argument. Machine integers: an int is in the range of 64 bits where it is
-- parsed, and the conversion to uint32 is written out with its wrap-around.
--
-- Not modelled: what is printed or logged, the calls that the two goroutines of waitOrBackground
-- make beside it (the host says what they send), deadlines on connections, what a session copies
-- to and from the terminal, how cobra parses a command line, the generated agentpb, how the agent
-- opens its descriptors and drains its signals, the accept loop of a proxy, and what its sessions
-- and proxies copy, and the columns and the table that no code reads. But for the moves of ports
-- add and ports rm, commands run one after the other.
pub mod Prelude
pub mod World
pub mod State
pub mod FilePath
pub mod Cidr
pub mod Strings
pub mod Vmtest
pub mod Vsock
pub mod Agent
pub mod Runner
pub mod Cmd
pub mod OciImage
pub mod Tests
pub mod Guest

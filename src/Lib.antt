-- ===== src/Lib.antt =====
-- SovelmaOS: the core of the kernel, an object-capability system that runs WASM modules as tasks.
--
-- The program's parts and the modules that model them (paths from the repository's root):
--   Capability: common/src/capability.rs, identifiers, rights and resources; Capability.Table:
--     kernel/src/capability/mod.rs, the kernel's table of owned capabilities.
--   Sync.Mutex, Sync.Semaphore, Sync.Registry: kernel/src/sync/{mutex,semaphore,registry}.rs.
--   Fs.Path, Fs.RamFs: kernel/src/fs/{mod,ramfs}.rs, the file system in memory.
--   Wasm.Host: kernel/src/wasm/host.rs, the functions that a module can call. Wasm.Error holds the
--     codes, costs and traps, Host.Files and Host.Sync the functions, Host.Calls their dispatch.
--   Wasm.Process: kernel/src/wasm/mod.rs, processes and the future that runs one. Wasm.Sdk:
--     userspace/sdk/src/lib.rs, what a module calls, over the host functions.
--   Task, Task.Executor: kernel/src/task/{mod,executor}.rs, tasks and the loop that polls them.
--   Terminal.Shell: kernel/src/terminal/shell.rs, the line editor; Terminal.Commands and
--     Terminal.Execution: kernel/src/terminal/commands.rs. Vga: kernel/src/arch/x86_64/vga.rs,
--     the text console that it prints on.
--   Net.Stack, Net.Dns, Net.Ipv4, Net.Dhcp, Net.Socket: kernel/src/net/{stack,dns,dhcp,socket}.rs;
--     Net.Loopback: kernel/src/net/device.rs and mod.rs; Net.E1000: kernel/src/net/e1000.rs.
--   Pci: kernel/src/arch/x86_64/pci.rs. Memory: kernel/src/memory.rs. Keyboard:
--     kernel/src/task/keyboard.rs.
-- A host function checks its fuel, reads its arguments from the module's memory, looks up the
-- capability that the module names, and then acts on the file system or on an object of the registry;
-- a `World` of Wasm.Host is what it can reach, and every function takes a world to an outcome and a
-- world. Functions of the source keep their names; a method that changes its receiver returns the new
-- one. Static variables are fields. An `Arc` of a node is an index into a store of nodes.
--
-- Parameters stand for code outside the repository: `ArrayQueue` for crossbeam's queue, `BitFlags` for
-- what bitflags generates, `Platform` for wasmi's linear memory, the UTF-8 check and the allocator. A
-- future's poll is a parameter of the executor, and which lines are commands one of the editor.
-- `Smoltcp` is what the network calls of smoltcp, with `Slots` for what it documents of DNS queries;
-- `Wasmi` is the interpreter; `PciSpace` is the configuration space behind the ports. The device of
-- Net.E1000 is a step that may change what it shares with the driver.
--
-- Atomicity: Sync.Mutex.Exclusion and Sync.Semaphore.Limit run tasks one atomic operation at a time.
-- Elsewhere a call of a method is one step. Some take a lock throughout; others, such as `open_at` and
-- the creation of a registered object, take locks or advance a counter one after the other, and are one
-- step because tasks are scheduled cooperatively on one processor and a call never waits. A weak exchange
-- may fail for no reason; the arguments `weak` and `failures` say when. Memory orderings are not
-- modelled: the operations on one atomic variable are taken as a single order.
--
-- Bounds: words wrap where the source wraps (identifiers and file handles at 2^32, counters of the
-- registry and permits at 2^64). The inner loop of the executor need not end, and recurs on fuel; a
-- result says how much is enough. The count of frames that were handed out, a usize that advances by one
-- for each request, is not wrapped. All other loops recur on their data or on a fixed count.
--
-- Not modelled: boot, interrupts, page tables and the heap, which are privileged instructions; the
-- engine's configuration; the parts of the network stack and of the sockets that only call smoltcp;
-- the commands ping and wasm-test, and what commands print; and the message of `print`:
-- the kernel registers it without parameters, and print_str of the SDK is modelled as that call.
pub mod Prelude
pub mod Capability
pub mod ArrayQueue
pub mod Sync
pub mod Fs
pub mod Wasm
pub mod Task
pub mod Net
pub mod Terminal
pub mod Vga
pub mod Pci
pub mod Memory
pub mod Keyboard
